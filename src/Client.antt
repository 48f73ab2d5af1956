-- ===== src/Client.antt =====
-- iot_containers/iot_apps/coreconf_cli.c: the command line.
pub mod Scan
pub mod Compat
pub mod Agree
pub mod Values
pub mod Complete
pub mod Shorter
pub mod Parsed
pub mod Commands
pub mod Put
pub mod Tokenize
