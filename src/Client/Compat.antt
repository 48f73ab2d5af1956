-- ===== src/Client/Compat.antt =====
-- iot_containers/iot_apps/coreconf_cli.c: `check_server_sid_compatibility`, which compares the SIDs of
-- the client with those of the server. The client has a copy of the code that loads them, and of the
-- code that computes their fingerprint.
use ccoreconf_zcbor.Common.{
  ℕ, List, [], ◌∷◌, Bool, false, Option, none, some, ◌==◌, if◌then◌else◌, take,
}
use ccoreconf_zcbor.Common.Text.{ascii}
use ccoreconf_zcbor.Value.{c_string}
use ccoreconf_zcbor.Server.Sids.{
  RuntimeSystemSids, RuntimeInterfacesSids, RuntimeOperationSids, compute_sid_fingerprint,
}
use ccoreconf_zcbor.Client.Scan.{strtoull_end}

-- what follows the bytes of a format that stand for themselves
unfoldable pub after_literal : List ℕ → List ℕ → Option (List ℕ)
after_literal [] text = some text
after_literal (c ∷ cs) [] = none
after_literal (c ∷ cs) (d ∷ text) = if c == d then after_literal cs text else none

-- `sscanf` with the format of `/sid`
unfoldable pub scan_fingerprint : List ℕ → Option ℕ
unfolding after_literal strtoull_end
scan_fingerprint text = elim (after_literal (ascii "sid-fingerprint=") text) [
  | none ↦ none
  | some rest ↦ elim (strtoull_end rest) [ none ↦ none | some r ↦ some r.0 ]
]

-- The payload is copied into 128 bytes.
unfoldable pub check_fingerprint : ℕ → List ℕ → Bool
unfolding scan_fingerprint c_string
check_fingerprint local_fp [] = false
check_fingerprint local_fp (b ∷ response) =
    elim (scan_fingerprint (c_string (take 127 (b ∷ response)))) [
      | none ↦ false
      | some remote_fp ↦ local_fp == remote_fp
    ]

-- The answer to a GET of `/sid` is `none` where there is none in time. The result is whether the
-- function returns 0.
unfoldable pub check_server_sid_compatibility :
    RuntimeSystemSids → RuntimeInterfacesSids → RuntimeOperationSids → Option (List ℕ) → Bool
unfolding check_fingerprint compute_sid_fingerprint
check_server_sid_compatibility sys ifs ops none = false
check_server_sid_compatibility sys ifs ops (some response) =
    check_fingerprint (compute_sid_fingerprint sys ifs ops) response
