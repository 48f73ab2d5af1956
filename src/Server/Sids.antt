-- ===== src/Server/Sids.antt =====
-- iot_containers/iot_apps/coreconf_server.c: the SIDs that the server reads from its .sid files, and
-- their fingerprint. A text is its bytes in front of the NUL.
use ccoreconf_zcbor.Common.{
  ℕ, ◌*◌, ◌%◌, ◌^◌, List, [], ◌∷◌, Bool, true, false, ◌&&◌, ◌||◌, Option, none, some, ◌==◌,
  if◌then◌else◌,
}
use ccoreconf_zcbor.Common.Text.{ascii}
use Prim.Native.Nat.{bit_xor}
use ccoreconf_zcbor.Value.{c_string}
use ccoreconf_zcbor.Delete.{split_at, strtoull}

pub record RuntimeSystemSids : Type 0 where
  pub sys_module : ℕ
  pub clock : ℕ
  pub clock_boot : ℕ
  pub clock_current : ℕ
  pub ntp_enabled : ℕ
  pub ntp_server : ℕ
  pub ntp_server_name : ℕ
  pub ntp_server_prefer : ℕ
  pub ntp_server_udp : ℕ
  pub ntp_server_udp_address : ℕ
  pub loaded : Bool

pub record RuntimeInterfacesSids : Type 0 where
  pub if_module : ℕ
  pub iface : ℕ
  pub iface_description : ℕ
  pub iface_enabled : ℕ
  pub iface_name : ℕ
  pub iface_type : ℕ
  pub iface_oper_status : ℕ
  pub identity_ethernet_csmacd : ℕ
  pub loaded : Bool

pub record RuntimeOperationSids : Type 0 where
  pub reboot_rpc_sid : ℕ
  pub reboot_input_delay : ℕ
  pub reset_action_sid : ℕ
  pub reset_input_reset_at : ℕ
  pub reset_output_finished_at : ℕ
  pub loaded : Bool

unfoldable pub sid_hash_mix : ℕ → ℕ → ℕ
sid_hash_mix hash value = bit_xor hash value * 1099511628211 % 2 ^ 64

-- the fields in the order in which they are mixed
unfoldable pub system_fields : RuntimeSystemSids → List ℕ
system_fields s =
    s.sys_module ∷ s.clock ∷ s.clock_boot ∷ s.clock_current ∷ s.ntp_enabled ∷ s.ntp_server
    ∷ s.ntp_server_name ∷ s.ntp_server_prefer ∷ s.ntp_server_udp ∷ s.ntp_server_udp_address ∷ []

unfoldable pub interfaces_fields : RuntimeInterfacesSids → List ℕ
interfaces_fields s =
    s.if_module ∷ s.iface ∷ s.iface_description ∷ s.iface_enabled ∷ s.iface_name ∷ s.iface_type
    ∷ s.iface_oper_status ∷ s.identity_ethernet_csmacd ∷ []

unfoldable pub operation_fields : RuntimeOperationSids → List ℕ
operation_fields s =
    s.reboot_rpc_sid ∷ s.reboot_input_delay ∷ s.reset_action_sid ∷ s.reset_input_reset_at
    ∷ s.reset_output_finished_at ∷ []

unfoldable pub mix_all : ℕ → List ℕ → ℕ
unfolding sid_hash_mix
mix_all h [] = h
mix_all h (value ∷ values) = mix_all (sid_hash_mix h value) values

unfoldable pub compute_sid_fingerprint :
    RuntimeSystemSids → RuntimeInterfacesSids → RuntimeOperationSids → ℕ
unfolding mix_all system_fields interfaces_fields operation_fields
compute_sid_fingerprint sys ifs ops =
    mix_all (mix_all (mix_all 1469598103934665603 (system_fields sys)) (interfaces_fields ifs))
      (operation_fields ops)

unfoldable pub starts_with : List ℕ → List ℕ → Bool
starts_with [] text = true
starts_with (c ∷ cs) [] = false
starts_with (c ∷ cs) (d ∷ text) = c == d && starts_with cs text

-- `strstr(text, s)`: the text from the first occurrence on, `none` where there is none
unfoldable pub strstr : List ℕ → List ℕ → Option (List ℕ)
unfolding starts_with
strstr [] s = if starts_with s [] then some [] else none
strstr (c ∷ text) s = if starts_with s (c ∷ text) then some (c ∷ text) else strstr text s

-- `while (*p == ' ' || *p == '\t' || *p == '"') p++`
unfoldable pub skip_quotes : List ℕ → List ℕ
skip_quotes [] = []
skip_quotes (c ∷ p) = if c == b' ' || c == b'\t' || c == b'"' then skip_quotes p else c ∷ p

-- The result is `none` for -1.
unfoldable pub parse_sid_after_identifier : List ℕ → List ℕ → Option ℕ
unfolding strstr skip_quotes
parse_sid_after_identifier text identifier = elim (strstr text identifier) [
  | none ↦ none
  | some id_pos ↦ elim (strstr id_pos (ascii "\"sid\"")) [
    | none ↦ none
    | some sid_key ↦ elim ((split_at b':' sid_key).1) [
      | none ↦ none
      | some p ↦ strtoull (skip_quotes p)
    ]
  ]
]

-- What a path leads to: the bytes of the file, or `none` where it does not open.
abbrev pub FileSystem : Type 0
FileSystem = List ℕ → Option (List ℕ)

unfoldable pub text_of : List ℕ → Option (List ℕ)
unfolding c_string
text_of [] = none
text_of (b ∷ bs) = some (c_string (b ∷ bs))

-- The first candidate that opens is read, and an empty file is a failure.
unfoldable pub load_text_from_candidates : FileSystem → List (List ℕ) → Option (List ℕ)
unfolding text_of
load_text_from_candidates fs [] = none
load_text_from_candidates fs (candidate ∷ candidates) = elim (fs candidate) [
  | some bytes ↦ text_of bytes
  | none ↦ load_text_from_candidates fs candidates
]

-- `ok |= parse_sid_after_identifier(text, identifier, &field)`: the field, and whether it was found
unfoldable pub field_of : List ℕ → List ℕ → ℕ → ℕ × Bool
unfolding parse_sid_after_identifier
field_of text identifier old = elim (parse_sid_after_identifier text identifier) [
  | none ↦ (old, false)
  | some sid ↦ (sid, true)
]
