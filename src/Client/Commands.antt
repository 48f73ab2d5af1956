-- ===== src/Client/Commands.antt =====
-- iot_containers/iot_apps/coreconf_cli.c: the commands, up to the request that they send. The options
-- that ask for a format of the answer are left out. A command takes its arguments behind its name.
use ccoreconf_zcbor.Common.{
  ℕ, zero, suc, List, [], ◌∷◌, Bool, true, false, ◌||◌, Option, none, some, ◌==◌, if◌then◌else◌,
  length, take,
}
use ccoreconf_zcbor.Common.Text.{ascii}
use ccoreconf_zcbor.Zcbor.{Encoder, Run, ret, bad_read, ◌>>=◌, run_of, Buffer}
use ccoreconf_zcbor.Value.{
  Value, Ref, HashMap, uint_64, hashmap, null_ref, ref, create_map, create_coreconf_string,
}
use ccoreconf_zcbor.HashMap.{insert_coreconf_hash_map}
use ccoreconf_zcbor.Fetch.Resolve.{InstanceIdentifier, iid_simple, iid_with_str_key, str_eq}
use ccoreconf_zcbor.Fetch.Encode.{create_fetch_request_with_iids}
use ccoreconf_zcbor.Put.{create_put_request}
use ccoreconf_zcbor.Ipatch.Request.{create_ipatch_request, create_ipatch_iid_request}
use ccoreconf_zcbor.Post.Encode.{create_post_request_rpc}
use ccoreconf_zcbor.Delete.{split_at, strtoull}
use ccoreconf_zcbor.Server.Sids.{RuntimeOperationSids}
use ccoreconf_zcbor.Server.Notify.{buffer_size}
use ccoreconf_zcbor.Server.State.{
  Request, cf_yang_data_cbor, cf_yang_identifiers, cf_yang_instances,
}
use ccoreconf_zcbor.Server.Handlers.{
  Method, post, fetch, get, ipatch, put, delete, stream_get, stream_fetch,
}
use ccoreconf_zcbor.Client.Scan.{strtoull_end}
use ccoreconf_zcbor.Client.Values.{Strtod, parse_value}

-- The method with its resource, and the request, or `none` where nothing is sent.
abbrev pub Sent : Type 0
Sent = Run (Option (Method × Request))

unfoldable pub bare : Method → Sent
bare method = ret (some (method, record { format_option = none; payload = none }))

-- A request with a payload; the buffer is `none` where a NULL pointer is read.
unfoldable pub send_payload : Method → ℕ → Buffer → Sent
send_payload method format none = bad_read
send_payload method format (some bytes) =
    ret (some (method, record { format_option = some format; payload = some bytes }))

-- the same, unless nothing could be encoded
unfoldable pub send_encoded : Method → ℕ → Buffer → Sent
send_encoded method format none = bad_read
send_encoded method format (some []) = ret none
send_encoded method format (some (b ∷ bytes)) =
    ret (some (method, record { format_option = some format; payload = some (b ∷ bytes) }))

-- `strtoull(s, NULL, 10)`
unfoldable pub number_of : List ℕ → ℕ
unfolding strtoull
number_of text = elim (strtoull text) [ none ↦ 0 | some n ↦ n ]

-- without a bracket at the end
unfoldable pub without_bracket : List ℕ → List ℕ
without_bracket [] = []
without_bracket (c ∷ []) = if c == b']' then [] else c ∷ []
without_bracket (c ∷ d ∷ key) = c ∷ without_bracket (d ∷ key)

-- an argument of `fetch`: `none` where the comma is missing
unfoldable pub keyed_iid : List ℕ × Option (List ℕ) → Option InstanceIdentifier
unfolding without_bracket number_of
keyed_iid (p, none) = none
keyed_iid (p, some key) = some (iid_with_str_key (number_of p) (without_bracket key))

unfoldable pub parse_iid : List ℕ → Option InstanceIdentifier
unfolding keyed_iid split_at number_of
parse_iid [] = some (iid_simple 0)
parse_iid (c ∷ p) =
    if c == b'[' then keyed_iid (split_at b',' p) else some (iid_simple (number_of (c ∷ p)))

unfoldable pub add_iid :
    Option InstanceIdentifier → Option (List InstanceIdentifier) → Option (List InstanceIdentifier)
add_iid none iids = none
add_iid (some iid) none = none
add_iid (some iid) (some iids) = some (iid ∷ iids)

-- the loop over the arguments, with the room left in the array
unfoldable pub parse_iids : ℕ → List (List ℕ) → Option (List InstanceIdentifier)
unfolding parse_iid add_iid
parse_iids zero argv = some []
parse_iids (suc room) [] = some []
parse_iids (suc room) (arg ∷ argv) = add_iid (parse_iid arg) (parse_iids room argv)

module _ (strtod : Strtod) where
  -- `parse_value`, with the fuel that is enough for the text
  unfoldable pub typed_value : List ℕ → Run Value
  unfolding parse_value
  typed_value text = run_of (parse_value strtod (suc (length text)) text)

  -- the loop of `put` over the pairs of a SID and a value
  unfoldable pub put_pairs : HashMap → List (List ℕ) → Run HashMap
  unfolding typed_value number_of insert_coreconf_hash_map
  put_pairs map (sid ∷ value ∷ argv) = typed_value value >>= λ v.
      put_pairs (insert_coreconf_hash_map map (number_of sid) (ref v)).0 argv
  put_pairs map argv = ret map

  -- the value of a patch of a list entry: NULL for the word null
  unfoldable pub entry_value : List ℕ → Run Ref
  unfolding typed_value str_eq
  entry_value text =
      if str_eq text (ascii "null") then ret null_ref else typed_value text >>= λ v. ret (ref v)

unfoldable pub even_length : List (List ℕ) → Bool
even_length [] = true
even_length (a ∷ []) = false
even_length (a ∷ b ∷ argv) = even_length argv

-- the delay of a reboot: `none` where the argument is not a number
unfoldable pub whole_number : Option (ℕ × List ℕ) → Option ℕ
whole_number (some (n, [])) = some n
whole_number _ = none

unfoldable pub reboot_delay : List ℕ → Option ℕ
unfolding whole_number strtoull_end
reboot_delay [] = some 0
reboot_delay (c ∷ text) = whole_number (strtoull_end (c ∷ text))

module _ (encoder : Encoder) (strtod : Strtod) where
  unfoldable pub fetch_with : Method → Option (List InstanceIdentifier) → Sent
  unfolding create_fetch_request_with_iids send_payload
  fetch_with method none = ret none
  fetch_with method (some iids) =
      send_payload method cf_yang_identifiers
        (create_fetch_request_with_iids encoder (some buffer_size) (some iids))

  unfoldable pub cmd_fetch : List (List ℕ) → Sent
  unfolding fetch_with parse_iids
  cmd_fetch [] = ret none
  cmd_fetch (arg ∷ argv) = fetch_with fetch (parse_iids 64 (arg ∷ argv))

  unfoldable pub cmd_sfetch : List (List ℕ) → Sent
  unfolding fetch_with parse_iids
  cmd_sfetch [] = ret none
  cmd_sfetch (arg ∷ argv) = fetch_with stream_fetch (parse_iids 64 (arg ∷ argv))

  unfoldable pub cmd_get : Sent
  unfolding bare
  cmd_get = bare get

  unfoldable pub put_request : HashMap → Sent
  unfolding create_put_request send_payload
  put_request map =
      send_payload put cf_yang_data_cbor
        (create_put_request encoder (some buffer_size) (ref (hashmap map)))

  unfoldable pub cmd_put : List (List ℕ) → Sent
  unfolding even_length put_pairs put_request
  cmd_put [] = ret none
  cmd_put (arg ∷ argv) =
      if even_length (arg ∷ argv)
      then (put_pairs strtod create_map (arg ∷ argv) >>= put_request)
      else ret none

  -- The list entry, by the text in the brackets: `none` where the comma is missing.
  unfoldable pub patch_entry : List ℕ → List ℕ × Option (List ℕ) → Sent
  unfolding entry_value number_of create_ipatch_iid_request send_payload
  patch_entry value (p, none) = ret none
  patch_entry value (p, some key_str) = entry_value strtod value >>= λ val.
      send_payload ipatch cf_yang_instances
        (create_ipatch_iid_request encoder (some buffer_size) (number_of p) (some key_str) val)

  unfoldable pub patch_sid : List ℕ → List ℕ → Sent
  unfolding typed_value number_of insert_coreconf_hash_map create_ipatch_request send_payload
  patch_sid sid value = typed_value strtod value >>= λ val. send_payload ipatch cf_yang_instances (
      create_ipatch_request encoder (some buffer_size)
        (ref (hashmap (insert_coreconf_hash_map create_map (number_of sid) (ref val)).0)))

  unfoldable pub cmd_ipatch : List (List ℕ) → Sent
  unfolding patch_entry patch_sid split_at
  cmd_ipatch ((c ∷ p) ∷ value ∷ argv) =
      if c == b'['
      then patch_entry value (split_at b',' (split_at b']' (take 255 p)).0)
      else patch_sid (c ∷ p) value
  cmd_ipatch ([] ∷ value ∷ argv) = patch_sid [] value
  cmd_ipatch argv = ret none

  unfoldable pub reboot_with : RuntimeOperationSids → Option ℕ → Sent
  unfolding insert_coreconf_hash_map create_post_request_rpc send_encoded
  reboot_with ops none = ret none
  reboot_with ops (some delay) = send_encoded post cf_yang_instances (
      create_post_request_rpc encoder (some buffer_size) ops.reboot_rpc_sid (
        ref (
          hashmap
            (insert_coreconf_hash_map create_map ops.reboot_input_delay (ref (uint_64 delay))).0)))

  unfoldable pub reset_at : RuntimeOperationSids → List ℕ → List ℕ → Sent
  unfolding insert_coreconf_hash_map create_coreconf_string create_ipatch_iid_request send_encoded
  reset_at ops server_name time = send_encoded post cf_yang_instances (
      create_ipatch_iid_request encoder (some buffer_size) ops.reset_action_sid (some server_name) (
        ref (
          hashmap
            (insert_coreconf_hash_map create_map ops.reset_input_reset_at
              (ref (create_coreconf_string time))).0)))

  unfoldable pub post_reboot : RuntimeOperationSids → List (List ℕ) → Sent
  unfolding reboot_with reboot_delay
  post_reboot ops [] = reboot_with ops (some 0)
  post_reboot ops (delay ∷ []) = reboot_with ops (reboot_delay delay)
  post_reboot ops argv = ret none

  unfoldable pub post_reset : RuntimeOperationSids → List (List ℕ) → Sent
  unfolding reset_at
  post_reset ops (server_name ∷ time ∷ []) = reset_at ops server_name time
  post_reset ops argv = ret none

  unfoldable pub cmd_post : RuntimeOperationSids → List (List ℕ) → Sent
  unfolding post_reboot post_reset str_eq
  cmd_post ops [] = ret none
  cmd_post ops (op ∷ argv) =
      if str_eq op (ascii "reboot")
      then post_reboot ops argv
      else if str_eq op (ascii "reset")
      then post_reset ops argv
      else ret none

-- With an argument the user is asked first: the line that is read, or `none` at the end of the input.
unfoldable pub cmd_delete : List (List ℕ) → Option (List ℕ) → Sent
unfolding bare
cmd_delete [] answer = bare delete
cmd_delete (arg ∷ argv) (some (c ∷ answer)) =
    if c == b'y' || c == b'Y' then bare delete else ret none
cmd_delete (arg ∷ argv) _ = ret none

unfoldable pub cmd_observe : Sent
unfolding bare
cmd_observe = bare stream_get
