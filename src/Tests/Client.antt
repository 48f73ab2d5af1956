-- ===== src/Tests/Client.antt =====
-- The theorems on the command line, at small inputs.
use ccoreconf_zcbor.HashMap.Buckets.{view}
use ccoreconf_zcbor.Common.{ℕ, ◌≤◌, ◌≡◌, refl, sym, ◌∙◌, [], ◌∷◌, some, ◌==◌, length, arith}
use mathlib.Core.Path.{subst}
use ccoreconf_zcbor.Common.Text.{ascii}
use ccoreconf_zcbor.Zcbor.{ret}
use ccoreconf_zcbor.Zcbor.Runs.{ret-injective}
use ccoreconf_zcbor.Value.{Value, HashMap, uint_64, create_map, ref}
use ccoreconf_zcbor.HashMap.{insert_coreconf_hash_map}
use ccoreconf_zcbor.Serialization.Bytes.{IsComplete, map_bytes, cbor_bytes}
use ccoreconf_zcbor.Server.Sids.{compute_sid_fingerprint}
use ccoreconf_zcbor.Server.Load.{default_operation_sids}
use ccoreconf_zcbor.Server.State.{Server, Reply, content, with_body, answer}
use ccoreconf_zcbor.Server.Observe.{sid_info_body, handle_sid_info}
use ccoreconf_zcbor.Server.Handlers.{no_system_sids, no_interfaces_sids, put}
use ccoreconf_zcbor.Client.Compat.{check_server_sid_compatibility}
use ccoreconf_zcbor.Client.Agree.{check_server_sid_compatibility-same}
use ccoreconf_zcbor.Client.Values.{Strtod, parse_value}
use ccoreconf_zcbor.Client.Parsed.{parse_value-IsComplete}
use ccoreconf_zcbor.Client.Commands.{put_pairs, cmd_put}
use ccoreconf_zcbor.Client.Put.{IsPut, LastPut, cmd_put-bytes}
use ccoreconf_zcbor.Client.Tokenize.{tokenize, spaced, ends_word, AllWords, tokenize-spaced}
use ccoreconf_zcbor.Tests.Codec.{encoder, laws}
use ccoreconf_zcbor.Tests.Startup.{no_server, create}

abbrev known : Server
known = record no_server { sid_fingerprint = 6553600 }

abbrev told : Reply
told = answer known (with_body content 0 (sid_info_body 6553600))

tells : handle_sid_info known create ≡ ret told
unfolding handle_sid_info
tells = refl

check_server_sid_compatibility-same_example :
    check_server_sid_compatibility no_system_sids no_interfaces_sids default_operation_sids
      (some told.response.body)
    ≡ (compute_sid_fingerprint no_system_sids no_interfaces_sids default_operation_sids == 6553600)
check_server_sid_compatibility-same_example =
    check_server_sid_compatibility-same no_system_sids no_interfaces_sids default_operation_sids
      known create told (omega arith) tells

-- every text is a number to its end
abbrev all_numbers : Strtod
all_numbers text = some (0, [])

parse_value-IsComplete_example :
    (v : Value) × (parse_value all_numbers 30 (ascii "{1: 2, 3: {4: true}}") ≡ some v)
    × IsComplete v
parse_value-IsComplete_example =
    parse_value-IsComplete all_numbers 30 (ascii "{1: 2, 3: {4: true}}") (omega arith)

abbrev five : HashMap
five = (insert_coreconf_hash_map create_map 5 (ref (uint_64 7))).0

five_put : put_pairs all_numbers create_map (ascii "5" ∷ ascii "7" ∷ []) ≡ ret five
unfolding put_pairs
five_put = refl

five_fits : length (map_bytes laws five) ≤ 4096
unfolding insert_coreconf_hash_map cbor_bytes create_map ccoreconf_zcbor.HashMap.walk_chain
    ccoreconf_zcbor.HashMap.get_bucket ccoreconf_zcbor.HashMap.hash_key
    ccoreconf_zcbor.HashMap.set_bucket
five_fits = omega arith

fits :
    (m : HashMap)
    → put_pairs all_numbers create_map (ascii "5" ∷ ascii "7" ∷ []) ≡ ret m
    → length (map_bytes laws m) ≤ 4096
fits m e =
    let same : five ≡ m = ret-injective (sym five_put ∙ e) in
    subst (λ m. length (map_bytes laws m) ≤ 4096) same five_fits

cmd_put-bytes_example :
    (m : HashMap) × ((q : ℕ) → LastPut all_numbers q (ascii "5" ∷ ascii "7" ∷ []) (view m q))
    × IsPut m
    × (cmd_put encoder all_numbers (ascii "5" ∷ ascii "7" ∷ [])
        ≡ ret (some (put, record { format_option = some 140; payload = some (map_bytes laws m) })))
unfolding ccoreconf_zcbor.Client.Commands.even_length
cmd_put-bytes_example =
    cmd_put-bytes laws all_numbers (ascii "5") (ascii "7") [] refl (omega arith) fits

two_words : AllWords (ascii "get" ∷ ascii "x" ∷ [])
unfolding ends_word
two_words = ((refl, (refl, (refl, tt))), ((refl, tt), tt))

tokenize-spaced_example : tokenize 1 (spaced (ascii "get" ∷ ascii "x" ∷ [])) ≡ ascii "get" ∷ []
tokenize-spaced_example = tokenize-spaced 1 (ascii "get" ∷ ascii "x" ∷ []) two_words
