-- ===== src/Client/Put.antt =====
-- iot_containers/iot_apps/coreconf_cli.c: what the command `put` sends.
use ccoreconf_zcbor.Common.{
  ℕ, suc, ◌+◌, ◌≤◌, ◌≡◌, ◌≢◌, refl, sym, ap, ◌∙◌, List, [], ◌∷◌, true, Option, none, some, inl, inr,
  Bool-cases, ◌==◌, if◌then◌else◌, length, arith,
}
use mathlib.Core.Path.{subst}
use ccoreconf_zcbor.Client.Tokenize.{max_args}
use ccoreconf_zcbor.Zcbor.{Encoder, ret, run_of}
use ccoreconf_zcbor.Zcbor.Laws.{EncoderLaws}
use ccoreconf_zcbor.Value.{Value, Ref, HashMap, ref, create_map, map_of, table, size}
use ccoreconf_zcbor.HashMap.{Status, done, failed, hash_key, insert_coreconf_hash_map}
use ccoreconf_zcbor.HashMap.Buckets.{IsValid, view, length_chain-le-total, create_map-IsValid}
use ccoreconf_zcbor.HashMap.Insert.{Outcome, Inserts, insert-Outcome}
use ccoreconf_zcbor.Serialization.Bytes.{IsComplete, MapIsComplete, map_bytes}
use ccoreconf_zcbor.Get.Bytes.{MapIsPlain, create_get_response-bytes}
use ccoreconf_zcbor.Server.Stored.{Complete-TableIsPlain}
use ccoreconf_zcbor.Server.Handlers.{put}
use ccoreconf_zcbor.Client.Values.{Strtod}
use ccoreconf_zcbor.Client.Complete.{create_map-Complete, insert-Complete}
use ccoreconf_zcbor.Client.Parsed.{parse_value-IsComplete}
use ccoreconf_zcbor.Client.Commands.{
  number_of, typed_value, put_pairs, even_length, send_payload, put_request, cmd_put,
}

-- The loop returns a valid map without NULL pointers.
abbrev pub IsPut : HashMap → Type 0
IsPut m = IsValid m × MapIsComplete m

-- An insertion into a map with room in every bucket succeeds.
insert-room :
    (m : HashMap) (k : ℕ) (r : Ref)
    → IsValid m
    → size m ≤ 51
    → Inserts m k r (insert_coreconf_hash_map m k r).0
insert-room m k r valid few =
    by_status (insert_coreconf_hash_map m k r) (insert-Outcome m k r valid)
  where
    by_status : (o : HashMap × Status) → Outcome m k r o → Inserts m k r o.0
    by_status (m', done) h = h
    by_status (m', failed) h =
        absurd (
          omega (arith, h.1.full, length_chain-le-total (table m) (hash_key k), valid.counted, few))

sized_by : (m : HashMap) (k : ℕ) (r : Ref) (m' : HashMap) → Inserts m k r m' → size m' ≤ size m + 1
sized_by m k r m' i = by_view (view m k) i.sized
  where
    by_view :
        (o : Option Ref)
        → size m' ≡ size m + elim o [ none ↦ 1 | some _ ↦ 0 ]
        → size m' ≤ size m + 1
    by_view none e = omega (arith, e)
    by_view (some x) e = omega (arith, e)

module _ (strtod : Strtod) where
  typed_value-returns :
      (text : List ℕ) → (v : Value) × (typed_value strtod text ≡ ret v) × IsComplete v
  unfolding typed_value
  typed_value-returns text =
      let (v, e, whole) = parse_value-IsComplete strtod (suc (length text)) text (omega arith) in
      (v, ap run_of e, whole)

  -- What the pairs put under a SID: the value of the last pair whose SID it is, if there is one.
  pub data LastPut (q : ℕ) : List (List ℕ) → Option Ref → Type 0 where
    no_pairs : LastPut q [] none
    later_pair :
        {argv : List (List ℕ)} {r : Ref} (sid value : List ℕ)
        → LastPut q argv (some r)
        → LastPut q (sid ∷ value ∷ argv) (some r)
    this_pair :
        {argv : List (List ℕ)} (sid value : List ℕ) (v : Value)
        → LastPut q argv none
        → number_of sid ≡ q
        → typed_value strtod value ≡ ret v
        → LastPut q (sid ∷ value ∷ argv) (some (ref v))
    other_pair :
        {argv : List (List ℕ)} (sid value : List ℕ)
        → LastPut q argv none
        → number_of sid ≢ q
        → LastPut q (sid ∷ value ∷ argv) none

  -- `m` has what the pairs put there, and else what `map` has.
  abbrev Puts : HashMap → List (List ℕ) → HashMap → Type 0
  Puts map argv m =
      (q : ℕ)
      → (o : Option Ref) × LastPut q argv o
        × (view m q ≡ elim o [ none ↦ view map q | some r ↦ some r ])

  one_more :
      (map map' m : HashMap) (sid value : List ℕ) (argv : List (List ℕ)) (v : Value)
      → typed_value strtod value ≡ ret v
      → ((q : ℕ) → view map' q ≡ (if number_of sid == q then some (ref v) else view map q))
      → Puts map' argv m
      → Puts map (sid ∷ value ∷ argv) m
  one_more map map' m sid value argv v typed reads puts q =
      let (o, last, e) = puts q in by_last o last e
    where
      by_last :
          (o : Option Ref)
          → LastPut q argv o
          → view m q ≡ elim o [ none ↦ view map' q | some r ↦ some r ]
          → (p : Option Ref) × LastPut q (sid ∷ value ∷ argv) p
            × (view m q ≡ elim p [ none ↦ view map q | some r ↦ some r ])
      by_last (some r) last e = (some r, later_pair sid value last, e)
      by_last none last e = elim (Bool-cases (number_of sid == q)) [
        | inl same ↦
            let hit : number_of sid ≡ q = ground (arith, same) in
            (some (ref v), this_pair sid value v last hit typed, e ∙ (rw same at reads_q))
        | inr other ↦
            let miss : number_of sid ≢ q = λ f. ground (arith, other, f) in
            (none, other_pair sid value last miss, e ∙ (rw other at reads_q))
      ]
        where
          reads_q : view map' q ≡ (if number_of sid == q then some (ref v) else view map q)
          reads_q = reads q

  put_pairs-returns :
      (map : HashMap) (argv : List (List ℕ))
      → IsPut map
      → size map + length argv ≤ 52
      → even_length argv ≡ true
      → (m : HashMap) × (put_pairs strtod map argv ≡ ret m) × IsPut m × Puts map argv m
  unfolding put_pairs even_length
  put_pairs-returns map [] h few even = (map, refl, h, λ q. (none, no_pairs, refl))
  put_pairs-returns map (sid ∷ []) h few even = cc
  put_pairs-returns map (sid ∷ value ∷ argv) (valid, whole) few even =
      let (v, e, vh) = typed_value-returns value in
      let map' = (insert_coreconf_hash_map map (number_of sid) (ref v)).0 in
      let i = insert-room map (number_of sid) (ref v) valid (omega (arith, few)) in
      let grown = sized_by map (number_of sid) (ref v) map' i in
      let (m, f, mh, puts) =
        put_pairs-returns map' argv (i.valid, insert-Complete map (number_of sid) v whole vh)
          (omega (arith, few, grown)) even in
      (m, rw (e, put_pairs) f, mh, one_more map map' m sid value argv v e i.reads puts)

whole-IsPlain : (m : HashMap) → MapIsComplete m → MapIsPlain m
unfolding IsComplete
whole-IsPlain (map_of t n) h = Complete-TableIsPlain t h

module _ {encoder : Encoder} (laws : EncoderLaws encoder) (strtod : Strtod) where
  -- The command `put` with pairs of a SID and a value, as many as a line can have, sends a PUT of
  -- CF=140 whose payload is the bytes of a map, if they fit into the buffer: under each SID the map has
  -- the value of the last pair of that SID, parsed whatever the user types, and it has no other SIDs.
  -- The map is valid and has no NULL pointer inside. For CF=140, include/put.h says 142.
  pub cmd_put-bytes :
      (sid value : List ℕ) (argv : List (List ℕ))
      → even_length argv ≡ true
      → length (sid ∷ value ∷ argv) ≤ max_args
      → ((m : HashMap)
          → put_pairs strtod create_map (sid ∷ value ∷ argv) ≡ ret m
          → length (map_bytes laws m) ≤ 4096)
      → (m : HashMap) × ((q : ℕ) → LastPut strtod q (sid ∷ value ∷ argv) (view m q))
        × IsPut m
        × (cmd_put encoder strtod (sid ∷ value ∷ argv)
            ≡ ret (
                some (put, record { format_option = some 140; payload = some (map_bytes laws m) })))
  unfolding cmd_put put_request send_payload even_length
  cmd_put-bytes sid value argv even few fits =
      let (valid, sized, empty) = create_map-IsValid in
      let (m, e, h, puts) =
        put_pairs-returns strtod create_map (sid ∷ value ∷ argv) (valid, create_map-Complete)
          (omega (arith, few, sized)) even in
      let made = (create_get_response-bytes laws 4096 m h.0 (whole-IsPlain m h.1) (fits m e)).1 in
      (m, λ q. in_all m q empty (puts q), h, rw (even, e, made) refl)
    where
      in_all :
          (m : HashMap) (q : ℕ)
          → ((k : ℕ) → view create_map k ≡ none)
          → ((o : Option Ref) × LastPut strtod q (sid ∷ value ∷ argv) o
              × (view m q ≡ elim o [ none ↦ view create_map q | some r ↦ some r ]))
          → LastPut strtod q (sid ∷ value ∷ argv) (view m q)
      in_all m q empty (none, last, e) =
          subst (LastPut strtod q (sid ∷ value ∷ argv)) (sym (e ∙ empty q)) last
      in_all m q empty (some r, last, e) =
          subst (LastPut strtod q (sid ∷ value ∷ argv)) (sym e) last
