-- ===== src/Ipatch/Valid.antt =====
-- src/ipatch.c: `apply_ipatch_raw` keeps the datastore a valid map.
use ccoreconf_zcbor.Common.{
  ℕ, zero, suc, ◌+◌, ◌≡◌, refl, List, [], ◌∷◌, Bool, true, false, Option, none, some, inl, inr,
  Bool-cases, length, arith,
}
use ccoreconf_zcbor.Zcbor.{Decoder, Run, ret, bad_read, out_of_fuel, ◌>>=◌, run_of}
use ccoreconf_zcbor.Zcbor.Runs.{Returns, bind-Returns}
use ccoreconf_zcbor.Value.{
  Value, Ref, Chain, HashMap, array, null_value, hashmap, ref, chain_end, object, map_of,
}
use ccoreconf_zcbor.HashMap.{hash_key, get_bucket, get_coreconf_hash_map}
use ccoreconf_zcbor.HashMap.Buckets.{IsValid, length_chain, count, set_bucket-IsValid}
use ccoreconf_zcbor.HashMap.Lookup.{insert-IsValid, delete-IsValid}
use ccoreconf_zcbor.Serialization.Decode.{cbor_to_coreconf_value}
use ccoreconf_zcbor.Ipatch.Raw.{
  assign_object, write_through, apply_sid, apply_list_entry, apply_list, Target, by_sid, by_entry,
  decode_target, apply_target, apply_value, entry_round, entries_loop, maps_loop, apply_ipatch_raw,
}

length-assign_object :
    (key : ℕ) (v : Value) (c : Chain) → length_chain (assign_object key v c) ≡ length_chain c
unfolding length_chain assign_object
length-assign_object key v chain_end = refl
length-assign_object key v (object k r c) = ground (arith, length-assign_object key v c)

count-assign_object :
    (q key : ℕ) (v : Value) (c : Chain) → count q (assign_object key v c) ≡ count q c
unfolding count assign_object
count-assign_object q key v chain_end = refl
count-assign_object q key v (object k r c) = ground (arith, count-assign_object q key v c)

write_through-IsValid :
    (m : HashMap) (key : ℕ) (v : Value) → IsValid m → IsValid (write_through m key v)
unfolding write_through
write_through-IsValid (map_of t n) key v valid =
    let c = get_bucket t (hash_key key) in
    let long = length-assign_object key v c in
    set_bucket-IsValid t n n key (assign_object key v c) valid
      (omega (arith, valid.short (hash_key key)))
      (λ q. omega (arith, count-assign_object q key v c, valid.placed (hash_key key) q))
      (omega arith)

apply_sid-IsValid : (m : HashMap) (sid : ℕ) (v : Value) → IsValid m → IsValid (apply_sid m sid v)
unfolding apply_sid
apply_sid-IsValid m sid null_value valid = delete-IsValid m sid valid
apply_sid-IsValid m sid v valid = insert-IsValid m sid _ valid

apply_list_entry-IsValid :
    (m : HashMap) (sid : ℕ) (key : List ℕ) (v : Value) (o : Option Value)
    → IsValid m
    → IsValid (apply_list_entry m sid key v o).0
unfolding apply_list_entry
apply_list_entry-IsValid m sid key v (some (array vs)) valid = write_through-IsValid m sid _ valid
apply_list_entry-IsValid m sid key v none valid = valid
apply_list_entry-IsValid m sid key v (some _) valid = valid

module _ (zcbor : Decoder) where
  open zcbor use {State, new_decode_state, payload, map_start_decode, map_end_decode, array_at_end}

  apply_target-IsValid :
      (m : HashMap) (target : Target) (v : Value)
      → IsValid m
      → IsValid (apply_target zcbor m target v).0
  unfolding apply_target apply_list
  apply_target-IsValid m (by_sid n) v valid = apply_sid-IsValid m n v valid
  apply_target-IsValid m (by_entry n key) v valid =
      apply_list_entry-IsValid m n key v (get_coreconf_hash_map m n) valid

  apply_value-IsValid :
      (m : HashMap) (target : Target) (r : State × Option Value)
      → IsValid m
      → IsValid (apply_value zcbor m target r).0.0
  unfolding apply_value
  apply_value-IsValid m target (s, none) valid = valid
  apply_value-IsValid m target (s, some v) valid = apply_target-IsValid m target v valid

  abbrev RoundIsValid : Run ((HashMap × ℕ) × State × Bool) → Type 0
  RoundIsValid = Returns (λ r. IsValid r.0.0)

  entry_round-IsValid :
      (fuel : ℕ) (m : HashMap) (r : State × Option Target)
      → IsValid m
      → RoundIsValid (entry_round zcbor fuel m r)
  unfolding entry_round
  entry_round-IsValid fuel m (s, none) valid = valid
  entry_round-IsValid fuel m (s, some target) valid =
      bind-Returns (λ r. IsValid r.0.0) (run_of (cbor_to_coreconf_value zcbor fuel 0 s)) _
        (λ r. apply_value-IsValid m target r valid)

  abbrev EntriesAreValid : Run (HashMap × ℕ × State) → Type 0
  EntriesAreValid = Returns (λ r. IsValid r.0)

  -- What follows a round keeps the map valid if the round has.
  next_entries :
      (rounds fuel count : ℕ) (r : Run ((HashMap × ℕ) × State × Bool))
      → RoundIsValid r
      → ((m : HashMap) (n : ℕ) (s : State)
          → IsValid m
          → EntriesAreValid (entries_loop zcbor rounds fuel m n s))
      → EntriesAreValid (elim r [
        | out_of_fuel ↦ out_of_fuel
        | bad_read ↦ bad_read
        | ret ((m', n), s', again) ↦ elim again [
          | true ↦ entries_loop zcbor rounds fuel m' (count + n) s'
          | false ↦ ret (m', count + n, s')
        ]
      ])
  next_entries rounds fuel count out_of_fuel h go = tt
  next_entries rounds fuel count bad_read h go = tt
  next_entries rounds fuel count (ret ((m', n), s', true)) h go = go m' (count + n) s' h
  next_entries rounds fuel count (ret ((m', n), s', false)) h go = h

  entries_loop-IsValid :
      (rounds fuel : ℕ) (m : HashMap) (count : ℕ) (s : State)
      → IsValid m
      → EntriesAreValid (entries_loop zcbor rounds fuel m count s)
  unfolding entries_loop
  entries_loop-IsValid zero fuel m count s valid = tt
  entries_loop-IsValid (suc rounds) fuel m count s valid = elim (Bool-cases (array_at_end s)) [
    | inl ended ↦ rw (ended, entries_loop) valid
    | inr open' ↦
        rw (open', entries_loop)
          (next_entries rounds fuel count (decode_target zcbor s >>= entry_round zcbor fuel m)
            (bind-Returns (λ r. IsValid r.0.0) (decode_target zcbor s) (entry_round zcbor fuel m)
              (λ r. entry_round-IsValid fuel m r valid))
            (λ m' n s' v. entries_loop-IsValid rounds fuel m' n s' v))
  ]

  abbrev MapsAreValid : Run (HashMap × ℕ) → Type 0
  MapsAreValid = Returns (λ r. IsValid r.0)

  next_maps :
      (rounds fuel : ℕ) (r : Run (HashMap × ℕ × State))
      → EntriesAreValid r
      → ((m : HashMap) (n : ℕ) (bytes : List ℕ)
          → IsValid m
          → MapsAreValid (maps_loop zcbor rounds fuel m n bytes))
      → MapsAreValid (elim r [
        | out_of_fuel ↦ out_of_fuel
        | bad_read ↦ bad_read
        | ret (m', n, s') ↦ maps_loop zcbor rounds fuel m' n (payload (map_end_decode s').0)
      ])
  next_maps rounds fuel out_of_fuel h go = tt
  next_maps rounds fuel bad_read h go = tt
  next_maps rounds fuel (ret (m', n, s')) h go = go m' n _ h

  maps_loop-IsValid :
      (rounds fuel : ℕ) (m : HashMap) (count : ℕ) (bytes : List ℕ)
      → IsValid m
      → MapsAreValid (maps_loop zcbor rounds fuel m count bytes)
  unfolding maps_loop
  maps_loop-IsValid rounds fuel m count [] valid = valid
  maps_loop-IsValid zero fuel m count (b ∷ bs) valid = tt
  maps_loop-IsValid (suc rounds) fuel m count (b ∷ bs) valid =
      elim (Bool-cases ((map_start_decode (new_decode_state 8 (b ∷ bs) 1)).1)) [
        | inl started ↦
            rw (started, maps_loop)
              (next_maps rounds fuel _ (entries_loop-IsValid (length (b ∷ bs)) fuel m count _ valid)
                (λ m' n bytes v. maps_loop-IsValid rounds fuel m' n bytes v))
        | inr refused ↦ rw (refused, maps_loop) valid
      ]

abbrev answer : HashMap × ℕ → Run (Ref × Option ℕ)
answer q = ret (ref (hashmap q.0), some q.1)

raw-Returns :
    (p : Run (HashMap × ℕ)) (r : Ref) (o : Option ℕ)
    → Returns (λ q. IsValid q.0) p
    → (p >>= answer) ≡ ret (r, o)
    → (m' : HashMap) × (r ≡ ref (hashmap m')) × IsValid m'
raw-Returns (ret (m', n)) r o valid h = (m', cc, valid)
raw-Returns bad_read r o valid h = cc
raw-Returns out_of_fuel r o valid h = cc

-- Whatever the payload is, `apply_ipatch_raw` of a valid datastore leaves a valid datastore: if it
-- returns, what the datastore holds is a valid map again.
pub apply_ipatch_raw-IsValid :
    (zcbor : Decoder) (fuel : ℕ) (m : HashMap) (bytes : Option (List ℕ)) (r : Ref) (o : Option ℕ)
    → IsValid m
    → apply_ipatch_raw zcbor fuel (ref (hashmap m)) bytes ≡ ret (r, o)
    → (m' : HashMap) × (r ≡ ref (hashmap m')) × IsValid m'
unfolding apply_ipatch_raw
apply_ipatch_raw-IsValid zcbor fuel m none r o valid h = (m, cc, valid)
apply_ipatch_raw-IsValid zcbor fuel m (some []) r o valid h = (m, cc, valid)
apply_ipatch_raw-IsValid zcbor fuel m (some (b ∷ bs)) r o valid h =
    raw-Returns _ r o (maps_loop-IsValid zcbor (length (b ∷ bs)) fuel m 0 (b ∷ bs) valid) h
