-- ===== src/Serialization/KeyMapping.antt =====
-- src/serialization.c: the codec of the map from the SIDs of lists to the SIDs of their keys.
pub mod Ends
pub mod Written
use ccoreconf_zcbor.Common.{
  ℕ, zero, suc, ◌+◌, List, [], ◌∷◌, Bool, true, false, Option, none, some, ltb, length,
}
use ccoreconf_zcbor.Common.Int.{ℤ, to_uint64, to_int64}
use ccoreconf_zcbor.Zcbor.{
  Encoder, Decoder, Put, put, ◌>>◌, succeed, Run, ret, bad_read, out_of_fuel,
}
use ccoreconf_zcbor.Value.{coreconf_max_loop}
use ccoreconf_zcbor.Sid.{add_long}

-- The generic hash map of src/hashmap.c with key mappings in it.
pub record KeyMap : Type 1 where
  pub Map : Type 0
  pub hashmap_new : Map
  pub hashmap_set : Map → ℤ → List ℤ → Map
  pub hashmap_count : Map → ℕ
  -- what `hashmap_iter` yields, in its order
  pub items : Map → List (ℤ × List ℤ)

module _ (zcbor : Encoder) where
  open zcbor use {
    State, uint64_put, list_start_encode, list_end_encode, map_start_encode, map_end_encode,
  }

  unfoldable pub encode_longs : List ℤ → Put State
  unfolding to_uint64
  encode_longs [] = succeed
  encode_longs (sid_key ∷ l) = put (uint64_put (to_uint64 sid_key)) >> encode_longs l

  unfoldable pub encode_mapping : ℤ → List ℤ → Put State
  unfolding encode_longs
  encode_mapping key l =
      put (uint64_put (to_uint64 key))
      >> put (list_start_encode (length l))
      >> encode_longs l
      >> put (list_end_encode (length l))

  unfoldable pub encode_mappings : List (ℤ × List ℤ) → Put State
  unfolding encode_mapping
  encode_mappings [] = succeed
  encode_mappings ((key, l) ∷ rest) = encode_mapping key l >> encode_mappings rest

  unfoldable pub key_mapping_hash_map_to_cbor : (m : KeyMap) → KeyMap.Map m → Put State
  unfolding encode_mappings
  key_mapping_hash_map_to_cbor m map =
      put (map_start_encode (KeyMap.hashmap_count m map))
      >> encode_mappings (KeyMap.items m map)
      >> put (map_end_encode (KeyMap.hashmap_count m map))

-- A step of the decoding code, with `none` for the return of NULL.
infixl 5 ◌>>?◌
abbrev pub ◌>>?◌ : {A B : Type 0} → Run (Option A) → (A → Run (Option B)) → Run (Option B)
ret (some a) >>? f = f a
ret none >>? f = ret none
bad_read >>? f = bad_read
out_of_fuel >>? f = out_of_fuel

abbrev pub want : {S : Type 0} → S × Bool → Run (Option S)
want (s, true) = ret (some s)
want (s, false) = ret none

abbrev pub want_value : {S A : Type 0} → S × Option A → Run (Option (S × A))
want_value (s, some a) = ret (some (s, a))
want_value (s, none) = ret none

module _ (zcbor : Decoder) where
  open zcbor use {
    State, uint64_decode, list_start_decode, list_end_decode, map_start_decode, map_end_decode,
    array_at_end,
  }

  -- the loop over the keys of a list, with the counter that both loops share
  unfoldable pub longs_loop : ℕ → ℕ → List ℤ → State → Run (Option (ℕ × List ℤ × State))
  unfolding add_long to_int64
  longs_loop zero loop_counter l s = out_of_fuel
  longs_loop (suc fuel) loop_counter l s = elim (array_at_end s) [
    | true ↦ ret (some (loop_counter, l, s))
    | false ↦ elim (ltb coreconf_max_loop loop_counter) [
      | true ↦ ret none
      | false ↦ elim ((uint64_decode s).1) [
        | none ↦ ret none
        | some sid_key ↦
            longs_loop fuel (loop_counter + 1) (add_long l (to_int64 sid_key)) (uint64_decode s).0
      ]
    ]
  ]

  module _ (m : KeyMap) where
    open m use {Map, hashmap_new, hashmap_set}

    -- one list with its keys
    unfoldable pub decode_mapping : ℕ → ℕ → Map → State → Run (Option (ℕ × Map × State))
    unfolding longs_loop
    decode_mapping fuel loop_counter map s = want_value (uint64_decode s) >>? λ r.
        want (list_start_decode r.0) >>? λ s1. longs_loop fuel loop_counter [] s1 >>? λ k.
        want (list_end_decode k.2) >>? λ s2.
        ret (some (k.0 + 1, hashmap_set map (to_int64 r.1) k.1, s2))

    unfoldable pub mappings_loop : ℕ → ℕ → ℕ → Map → State → Run (Option (Map × State))
    unfolding decode_mapping
    mappings_loop zero fuel loop_counter map s = out_of_fuel
    mappings_loop (suc rounds) fuel loop_counter map s = elim (array_at_end s) [
      | true ↦ ret (some (map, s))
      | false ↦ elim (ltb coreconf_max_loop loop_counter) [
        | true ↦ ret none
        | false ↦
            decode_mapping fuel loop_counter map s >>? λ r. mappings_loop rounds fuel r.0 r.1 r.2
      ]
    ]

    -- Each round adds to the counter, so there are no more than 52 rounds.
    unfoldable pub cbor_to_key_mapping_hash_map : State → Run (Option Map)
    unfolding mappings_loop
    cbor_to_key_mapping_hash_map s = want (map_start_decode s) >>? λ s1.
        mappings_loop 52 52 0 hashmap_new s1 >>? λ r.
        want (map_end_decode r.1) >>? λ s2. ret (some r.0)
