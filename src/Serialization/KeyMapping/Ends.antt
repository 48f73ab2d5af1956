-- ===== src/Serialization/KeyMapping/Ends.antt =====
-- src/serialization.c: `cborToKeyMappingHashMap` ends on every input.
use ccoreconf_zcbor.Common.{
  ℕ, zero, suc, ◌+◌, ◌≤◌, ◌<◌, ◌≡◌, refl, inl, inr, List, [], Bool, true, false, Bool-cases, Option,
  none, some, Option-cases, ltb, arith,
}
use ccoreconf_zcbor.Common.Int.{ℤ, to_int64}
use ccoreconf_zcbor.Zcbor.{Decoder, Run, ret}
use ccoreconf_zcbor.Sid.{add_long}
use ccoreconf_zcbor.Serialization.KeyMapping.{
  KeyMap, ◌>>?◌, want, want_value, longs_loop, decode_mapping, mappings_loop,
  cbor_to_key_mapping_hash_map,
}

abbrev OfSome : {A : Type 0} → (A → Type 0) → Option A → Type 0
OfSome P none = Unit
OfSome P (some a) = P a

-- The run returns NULL, or a value with the property.
abbrev Ends : {A : Type 0} → (A → Type 0) → Run (Option A) → Type 0
Ends {A} P r = (o : Option A) × (r ≡ ret o) × OfSome P o

bind-Ends :
    {A B : Type 0} (P : A → Type 0) (Q : B → Type 0) (r : Run (Option A)) (f : A → Run (Option B))
    → Ends P r
    → ((a : A) → P a → Ends Q (f a))
    → Ends Q (r >>? f)
bind-Ends P Q r f (none, e, h) go = (none, rw e refl, tt)
bind-Ends P Q r f (some a, e, h) go = let (o, e', h') = go a h in (o, rw e e', h')

want-Ends : {S : Type 0} (p : S × Bool) → Ends (λ s. Unit) (want p)
want-Ends (s, true) = (some s, refl, tt)
want-Ends (s, false) = (none, refl, tt)

want_value-Ends : {S A : Type 0} (p : S × Option A) → Ends (λ s. Unit) (want_value p)
want_value-Ends (s, some a) = (some (s, a), refl, tt)
want_value-Ends (s, none) = (none, refl, tt)

module _ (zcbor : Decoder) where
  open zcbor use {
    State, uint64_decode, list_start_decode, list_end_decode, map_start_decode, map_end_decode,
    array_at_end,
  }

  longs_loop-Ends :
      (fuel c : ℕ) (l : List ℤ) (s : State)
      → 0 < fuel
      → 52 ≤ c + fuel
      → Ends (λ k. c ≤ k.0) (longs_loop zcbor fuel c l s)
  unfolding longs_loop
  longs_loop-Ends zero c l s some_left enough = absurd (omega arith)
  longs_loop-Ends (suc fuel) c l s some_left enough = elim (Bool-cases (array_at_end s)) [
    | inl ended ↦ (some (c, l, s), rw (ended, longs_loop) refl, omega arith)
    | inr open' ↦ elim (Bool-cases (ltb 50 c)) [
      | inl over ↦ (none, rw (open', over, longs_loop) refl, tt)
      | inr under ↦ elim (Option-cases ((uint64_decode s).1)) [
        | inl refused ↦ (none, rw (open', under, refused, longs_loop) refl, tt)
        | inr (k, read) ↦
            let (o, e, more) =
              longs_loop-Ends fuel (c + 1) (add_long l (to_int64 k)) (uint64_decode s).0
                (ground arith) (omega arith) in
            (o, rw (open', under, read, longs_loop) e, at_least o more)
      ]
    ]
  ]
    where
      at_least :
          (o : Option (ℕ × List ℤ × State)) → OfSome (λ k. c + 1 ≤ k.0) o → OfSome (λ k. c ≤ k.0) o
      at_least none h = tt
      at_least (some k) h = omega (arith, h)

  module _ (m : KeyMap) where
    open m use {Map, hashmap_new}

    decode_mapping-Ends :
        (c : ℕ) (map : Map) (s : State)
        → Ends (λ r. c + 1 ≤ r.0) (decode_mapping zcbor m 52 c map s)
    unfolding decode_mapping
    decode_mapping-Ends c map s =
        bind-Ends (λ r. Unit) (λ r. c + 1 ≤ r.0) _ _ (want_value-Ends (uint64_decode s))
          (λ r h.
            bind-Ends (λ s1. Unit) (λ r. c + 1 ≤ r.0) _ _ (want-Ends (list_start_decode r.0))
              (λ s1 h1.
                bind-Ends (λ k. c ≤ k.0) (λ r. c + 1 ≤ r.0) _ _
                  (longs_loop-Ends 52 c [] s1 (omega arith) (omega arith))
                  (λ k more.
                    bind-Ends (λ s2. Unit) (λ r. c + 1 ≤ r.0) _ _ (want-Ends (list_end_decode k.2))
                      (λ s2 h2. (some _, refl, omega (arith, more))))))

    mappings_loop-Ends :
        (rounds c : ℕ) (map : Map) (s : State)
        → 0 < rounds
        → 52 ≤ c + rounds
        → Ends (λ r. Unit) (mappings_loop zcbor m rounds 52 c map s)
    unfolding mappings_loop
    mappings_loop-Ends zero c map s some_left enough = absurd (omega arith)
    mappings_loop-Ends (suc rounds) c map s some_left enough = elim (Bool-cases (array_at_end s)) [
      | inl ended ↦ (some (map, s), rw (ended, mappings_loop) refl, tt)
      | inr open' ↦ elim (Bool-cases (ltb 50 c)) [
        | inl over ↦ (none, rw (open', over, mappings_loop) refl, tt)
        | inr under ↦
            let (o, e, h) =
              bind-Ends (λ r. c + 1 ≤ r.0) (λ r. Unit) _
                (λ r. mappings_loop zcbor m rounds 52 r.0 r.1 r.2) (decode_mapping-Ends c map s)
                (λ r more.
                  mappings_loop-Ends rounds r.0 r.1 r.2 (ground arith) (omega (arith, more))) in
            (o, rw (open', under, mappings_loop) e, h)
      ]
    ]

-- `cborToKeyMappingHashMap` returns, with a map or with NULL, whatever the decoder answers: the
-- counter that its two loops share stops them, and 52 rounds of each are enough.
pub cbor_to_key_mapping_hash_map-returns :
    (zcbor : Decoder) (m : KeyMap) (s : Decoder.State zcbor)
    → (o : Option (KeyMap.Map m)) × (cbor_to_key_mapping_hash_map zcbor m s ≡ ret o)
unfolding cbor_to_key_mapping_hash_map
cbor_to_key_mapping_hash_map-returns zcbor m s =
    let (o, e, h) =
      bind-Ends (λ s1. Unit) (λ r. Unit) _ _ (want-Ends (Decoder.map_start_decode zcbor s))
        (λ s1 h1.
          bind-Ends (λ r. Unit) (λ r. Unit) _ _
            (mappings_loop-Ends zcbor m 52 0 (KeyMap.hashmap_new m) s1 (omega arith) (omega arith))
            (λ r h2.
              bind-Ends (λ s2. Unit) (λ r. Unit) _ _ (want-Ends (Decoder.map_end_decode zcbor r.1))
                (λ s2 h3. (some r.0, refl, tt)))) in
    (o, e)
