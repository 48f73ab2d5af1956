-- ===== src/Serialization/Sound/Decoded.antt =====
-- src/serialization.c: what `cborToCoreconfValue` returns, whatever the input and whatever zcbor does.
use ccoreconf_zcbor.Common.{
  ℕ, zero, suc, ◌+◌, ◌≤◌, ◌≡◌, inl, inr, Bool, true, false, Bool-cases, Option-cases, Option, none,
  some, List, [], ◌∷◌, ltb, arith,
}
use mathlib.Core.Option
use mathlib.Core.Path.{subst}
use native.Mathlib.Numerals.{add-one}
use ccoreconf_zcbor.Zcbor.{
  Decoder, MajorType, pint, nint, bstr, tstr, list, map, simple, major_type,
}
use ccoreconf_zcbor.Value.{
  Value, Values, HashMap, create_map, create_coreconf_string, create_coreconf_boolean, no_elements,
}
use ccoreconf_zcbor.Serialization.Decode.{
  add_decoded, insert_decoded, expect_nil, or_nil, or_bool, decode_plain, by_major, by_payload,
  cbor_to_coreconf_value, parse_array, array_loop, parse_map, map_loop,
}
use ccoreconf_zcbor.Serialization.Sound.{
  IsSound, AllSound, OptionSound, IsBounded, insert_decoded-Bounded, add_decoded-Sound,
  create_map-Bounded, array-Sound, map-Sound, no_elements-Sound,
}

map-Good :
    {A : Type 0} (i : ℕ) (f : A → Value) (o : Option A)
    → ((a : A) → IsSound i (f a))
    → OptionSound i (Option.map f o)
map-Good i f none h = tt
map-Good i f (some a) h = h a

next_depth : (i : ℕ) (o : Option Value) → OptionSound (i + 1) o → OptionSound (suc i) o
next_depth i o h = subst (λ j. OptionSound j o) (add-one i) h

weaken : (i n : ℕ) (m : HashMap) → n ≤ 51 → IsBounded i n m → IsBounded i 51 m
weaken i n m h (valid, few, sound) = (valid, omega arith, sound)

module _ (zcbor : Decoder) where
  open zcbor use {
    State, payload, uint64_decode, int64_decode, float64_decode, bstr_decode, tstr_decode,
    bool_decode, nil_expect, list_start_decode, list_end_decode, map_start_decode, map_end_decode,
    array_at_end,
  }

  abbrev ValueGood : ℕ → Option (State × Option Value) → Type 0
  ValueGood i none = Unit
  ValueGood i (some (s, o)) = OptionSound i o

  abbrev ItemsGood : ℕ → Option (State × Values) → Type 0
  ItemsGood i none = Unit
  ItemsGood i (some (s, vs)) = AllSound (suc i) vs

  abbrev EntriesGood : ℕ → Option (State × HashMap) → Type 0
  EntriesGood i none = Unit
  EntriesGood i (some (s, m)) = IsBounded (suc i) 51 m

  or_nil-Good : (i : ℕ) (r : State × Option Bool) → i ≤ 20 → OptionSound i (or_nil zcbor r).1
  unfolding or_nil create_coreconf_boolean IsSound
  or_nil-Good i (s, some true) h = h
  or_nil-Good i (s, some false) h = h
  or_nil-Good i (s, none) h = nil_case (nil_expect s)
    where
      nil_case : (r : State × Bool) → OptionSound i (expect_nil zcbor r).1
      nil_case (s', true) = h
      nil_case (s', false) = tt

  or_bool-Good : (i : ℕ) (r : State × Option ℕ) → i ≤ 20 → OptionSound i (or_bool zcbor r).1
  unfolding or_bool
  or_bool-Good i (s, some d) h = unfold IsSound in h
  or_bool-Good i (s, none) h = or_nil-Good i (bool_decode s) h

  decode_plain-Good :
      (i : ℕ) (m : MajorType) (s : State) → i ≤ 20 → OptionSound i (decode_plain zcbor m s).1
  unfolding decode_plain IsSound create_coreconf_string
  decode_plain-Good i pint s h = map-Good i _ (uint64_decode s).1 (λ a. h)
  decode_plain-Good i nint s h = map-Good i _ (int64_decode s).1 (λ a. h)
  decode_plain-Good i bstr s h = map-Good i _ (bstr_decode s).1 (λ a. h)
  decode_plain-Good i tstr s h = map-Good i _ (tstr_decode s).1 (λ a. h)
  decode_plain-Good i simple s h = or_bool-Good i (float64_decode s) h
  decode_plain-Good i _ s h = tt

  by_major-Good :
      (i : ℕ) (m : MajorType) (items : Option (State × Values)) (entries : Option (State × HashMap))
      (s : State)
      → i ≤ 20
      → ItemsGood i items
      → EntriesGood i entries
      → ValueGood i (by_major zcbor m items entries s)
  unfolding by_major
  by_major-Good i list none entries s h hi he = tt
  by_major-Good i list (some (s', vs)) entries s h hi he = array-Sound i vs h hi
  by_major-Good i map items none s h hi he = tt
  by_major-Good i map items (some (s', m)) s h hi he = map-Sound i m h he
  by_major-Good i m items entries s h hi he = decode_plain-Good i m s h

  by_payload-Good :
      (i : ℕ) (p : List ℕ) (items : Option (State × Values)) (entries : Option (State × HashMap))
      (s : State)
      → i ≤ 20
      → ItemsGood i items
      → EntriesGood i entries
      → ValueGood i (by_payload zcbor p items entries s)
  unfolding by_payload
  by_payload-Good i [] items entries s h hi he = tt
  by_payload-Good i (b ∷ bs) items entries s h hi he =
      by_major-Good i (major_type b) items entries s h hi he

  -- One induction on the fuel.
  mutual
    unfolding cbor_to_coreconf_value

    value-Good : (fuel i : ℕ) (s : State) → ValueGood i (cbor_to_coreconf_value zcbor fuel i s)
    value-Good zero i s = tt
    value-Good (suc fuel) i s = elim (Bool-cases (ltb 20 i)) [
      | inl deep ↦ rw deep tt
      | inr shallow ↦ rw shallow (
          by_payload-Good i (payload s) _ _ s (ground arith) (items-Good fuel i s)
            (entries-Good fuel i s))
    ]

    items-Good : (fuel i : ℕ) (s : State) → ItemsGood i (parse_array zcbor fuel i s)
    items-Good zero i s = tt
    items-Good (suc fuel) i s = elim (Bool-cases (list_start_decode s).1) [
      | inl e ↦
          rw e
            (items_loop-Good fuel i no_elements (list_start_decode s).0 (no_elements-Sound (suc i)))
      | inr e ↦ rw e (no_elements-Sound (suc i))
    ]

    items_loop-Good :
        (fuel i : ℕ) (vs : Values) (s : State)
        → AllSound (suc i) vs
        → ItemsGood i (array_loop zcbor fuel i vs s)
    items_loop-Good zero i vs s h = tt
    items_loop-Good (suc fuel) i vs s h = elim (Bool-cases (array_at_end s)) [
      | inl e ↦ rw (e, array_loop) h
      | inr e ↦ elim (Option-cases (cbor_to_coreconf_value zcbor fuel (i + 1) s)) [
        | inl e' ↦ rw (e, e', array_loop) tt
        | inr ((s', o), e') ↦
            rw (e, e', array_loop)
              (items_loop-Good fuel i (add_decoded vs o) s' (
                add_decoded-Sound (suc i) vs o h
                  (next_depth i o (rw e' at (value-Good fuel (i + 1) s)))))
      ]
    ]

    entries-Good : (fuel i : ℕ) (s : State) → EntriesGood i (parse_map zcbor fuel i s)
    entries-Good zero i s = tt
    entries-Good (suc fuel) i s = elim (Bool-cases (map_start_decode s).1) [
      | inl e ↦
          rw (e, parse_map)
            (entries_loop-Good fuel i 0 create_map (map_start_decode s).0 (omega arith)
              (create_map-Bounded (suc i)))
      | inr e ↦
          rw (e, parse_map) (weaken (suc i) 0 create_map (omega arith) (create_map-Bounded (suc i)))
    ]

    entries_loop-Good :
        (fuel i n : ℕ) (m : HashMap) (s : State)
        → n ≤ 51
        → IsBounded (suc i) n m
        → EntriesGood i (map_loop zcbor fuel i n m s)
    entries_loop-Good zero i n m s few h = tt
    entries_loop-Good (suc fuel) i n m s few h = elim (Bool-cases (array_at_end s)) [
      | inl e ↦ rw (e, map_loop) (weaken (suc i) n m few h)
      | inr e ↦ elim (Bool-cases (ltb 50 n)) [
        | inl over ↦ rw (e, over, map_loop) (weaken (suc i) n m few h)
        | inr under ↦ elim (Option-cases (uint64_decode s).1) [
          | inl e₁ ↦ rw (e, under, e₁, map_loop) (weaken (suc i) n m few h)
          | inr (k, e₁) ↦
              elim (Option-cases (cbor_to_coreconf_value zcbor fuel (i + 1) (uint64_decode s).0)) [
                | inl e₂ ↦ rw (e, under, e₁, e₂, map_loop) tt
                | inr ((s', o), e₂) ↦
                    rw (e, under, e₁, e₂, map_loop)
                      (entries_loop-Good fuel i (n + 1) (insert_decoded m k o) s' (ground arith) (
                        insert_decoded-Bounded (suc i) n k o m
                          (next_depth i o (rw e₂ at (value-Good fuel (i + 1) (uint64_decode s).0)))
                          h))
              ]
        ]
      ]
    ]

-- Whatever zcbor does and whatever the input, a value that `cborToCoreconfValue` returns at the
-- nesting depth `i` is not nested below depth 20, holds no NULL pointer, and every map in it is
-- valid and has 51 objects at most.
pub cbor_to_coreconf_value-Sound :
    (zcbor : Decoder) (fuel i : ℕ) (s s' : Decoder.State zcbor) (v : Value)
    → cbor_to_coreconf_value zcbor fuel i s ≡ some (s', some v)
    → IsSound i v
cbor_to_coreconf_value-Sound zcbor fuel i s s' v h = rw h at (value-Good zcbor fuel i s)
