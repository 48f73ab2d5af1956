-- ===== src/Serialization/Stuck.antt =====
-- src/serialization.c: an element that the parser does not consume keeps the loop of `_parse_array`
-- where it is.
use ccoreconf_zcbor.Common.{
  ℕ, zero, suc, ◌+◌, ◌≤◌, ◌≡◌, refl, ◌⊎◌, inl, inr, true, false, Option, none, some, List, [], ◌∷◌,
  ltb, Bool-cases, arith,
}
use ccoreconf_zcbor.Zcbor.{Decoder, tag, major_type}
use ccoreconf_zcbor.Value.{Values}
use ccoreconf_zcbor.Serialization.Decode.{
  add_decoded, by_payload, decode_plain, cbor_to_coreconf_value, array_loop,
}

-- the first byte starts a tag
abbrev pub StartsWithTag : List ℕ → Type 0
StartsWithTag [] = ⊥
StartsWithTag (b ∷ bs) = major_type b ≡ tag

module _ (zcbor : Decoder) where
  open zcbor use {State, payload, array_at_end}

  by_payload-tag :
      (p : List ℕ) (s : State)
      → StartsWithTag p
      → (items : Option (State × Values)) → (entries : _)
      → by_payload zcbor p items entries s ≡ some (s, none)
  unfolding by_payload decode_plain
  by_payload-tag [] s h items entries = absurd h
  by_payload-tag (b ∷ bs) s h items entries = rw h

  value-stays :
      (fuel i : ℕ) (s : State)
      → (20 ≤ i) ⊎ StartsWithTag (payload s)
      → cbor_to_coreconf_value zcbor (suc fuel) (i + 1) s ≡ some (s, none)
  unfolding cbor_to_coreconf_value
  value-stays fuel i s (inl deep) = let over : ltb 20 (i + 1) ≡ true = ground arith in rw over
  value-stays fuel i s (inr tagged) = elim (Bool-cases (ltb 20 (i + 1))) [
    | inl over ↦ rw over
    | inr under ↦ rw under (by_payload-tag (payload s) s tagged _ _)
  ]

-- The loop of `_parse_array` never ends, whatever the fuel, where the list does not end and the next
-- element is a tag or lies below the deepest nesting: the element is NULL and nothing is consumed.
pub array_loop-stuck :
    (zcbor : Decoder) (fuel i : ℕ) (vs : Values) (s : Decoder.State zcbor)
    → Decoder.array_at_end zcbor s ≡ false
    → (20 ≤ i) ⊎ StartsWithTag (Decoder.payload zcbor s)
    → array_loop zcbor fuel i vs s ≡ none
unfolding array_loop
array_loop-stuck zcbor zero i vs s open' h = refl
array_loop-stuck zcbor (suc zero) i vs s open' h = rw (open', array_loop)
array_loop-stuck zcbor (suc (suc fuel)) i vs s open' h =
    rw (open', value-stays zcbor fuel i s h, array_loop)
      (unfold add_decoded in array_loop-stuck zcbor (suc fuel) i vs s open' h)
