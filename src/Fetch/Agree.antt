-- ===== src/Fetch/Agree.antt =====
-- src/fetch.c: `is_fetch_request` against `parse_fetch_request`.
use ccoreconf_zcbor.Common.{
  ℕ, zero, suc, ◌+◌, ◌≤◌, ◌≡◌, refl, ap, ◌∙◌, inl, inr, List, [], ◌∷◌, Bool, true, false, Option,
  none, some, Option-cases, length, arith,
}
use native.Mathlib.Nat.{zero-add}
use ccoreconf_zcbor.Zcbor.{Decoder, ret}
use ccoreconf_zcbor.Fetch.Parse.{
  decode_sid, count_sids, decode_sids, cons_option, sids_of, parse_fetch_request, is_fetch_request,
}
use ccoreconf_zcbor.Fetch.Terminates.{Consumes, decode_sid-shorter}

abbrev pub has_value {ℓ} : {A : Type ℓ} → Option A → Bool
has_value none = false
has_value (some a) = true

module _ (dec : Decoder) (consumes : Consumes dec) where
  -- The second pass succeeds on as many items as the first has counted.
  abbrev Agree : ℕ → List ℕ → ℕ → ℕ → Type 0
  Agree fuel bytes c k =
      (count_sids dec fuel bytes c ≡ ret (c + k))
      × ((l : List ℕ) × (decode_sids dec k bytes ≡ some l))

  one_more :
      (fuel b : ℕ) (bs : List ℕ) (c k s : ℕ)
      → (decode_sid dec (b ∷ bs)).1 ≡ some s
      → Agree fuel (Decoder.payload dec (decode_sid dec (b ∷ bs)).0) (c + 1) k
      → Agree (suc fuel) (b ∷ bs) c (suc k)
  unfolding count_sids decode_sids cons_option
  one_more fuel b bs c k s read (e, (l, e')) =
      let moved : c + 1 + k ≡ c + suc k = omega arith in
      (
        rw (read, count_sids) (e ∙ ap ret moved),
        (s ∷ l, rw (read, decode_sids) (ap (cons_option s) e')),
      )

  passes-Agree :
      (fuel : ℕ) (bytes : List ℕ) (c : ℕ) → length bytes ≤ fuel → (k : ℕ) × Agree fuel bytes c k
  unfolding count_sids decode_sids
  passes-Agree fuel [] c h = (0, (ap ret (omega arith), ([], refl)))
  passes-Agree zero (b ∷ bs) c h = absurd (omega arith)
  passes-Agree (suc fuel) (b ∷ bs) c h = elim (Option-cases ((decode_sid dec (b ∷ bs)).1)) [
    | inl refused ↦ (0, (rw (refused, count_sids) (ap ret (omega arith)), ([], refl)))
    | inr (s, read) ↦
        let (k, agree) =
          passes-Agree fuel (Decoder.payload dec (decode_sid dec (b ∷ bs)).0) (c + 1)
            (omega (arith, decode_sid-shorter dec consumes (b ∷ bs) s read)) in
        (suc k, one_more fuel b bs c k s read agree)
  ]

  none_counted :
      (b : ℕ) (bs : List ℕ)
      → (decode_sid dec (b ∷ bs)).1 ≡ none
      → count_sids dec (length (b ∷ bs)) (b ∷ bs) 0 ≡ ret 0
  unfolding count_sids
  none_counted b bs refused = rw (refused, count_sids) refl

  some_counted :
      (b : ℕ) (bs : List ℕ) (s : ℕ)
      → (decode_sid dec (b ∷ bs)).1 ≡ some s
      → (k : ℕ) × Agree (length (b ∷ bs)) (b ∷ bs) 0 (suc k)
  some_counted b bs s read =
      let (k, agree) =
        passes-Agree (length bs) (Decoder.payload dec (decode_sid dec (b ∷ bs)).0) (0 + 1)
          (omega (arith, decode_sid-shorter dec consumes (b ∷ bs) s read)) in
      (k, one_more (length bs) b bs 0 k s read agree)

-- With a decoder that reads a byte whenever it succeeds, `is_fetch_request` accepts exactly the bytes
-- that `parse_fetch_request` reads some SIDs from: its second pass never fails on what the first has
-- counted.
pub is_fetch_request-parse :
    (dec : Decoder)
    → Consumes dec
    → (cbor_data : List ℕ)
    → (o : Option (List ℕ)) × (parse_fetch_request dec (some cbor_data) ≡ ret o)
      × (is_fetch_request dec (some cbor_data) ≡ has_value o)
unfolding parse_fetch_request is_fetch_request sids_of
is_fetch_request-parse dec consumes [] = (none, refl, refl)
is_fetch_request-parse dec consumes (b ∷ bs) = elim (Option-cases ((decode_sid dec (b ∷ bs)).1)) [
  | inl refused ↦
      (none, rw (none_counted dec consumes b bs refused) refl, rw (refused, is_fetch_request) refl)
  | inr (s, read) ↦
      let (k, (e, (l, e'))) = some_counted dec consumes b bs s read in
      (some l, rw (e, zero-add (suc k)) (ap ret e'), rw (read, is_fetch_request) refl)
]
