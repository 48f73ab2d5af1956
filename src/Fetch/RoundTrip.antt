-- ===== src/Fetch/RoundTrip.antt =====
-- src/fetch.c: a request for SIDs that was written is read back.
use ccoreconf_zcbor.Common.{
  ℕ, zero, suc, ◌+◌, ◌^◌, ◌≤◌, ◌<◌, ◌≡◌, refl, sym, ap, ◌∙◌, List, [], ◌∷◌, ◌++◌, some, length,
  length-append, arith,
}
use native.Mathlib.Nat.{add-zero, zero-add}
use ccoreconf_zcbor.Zcbor.{Encoder, Decoder, ret}
use ccoreconf_zcbor.Zcbor.Laws.{EncoderLaws, put-Writes}
use ccoreconf_zcbor.Zcbor.Sequences.{all_bytes, sequence_loop-Writes}
use ccoreconf_zcbor.Fetch.Encode.{create_fetch_request}
use ccoreconf_zcbor.Fetch.Parse.{
  decode_sid, count_sids, decode_sids, cons_option, sids_of, parse_fetch_request,
}

abbrev pub AreWords : List ℕ → Type 0
AreWords [] = Unit
AreWords (n ∷ ns) = (n < 2 ^ 64) × AreWords ns

module _ {enc : Encoder} (laws : EncoderLaws enc) (dec : Decoder) where
  open dec use {new_decode_state, payload, uint64_decode}

  count_step :
      (fuel count n : ℕ) (b rest : List ℕ)
      → (decode_sid dec b).1 ≡ some n
      → payload (decode_sid dec b).0 ≡ rest
      → 0 < length b
      → count_sids dec (suc fuel) b count ≡ count_sids dec fuel rest (count + 1)
  unfolding count_sids
  count_step fuel count n [] rest first behind h = absurd (omega arith)
  count_step fuel count n (c ∷ b) rest first behind h = rw (first, behind, count_sids)

  decode_step :
      (k n : ℕ) (b rest : List ℕ)
      → (decode_sid dec b).1 ≡ some n
      → payload (decode_sid dec b).0 ≡ rest
      → decode_sids dec (suc k) b ≡ cons_option n (decode_sids dec k rest)
  unfolding decode_sids cons_option
  decode_step k n b rest first behind = rw (first, behind, decode_sids)

  -- The decoder reads an unsigned integer off the front of its input, and stops behind it.
  pub record ReadsUint : Type 0 where
    pub reads :
        (b n : ℕ) (rest : List ℕ)
        → n < 2 ^ 64
        → let r = uint64_decode (new_decode_state b (laws.uint_bytes n ++ rest) 1) in
          (r.1 ≡ some n) × (payload r.0 ≡ rest)
    pub nonempty : (n : ℕ) → 0 < length (laws.uint_bytes n)

  module _ (uint : ReadsUint) where
    bytes : List ℕ → List ℕ
    bytes = all_bytes laws.uint_bytes

    count_sids-bytes :
        (sids : List ℕ) (fuel count : ℕ)
        → AreWords sids
        → length (bytes sids) ≤ fuel
        → count_sids dec fuel (bytes sids) count ≡ ret (count + length sids)
    unfolding bytes decode_sid
    count_sids-bytes [] fuel count h fits = unfold count_sids in ap ret (sym (add-zero count))
    count_sids-bytes (n ∷ ns) zero count h fits = absurd (
        omega (
          arith,
          uint.nonempty n,
          length-append (laws.uint_bytes n) (all_bytes laws.uint_bytes ns),
        ))
    count_sids-bytes (n ∷ ns) (suc fuel) count h fits =
        let (first, behind) = uint.reads 5 n (bytes ns) h.0 in
        let apart = length-append (laws.uint_bytes n) (bytes ns) in
        let some_left = uint.nonempty n in
        count_step fuel count n (laws.uint_bytes n ++ bytes ns) (bytes ns) first behind
          (omega arith)
        ∙ count_sids-bytes ns fuel (count + 1) h.1 (omega arith)
        ∙ ap ret (omega arith)

    decode_sids-bytes :
        (sids : List ℕ) → AreWords sids → decode_sids dec (length sids) (bytes sids) ≡ some sids
    unfolding bytes decode_sid
    decode_sids-bytes [] h = unfold decode_sids in refl
    decode_sids-bytes (n ∷ ns) h =
        let (first, behind) = uint.reads 5 n (bytes ns) h.0 in
        decode_step (length ns) n (laws.uint_bytes n ++ bytes ns) (bytes ns) first behind
        ∙ ap (cons_option n) (decode_sids-bytes ns h.1)
        ∙ unfold cons_option in refl

    parse-bytes :
        (s : ℕ) (sids : List ℕ)
        → AreWords (s ∷ sids)
        → parse_fetch_request dec (some (bytes (s ∷ sids))) ≡ ret (some (s ∷ sids))
    unfolding parse_fetch_request sids_of
    parse-bytes s sids words =
        rw
          (
            count_sids-bytes (s ∷ sids) (length (bytes (s ∷ sids))) 0 words (omega arith),
            zero-add (length (s ∷ sids)),
          )
          (ap ret (decode_sids-bytes (s ∷ sids) words))

-- A request for SIDs that fits into the buffer is the SIDs' bytes one after the other, and reading
-- those gives the SIDs back: the first pass ends, and no SID is lost or added.
pub parse_fetch_request-create :
    {enc : Encoder} (laws : EncoderLaws enc) (dec : Decoder) (uint : ReadsUint laws dec)
    (buffer_size s : ℕ) (sids : List ℕ)
    → AreWords (s ∷ sids)
    → length (all_bytes laws.uint_bytes (s ∷ sids)) ≤ buffer_size
    → (buffer : List ℕ) × (create_fetch_request enc (some buffer_size) (some (s ∷ sids))
        ≡ some buffer)
      × (parse_fetch_request dec (some buffer) ≡ ret (some (s ∷ sids)))
unfolding create_fetch_request bytes
parse_fetch_request-create laws dec uint size s sids words fits = (
  all_bytes laws.uint_bytes (s ∷ sids),
  sequence_loop-Writes laws 5 _ laws.uint_bytes (s ∷ sids)
      (λ n. put-Writes laws _ _ (laws.uint64 n)) size [] (omega arith),
  parse-bytes laws dec uint s sids words,
)
