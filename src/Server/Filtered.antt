-- ===== src/Server/Filtered.antt =====
-- iot_containers/iot_apps/coreconf_server.c: the sequence that a FETCH of the stream with a filter
-- returns.
use ccoreconf_zcbor.Common.{
  take-all, ℕ, zero, suc, ◌+◌, ◌≤◌, ◌≡◌, refl, sym, ap, ◌∙◌, List, [], ◌∷◌, ◌++◌, append_assoc,
  append-nil, Bool, false, ◌||◌, none, some, inl, inr, Bool-cases, ltb, ◌==◌, if◌then◌else◌, length,
  length-append, take, arith,
}
use ccoreconf_zcbor.Zcbor.{Decoder, ret}
use ccoreconf_zcbor.Zcbor.Runs.{ret-injective}
use ccoreconf_zcbor.Server.Stream.{StreamEvent, Stream}
use ccoreconf_zcbor.Server.Log.{IsValid, log, length-take}
use ccoreconf_zcbor.Server.Sequence.{flatten, newest}
use ccoreconf_zcbor.Server.Filter.{
  stream_event_matches_filter, add_event, encode_matching, stream_encode_sequence_filtered,
}

-- the events that a test picks
unfoldable pub matching : (StreamEvent → Bool) → List StreamEvent → List StreamEvent
matching hit [] = []
matching hit (e ∷ es) = if hit e then e ∷ matching hit es else matching hit es

length-matching :
    (hit : StreamEvent → Bool) (es : List StreamEvent) → length (matching hit es) ≤ length es
unfolding matching
length-matching hit [] = omega arith
length-matching hit (e ∷ es) = elim (Bool-cases (hit e)) [
  | inl picked ↦ rw picked (omega (arith, length-matching hit es))
  | inr left ↦ rw left (omega (arith, length-matching hit es))
]

module _ (decoder : Decoder) (filter_sids : List ℕ) (hit : StreamEvent → Bool) where
  -- the comparison with the filter returns on these events, with what the test says
  abbrev pub Decides : List StreamEvent → Type 0
  Decides [] = Unit
  Decides (e ∷ es) = (stream_event_matches_filter decoder e filter_sids ≡ ret (hit e)) × Decides es

  encode_matching-flatten :
      (out_sz left : ℕ) (es : List StreamEvent) (out : List ℕ)
      → Decides es
      → length out + length (flatten (take left (matching hit es))) ≤ out_sz
      → encode_matching decoder out_sz filter_sids left es out
        ≡ ret (out ++ flatten (take left (matching hit es)))
  unfolding encode_matching matching
  encode_matching-flatten out_sz zero es out d fits = ap ret (sym (append-nil out))
  encode_matching-flatten out_sz (suc left) [] out d fits = ap ret (sym (append-nil out))
  encode_matching-flatten out_sz (suc left) (none ∷ es) out d fits =
      let never : hit none ≡ false =
        sym (ret-injective (sym (unfold stream_event_matches_filter in refl) ∙ d.0)) in
      rw (never, matching)
        (encode_matching-flatten out_sz (suc left) es out d.1 (rw (never, matching) at fits))
  encode_matching-flatten out_sz (suc left) (some bytes ∷ es) out d fits =
      elim (Bool-cases (hit (some bytes))) [
        | inl picked ↦
            let fits' : length out + length (bytes ++ flatten (take left (matching hit es)))
                ≤ out_sz =
              rw (picked, matching) at fits in
            let apart = length-append bytes (flatten (take left (matching hit es))) in
            let grown = length-append out bytes in
            let room : ltb out_sz (length out + length bytes) ≡ false = ground arith in
            rw (d.0, picked, encode_matching, matching, room, add_event)
              (encode_matching-flatten out_sz left es (out ++ bytes) d.1 (omega arith)
                ∙ ap ret (append_assoc out bytes (flatten (take left (matching hit es)))))
        | inr passed ↦
            rw (d.0, passed, encode_matching, matching)
              (encode_matching-flatten out_sz (suc left) es out d.1 (rw (passed, matching) at fits))
      ]

  take_more :
      (n k : ℕ) (es : List StreamEvent) → length es ≤ n → length es ≤ k → take n es ≡ take k es
  take_more n k es h g = take-all n es h ∙ sym (take-all k es g)

  -- the number of events that the code allows, against the number that is asked for
  allowed :
      (max_items : ℕ) (count : ℕ) (es : List StreamEvent)
      → length es ≤ count
      → take (if max_items == 0 || ltb count max_items then count else max_items) es
        ≡ newest max_items es
  allowed zero count es h = take-all count es h
  allowed (suc m) count es h =
      let positive : (suc m == 0) ≡ false = ground arith in
      elim (Bool-cases (ltb count (suc m))) [
        | inl few ↦ rw (positive, few) (take_more count (suc m) es h (ground arith))
        | inr many ↦ rw (positive, many) refl
      ]

  newest-nil : (n : ℕ) → newest n [] ≡ []
  newest-nil zero = refl
  newest-nil (suc n) = refl

  no_bytes : (xs : List ℕ) → length xs ≤ 0 → [] ≡ xs
  no_bytes [] h = refl
  no_bytes (x ∷ xs) h = absurd (omega arith)

  empty_log : (s : Stream) (n : ℕ) → s.count ≡ 0 → flatten (newest n (matching hit (log s))) ≡ []
  unfolding log matching
  empty_log s n e =
      ap (λ k. flatten (newest n (matching hit (take k s.events)))) e ∙ ap flatten (newest-nil n)

-- Where the comparison with the filter returns on the events of a valid stream, with the answers of
-- `hit`, a FETCH with the filter returns the bytes of the newest events that `hit` picks, as many as
-- are asked for and the newest first, if they fit into the buffer.
pub stream_encode_sequence_filtered-flatten :
    (decoder : Decoder) (out_sz max_items f : ℕ) (filter_sids : List ℕ) (hit : StreamEvent → Bool)
    (s : Stream)
    → IsValid s
    → Decides decoder (f ∷ filter_sids) hit (log s)
    → length (flatten (newest max_items (matching hit (log s)))) ≤ out_sz
    → stream_encode_sequence_filtered decoder (some out_sz) max_items (f ∷ filter_sids) s
      ≡ ret (flatten (newest max_items (matching hit (log s))))
unfolding stream_encode_sequence_filtered log
stream_encode_sequence_filtered-flatten decoder out_sz max_items f filter_sids hit s valid d fits =
    elim (Bool-cases (out_sz == 0)) [
      | inl closed ↦
          rw closed (ap ret (no_bytes decoder (f ∷ filter_sids) hit _ (ground (arith, fits))))
      | inr open' ↦ elim (Bool-cases (s.count == 0)) [
        | inl empty ↦
            rw (open', empty)
              (ap ret (sym (empty_log decoder (f ∷ filter_sids) hit s max_items (ground arith))))
        | inr some_left ↦
            let few : length (matching hit (log s)) ≤ s.count =
              omega (arith, length-matching hit (log s), length-take s.count s.events) in
            let same =
              allowed decoder (f ∷ filter_sids) hit max_items s.count (matching hit (log s)) few in
            rw (open', some_left, ← same)
              (encode_matching-flatten decoder (f ∷ filter_sids) hit out_sz _ (log s) [] d
                (omega (arith, rw (← same) at fits)))
      ]
    ]
