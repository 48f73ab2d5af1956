-- ===== src/Server/Picked.antt =====
-- iot_containers/iot_apps/coreconf_server.c: the events that a FETCH of the stream with a filter
-- returns, by the keys that stand in them.
use ccoreconf_zcbor.Common.{
  ℕ, ◌≤◌, ◌≡◌, refl, sym, ap, ◌∙◌, List, [], ◌∷◌, Bool, true, false, none, some, inl, inr,
  Bool-cases, length,
}
use mathlib.Core.List.{Memᴰ}
use mathlib.Core.Path.{subst}
use ccoreconf_zcbor.Zcbor.{Decoder, Run, ret, bad_read, out_of_fuel}
use ccoreconf_zcbor.Zcbor.Runs.{Ends}
use ccoreconf_zcbor.Server.Stream.{StreamEvent, Stream}
use ccoreconf_zcbor.Server.Log.{IsValid, log}
use ccoreconf_zcbor.Server.Sequence.{flatten, newest}
use ccoreconf_zcbor.Server.Filter.{stream_event_matches_filter, stream_encode_sequence_filtered}
use ccoreconf_zcbor.Server.Filtered.{matching, Decides, stream_encode_sequence_filtered-flatten}
use ccoreconf_zcbor.Server.Ends.{Scans}
use ccoreconf_zcbor.Server.Ends.Filter.{matches_filter-Ends}
use ccoreconf_zcbor.Server.Keys.{no_map, EventKeys, Shares, Apart, Answer, match_maps-Answer}

module _ (decoder : Decoder) where
  -- Of the events, those that have a key in the filter.
  pub data Picked (filter_sids : List ℕ) : List StreamEvent → List StreamEvent → Type 0 where
    nothing : Picked filter_sids [] []
    picks :
        {es picked : List StreamEvent} (e : StreamEvent) (sids : List ℕ) (sid : ℕ)
        → EventKeys decoder e sids
        → Memᴰ sid sids
        → Memᴰ sid filter_sids
        → Picked filter_sids es picked
        → Picked filter_sids (e ∷ es) (e ∷ picked)
    passes :
        {es picked : List StreamEvent} (e : StreamEvent) (sids : List ℕ)
        → EventKeys decoder e sids
        → ((sid : ℕ) → Memᴰ sid sids → ¬ Memᴰ sid filter_sids)
        → Picked filter_sids es picked
        → Picked filter_sids (e ∷ es) picked

  abbrev said : Run Bool → Bool
  said (ret b) = b
  said _ = false

  -- what the code says of an event
  abbrev hit : List ℕ → StreamEvent → Bool
  hit filter_sids e = said (stream_event_matches_filter decoder e filter_sids)

  Says : List ℕ → List ℕ → Bool → Type 0
  Says sids filter_sids true = Shares sids filter_sids
  Says sids filter_sids false = Apart sids filter_sids

  returned :
      (sids filter_sids : List ℕ) (p : Run Bool)
      → Ends p
      → Answer sids filter_sids p
      → (p ≡ ret (said p)) × Says sids filter_sids (said p)
  unfolding Says
  returned sids filter_sids out_of_fuel h k = absurd h
  returned sids filter_sids bad_read h k = absurd k
  returned sids filter_sids (ret true) h k = (refl, k)
  returned sids filter_sids (ret false) h k = (refl, k)

  module _ (scans : Scans decoder) (f : ℕ) (filter_sids : List ℕ) where
    event_decided :
        (e : StreamEvent) (sids : List ℕ)
        → EventKeys decoder e sids
        → (stream_event_matches_filter decoder e (f ∷ filter_sids) ≡ ret (hit (f ∷ filter_sids) e))
          × Says sids (f ∷ filter_sids) (hit (f ∷ filter_sids) e)
    unfolding stream_event_matches_filter
    event_decided none sids h = absurd h
    event_decided (some []) _ no_map = unfold Says in (refl, λ q m. elim m [ ])
    event_decided (some (b ∷ bytes)) sids h =
        returned sids (f ∷ filter_sids) _
          (matches_filter-Ends decoder scans (some (b ∷ bytes)) (f ∷ filter_sids))
          (match_maps-Answer decoder (length (b ∷ bytes)) (f ∷ filter_sids) (b ∷ bytes) sids h)

    Picked-matching :
        (es picked : List StreamEvent)
        → Picked (f ∷ filter_sids) es picked
        → Decides decoder (f ∷ filter_sids) (hit (f ∷ filter_sids)) es
          × (matching (hit (f ∷ filter_sids)) es ≡ picked)
    unfolding matching Says
    Picked-matching _ _ nothing = (tt, refl)
    Picked-matching _ _ (picks {es = es} {picked = picked} e sids q keys m n p) =
        let (d, said) = event_decided e sids keys in
        let (ds, same) = Picked-matching es picked p in
        elim (Bool-cases (hit (f ∷ filter_sids) e)) [
          | inl hits ↦ ((d, ds), rw (matching, hits) (ap (λ l. e ∷ l) same))
          | inr misses ↦ absurd ((rw misses at said) q m n)
        ]
    Picked-matching _ _ (passes {es = es} {picked = picked} e sids keys apart p) =
        let (d, said) = event_decided e sids keys in
        let (ds, same) = Picked-matching es picked p in
        elim (Bool-cases (hit (f ∷ filter_sids) e)) [
          | inl hits ↦ let (q, m, n) = rw hits at said in absurd (apart q m n)
          | inr misses ↦ ((d, ds), rw (matching, misses) same)
        ]

-- A FETCH of a valid stream with a filter, whose events are maps with SIDs, or lists that start with
-- a SID, as their keys, returns the bytes of the newest of those events that have a key in the
-- filter, as many as are asked for and the newest first, if they fit into the buffer. A read of the
-- decoder goes on where it succeeds, and does not go back.
pub stream_encode_sequence_filtered-Picked :
    (decoder : Decoder) (out_sz max_items f : ℕ) (filter_sids : List ℕ) (s : Stream)
    (picked : List StreamEvent)
    → Scans decoder
    → IsValid s
    → Picked decoder (f ∷ filter_sids) (log s) picked
    → length (flatten (newest max_items picked)) ≤ out_sz
    → stream_encode_sequence_filtered decoder (some out_sz) max_items (f ∷ filter_sids) s
      ≡ ret (flatten (newest max_items picked))
stream_encode_sequence_filtered-Picked decoder out_sz max_items f filter_sids s picked scans valid p
      fits =
    let (decided, same) = Picked-matching decoder scans f filter_sids (log s) picked p in
    let told = hit decoder (f ∷ filter_sids) in
    let fits' : length (flatten (newest max_items (matching told (log s)))) ≤ out_sz =
      subst (λ l. length (flatten (newest max_items l)) ≤ out_sz) (sym same) fits in
    stream_encode_sequence_filtered-flatten decoder out_sz max_items f filter_sids told s valid
      decided fits'
    ∙ ap (λ l. ret (flatten (newest max_items l))) same
