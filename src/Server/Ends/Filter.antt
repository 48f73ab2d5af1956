-- ===== src/Server/Ends/Filter.antt =====
-- iot_containers/iot_apps/coreconf_server.c: the loops of the filter end.
use ccoreconf_zcbor.Common.{
  ℕ, zero, suc, ◌≤◌, ◌<◌, ◌≡◌, refl, ap, List, [], ◌∷◌, Bool, true, false, Option, none, some, inl,
  inr, Bool-cases, Option-cases, ◌==◌, if◌then◌else◌, length, take, ltb, ◌||◌, arith,
}
use ccoreconf_zcbor.Zcbor.{
  Decoder, Run, ret, bad_read, out_of_fuel, major_type, pint, list, MajorType,
}
use ccoreconf_zcbor.Zcbor.Runs.{EndsIn, Ends, EndsIn-mono}
use ccoreconf_zcbor.Server.Stream.{StreamEvent, Stream}
use ccoreconf_zcbor.Server.Filter.{
  event_key_value, event_key_sid, event_key_list, event_key, stream_sid_in_filter, match_pairs,
  match_maps, stream_event_matches_filter, add_event, encode_matching,
  stream_encode_sequence_filtered,
}
use ccoreconf_zcbor.Server.Ends.{Scans, left}

module _ (dec : Decoder) where
  open dec use {
    State, new_decode_state, payload, uint64_decode, list_start_decode, list_end_decode,
    map_start_decode, map_end_decode, array_at_end, any_skip,
  }

  module _ (scans : Scans dec) where
    -- a key of an event goes on, and not back
    abbrev Onward : State → State × Option ℕ → Type 0
    Onward s r = left dec r.0 ≤ left dec s

    event_key_value-Onward :
        (sid : ℕ) (s : State) (ok : Bool) → Onward s (event_key_value dec sid (s, ok))
    unfolding event_key_value
    event_key_value-Onward sid s true = scans.list_end s
    event_key_value-Onward sid s false = scans.list_end s

    event_key_sid-Onward : (s : State) (o : Option ℕ) → Onward s (event_key_sid dec (s, o))
    unfolding event_key_sid
    event_key_sid-Onward s none = scans.list_end s
    event_key_sid-Onward s (some sid) =
        omega (arith, scans.skip_back s, event_key_value-Onward sid (any_skip s).0 (any_skip s).1)

    event_key_list-Onward : (s : State) (ok : Bool) → Onward s (event_key_list dec (s, ok))
    unfolding event_key_list
    event_key_list-Onward s false = omega arith
    event_key_list-Onward s true =
        omega (arith, scans.uint64 s, event_key_sid-Onward (uint64_decode s).0 (uint64_decode s).1)

    event_key-EndsIn : (s : State) → EndsIn (Onward s) (event_key dec s)
    unfolding event_key
    event_key-EndsIn s = at (payload s) refl
      where
        by_type :
            (header : ℕ) (bytes : List ℕ) (t : MajorType)
            → payload s ≡ header ∷ bytes
            → major_type header ≡ t
            → EndsIn (Onward s) (event_key dec s)
        by_type header bytes pint e k = rw (e, event_key, k) (scans.uint64 s)
        by_type header bytes list e k =
            rw (e, event_key, k)
              (omega (
                arith,
                scans.list_start s,
                event_key_list-Onward (list_start_decode s).0 (list_start_decode s).1,
              ))
        by_type header bytes _ e k = rw (e, event_key, k) (omega arith)

        at : (bytes : List ℕ) → payload s ≡ bytes → EndsIn (Onward s) (event_key dec s)
        at [] e = rw (e, event_key) tt
        at (header ∷ bytes) e = by_type header bytes (major_type header) e refl

    abbrev Behind : ℕ → Option State → Type 0
    Behind n none = Unit
    Behind n (some s) = left dec s ≤ n

    Behind-weaken : (a b : ℕ) → a ≤ b → (o : Option State) → Behind a o → Behind b o
    Behind-weaken a b h none k = tt
    Behind-weaken a b h (some s) k = omega (arith, k, h)

    match_pairs-EndsIn :
        (fuel : ℕ) (filter_sids : List ℕ) (s : State)
        → left dec s < fuel
        → EndsIn (Behind (left dec s)) (match_pairs dec fuel filter_sids s)
    unfolding match_pairs
    match_pairs-EndsIn zero filter_sids s h = absurd (omega arith)
    match_pairs-EndsIn (suc fuel) filter_sids s h = elim (Bool-cases (array_at_end s)) [
      | inl ended ↦ rw (ended, match_pairs) (omega arith)
      | inr more ↦
          keyed more (match_pairs-EndsIn fuel filter_sids) (event_key dec s) refl
            (event_key-EndsIn s)
    ]
      where
        keyed :
            array_at_end s ≡ false
            → ((s' : State)
                → left dec s' < fuel
                → EndsIn (Behind (left dec s')) (match_pairs dec fuel filter_sids s'))
            → (p : Run (State × Option ℕ)) → event_key dec s ≡ p
            → EndsIn (Onward s) p
            → EndsIn (Behind (left dec s)) (match_pairs dec (suc fuel) filter_sids s)
        keyed more again bad_read e k = rw (more, match_pairs, e) tt
        keyed more again out_of_fuel e k = absurd k
        keyed more again (ret (s', none)) e k = rw (more, match_pairs, e) k
        keyed more again (ret (s', some sid)) e k =
            elim (Bool-cases (stream_sid_in_filter sid filter_sids)) [
              | inl hit ↦ rw (more, match_pairs, e, hit) tt
              | inr miss ↦ elim (Bool-cases ((any_skip s').1)) [
                | inr stuck ↦
                    rw (more, match_pairs, e, miss, stuck) (omega (arith, k, scans.skip_back s'))
                | inl skipped ↦
                    let less : left dec (any_skip s').0 < left dec s =
                      omega (arith, k, scans.skip s' skipped) in
                    rw (more, match_pairs, e, miss, skipped)
                      (EndsIn-mono (Behind (left dec (any_skip s').0)) (Behind (left dec s)) _
                        (Behind-weaken _ _ (omega (arith, less)))
                        (again (any_skip s').0 (omega (arith, less, h))))
              ]
            ]

    match_maps-Ends :
        (fuel : ℕ) (filter_sids bytes : List ℕ)
        → length bytes ≤ fuel
        → Ends (match_maps dec fuel filter_sids bytes)
    unfolding match_maps
    match_maps-Ends fuel filter_sids [] h = tt
    match_maps-Ends zero filter_sids (b ∷ bytes) h = absurd (omega arith)
    match_maps-Ends (suc fuel) filter_sids (b ∷ bytes) h =
        elim (Bool-cases ((map_start_decode (new_decode_state 16 (b ∷ bytes) 1)).1)) [
          | inr refused ↦ rw (refused, match_maps) tt
          | inl started ↦
              let s = (map_start_decode (new_decode_state 16 (b ∷ bytes) 1)).0 in
              let less : left dec s < length (b ∷ bytes) = omega (
                arith,
                scans.map_start (new_decode_state 16 (b ∷ bytes) 1) started,
                ap length (scans.fresh 16 (b ∷ bytes) 1),
              ) in
              paired started less (match_maps-Ends fuel filter_sids)
                (match_pairs dec (length (b ∷ bytes)) filter_sids s) refl
                (match_pairs-EndsIn (length (b ∷ bytes)) filter_sids s less)
        ]
      where
        paired :
            (map_start_decode (new_decode_state 16 (b ∷ bytes) 1)).1 ≡ true
            → left dec (map_start_decode (new_decode_state 16 (b ∷ bytes) 1)).0 < length (b ∷ bytes)
            → ((rest : List ℕ) → length rest ≤ fuel → Ends (match_maps dec fuel filter_sids rest))
            → (p : Run (Option State))
            → match_pairs dec
                (length (b ∷ bytes))
                filter_sids
                (map_start_decode (new_decode_state 16 (b ∷ bytes) 1)).0
              ≡ p
            → EndsIn (Behind (left dec (map_start_decode (new_decode_state 16 (b ∷ bytes) 1)).0)) p
            → Ends (match_maps dec (suc fuel) filter_sids (b ∷ bytes))
        paired started less again bad_read e k = rw (started, match_maps, e) tt
        paired started less again out_of_fuel e k = absurd k
        paired started less again (ret none) e k = rw (started, match_maps, e) tt
        paired started less again (ret (some s')) e k =
            rw (started, match_maps, e)
              (again (payload (map_end_decode s').0) (omega (arith, k, less, h, scans.map_end s')))

    pub matches_filter-Ends :
        (event : StreamEvent) (filter_sids : List ℕ)
        → Ends (stream_event_matches_filter dec event filter_sids)
    unfolding stream_event_matches_filter
    matches_filter-Ends none filter_sids = tt
    matches_filter-Ends (some []) filter_sids = tt
    matches_filter-Ends (some (b ∷ bytes)) [] = tt
    matches_filter-Ends (some (b ∷ bytes)) (f ∷ filter_sids) =
        match_maps-Ends (length (b ∷ bytes)) (f ∷ filter_sids) (b ∷ bytes) (omega arith)

    encode_matching-Ends :
        (out_sz : ℕ) (filter_sids : List ℕ) (count : ℕ) (es : List StreamEvent) (out : List ℕ)
        → Ends (encode_matching dec out_sz filter_sids count es out)
    unfolding encode_matching
    encode_matching-Ends out_sz filter_sids zero es out = tt
    encode_matching-Ends out_sz filter_sids (suc count) [] out = tt
    encode_matching-Ends out_sz filter_sids (suc count) (e ∷ es) out =
        matched (encode_matching-Ends out_sz filter_sids (suc count) es out)
          (encode_matching-Ends out_sz filter_sids count es)
          (stream_event_matches_filter dec e filter_sids) refl (matches_filter-Ends e filter_sids)
      where
        matched :
            Ends (encode_matching dec out_sz filter_sids (suc count) es out)
            → ((out' : List ℕ) → Ends (encode_matching dec out_sz filter_sids count es out'))
            → (p : Run Bool) → stream_event_matches_filter dec e filter_sids ≡ p
            → Ends p
            → Ends (encode_matching dec out_sz filter_sids (suc count) (e ∷ es) out)
        matched over again bad_read k h = rw (k, encode_matching) tt
        matched over again out_of_fuel k h = absurd h
        matched over again (ret false) k h = rw (k, encode_matching) over
        matched over again (ret true) k h = elim (Option-cases (add_event dec out_sz out e)) [
          | inl full ↦ rw (k, encode_matching, full) tt
          | inr (out', added) ↦ rw (k, encode_matching, added) (again out')
        ]

    -- The sequence for a FETCH with a filter is found.
    pub filtered-Ends :
        (out : Option ℕ) (max_items : ℕ) (filter_sids : List ℕ) (s : Stream)
        → Ends (stream_encode_sequence_filtered dec out max_items filter_sids s)
    unfolding stream_encode_sequence_filtered
    filtered-Ends none max_items filter_sids s = tt
    filtered-Ends (some out_sz) max_items [] s = tt
    filtered-Ends (some out_sz) max_items (f ∷ filter_sids) s =
        elim (Bool-cases (out_sz == 0 || s.count == 0)) [
          | inl nothing ↦ rw nothing tt
          | inr something ↦ rw something (
              encode_matching-Ends out_sz (f ∷ filter_sids)
                (if max_items == 0 || ltb s.count max_items then s.count else max_items)
                (take s.count s.events) [])
        ]
