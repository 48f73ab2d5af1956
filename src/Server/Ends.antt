-- ===== src/Server/Ends.antt =====
-- iot_containers/iot_apps/coreconf_server.c: the loops over what a change pushes end.
pub mod Filter
pub mod Handlers
pub mod Requests
use ccoreconf_zcbor.Common.{
  ℕ, zero, suc, ◌+◌, ◌≤◌, ◌<◌, ◌≡◌, refl, ap, List, [], ◌∷◌, Bool, true, false, ◌&&◌, not, Option,
  none, some, inl, inr, Bool-cases, Option-cases, ◌==◌, if◌then◌else◌, length, take, ltb, ◌||◌,
  arith,
}
use ccoreconf_zcbor.Zcbor.{
  Decoder, Run, ret, bad_read, out_of_fuel, ◌>>=◌, major_type, pint, nint, bstr, tstr, list, map,
  tag, simple, MajorType,
}
use ccoreconf_zcbor.Zcbor.Runs.{EndsIn, Ends, bind-EndsIn, EndsIn-mono}
use ccoreconf_zcbor.Server.Stream.{StreamEvent, Stream}
use ccoreconf_zcbor.Server.Notify.{
  first_key, stream_extract_first_sid_from_map, stream_push_notification_map, skip_pairs,
  behind_map, push_front, push_rest, push_maps, stream_push_notification_sequence,
}
use ccoreconf_zcbor.Server.Filter.{
  event_key_value, event_key_sid, event_key_list, event_key, stream_sid_in_filter, match_pairs,
  match_maps, stream_event_matches_filter, add_event, encode_matching,
  stream_encode_sequence_filtered,
}

module _ (dec : Decoder) where
  open dec use {
    State, new_decode_state, payload, uint64_decode, list_start_decode, list_end_decode,
    map_start_decode, map_end_decode, array_at_end, any_skip,
  }

  abbrev pub left : State → ℕ
  left s = length (payload s)

  -- A state starts at the bytes that it is given, the start of a map and the skipping of a value read
  -- a byte at least where they succeed, and no call goes back.
  pub record Scans : Type 0 where
    pub fresh : (b : ℕ) (bytes : List ℕ) (e : ℕ) → payload (new_decode_state b bytes e) ≡ bytes
    pub map_start :
        (s : State) → (map_start_decode s).1 ≡ true → left (map_start_decode s).0 < left s
    pub skip : (s : State) → (any_skip s).1 ≡ true → left (any_skip s).0 < left s
    pub skip_back : (s : State) → left (any_skip s).0 ≤ left s
    pub map_end : (s : State) → left (map_end_decode s).0 ≤ left s
    pub uint64 : (s : State) → left (uint64_decode s).0 ≤ left s
    pub list_start : (s : State) → left (list_start_decode s).0 ≤ left s
    pub list_end : (s : State) → left (list_end_decode s).0 ≤ left s

  module _ (scans : Scans) where
    skip_pairs-EndsIn :
        (fuel : ℕ) (s : State)
        → left s < fuel
        → EndsIn (λ s'. left s' ≤ left s) (skip_pairs dec fuel s)
    unfolding skip_pairs
    skip_pairs-EndsIn zero s h = absurd (omega arith)
    skip_pairs-EndsIn (suc fuel) s h = elim (Bool-cases (array_at_end s)) [
      | inl ended ↦ rw (ended, skip_pairs) (omega arith)
      | inr more ↦ elim (Bool-cases ((any_skip s).1)) [
        | inr stuck ↦ rw (more, stuck, skip_pairs) (scans.skip_back s)
        | inl key ↦ elim (Bool-cases ((any_skip (any_skip s).0).1)) [
          | inr stuck ↦
              rw (more, key, stuck, skip_pairs)
                (omega (arith, scans.skip_back s, scans.skip_back (any_skip s).0))
          | inl value ↦
              let less : left (any_skip (any_skip s).0).0 < left s =
                omega (arith, scans.skip s key, scans.skip_back (any_skip s).0) in
              rw (more, key, value, skip_pairs)
                (EndsIn-mono (λ s'. left s' ≤ left (any_skip (any_skip s).0).0)
                  (λ s'. left s' ≤ left s) _ (λ s' k. omega (arith, k, less))
                  (skip_pairs-EndsIn fuel (any_skip (any_skip s).0).0 (omega (arith, less, h))))
        ]
      ]
    ]

    -- what is left behind a map at the front is shorter
    abbrev Shorter : ℕ → Option (List ℕ) → Type 0
    Shorter n none = Unit
    Shorter n (some rest) = length rest < n

    behind_map-EndsIn : (bytes : List ℕ) → EndsIn (Shorter (length bytes)) (behind_map dec bytes)
    unfolding behind_map
    behind_map-EndsIn bytes =
        let s = new_decode_state 8 bytes 1 in
        let start : left s ≡ length bytes = ap length (scans.fresh 8 bytes 1) in
        elim (Bool-cases ((map_start_decode s).1)) [
          | inr refused ↦ rw refused tt
          | inl started ↦ rw started (
              bind-EndsIn (λ s'. left s' ≤ left (map_start_decode s).0) (Shorter (length bytes)) _ _
                (skip_pairs-EndsIn (length bytes) (map_start_decode s).0
                  (omega (arith, scans.map_start s started)))
                (λ s' h. elim (Bool-cases ((map_end_decode s').1)) [
                  | inl ended ↦
                      rw ended (omega (arith, scans.map_start s started, scans.map_end s'))
                  | inr open' ↦ rw open' tt
                ]))
        ]

    first_key-Ends : (fallback : ℕ) (s : State) → Ends (first_key dec fallback s)
    unfolding first_key
    first_key-Ends fallback s = at (payload s) refl
      where
        by_type :
            (header : ℕ) (bytes : List ℕ) (t : MajorType)
            → payload s ≡ header ∷ bytes
            → major_type header ≡ t
            → Ends (first_key dec fallback s)
        by_type header bytes pint e k = rw (e, first_key, k) tt
        by_type header bytes list e k = rw (e, first_key, k) tt
        by_type header bytes _ e k = rw (e, first_key, k) tt

        at : (bytes : List ℕ) → payload s ≡ bytes → Ends (first_key dec fallback s)
        at [] e = rw (e, first_key) tt
        at (header ∷ bytes) e = by_type header bytes (major_type header) e refl

    push_map-Ends :
        (sys_module : ℕ) (o : Option (List ℕ)) (stream : Stream)
        → Ends (stream_push_notification_map dec sys_module o stream)
    unfolding stream_push_notification_map
    push_map-Ends sys_module none stream = tt
    push_map-Ends sys_module (some []) stream = tt
    push_map-Ends sys_module (some (b ∷ bytes)) stream =
        bind-EndsIn (λ sid. Unit) (λ s. Unit) _ _ extracted (λ sid h. tt)
      where
        extracted : Ends (stream_extract_first_sid_from_map dec (some (b ∷ bytes)) sys_module)
        extracted =
            unfold stream_extract_first_sid_from_map in
            elim (Bool-cases (
              (map_start_decode (new_decode_state 8 (b ∷ bytes) 1)).1
              && not (array_at_end (map_start_decode (new_decode_state 8 (b ∷ bytes) 1)).0))) [
                | inl found ↦ rw found (first_key-Ends sys_module _)
                | inr none' ↦ rw none' tt
              ]

    push_front-Ends :
        (sys_module : ℕ) (again : Stream → Run Stream) (bytes : List ℕ) (stream : Stream)
        → ((s : Stream) → Ends (again s))
        → Ends (push_front dec sys_module again bytes stream)
    unfolding push_front
    push_front-Ends sys_module again [] stream h = tt
    push_front-Ends sys_module again (b ∷ bytes) stream h =
        bind-EndsIn (λ s. Unit) (λ s. Unit) _ again
          (push_map-Ends sys_module (some (b ∷ bytes)) stream) (λ s k. h s)

    push_maps-Ends :
        (fuel sys_module : ℕ) (bytes : List ℕ) (stream : Stream)
        → length bytes ≤ fuel
        → Ends (push_maps dec fuel sys_module bytes stream)
    unfolding push_maps push_rest
    push_maps-Ends fuel sys_module [] stream h = tt
    push_maps-Ends zero sys_module (b ∷ bytes) stream h = absurd (omega arith)
    push_maps-Ends (suc fuel) sys_module (b ∷ bytes) stream h =
        let again = push_maps-Ends fuel sys_module in
        bind-EndsIn (Shorter (length (b ∷ bytes))) (λ s. Unit) (behind_map dec (b ∷ bytes)) _
          (behind_map-EndsIn (b ∷ bytes)) (rest again)
      where
        rest :
            ((rest : List ℕ) (s : Stream)
              → length rest ≤ fuel
              → Ends (push_maps dec fuel sys_module rest s))
            → (o : Option (List ℕ)) → Shorter (length (b ∷ bytes)) o
            → Ends (push_rest dec sys_module (push_maps dec fuel sys_module) (b ∷ bytes) stream o)
        rest again none k = tt
        rest again (some r) k =
            push_front-Ends sys_module (push_maps dec fuel sys_module r) _ stream
              (λ s. again r s (omega (arith, k, h)))

    -- The push of a sequence ends.
    pub push_sequence-Ends :
        (sys_module : ℕ) (o : Option (List ℕ)) (stream : Stream)
        → Ends (stream_push_notification_sequence dec sys_module o stream)
    unfolding stream_push_notification_sequence
    push_sequence-Ends sys_module none stream = tt
    push_sequence-Ends sys_module (some bytes) stream =
        push_maps-Ends (length bytes) sys_module bytes stream (omega arith)
