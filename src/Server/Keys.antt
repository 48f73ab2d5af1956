-- ===== src/Server/Keys.antt =====
-- iot_containers/iot_apps/coreconf_server.c: the keys that stand in an event of the stream, and what its
-- comparison with a filter returns.
use ccoreconf_zcbor.Common.{
  Tells, ℕ, zero, suc, ◌≡◌, ◌≢◌, refl, ap, ◌∙◌, List, [], ◌∷◌, ◌++◌, Bool, true, false, Option,
  none, some, inl, inr, ◌⊎◌, if◌then◌else◌, Bool-cases, ◌==◌, length, arith,
}
use mathlib.Core.List.{Memᴰ}
use mathlib.Core.List.Memᴰ.{head, tail, append_left, append_right, append_cases}
use mathlib.Core.Path.{subst}
use ccoreconf_zcbor.Zcbor.{Decoder, Run, ret, bad_read, out_of_fuel, pint, list, major_type}
use ccoreconf_zcbor.Server.Stream.{StreamEvent}
use ccoreconf_zcbor.Server.Filter.{
  stream_sid_in_filter, event_key_value, event_key_sid, event_key_list, event_key, match_pairs,
  match_maps,
}

-- `stream_sid_in_filter` says whether the SID is one of the filter's.
in_filter-Tells :
    (sid : ℕ) (filter_sids : List ℕ)
    → Tells (Memᴰ sid filter_sids) (stream_sid_in_filter sid filter_sids)
unfolding stream_sid_in_filter
in_filter-Tells sid [] = λ m. elim m [ ]
in_filter-Tells sid (f ∷ filter_sids) = elim (Bool-cases (f == sid)) [
  | inl same ↦ let e : sid ≡ f = ground (arith, same) in rw same (head e)
  | inr other ↦
      let apart : sid ≢ f = λ e. ground (arith, other, e) in
      rw other
        (later apart (stream_sid_in_filter sid filter_sids) (in_filter-Tells sid filter_sids))
]
  where
    not_here : sid ≢ f → ¬ Memᴰ sid filter_sids → ¬ Memᴰ sid (f ∷ filter_sids)
    not_here apart h (head e) = apart e
    not_here apart h (tail m) = h m

    later :
        sid ≢ f → (b : Bool) → Tells (Memᴰ sid filter_sids) b → Tells (Memᴰ sid (f ∷ filter_sids)) b
    later apart true h = tail h
    later apart false h = not_here apart h

abbrev pub Shares : List ℕ → List ℕ → Type 0
Shares sids filter_sids = (sid : ℕ) × Memᴰ sid sids × Memᴰ sid filter_sids

abbrev pub Apart : List ℕ → List ℕ → Type 0
Apart sids filter_sids = (sid : ℕ) → Memᴰ sid sids → ¬ Memᴰ sid filter_sids

-- the answer of a comparison
abbrev pub Answer : List ℕ → List ℕ → Run Bool → Type 0
Answer sids filter_sids out_of_fuel = Unit
Answer sids filter_sids bad_read = ⊥
Answer sids filter_sids (ret true) = Shares sids filter_sids
Answer sids filter_sids (ret false) = Apart sids filter_sids

Shares-append_left :
    (sids more filter_sids : List ℕ) → Shares sids filter_sids → Shares (sids ++ more) filter_sids
Shares-append_left sids more filter_sids (q, m, n) = (q, append_left more m, n)

Answer-append :
    (sids more filter_sids : List ℕ) (p : Run Bool)
    → Apart sids filter_sids
    → Answer more filter_sids p
    → Answer (sids ++ more) filter_sids p
Answer-append sids more filter_sids out_of_fuel h k = tt
Answer-append sids more filter_sids bad_read h k = k
Answer-append sids more filter_sids (ret true) h (q, m, n) = (q, append_right sids m, n)
Answer-append sids more filter_sids (ret false) h k =
    λ q m. elim (append_cases sids m) [ inl here ↦ h q here | inr there ↦ k q there ]

module _ (decoder : Decoder) where
  open decoder use {
    State, new_decode_state, payload, uint64_decode, list_start_decode, list_end_decode,
    map_start_decode, map_end_decode, array_at_end, any_skip,
  }

  -- The key at the front is the SID, or a list that starts with the SID.
  pub data KeyIs (s : State) (sid : ℕ) (s' : State) : Type 0 where
    plain_key :
        (header : ℕ) (rest : List ℕ)
        → payload s ≡ header ∷ rest
        → major_type header ≡ pint
        → uint64_decode s ≡ (s', some sid)
        → KeyIs s sid s'
    listed_key :
        (header : ℕ) (rest : List ℕ) (s1 s2 s3 : State)
        → payload s ≡ header ∷ rest
        → major_type header ≡ list
        → list_start_decode s ≡ (s1, true)
        → uint64_decode s1 ≡ (s2, some sid)
        → any_skip s2 ≡ (s3, true)
        → list_end_decode s3 ≡ (s', true)
        → KeyIs s sid s'

  -- The pairs of a map up to its end have these keys.
  pub data PairKeys : State → List ℕ → State → Type 0 where
    no_pair : {s : State} → array_at_end s ≡ true → PairKeys s [] s
    one_pair :
        {s : State} {sids : List ℕ} {end' : State} (sid : ℕ) (s' : State)
        → array_at_end s ≡ false
        → KeyIs s sid s'
        → (any_skip s').1 ≡ true
        → PairKeys (any_skip s').0 sids end'
        → PairKeys s (sid ∷ sids) end'

  -- The maps, one behind the other, have these keys.
  pub data MapsKeys : List ℕ → List ℕ → Type 0 where
    no_map : MapsKeys [] []
    one_map :
        {sids more : List ℕ} (b : ℕ) (bytes : List ℕ) (s' : State)
        → (map_start_decode (new_decode_state 16 (b ∷ bytes) 1)).1 ≡ true
        → PairKeys (map_start_decode (new_decode_state 16 (b ∷ bytes) 1)).0 sids s'
        → MapsKeys (payload (map_end_decode s').0) more
        → MapsKeys (b ∷ bytes) (sids ++ more)

  abbrev pub EventKeys : StreamEvent → List ℕ → Type 0
  EventKeys none sids = ⊥
  EventKeys (some bytes) sids = MapsKeys bytes sids

  event_key-KeyIs :
      {s : State} (sid : ℕ) {s' : State} → KeyIs s sid s' → event_key decoder s ≡ ret (s', some sid)
  unfolding event_key event_key_list event_key_sid event_key_value
  event_key-KeyIs sid (plain_key header rest p t e) = rw (p, event_key, t, e) refl
  event_key-KeyIs sid (listed_key header rest s1 s2 s3 p t a b c d) =
      rw (p, event_key, t)
        (ap (λ r. ret (event_key_list decoder r)) a
          ∙ ap (λ r. ret (event_key_sid decoder r)) b
          ∙ ap (λ r. ret (event_key_value decoder sid r)) c
          ∙ ap (λ r. ret (r.0, if r.1 then some sid else none)) d)

  abbrev Verdict : List ℕ → List ℕ → State → Run (Option State) → Type 0
  Verdict sids filter_sids s' out_of_fuel = Unit
  Verdict sids filter_sids s' bad_read = ⊥
  Verdict sids filter_sids s' (ret none) = Shares sids filter_sids
  Verdict sids filter_sids s' (ret (some t)) = (t ≡ s') × Apart sids filter_sids

  one_more :
      (sid : ℕ) (sids filter_sids : List ℕ) (s' : State) (p : Run (Option State))
      → ¬ Memᴰ sid filter_sids
      → Verdict sids filter_sids s' p
      → Verdict (sid ∷ sids) filter_sids s' p
  one_more sid sids filter_sids s' out_of_fuel h k = tt
  one_more sid sids filter_sids s' bad_read h k = k
  one_more sid sids filter_sids s' (ret none) h (q, m, n) = (q, tail m, n)
  one_more sid sids filter_sids s' (ret (some t)) h (e, k) = (e, neither)
    where
      neither : Apart (sid ∷ sids) filter_sids
      neither q (head same) n = h (subst (λ x. Memᴰ x filter_sids) same n)
      neither q (tail m) n = k q m n

  match_pairs-Verdict :
      (fuel : ℕ) (filter_sids : List ℕ) (s : State) (sids : List ℕ) (s' : State)
      → PairKeys s sids s'
      → Verdict sids filter_sids s' (match_pairs decoder fuel filter_sids s)
  unfolding match_pairs
  match_pairs-Verdict zero filter_sids s _ _ (no_pair e) = rw e (refl, λ q m. elim m [ ])
  match_pairs-Verdict (suc fuel) filter_sids s _ _ (no_pair e) =
      rw (match_pairs, e) (refl, λ q m. elim m [ ])
  match_pairs-Verdict zero filter_sids s _ end' (one_pair sid s' e k j r) = rw e tt
  match_pairs-Verdict (suc fuel) filter_sids s _ end' (one_pair {sids = sids} sid s' e k j r) =
      decided (Bool-cases (stream_sid_in_filter sid filter_sids)) (in_filter-Tells sid filter_sids)
        (match_pairs-Verdict fuel filter_sids (any_skip s').0 sids end' r)
    where
      decided :
          (stream_sid_in_filter sid filter_sids ≡ true)
            ⊎ (stream_sid_in_filter sid filter_sids ≡ false)
          → Tells (Memᴰ sid filter_sids) (stream_sid_in_filter sid filter_sids)
          → Verdict sids filter_sids end' (match_pairs decoder fuel filter_sids (any_skip s').0)
          → Verdict (sid ∷ sids) filter_sids end' (match_pairs decoder (suc fuel) filter_sids s)
      decided (inl hit) l v =
          rw (match_pairs, e, event_key-KeyIs sid k, hit) (sid, head refl, rw hit at l)
      decided (inr miss) l v =
          rw (match_pairs, e, event_key-KeyIs sid k, miss, j)
            (one_more sid sids filter_sids end' _ (rw miss at l) v)

  -- behind the start of a map
  abbrev started : ℕ → List ℕ → State
  started b bytes = (map_start_decode (new_decode_state 16 (b ∷ bytes) 1)).0

  pub match_maps-Answer :
      (fuel : ℕ) (filter_sids bytes sids : List ℕ)
      → MapsKeys bytes sids
      → Answer sids filter_sids (match_maps decoder fuel filter_sids bytes)
  unfolding match_maps
  match_maps-Answer fuel filter_sids _ _ no_map = λ q m. elim m [ ]
  match_maps-Answer zero filter_sids _ _ (one_map b bytes s' start pairs rest) = tt
  match_maps-Answer (suc fuel) filter_sids _ _
        (one_map {sids = sids} {more = more} b bytes s' start pairs rest) =
      decided (match_pairs decoder (length (b ∷ bytes)) filter_sids (started b bytes)) refl
        (match_pairs-Verdict (length (b ∷ bytes)) filter_sids (started b bytes) sids s' pairs)
        (match_maps-Answer fuel filter_sids (payload (map_end_decode s').0) more rest)
    where
      decided :
          (p : Run (Option State))
          → match_pairs decoder (length (b ∷ bytes)) filter_sids (started b bytes) ≡ p
          → Verdict sids filter_sids s' p
          → Answer more filter_sids
              (match_maps decoder fuel filter_sids (payload (map_end_decode s').0))
          → Answer
              (sids ++ more)
              filter_sids
              (match_maps decoder (suc fuel) filter_sids (b ∷ bytes))
      decided out_of_fuel e v k = rw (match_maps, start, e) tt
      decided bad_read e v k = absurd v
      decided (ret none) e v k =
          rw (match_maps, start, e) (Shares-append_left sids more filter_sids v)
      decided (ret (some t)) e (same, apart) k =
          rw (match_maps, start, e, same) (Answer-append sids more filter_sids _ apart k)
