-- ===== src/Server/Log.antt =====
-- iot_containers/iot_apps/coreconf_server.c: the array of events as a list, the newest first.
use ccoreconf_zcbor.Common.{
  take-all, ℕ, zero, suc, ◌+◌, ◌≤◌, ◌<◌, ◌≡◌, refl, sym, ap, ◌∙◌, List, [], ◌∷◌, ◌++◌, append_assoc,
  some, inl, inr, Bool-cases, ◌==◌, length, take, drop, arith,
}
use ccoreconf_zcbor.Server.Stream.{
  StreamEvent, Stream, set_event, event_at, move_events, make_room, stream_push_event,
}

-- all sixteen places are there, and no more are taken
pub record IsValid (s : Stream) : Type 0 where
  pub wide : length (Stream.events s) ≡ 16
  pub few : Stream.count s ≤ 16

-- the abstract log
unfoldable pub log : Stream → List StreamEvent
log s = take s.count s.events

length-set_event :
    (es : List StreamEvent) (i : ℕ) (e : StreamEvent) → length (set_event es i e) ≡ length es
unfolding set_event
length-set_event [] i e = refl
length-set_event (d ∷ es) zero e = refl
length-set_event (d ∷ es) (suc i) e = omega (arith, length-set_event es i e)

take-set_event :
    (es : List StreamEvent) (j i : ℕ) (e : StreamEvent)
    → j ≤ i
    → take j (set_event es i e) ≡ take j es
unfolding set_event
take-set_event es zero i e h = refl
take-set_event [] (suc j) i e h = refl
take-set_event (d ∷ es) (suc j) zero e h = absurd (omega arith)
take-set_event (d ∷ es) (suc j) (suc i) e h =
    ap (λ l. d ∷ l) (take-set_event es j i e (omega arith))

take-suc :
    (es : List StreamEvent) (i : ℕ)
    → i < length es
    → take (suc i) es ≡ take i es ++ (event_at es i ∷ [])
unfolding event_at
take-suc [] i h = absurd (omega arith)
take-suc (d ∷ es) zero h = refl
take-suc (d ∷ es) (suc i) h = ap (λ l. d ∷ l) (take-suc es i (omega arith))

drop-set_event :
    (es : List StreamEvent) (i : ℕ) (e : StreamEvent)
    → i < length es
    → drop i (set_event es i e) ≡ e ∷ drop (suc i) es
unfolding set_event
drop-set_event [] i e h = absurd (omega arith)
drop-set_event (d ∷ es) zero e h = refl
drop-set_event (d ∷ es) (suc i) e h = drop-set_event es i e (omega arith)

-- The loop copies each of the first events one place up.
move_events_lem :
    (n : ℕ) (d : StreamEvent) (es : List StreamEvent)
    → n ≤ length es
    → move_events n (d ∷ es) ≡ d ∷ (take n (d ∷ es) ++ drop n es)
unfolding move_events set_event
move_events_lem zero d es h = refl
move_events_lem (suc n) d es h =
    let x : StreamEvent = event_at (d ∷ es) n in
    move_events_lem n d (set_event es n x) (omega (arith, length-set_event es n x))
    ∙ ap (λ l. d ∷ l)
        (rw (drop-set_event es n x (omega arith)) (
            ap (λ l. l ++ (x ∷ drop (suc n) es))
              (take-set_event (d ∷ es) n (suc n) x (omega arith)))
          ∙ sym (append_assoc (take n (d ∷ es)) (x ∷ []) (drop (suc n) es))
          ∙ ap (λ l. l ++ drop (suc n) es) (sym (take-suc (d ∷ es) n (omega arith))))

take-append : (xs ys : List StreamEvent) → take (length xs) (xs ++ ys) ≡ xs
take-append [] ys = refl
take-append (x ∷ xs) ys = ap (λ l. x ∷ l) (take-append xs ys)

pub length-take : (n : ℕ) (es : List StreamEvent) → n ≤ length es → length (take n es) ≡ n
length-take zero es h = refl
length-take (suc n) [] h = absurd (omega arith)
length-take (suc n) (e ∷ es) h = omega (arith, length-take n es (omega arith))

pub take-take : (m n : ℕ) (es : List StreamEvent) → m ≤ n → take m (take n es) ≡ take m es
take-take zero n es h = refl
take-take (suc m) zero es h = absurd (omega arith)
take-take (suc m) (suc n) [] h = refl
take-take (suc m) (suc n) (e ∷ es) h = ap (λ l. e ∷ l) (take-take m n es (omega arith))

-- What a push makes of the first places, with room for `n` of the old events.
pushed :
    (n : ℕ) (e : StreamEvent) (es : List StreamEvent)
    → n < length es
    → take (suc n) (set_event (move_events n es) 0 e) ≡ e ∷ take n es
unfolding set_event
pushed n e [] h = absurd (omega arith)
pushed n e (d ∷ es) h = rw (move_events_lem n d es (omega arith)) (
    ap (λ l. e ∷ l)
      (ap (λ k. take k (take n (d ∷ es) ++ drop n es)) (sym (length-take n (d ∷ es) (omega arith)))
        ∙ take-append (take n (d ∷ es)) (drop n es)))

length-move_events : (n : ℕ) (es : List StreamEvent) → length (move_events n es) ≡ length es
unfolding move_events
length-move_events zero es = refl
length-move_events (suc n) es = length-move_events n _ ∙ length-set_event es (suc n) (event_at es n)

make_room_lem :
    (s : Stream)
    → IsValid s
    → (make_room s.count < 16) × (take 15 (log s) ≡ take (make_room s.count) s.events)
unfolding make_room log
make_room_lem s valid = elim (Bool-cases (s.count == 16)) [
  | inl full ↦
      let e : s.count ≡ 16 = ground arith in
      rw (full, e) (omega arith, take-take 15 16 s.events (omega arith))
  | inr free ↦
      let fewer : s.count < 16 = ground (arith, valid.few) in
      let exact = length-take s.count s.events (omega (arith, valid.wide)) in
      rw free (fewer, take-all 15 (take s.count s.events) (omega arith))
]

-- A push of bytes onto a valid stream leaves a valid stream whose log is the new event in front of
-- the old ones, of which the oldest goes where there were sixteen.
pub stream_push_event-log :
    (s : Stream) (b : ℕ) (bytes : List ℕ)
    → IsValid s
    → IsValid (stream_push_event (some (b ∷ bytes)) s)
      × (log (stream_push_event (some (b ∷ bytes)) s) ≡ take 16 (some (b ∷ bytes) ∷ log s))
unfolding stream_push_event log
stream_push_event-log s b bytes valid =
    let n = make_room s.count in
    let (room, kept) = make_room_lem s valid in
    let e : StreamEvent = some (b ∷ bytes) in
    let next : n + 1 ≡ suc n = omega arith in
    (
      record {
        wide = omega (
          arith,
          length-set_event (move_events n s.events) 0 e,
          length-move_events n s.events,
          valid.wide,
        );
        few = omega arith;
      },
      ap (λ k. take k (set_event (move_events n s.events) 0 e)) next
          ∙ pushed n e s.events (omega (arith, valid.wide))
          ∙ ap (λ l. e ∷ l) (sym kept),
    )
