-- ===== src/Server/Sequence.antt =====
-- iot_containers/iot_apps/coreconf_server.c: the sequence of events that a GET of the stream returns,
-- and the states of the stream that the server reaches.
use ccoreconf_zcbor.Common.{
  take-all, ℕ, zero, suc, ◌+◌, ◌≤◌, ◌≡◌, refl, sym, ap, ◌∙◌, List, [], ◌∷◌, ◌++◌, append_assoc,
  append-nil, Option, none, some, inl, inr, false, ◌||◌, Bool-cases, ltb, ◌==◌, if◌then◌else◌,
  length, length-append, take, arith,
}
use mathlib.Core.Path.{subst}
use ccoreconf_zcbor.Server.Stream.{
  StreamEvent, Stream, stream_push_event, clear_first, stream_clear_events, encode_events,
  stream_encode_sequence,
}
use ccoreconf_zcbor.Server.Log.{IsValid, log, take-take, length-take, stream_push_event-log}

-- the bytes of the events, one after the other
abbrev pub flatten : List StreamEvent → List ℕ
flatten [] = []
flatten (none ∷ es) = flatten es
flatten (some bytes ∷ es) = bytes ++ flatten es

encode_events-flatten :
    (out_sz : ℕ) (es : List StreamEvent) (out : List ℕ)
    → length out + length (flatten es) ≤ out_sz
    → encode_events out_sz es out ≡ out ++ flatten es
unfolding encode_events
encode_events-flatten out_sz [] out h = sym (append-nil out)
encode_events-flatten out_sz (none ∷ es) out h = encode_events-flatten out_sz es out h
encode_events-flatten out_sz (some [] ∷ es) out h = encode_events-flatten out_sz es out h
encode_events-flatten out_sz (some (b ∷ bytes) ∷ es) out h =
    let apart = length-append (b ∷ bytes) (flatten es) in
    let grown = length-append out (b ∷ bytes) in
    let fits : ltb out_sz (length out + length (b ∷ bytes)) ≡ false = ground arith in
    rw fits (
      encode_events-flatten out_sz es (out ++ (b ∷ bytes)) (omega arith)
      ∙ append_assoc out (b ∷ bytes) (flatten es))

length-encode_events :
    (out_sz : ℕ) (es : List StreamEvent) (out : List ℕ)
    → length out ≤ out_sz
    → length (encode_events out_sz es out) ≤ out_sz
unfolding encode_events
length-encode_events out_sz [] out h = h
length-encode_events out_sz (none ∷ es) out h = length-encode_events out_sz es out h
length-encode_events out_sz (some [] ∷ es) out h = length-encode_events out_sz es out h
length-encode_events out_sz (some (b ∷ bytes) ∷ es) out h =
    elim (Bool-cases (ltb out_sz (length out + length (b ∷ bytes)))) [
      | inl over ↦ rw over h
      | inr fits ↦
          let grown = length-append out (b ∷ bytes) in
          let room : length out + length (b ∷ bytes) ≤ out_sz = ground arith in
          rw fits (length-encode_events out_sz es (out ++ (b ∷ bytes)) (omega arith))
    ]

-- the newest events, as many as are asked for; 0 asks for all
abbrev pub newest : ℕ → List StreamEvent → List StreamEvent
newest zero es = es
newest (suc n) es = take (suc n) es

no_bytes : (xs : List ℕ) → length xs ≤ 0 → [] ≡ xs
no_bytes [] h = refl
no_bytes (x ∷ xs) h = absurd (omega arith)

newest-nil : (n : ℕ) → newest n [] ≡ []
newest-nil zero = refl
newest-nil (suc n) = refl

newest_lem :
    (s : Stream) (max_items : ℕ)
    → IsValid s
    → take (if max_items == 0 || ltb s.count max_items then s.count else max_items) s.events
      ≡ newest max_items (log s)
unfolding log
newest_lem s zero valid = refl
newest_lem s (suc m) valid =
    let exact = length-take s.count s.events (omega (arith, valid.few, valid.wide)) in
    let positive : (suc m == 0) ≡ false = ground arith in
    elim (Bool-cases (ltb s.count (suc m))) [
      | inl few ↦ rw (positive, few) (sym (take-all (suc m) (take s.count s.events) (ground arith)))
      | inr many ↦ rw (positive, many) (sym (take-take (suc m) s.count s.events (ground arith)))
    ]

newest-empty : (s : Stream) (n : ℕ) → s.count ≡ 0 → flatten (newest n (log s)) ≡ []
unfolding log
newest-empty s n e = ap (λ k. flatten (newest n (take k s.events))) e ∙ ap flatten (newest-nil n)

-- For a valid stream, the sequence that a GET returns is the bytes of the newest events, as many as
-- are asked for and the newest first, if they fit into the buffer.
pub stream_encode_sequence-flatten :
    (out_sz max_items : ℕ) (s : Stream)
    → IsValid s
    → length (flatten (newest max_items (log s))) ≤ out_sz
    → stream_encode_sequence (some out_sz) max_items s ≡ flatten (newest max_items (log s))
unfolding stream_encode_sequence
stream_encode_sequence-flatten out_sz max_items s valid h = elim (Bool-cases (out_sz == 0)) [
  | inl closed ↦ rw closed (no_bytes _ (ground (arith, h)))
  | inr open' ↦ elim (Bool-cases (s.count == 0)) [
    | inl empty ↦ rw (open', empty) (sym (newest-empty s max_items (ground arith)))
    | inr some_left ↦
        rw (open', some_left)
          (ap (λ l. encode_events out_sz l []) (newest_lem s max_items valid)
            ∙ encode_events-flatten out_sz (newest max_items (log s)) [] (omega (arith, h)))
  ]
]

-- The sequence never passes the end of its buffer.
pub length-stream_encode_sequence :
    (out_sz max_items : ℕ) (s : Stream)
    → length (stream_encode_sequence (some out_sz) max_items s) ≤ out_sz
unfolding stream_encode_sequence
length-stream_encode_sequence out_sz max_items s = elim (Bool-cases (out_sz == 0 || s.count == 0)) [
  | inl nothing ↦ rw nothing (omega arith)
  | inr something ↦
      let items = if max_items == 0 || ltb s.count max_items then s.count else max_items in
      rw something (length-encode_events out_sz (take items s.events) [] (omega arith))
]

-- What the server does to the stream: `bytes` is what a notification brings.
pub data Step : Stream → Stream → Type 0 where
  pushes : {s : Stream} (bytes : Option (List ℕ)) → Step s (stream_push_event bytes s)
  clears : {s : Stream} → Step s (stream_clear_events s)

unfoldable pub no_events : ℕ → List StreamEvent
no_events zero = []
no_events (suc n) = none ∷ no_events n

-- the zeroed array at the start
unfoldable pub initial_stream : Stream
unfolding no_events
initial_stream = record { events = no_events 16; count = 0 }

pub data Reached : Stream → Type 0 where
  starts : Reached initial_stream
  goes_on : {s s' : Stream} → Reached s → Step s s' → Reached s'

-- every event has bytes
abbrev pub AllFull : List StreamEvent → Type 0
AllFull [] = Unit
AllFull (none ∷ es) = ⊥
AllFull (some [] ∷ es) = ⊥
AllFull (some (b ∷ bytes) ∷ es) = AllFull es

take-AllFull : (n : ℕ) (es : List StreamEvent) → AllFull es → AllFull (take n es)
take-AllFull zero es h = tt
take-AllFull (suc n) [] h = tt
take-AllFull (suc n) (some (b ∷ bytes) ∷ es) h = take-AllFull n es h
take-AllFull (suc n) (none ∷ es) h = absurd h
take-AllFull (suc n) (some [] ∷ es) h = absurd h

length-clear_first : (n : ℕ) (es : List StreamEvent) → length (clear_first n es) ≡ length es
unfolding clear_first
length-clear_first zero es = refl
length-clear_first (suc n) [] = refl
length-clear_first (suc n) (e ∷ es) = omega (arith, length-clear_first n es)

Step-IsValid :
    {s s' : Stream} → Step s s' → IsValid s × AllFull (log s) → IsValid s' × AllFull (log s')
unfolding stream_push_event stream_clear_events log
Step-IsValid (pushes none) h = h
Step-IsValid (pushes (some [])) h = h
Step-IsValid (pushes {s} (some (b ∷ bytes))) h =
    let (valid, shown) = stream_push_event-log s b bytes h.0 in
    (valid, subst AllFull (sym shown) (take-AllFull 16 (some (b ∷ bytes) ∷ log s) h.1))
Step-IsValid (clears {s}) h = (
  record { wide = omega (arith, length-clear_first s.count s.events, h.0.wide); few = omega arith },
  tt,
)

-- Whatever the server pushes, and whenever it clears the stream, the stream is valid: at most sixteen
-- events are counted, and each of them has bytes.
pub Reached-IsValid : (s : Stream) → Reached s → IsValid s × AllFull (log s)
unfolding initial_stream log
Reached-IsValid _ starts = (record { wide = refl; few = omega arith }, tt)
Reached-IsValid _ (goes_on r step) = Step-IsValid step (Reached-IsValid _ r)
