-- ===== src/Server/Stream.antt =====
-- iot_containers/iot_apps/coreconf_server.c: the events of the stream, in an array of 16.
use ccoreconf_zcbor.Common.{
  ℕ, zero, suc, ◌+◌, ◌-◌, List, [], ◌∷◌, ◌++◌, Option, none, some, ◌||◌, ltb, ◌==◌, if◌then◌else◌,
  length, take,
}

abbrev pub stream_max_events : ℕ
stream_max_events = 16

-- `StreamEventT`: its data, `none` for NULL; the field `len` is their number
abbrev pub StreamEvent : Type 0
StreamEvent = Option (List ℕ)

-- `g_stream_events` and `g_stream_event_count`
pub record Stream : Type 0 where
  pub events : List StreamEvent
  pub count : ℕ

-- `g_stream_events[i] = e`
unfoldable pub set_event : List StreamEvent → ℕ → StreamEvent → List StreamEvent
set_event [] i e = []
set_event (d ∷ es) zero e = e ∷ es
set_event (d ∷ es) (suc i) e = d ∷ set_event es i e

-- `g_stream_events[i]`
unfoldable pub event_at : List StreamEvent → ℕ → StreamEvent
event_at [] i = none
event_at (d ∷ es) zero = d
event_at (d ∷ es) (suc i) = event_at es i

-- the loop that moves the events up, from the last one on
unfoldable pub move_events : ℕ → List StreamEvent → List StreamEvent
unfolding set_event event_at
move_events zero es = es
move_events (suc i) es = move_events i (set_event es (suc i) (event_at es i))

-- where all places are taken, the oldest event goes
unfoldable pub make_room : ℕ → ℕ
make_room count = if count == stream_max_events then count - 1 else count

-- The data is `none` for NULL.
unfoldable pub stream_push_event : Option (List ℕ) → Stream → Stream
unfolding make_room move_events set_event
stream_push_event (some (b ∷ bytes)) s =
    let count = make_room s.count in
    record {
      events = set_event (move_events count s.events) 0 (some (b ∷ bytes));
      count = count + 1;
    }
stream_push_event bytes s = s

unfoldable pub clear_first : ℕ → List StreamEvent → List StreamEvent
clear_first zero es = es
clear_first (suc n) [] = []
clear_first (suc n) (e ∷ es) = none ∷ clear_first n es

unfoldable pub stream_clear_events : Stream → Stream
unfolding clear_first
stream_clear_events s = record { events = clear_first s.count s.events; count = 0 }

-- The loop over the events; an event without data is passed over.
unfoldable pub encode_events : ℕ → List StreamEvent → List ℕ → List ℕ
encode_events out_sz [] out = out
encode_events out_sz (none ∷ es) out = encode_events out_sz es out
encode_events out_sz (some [] ∷ es) out = encode_events out_sz es out
encode_events out_sz (some (b ∷ bytes) ∷ es) out =
    let rest = encode_events out_sz es (out ++ (b ∷ bytes)) in
    if ltb out_sz (length out + length (b ∷ bytes)) then out else rest

-- `out` is its size, or `none` for NULL.
unfoldable pub stream_encode_sequence : Option ℕ → ℕ → Stream → List ℕ
unfolding encode_events
stream_encode_sequence none max_items s = []
stream_encode_sequence (some out_sz) max_items s =
    if out_sz == 0 || s.count == 0
    then []
    else (let items = if max_items == 0 || ltb s.count max_items then s.count else max_items in
        encode_events out_sz (take items s.events) [])
