-- ===== src/Tests/Server.antt =====
-- The theorems on the server's stream, at small inputs.
use ccoreconf_zcbor.Common.{◌≤◌, ◌≡◌, refl, [], ◌∷◌, some, length, take, arith}
use ccoreconf_zcbor.Server.Uint.{
  cbor_encode_uint, wrap_instance, stream_wrap_notification_instance, encode_error,
}
use ccoreconf_zcbor.Server.Reads.{
  read_instance, stream_wrap_notification_instance-reads, length-written,
}
use ccoreconf_zcbor.Server.Stream.{
  Stream, stream_push_event, stream_clear_events, stream_encode_sequence,
}
use ccoreconf_zcbor.Server.Log.{IsValid, log, stream_push_event-log}
use ccoreconf_zcbor.Server.Sequence.{
  Reached, starts, goes_on, pushes, clears, initial_stream, flatten, newest, Reached-IsValid,
  stream_encode_sequence-flatten,
}

stream_wrap_notification_instance-reads_example :
    read_instance (stream_wrap_notification_instance (some 64) 60010 (some (161 ∷ 1 ∷ 2 ∷ [])))
    ≡ some (60010, 161 ∷ 1 ∷ 2 ∷ [])
stream_wrap_notification_instance-reads_example =
    stream_wrap_notification_instance-reads 64 60010 161 (1 ∷ 2 ∷ []) (omega arith) (omega arith)

length-written_example :
    (length (cbor_encode_uint (some 3) 65536) ≤ 3)
    × (length (wrap_instance (some 3) 65536 (some (160 ∷ []))).0 ≤ 3)
    × ((wrap_instance (some 3) 65536 (some (160 ∷ []))).1
        ≤ length (wrap_instance (some 3) 65536 (some (160 ∷ []))).0)
    × (length (encode_error 3 65536 (110 ∷ 111 ∷ [])) ≤ 3)
length-written_example = length-written 3 65536 (110 ∷ 111 ∷ []) (some (160 ∷ []))

-- The key of a notification stays in a buffer that the payload does not fit into.
key_left_behind : wrap_instance (some 3) 10 (some (160 ∷ 1 ∷ [])) ≡ (161 ∷ 10 ∷ [], 0)
unfolding wrap_instance
key_left_behind = refl

-- three events, the stream cleared behind the first
abbrev stream : Stream
stream = stream_push_event (some (3 ∷ [])) (
    stream_push_event (some (2 ∷ []))
      (stream_clear_events (stream_push_event (some (1 ∷ [])) initial_stream)))

stream-Reached : Reached stream
stream-Reached =
    goes_on
      (goes_on (goes_on (goes_on starts (pushes (some (1 ∷ [])))) clears) (pushes (some (2 ∷ []))))
      (pushes (some (3 ∷ [])))

stream-IsValid : IsValid stream
stream-IsValid = (Reached-IsValid stream stream-Reached).0

stream_push_event-log_example :
    IsValid (stream_push_event (some (4 ∷ [])) stream)
    × (log (stream_push_event (some (4 ∷ [])) stream) ≡ take 16 (some (4 ∷ []) ∷ log stream))
stream_push_event-log_example = stream_push_event-log stream 4 [] stream-IsValid

newest_fit : length (flatten (newest 8 (log stream))) ≤ 100
unfolding log stream_push_event stream_clear_events initial_stream
newest_fit = omega arith

stream_encode_sequence-flatten_example :
    stream_encode_sequence (some 100) 8 stream ≡ flatten (newest 8 (log stream))
stream_encode_sequence-flatten_example =
    stream_encode_sequence-flatten 100 8 stream stream-IsValid newest_fit
