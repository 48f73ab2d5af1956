-- ===== src/Server/Uint.antt =====
-- iot_containers/iot_apps/coreconf_server.c: the CBOR that the server writes by hand. A buffer is its
-- size, or `none` for NULL; the result is the bytes that a function writes, none where it returns 0
-- without having written.
use ccoreconf_zcbor.Common.{
  ℕ, zero, suc, ◌+◌, ◌-◌, ◌/◌, ◌%◌, ◌^◌, List, [], ◌∷◌, ◌++◌, Option, none, some, ltb, leb,
  if◌then◌else◌, length, take,
}

-- `(uint8_t)(value >> bits)`
unfoldable pub byte_of : ℕ → ℕ → ℕ
byte_of value bits = value / 2 ^ bits % 2 ^ 8

unfoldable pub write_uint : ℕ → ℕ → List ℕ
unfolding byte_of
write_uint out_sz value =
    if ltb value 24
    then byte_of value 0 ∷ []
    else if leb value (2 ^ 8 - 1)
    then (if ltb out_sz 2 then [] else 24 ∷ byte_of value 0 ∷ [])
    else if leb value (2 ^ 16 - 1)
    then (if ltb out_sz 3 then [] else 25 ∷ byte_of value 8 ∷ byte_of value 0 ∷ [])
    else if leb value (2 ^ 32 - 1)
    then (if ltb out_sz 5
        then []
        else 26 ∷ byte_of value 24 ∷ byte_of value 16 ∷ byte_of value 8 ∷ byte_of value 0 ∷ [])
    else if ltb out_sz 9
    then []
    else 27
      ∷ byte_of value 56
      ∷ byte_of value 48
      ∷ byte_of value 40
      ∷ byte_of value 32
      ∷ byte_of value 24
      ∷ byte_of value 16
      ∷ byte_of value 8
      ∷ byte_of value 0
      ∷ []

unfoldable pub cbor_encode_uint : Option ℕ → ℕ → List ℕ
unfolding write_uint
cbor_encode_uint none value = []
cbor_encode_uint (some out_sz) value = if ltb out_sz 1 then [] else write_uint out_sz value

-- `out_sz - 1` of a `size_t`
unfoldable pub one_less : ℕ → ℕ
one_less zero = 2 ^ 64 - 1
one_less (suc n) = n

-- Behind the first byte and the key: what is in the buffer from its start, and the number that is
-- returned. What was written in front of a `return 0` stays in the buffer.
unfoldable pub join_instance : ℕ → List ℕ → List ℕ → List ℕ × ℕ
join_instance out_sz [] payload_map = (161 ∷ [], 0)
join_instance out_sz (k ∷ key) payload_map =
    if ltb out_sz (1 + length (k ∷ key) + length payload_map)
    then (161 ∷ k ∷ key, 0)
    else (161 ∷ k ∷ (key ++ payload_map), 1 + length (k ∷ key) + length payload_map)

-- what `stream_wrap_notification_instance` leaves in the buffer, and the number that it returns
unfoldable pub wrap_instance : Option ℕ → ℕ → Option (List ℕ) → List ℕ × ℕ
unfolding join_instance cbor_encode_uint one_less
wrap_instance (some out_sz) notif_sid (some (b ∷ payload_map)) =
    if ltb out_sz 2
    then ([], 0)
    else join_instance out_sz (cbor_encode_uint (some (one_less out_sz)) notif_sid)
        (b ∷ payload_map)
wrap_instance out notif_sid payload_map = ([], 0)

-- the bytes that a caller takes: as many from the start of the buffer as the number says
unfoldable pub stream_wrap_notification_instance : Option ℕ → ℕ → Option (List ℕ) → List ℕ
unfolding wrap_instance
stream_wrap_notification_instance out notif_sid payload_map =
    take (wrap_instance out notif_sid payload_map).1 (wrap_instance out notif_sid payload_map).0

-- the SID of an error in its shortest form, of which two bytes are written at most
unfoldable pub error_sid : ℕ → List ℕ
unfolding byte_of
error_sid esid =
    if ltb esid 24
    then byte_of esid 0 ∷ []
    else if ltb esid 256
    then 24 ∷ byte_of esid 0 ∷ []
    else 25 ∷ byte_of esid 8 ∷ byte_of esid 0 ∷ []

unfoldable pub error_text : ℕ → List ℕ
unfolding byte_of
error_text ml = if ltb ml 24 then (96 + ml) ∷ [] else 120 ∷ byte_of ml 0 ∷ []

unfoldable pub encode_error : ℕ → ℕ → List ℕ → List ℕ
unfolding error_sid error_text
encode_error sz esid msg =
    if ltb sz (16 + length msg)
    then []
    else 161 ∷ 25 ∷ 4 ∷ 0 ∷ 162 ∷ 4 ∷ (error_sid esid ++ 3 ∷ (error_text (length msg) ++ msg))
