-- ===== src/Server/Observe.antt =====
-- iot_containers/iot_apps/coreconf_server.c: the handlers that read the stream and the fingerprint.
use ccoreconf_zcbor.Common.{ℕ, List, [], ◌∷◌, ◌++◌, Option, none, some, ◌==◌, if◌then◌else◌}
use ccoreconf_zcbor.Common.Text.{ascii}
use ccoreconf_zcbor.Common.Decimal.{digits}
use ccoreconf_zcbor.Zcbor.{Decoder, Run, ret, ◌>>=◌}
use ccoreconf_zcbor.Server.Notify.{buffer_size}
use ccoreconf_zcbor.Server.Filter.{stream_collect_filter_sids, stream_encode_sequence_filtered}
use ccoreconf_zcbor.Server.Stream.{stream_encode_sequence}
use ccoreconf_zcbor.Server.State.{
  Server, Request, content, bad_request, unsupported_content_format, Reply, Handler,
  get_content_format, get_data, send_error, with_body, answer, cf_text_plain, cf_yang_identifiers,
  cf_yang_instances,
}

-- A response of the stream has no payload where there is nothing to send.
unfoldable pub stream_reply : Server → List ℕ → Reply
unfolding answer with_body
stream_reply server body = answer server (with_body content cf_yang_instances body)

unfoldable pub handle_stream_get : Handler
unfolding stream_encode_sequence stream_reply
handle_stream_get server req =
    ret (stream_reply server (stream_encode_sequence (some buffer_size) 8 server.stream))

module _ (decoder : Decoder) where
  unfoldable pub stream_filtered : Server → List ℕ → Run Reply
  unfolding stream_encode_sequence_filtered stream_reply
  stream_filtered server filter_sids =
      stream_encode_sequence_filtered decoder (some buffer_size) 8 filter_sids server.stream
      >>= λ body. ret (stream_reply server body)

  unfoldable pub stream_by_sids : Server → List ℕ → Run Reply
  unfolding stream_filtered send_error
  stream_by_sids server [] =
      ret (send_error server bad_request 1012 (ascii "FETCH /s filter payload has no valid IIDs"))
  stream_by_sids server (f ∷ filter_sids) = stream_filtered server (f ∷ filter_sids)

  unfoldable pub stream_payload : Server → Request → Option (List ℕ) → Run Reply
  unfolding get_content_format stream_by_sids stream_filtered stream_collect_filter_sids send_error
  stream_payload server req none = stream_filtered server []
  stream_payload server req (some bytes) =
      if get_content_format req == cf_yang_identifiers
      then stream_by_sids server (stream_collect_filter_sids decoder (some bytes) 64)
      else ret (
          send_error server unsupported_content_format 1012
            (ascii "FETCH /s with payload requires CF=141"))

  unfoldable pub handle_stream_fetch : Handler
  unfolding get_data stream_payload
  handle_stream_fetch server req = stream_payload server req (get_data req)

unfoldable pub sid_info_body : ℕ → List ℕ
unfolding digits
sid_info_body fingerprint = ascii "sid-fingerprint=" ++ (digits 20 fingerprint [] ++ (b'\n' ∷ []))

unfoldable pub handle_sid_info : Handler
unfolding sid_info_body answer with_body
handle_sid_info server req =
    ret (answer server (with_body content cf_text_plain (sid_info_body server.sid_fingerprint)))
