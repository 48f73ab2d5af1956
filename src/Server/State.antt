-- ===== src/Server/State.antt =====
-- iot_containers/iot_apps/coreconf_server.c: the server's global variables, and the requests and
-- responses of libcoap as far as the handlers read and fill them.
use ccoreconf_zcbor.Common.{ℕ, ◌%◌, ◌^◌, List, [], ◌∷◌, Bool, false, Option, none, some}
use ccoreconf_zcbor.Zcbor.{Run}
use ccoreconf_zcbor.Value.{Ref}
use ccoreconf_zcbor.Server.Stream.{Stream}
use ccoreconf_zcbor.Server.Sids.{RuntimeSystemSids, RuntimeInterfacesSids, RuntimeOperationSids}
use ccoreconf_zcbor.Server.Uint.{encode_error}

abbrev pub cf_text_plain : ℕ
cf_text_plain = 0

abbrev pub cf_yang_data_cbor : ℕ
cf_yang_data_cbor = 140

abbrev pub cf_yang_identifiers : ℕ
cf_yang_identifiers = 141

abbrev pub cf_yang_instances : ℕ
cf_yang_instances = 142

-- `g_datastore` is a NULL reference for NULL.
pub record Server : Type 0 where
  pub datastore : Ref
  pub ds_exists : Bool
  pub stream : Stream
  pub sys_sids : RuntimeSystemSids
  pub if_sids : RuntimeInterfacesSids
  pub ops_sids : RuntimeOperationSids
  pub sid_fingerprint : ℕ

-- the value of the option Content-Format, if it is there, and the payload, if it is there
pub record Request : Type 0 where
  pub format_option : Option ℕ
  pub payload : Option (List ℕ)

pub data Code : Type 0 where
  created deleted changed content : Code
  bad_request not_found conflict unsupported_content_format internal_error : Code

pub record Response : Type 0 where
  pub code : Code
  pub format : Option ℕ
  pub body : List ℕ

-- What a handler leaves: the variables, the response, whether the observers are notified, and the
-- command that it has the system run.
pub record Reply : Type 0 where
  pub server : Server
  pub response : Response
  pub notified : Bool
  pub command : Option (List ℕ)

abbrev pub Handler : Type 0
Handler = Server → Request → Run Reply

unfoldable pub get_content_format : Request → ℕ
get_content_format req = elim req.format_option [ none ↦ 0xFFFF | some cf ↦ cf % 2 ^ 16 ]

-- The payload, where there is one and it is not empty.
unfoldable pub get_data : Request → Option (List ℕ)
get_data req = elim req.payload [
  | none ↦ none
  | some bytes ↦ elim bytes [ [] ↦ none | b ∷ bs ↦ some (b ∷ bs) ]
]

unfoldable pub error_response : Code → List ℕ → Response
error_response code [] = record { code = code; format = none; body = [] }
error_response code (b ∷ bytes) = record {
  code = code;
  format = some cf_yang_data_cbor;
  body = b ∷ bytes;
}

-- The response of `send_error`, after which a handler returns.
unfoldable pub send_error : Server → Code → ℕ → List ℕ → Reply
unfolding error_response encode_error
send_error server code esid msg = record {
  server = server;
  response = error_response code (encode_error 512 esid msg);
  notified = false;
  command = none;
}

-- a response without a payload
unfoldable pub plain : Code → Response
plain code = record { code = code; format = none; body = [] }

unfoldable pub with_body : Code → ℕ → List ℕ → Response
with_body code format body = record { code = code; format = some format; body = body }

-- a handler that changes nothing, and does not notify
unfoldable pub answer : Server → Response → Reply
answer server response = record {
  server = server;
  response = response;
  notified = false;
  command = none;
}
