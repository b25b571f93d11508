-- ===== src/Transport/WebBridge.antt =====
-- pkg/transport/wsweb.go: `WebBridge`, the gateway for browsers, and `WebConn`, one browser. The
-- two have their own envelope, whose identifiers are strings.
pub mod Invoke
pub mod Answers
pub mod Calls
use go_holons.Common.{
  ℕ, Option, none, some, List, [], ◌∷◌, ◌++◌, Bool, true, false, not, ◌||◌, is_some, if◌then◌else◌,
}
use go_holons.Common.Int.{ℤ, pos, negsuc, add_int64, int64, format_int}
use go_holons.Common.Text.{Text, text, text_eq, is_empty, trim_space, mem_text}
use go_holons.Common.Map.{Map, lookup, insert, keys}
use go_holons.Holonrpc.Pending.{Pending, empty, register, unregister, deliver, receive}

pub record WsErr : Type 0 where
  pub code : ℤ
  pub message : Text

-- An absent `json.RawMessage` is the empty text.
pub record WsMsg : Type 0 where
  pub jsonrpc : Text
  pub id : Text
  pub method : Text
  pub params : Text
  pub result : Text
  pub error : Option WsErr

-- What the file calls of encoding/json, both ways and `json.Valid`, and of the verb `%q`.
pub record WebCodec : Type 0 where
  pub decode : Text → Option WsMsg
  pub valid : Text → Bool
  pub encode : WsMsg → Option Text
  pub quote : Text → Text

-- What a handler returns: a result, a `*WebError`, or any other error.
pub data WebReply : Type 0 where
  returns : Text → WebReply
  fails_with : WsErr → WebReply
  fails : WebReply

abbrev pub WebHandler : Type 0
WebHandler = Text → WebReply

-- `origins` is nil where every origin is allowed; `on_connect` names the callback.
pub record WebBridge : Type 0 where
  pub handlers : Map WebHandler
  pub origins : Option (List Text)
  pub on_connect : Option ℕ

pub record WebConn : Type 0 where
  pub next_id : ℕ
  pub pending : Pending WsMsg

-- `NewWebBridge`
abbrev pub new_web_bridge : WebBridge
new_web_bridge = record { handlers = []; origins = none; on_connect = none }

-- `Register`
abbrev pub register_handler : Text → WebHandler → WebBridge → WebBridge
register_handler method h b = record b { handlers = insert method h b.handlers }

-- `OnConnect`
abbrev pub set_on_connect : Option ℕ → WebBridge → WebBridge
set_on_connect callback b = record b { on_connect = callback }

-- `AllowOrigins`
unfoldable pub allow_origins : List Text → WebBridge → WebBridge
allow_origins [] b = record b { origins = none }
allow_origins (o ∷ os) b = record b { origins = some (o ∷ os) }

-- `Methods`
abbrev pub methods : WebBridge → List Text
methods b = keys b.handlers

-- What `HandleWebSocket` does before its upgrade: it refuses the origin, or asks the library to
-- accept, with the patterns of the origins, or without a check.
pub data Admission : Type 0 where
  forbidden unchecked : Admission
  checked : List Text → Admission

-- the test of `HandleWebSocket` on the origin
unfoldable pub admit : Text → WebBridge → Admission
admit origin b = elim b.origins [
  | none ↦ unchecked
  | some allowed ↦ if mem_text origin allowed then checked allowed else forbidden
]

-- Where `HandleWebSocket` stands before its loop: answered with an HTTP status, or with a
-- connection and the callback to run.
pub data Opened : Type 0 where
  refused : (status : ℕ) → Opened
  opened : WebConn → (callback : Option ℕ) → Opened

-- after the upgrade, which the library accepts or not
abbrev pub upgraded : Bool → Option ℕ → Opened
upgraded true callback = opened (record { next_id = 0; pending = empty }) callback
upgraded false callback = refused 400

abbrev pub admitted : Admission → (Admission → Bool) → Option ℕ → Opened
admitted forbidden accepts callback = refused 403
admitted unchecked accepts callback = upgraded (accepts unchecked) callback
admitted (checked patterns) accepts callback = upgraded (accepts (checked patterns)) callback

-- `HandleWebSocket` up to its loop, given whether the library accepts the upgrade
unfoldable pub open_web_socket : Text → (Admission → Bool) → WebBridge → Opened
unfolding admit
open_web_socket origin accepts b = admitted (admit origin b) accepts b.on_connect

abbrev pub version : Text
version = text "2.0"

abbrev pub ws_error : Text → ℤ → Text → WsMsg
ws_error id code message = record {
  jsonrpc = version;
  id = id;
  method = [];
  params = [];
  result = [];
  error = some (record { code = code; message = message });
}

abbrev pub ws_result : Text → Text → WsMsg
ws_result id result = record {
  jsonrpc = version;
  id = id;
  method = [];
  params = [];
  result = result;
  error = none;
}

abbrev pub ws_request : Text → Text → Text → WsMsg
ws_request id method params = record {
  jsonrpc = version;
  id = id;
  method = method;
  params = params;
  result = [];
  error = none;
}

abbrev pub invalid_request : Text → WsMsg
invalid_request id = ws_error id (negsuc 32599) (text "invalid request")

-- The body that stands for a response that cannot be encoded; it has no identifier.
abbrev pub fallback : Text
fallback = text "{\"jsonrpc\":\"2.0\",\"error\":{\"code\":-32603,\"message\":\"internal error\"}}"

-- `params == nil`, `payload == nil`
abbrev pub or_empty_object : Text → Text
or_empty_object raw = if is_empty raw then text "{}" else raw

-- `handleResponse`
unfoldable pub handle_response : WsMsg → WebConn → WebConn
handle_response m conn =
    let checked_m = if text_eq m.jsonrpc version then m else record m {
      error = some (record { code = negsuc 32599; message = text "invalid response" });
      result = [];
    } in
    record conn { pending = deliver m.id checked_m conn.pending }

module _ (c : WebCodec) where
  -- `marshalWsResp`
  unfoldable pub marshal_ws_resp : WsMsg → Text
  marshal_ws_resp m = elim (c.encode m) [ none ↦ fallback | some payload ↦ payload ]

  -- The response of `handleRequest`, which a notification does not get.
  unfoldable pub reply : Text → WsMsg → List Text
  reply id m = if is_empty (trim_space id) then [] else marshal_ws_resp m ∷ []

  -- the end of `handleRequest`, given what the handler returned
  unfoldable pub answer_handler : Text → WebReply → List Text
  unfolding reply
  answer_handler id (returns result) = reply id (ws_result id result)
  answer_handler id (fails_with e) = reply id (ws_error id e.code e.message)
  answer_handler id fails = reply id (ws_error id (negsuc 32602) (text "internal error"))

  unfoldable pub run_handler : Text → Text → Text → Option WebHandler → List Text
  unfolding answer_handler
  run_handler id method params none =
      reply id
        (ws_error id (negsuc 32600) (text "method " ++ c.quote method ++ text " not registered"))
  run_handler id method params (some handler) = answer_handler id (handler (or_empty_object params))

  -- `handleRequest`: what it writes to the browser
  unfoldable pub handle_request : WebBridge → WsMsg → List Text
  unfolding run_handler
  handle_request b m =
      let method = trim_space m.method in
      if not (text_eq m.jsonrpc version)
      then reply m.id (invalid_request m.id)
      else if is_empty method
      then reply m.id (invalid_request m.id)
      else if text_eq method (text "rpc.heartbeat")
      then reply m.id (ws_result m.id (text "{}"))
      else run_handler m.id method m.params (lookup method b.handlers)

  -- one message in the loop of `HandleWebSocket`; requests are handled in goroutines
  unfoldable pub receive_message : WebBridge → Text → Option WsMsg → WebConn → WebConn × List Text
  receive_message b payload none conn = (
    conn,
    marshal_ws_resp (
          if c.valid payload
          then ws_error [] (negsuc 32599) (text "invalid request")
          else ws_error [] (negsuc 32699) (text "parse error"))
        ∷ [],
  )
  receive_message b payload (some m) conn =
      if not (is_empty m.method)
      then if not (text_eq m.jsonrpc version)
        then (conn, reply m.id (invalid_request m.id))
        else (conn, handle_request b m)
      else if not (is_empty m.result) || is_some m.error
      then (handle_response m conn, [])
      else (conn, reply m.id (invalid_request m.id))

  unfoldable pub receive_frame : WebBridge → Text → WebConn → WebConn × List Text
  unfolding receive_message
  receive_frame b payload conn = receive_message b payload (c.decode payload) conn
