-- ===== src/Holonrpc/Client/Answers.antt =====
-- What a client answers to a request of its server: `handleRequest` of pkg/holonrpc/client.go.
use go_holons.Common.{
  ℕ, ◌≡◌, refl, ◌∙◌, inl, inr, Option, none, some, List, [], Bool, true, false, not, ◌&&◌, if-cases,
}
use go_holons.Common.Text.{Text, text, text_eq, is_empty, trim_space}
use go_holons.Common.Map.{lookup}
use go_holons.Holonrpc.Value.{Object, object, end, of_entries}
use go_holons.Holonrpc.Message.{
  Codec, IsLawful, HasEncoding, RpcMessage, ResponseError, has_id, json_rpc_version,
  decode_string_id, marshal_message, marshal_object, error_message, result_message,
}
use go_holons.Holonrpc.Server.State.{Frame, Reply, returns, fails, Handler}
use go_holons.Holonrpc.Server.Send.{internal_error}
use go_holons.Holonrpc.Server.Answers.{IsReply}
use go_holons.Holonrpc.Client.Connection.{Client}
use go_holons.Holonrpc.Client.Request.{
  send_error, send_raw, send_result, reply_error, reply_result, is_foreign, answer_handler,
  run_handler, handle_params, handle_request,
}

and_left : (a b : Bool) → (a && b) ≡ true → a ≡ true
and_left true b e = refl
and_left false b e = e

-- What holds of every reply that the code may send, and of no frame where the request is a
-- notification, holds of the frames that `handleRequest` sends.
module _ (c : Codec) (s : Client) (ws : ℕ) (id : Text) (P : List Frame → Type 0)
    (error_sent : (e : ResponseError) → has_id id ≡ true → P (send_error c ws id e))
    (result_sent : (out : Option Object) → has_id id ≡ true → P (send_result c ws id out))
    (notification : has_id id ≡ false → P []) where
  reply_error-Holds : (e : ResponseError) → P (reply_error c ws id e)
  unfolding reply_error
  reply_error-Holds e = if-cases P (has_id id) _ _ (error_sent e) notification

  reply_result-Holds : (out : Option Object) → P (reply_result c ws id out)
  unfolding reply_result
  reply_result-Holds out = if-cases P (has_id id) _ _ (result_sent out) notification

  answer_handler-Holds : (r : Reply) → P (answer_handler c ws id r)
  unfolding answer_handler
  answer_handler-Holds (returns out) = reply_result-Holds out
  answer_handler-Holds (fails e) = reply_error-Holds _

  run_handler-Holds :
      (method : Text) (params : Object) (found : Option Handler)
      → P (run_handler c ws id method params found)
  unfolding run_handler
  run_handler-Holds method params none = reply_error-Holds _
  run_handler-Holds method params (some h) = answer_handler-Holds (h params)

  handle_params-Holds :
      (method : Text) (params : Option Object) → P (handle_params c s ws id method params)
  unfolding handle_params
  handle_params-Holds method none = reply_error-Holds _
  handle_params-Holds method (some params) =
      run_handler-Holds method params (lookup method s.handlers)

handle_request-Holds :
    (c : Codec) (s : Client) (ws : ℕ) (m : RpcMessage) (P : List Frame → Type 0)
    → ((e : ResponseError) → has_id m.id ≡ true → P (send_error c ws m.id e))
    → ((out : Option Object) → has_id m.id ≡ true → P (send_result c ws m.id out))
    → (has_id m.id ≡ false → P [])
    → P (handle_request c s ws m)
unfolding handle_request
handle_request-Holds c s ws m P error_sent result_sent notification =
    let method = trim_space m.method in
    let bad = reply_error-Holds c s ws m.id P error_sent result_sent notification in
    if-cases P (not (text_eq m.jsonrpc json_rpc_version)) _ _ (λ _. bad _)
      λ _.
        if-cases P (is_empty method) _ _ (λ _. bad _)
          λ _.
            if-cases P (text_eq method (text "rpc.heartbeat")) _ _
              (λ _. reply_result-Holds c s ws m.id P error_sent result_sent notification _)
              λ _.
                if-cases P (has_id m.id && is_foreign (decode_string_id c m.id)) _ _
                  (λ both. error_sent _ (and_left (has_id m.id) _ both))
                  λ _.
                    handle_params-Holds c s ws m.id P error_sent result_sent notification method _

-- A client sends nothing for a notification of its server, on any branch.
pub handle_request_notification :
    (c : Codec) (s : Client) (ws : ℕ) (m : RpcMessage)
    → has_id m.id ≡ false
    → handle_request c s ws m ≡ []
handle_request_notification c s ws m silent =
    handle_request-Holds c s ws m (λ fs. fs ≡ []) (λ e h. cc) (λ out h. cc) (λ _. refl)

module _ (c : Codec) (law : IsLawful c) (encodable : (e : ResponseError) → HasEncoding c (some e))
    (ws : ℕ) (id : Text) (raw : c.valid id ≡ true) where
  error_framed : (e : ResponseError) → IsReply ws id (send_error c ws id e)
  unfolding send_error marshal_message
  error_framed e =
      let (payload, done) =
        law.encodes_message (error_message id e) (inr raw) (inl refl) (inl refl) (encodable e) in
      record {
        frame = record { to = ws; message = error_message id e; payload = payload };
        only = rw done;
        to_caller = refl;
        same_id = refl;
        version = refl;
      }

  raw_framed :
      (o : Option Text)
      → ((t : Text) → o ≡ some t → c.valid t ≡ true)
      → IsReply ws id (send_raw c ws id o)
  unfolding send_raw marshal_message
  raw_framed none valid = error_framed internal_error
  raw_framed (some t) valid =
      let (payload, done) =
        law.encodes_message (result_message id t) (inr raw) (inl refl) (inr (valid t refl)) tt in
      record {
        frame = record { to = ws; message = result_message id t; payload = payload };
        only = rw (send_raw, done);
        to_caller = refl;
        same_id = refl;
        version = refl;
      }

  result_framed : (out : Option Object) → IsReply ws id (send_result c ws id out)
  unfolding send_result marshal_object
  result_framed none =
      raw_framed (marshal_object c none)
        λ t e. law.encodes_valid (object end) t (law.encodes_empty ∙ e)
  result_framed (some m) = raw_framed _ (law.encodes_valid (object (of_entries m)))

-- Where the encoder writes every error, a request with an identifier that is valid JSON gets
-- exactly one response from a client, on every branch: on the connection that it came by, with its
-- identifier and the version "2.0".
pub handle_request_answered :
    (c : Codec) (s : Client) (ws : ℕ) (m : RpcMessage)
    → IsLawful c
    → ((e : ResponseError) → HasEncoding c (some e))
    → has_id m.id ≡ true
    → c.valid m.id ≡ true
    → IsReply ws m.id (handle_request c s ws m)
handle_request_answered c s ws m law encodable has raw =
    handle_request-Holds c s ws m (IsReply ws m.id)
      (λ e _. error_framed c law encodable ws m.id raw e)
      (λ out _. result_framed c law encodable ws m.id raw out) (λ h. cc)
