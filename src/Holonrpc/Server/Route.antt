-- ===== src/Holonrpc/Server/Route.antt =====
-- The routing of requests between peers: `routePeerRequest`, `dispatchFanOut`, the snapshots of the
-- peers and the broadcasts of pkg/holonrpc/routing.go, and `peersResult` of server.go.
use go_holons.Common.{
  ℕ, Option, none, some, List, [], ◌∷◌, ◌++◌, Bool, true, false, not, ◌&&◌, ◌||◌, ◌==◌, ltb,
  is_some, if◌then◌else◌, keep,
}
use go_holons.Common.Int.{pos, format_int}
use go_holons.Common.Text.{mem_text, Text, text, text_eq, is_empty}
use go_holons.Common.Map.{Map, lookup, keys}
use go_holons.Holonrpc.Value.{
  Value, null, number, string, array, object, nil, Object, Fields, end, field, of_items,
}
use go_holons.Holonrpc.Message.{
  Codec, RpcMessage, ResponseError, Error, request_message, marshal_object, marshal_message,
}
use go_holons.Holonrpc.Routing.{
  RouteHints, route_mode_full_broadcast, route_mode_broadcast_response,
}
use go_holons.Holonrpc.Server.State.{
  World, Server, Reply, returns, fails, Called, M, pure, gets, ◌>>=◌, ◌>>◌,
}
use go_holons.Holonrpc.Server.Send.{
  to_response_error, any_of_map, write_peer, reply_error, reply_result, reply_rpc_error,
}
use go_holons.Holonrpc.Server.Invoke.{begin_invoke, finish_invoke, invoke}

-- `fanoutResult`
pub record FanoutResult : Type 0 where
  pub peer : Text
  pub result : Option Object
  pub error : Option ResponseError

-- The value of an error, with its data if it has any: the tag `omitempty`.
abbrev pub detail_fields : Value → Fields
detail_fields null = end
detail_fields v = field (text "data") v end

abbrev pub error_value : ResponseError → Value
error_value e = object (
    field (text "code") (number (format_int e.code))
      (field (text "message") (string e.message) (detail_fields e.detail)))

abbrev pub error_fields : Option ResponseError → Fields
error_fields none = end
error_fields (some e) = field (text "error") (error_value e) end

-- A result that is nil or has no entry is omitted.
abbrev pub result_fields : Option Object → Fields → Fields
result_fields none rest = rest
result_fields (some []) rest = rest
result_fields (some (kv ∷ m)) rest = field (text "result") (any_of_map (some (kv ∷ m))) rest

abbrev pub fanout_value : FanoutResult → Value
fanout_value r =
    object (field (text "peer") (string r.peer) (result_fields r.result (error_fields r.error)))

abbrev pub fanout_values : List FanoutResult → List Value
fanout_values [] = []
fanout_values (r ∷ rs) = fanout_value r ∷ fanout_values rs

-- The order of strings, by bytes: for UTF-8 that of the code points.
unfoldable pub text_le : Text → Text → Bool
text_le [] t = true
text_le (a ∷ s) [] = false
text_le (a ∷ s) (b ∷ t) = ltb a b || ((a == b) && text_le s t)

insert_sorted : Text → List Text → List Text
insert_sorted x [] = x ∷ []
insert_sorted x (y ∷ ys) = if text_le x y then x ∷ y ∷ ys else y ∷ insert_sorted x ys

-- `sort.Strings`
unfoldable pub sort_strings : List Text → List Text
unfolding insert_sorted
sort_strings [] = []
sort_strings (x ∷ xs) = insert_sorted x (sort_strings xs)

abbrev pub peer_values : List Text → List Value
peer_values [] = []
peer_values (id ∷ ids) =
    object (field (text "id") (string id) (field (text "methods") (array nil) end))
    ∷ peer_values ids

-- `peersResult`
unfoldable pub peers_result : Server → Value
unfolding sort_strings
peers_result s = array (of_items (peer_values (sort_strings (keys s.peers))))

-- `ClientIDs`
unfoldable pub client_ids : Server → List Text
client_ids s = keys s.peers

-- `snapshotPeerIDsExcluding`
unfoldable pub snapshot_peer_ids_excluding : Text → Server → List Text
snapshot_peer_ids_excluding excluded s = keep (λ id. not (text_eq id excluded)) (keys s.peers)

-- `peerExists`
unfoldable pub peer_exists : Text → Server → Bool
peer_exists id s = is_some (lookup id s.peers)

-- the peers that a broadcast reaches: those of the map that are not excluded
unfoldable pub broadcast_targets : List Text → Map ℕ → List ℕ
broadcast_targets exclude [] = []
broadcast_targets exclude ((id, ptr) ∷ m) =
    let rest = broadcast_targets exclude m in if mem_text id exclude then rest else ptr ∷ rest

abbrev pub no_connected_peers : ResponseError
no_connected_peers = record { code = pos 5; message = text "no connected peers"; detail = null }

module _ (c : Codec) (w : World) where
  -- `for _, peer := range peers { s.writePeer(peer, msg) }`
  unfoldable pub write_each : RpcMessage → Text → List ℕ → M (Unit {0})
  write_each m payload [] = pure tt
  write_each m payload (peer ∷ peers) = do write_peer c w peer m payload; write_each m payload peers

  abbrev pub write_all : RpcMessage → Option Text → List ℕ → M (Unit {0})
  write_all m none peers = pure tt
  write_all m (some payload) peers = write_each m payload peers

  abbrev pub broadcast_raw : List Text → Text → Option Text → M (Unit {0})
  broadcast_raw exclude method none = pure tt
  broadcast_raw exclude method (some params) = do
    targets ← gets (λ s. broadcast_targets exclude s.peers)
    let m = request_message [] method params
    write_all m (marshal_message c m) targets

  -- `broadcastNotificationMany`
  unfoldable pub broadcast_notification_many : List Text → Text → Object → M (Unit {0})
  broadcast_notification_many exclude method payload =
      broadcast_raw exclude method (marshal_object c (some payload))

  -- `broadcastNotification`
  unfoldable pub broadcast_notification : Text → Text → Object → M (Unit {0})
  unfolding broadcast_notification_many
  broadcast_notification exclude method payload =
      broadcast_notification_many (if is_empty exclude then [] else exclude ∷ []) method payload

  -- the goroutines of `dispatchFanOut`, each up to its wait
  unfoldable pub begin_all : Text → Object → List Text → M (List (Text × Called))
  begin_all method params [] = pure []
  begin_all method params (target ∷ targets) = do
    called ← begin_invoke c w target method (some params)
    rest ← begin_all method params targets
    pure ((target, called) ∷ rest)

  abbrev pub fanout_entry : Text → Reply → FanoutResult
  fanout_entry target (returns out) = record { peer = target; result = out; error = none }
  fanout_entry target (fails e) = record {
    peer = target;
    result = none;
    error = some (to_response_error c e);
  }

  -- their ends, in the order in which they write to the channel of results
  unfoldable pub finish_all : List (Text × Called) → M (List FanoutResult)
  finish_all [] = pure []
  finish_all ((target, called) ∷ rest) = do
    reply ← finish_invoke c w called
    entries ← finish_all rest
    pure (fanout_entry target reply ∷ entries)

  -- `dispatchFanOut`: none is its error, "no connected peers".
  unfoldable pub dispatch_fan_out : Text → Text → Object → M (Option (List FanoutResult))
  dispatch_fan_out caller_id method params = do
    targets ← gets (snapshot_peer_ids_excluding caller_id)
    if is_empty targets then pure none else do
      begun ← begin_all method params targets
      entries ← finish_all (w.completion begun)
      pure (some entries)

  -- the payload of one notification of a full broadcast
  abbrev pub entry_outcome : FanoutResult → Text × Value
  entry_outcome r = elim r.error [
    | some e ↦ (
      text "error",
      object (
          field (text "code") (number (format_int e.code))
            (field (text "message") (string e.message) (field (text "data") e.detail end))),
    )
    | none ↦ (text "result", any_of_map r.result)
  ]

  -- the loop of a full broadcast over the entries
  unfoldable pub broadcast_entries : Text → Text → List FanoutResult → M (Unit {0})
  broadcast_entries caller_id method [] = pure tt
  broadcast_entries caller_id method (r ∷ rs) = do
    broadcast_notification_many (caller_id ∷ r.peer ∷ []) method
        ((text "peer", string r.peer) ∷ entry_outcome r ∷ [])
    broadcast_entries caller_id method rs

  abbrev pub answer_fan_out :
      ℕ → Text → Text → Text → RouteHints → Option (List FanoutResult) → M (Bool × Option Error)
  answer_fan_out caller caller_id req_id method hints none = do
    failed ← reply_error c w caller req_id no_connected_peers
    pure (true, failed)
  answer_fan_out caller caller_id req_id method hints (some entries) = do
    if text_eq hints.mode route_mode_full_broadcast
        then broadcast_entries caller_id method entries
        else pure tt
    failed ← reply_result c w caller req_id (array (of_items (fanout_values entries)))
    pure (true, failed)

  abbrev pub answer_invoke : ℕ → Text → Text → Text → RouteHints → Reply → M (Bool × Option Error)
  answer_invoke caller caller_id req_id method hints (fails e) = do
    failed ← reply_rpc_error c w caller req_id e
    pure (true, failed)
  answer_invoke caller caller_id req_id method hints (returns out) = do
    if text_eq hints.mode route_mode_broadcast_response
        then broadcast_notification_many (caller_id ∷ hints.target_peer_id ∷ []) method
            ((text "peer", string hints.target_peer_id) ∷ (text "result", any_of_map out) ∷ [])
        else pure tt
    failed ← reply_result c w caller req_id (any_of_map out)
    pure (true, failed)

  abbrev pub peer_not_found : Text → ResponseError
  peer_not_found id = record {
    code = pos 5;
    message = text "peer " ++ c.quote id ++ text " not found";
    detail = null;
  }

  -- the branch of a fan-out method
  unfoldable pub route_fan_out :
      ℕ → Text → Text → Text → Object → RouteHints → M (Bool × Option Error)
  route_fan_out caller caller_id req_id method params hints = do
    entries ← dispatch_fan_out caller_id method params
    answer_fan_out caller caller_id req_id method hints entries

  -- The branch of a named peer. The locked sections up to the write of `Invoke` are one step, so that
  -- `Invoke` finds the peer that `peerExists` has found.
  unfoldable pub route_to_peer :
      Bool → ℕ → Text → Text → Text → Object → RouteHints → M (Bool × Option Error)
  route_to_peer false caller caller_id req_id method params hints = do
    failed ← reply_error c w caller req_id (peer_not_found hints.target_peer_id)
    pure (true, failed)
  route_to_peer true caller caller_id req_id method params hints = do
    reply ← invoke c w hints.target_peer_id method (some params)
    answer_invoke caller caller_id req_id method hints reply

  unfoldable pub route_named :
      ℕ → Text → Text → Text → Object → RouteHints → M (Bool × Option Error)
  unfolding route_to_peer
  route_named caller caller_id req_id method params hints = do
    exists ← gets (peer_exists hints.target_peer_id)
    route_to_peer exists caller caller_id req_id method params hints

  -- `routePeerRequest`: whether the request was routed, and the error of the reply
  unfoldable pub route_peer_request :
      ℕ → Text → Text → Text → Object → RouteHints → Bool → M (Bool × Option Error)
  unfolding route_fan_out route_named
  route_peer_request caller caller_id req_id method params hints fan_out =
      if fan_out
      then route_fan_out caller caller_id req_id method params hints
      else if is_empty hints.target_peer_id
      then pure (false, none)
      else route_named caller caller_id req_id method params hints
