-- ===== src/Holonrpc/Server/Fanout.antt =====
-- Whom the server reaches: `broadcastNotificationMany`, `snapshotPeerIDsExcluding` and
-- `dispatchFanOut` of pkg/holonrpc/routing.go.
use mathlib.Core.List.{Perm}
use mathlib.Core.List.Perm
use go_holons.Common.{ℕ, ◌≡◌, refl, ap, ◌∙◌, subst, some, List, [], ◌∷◌, map, not, arith, keep}
use go_holons.Common.Text.{mem_text, Text, text_eq}
use go_holons.Common.Map.{Map, keys}
use go_holons.Holonrpc.Value.{Object}
use go_holons.Holonrpc.Message.{Codec, RpcMessage, request_message, marshal_object, marshal_message}
use go_holons.Holonrpc.Server.State.{World, Server, Frame, Reply, returns, fails, Called, ◌>>=◌}
use go_holons.Holonrpc.Server.Send.{write_peer}
use go_holons.Holonrpc.Server.Invoke.{finish_invoke}
use go_holons.Holonrpc.Server.Route.{
  FanoutResult, broadcast_targets, broadcast_raw, write_all, write_each,
  broadcast_notification_many, snapshot_peer_ids_excluding, begin_all, finish_all, fanout_entry,
  dispatch_fan_out,
}

-- One message to each of the peers.
abbrev pub frames_to : RpcMessage → Text → List ℕ → List Frame
frames_to m payload = map (λ ptr. record { to = ptr; message = m; payload = payload })

abbrev pub pointers : Map ℕ → List ℕ
pointers = map (λ (_, ptr). ptr)

module _ (c : Codec) (w : World) where
  write_each-frames :
      (m : RpcMessage) (payload : Text) (peers : List ℕ) (s : Server)
      → (write_each c w m payload peers s).2 ≡ frames_to m payload peers
  unfolding write_each write_peer ◌>>=◌
  write_each-frames m payload [] s = refl
  write_each-frames m payload (p ∷ ps) s =
      ap (λ l. record { to = p; message = m; payload = payload } ∷ l)
        (write_each-frames m payload ps s)

broadcast_targets-keep :
    (exclude : List Text) (m : Map ℕ)
    → broadcast_targets exclude m ≡ pointers (keep (λ e. not (mem_text e.0 exclude)) m)
unfolding broadcast_targets
broadcast_targets-keep exclude [] = refl
broadcast_targets-keep exclude ((id, ptr) ∷ m) = ground (arith, broadcast_targets-keep exclude m)

-- A broadcast whose payload and envelope can be encoded goes once to each connected peer that is
-- not excluded, in the order in which the map is read, and to nobody else.
pub broadcast_notification_many-frames :
    (c : Codec) (w : World) (exclude : List Text) (method : Text) (payload : Object) (s : Server)
    (params raw : Text)
    → marshal_object c (some payload) ≡ some params
    → marshal_message c (request_message [] method params) ≡ some raw
    → (broadcast_notification_many c w exclude method payload s).2
      ≡ frames_to
          (request_message [] method params)
          raw
          (pointers (keep (λ e. not (mem_text e.0 exclude)) s.peers))
unfolding broadcast_notification_many ◌>>=◌
broadcast_notification_many-frames c w exclude method payload s params raw e f =
    let m = request_message [] method params in
    rw (e, broadcast_raw, f, write_all)
      (write_each-frames c w m raw (broadcast_targets exclude s.peers) s
        ∙ ap (frames_to m raw) (broadcast_targets-keep exclude s.peers))

module _ (c : Codec) (w : World) where
  begin_all-keys :
      (method : Text) (params : Object) (targets : List Text) (s : Server)
      → map (λ (t, _). t) (begin_all c w method params targets s).0 ≡ targets
  unfolding begin_all ◌>>=◌
  begin_all-keys method params [] s = refl
  begin_all-keys method params (t ∷ ts) s = ap (λ l. t ∷ l) (begin_all-keys method params ts _)

  fanout_entry-peer : (t : Text) (r : Reply) → (fanout_entry c w t r).peer ≡ t
  fanout_entry-peer t (returns out) = refl
  fanout_entry-peer t (fails e) = refl

  finish_all-keys :
      (cs : List (Text × Called)) (s : Server)
      → map (λ r. r.peer) (finish_all c w cs s).0 ≡ map (λ (t, _). t) cs
  unfolding finish_all ◌>>=◌
  finish_all-keys [] s = refl
  finish_all-keys ((t, called) ∷ rest) s = cc (
    fanout_entry-peer t (finish_invoke c w called s).0,
    finish_all-keys rest (finish_invoke c w called s).1,
  )

-- A fan-out has one entry for every peer that was connected when it began, but the caller, and no
-- other entry, in whatever order the calls end.
pub dispatch_fan_out-peers :
    (c : Codec) (w : World) (caller_id method : Text) (params : Object) (s : Server)
    (entries : List FanoutResult)
    → ((cs : List (Text × Called)) → Perm (w.completion cs) cs)
    → (dispatch_fan_out c w caller_id method params s).0 ≡ some entries
    → Perm (map (λ r. r.peer) entries) (keep (λ id. not (text_eq id caller_id)) (keys s.peers))
unfolding dispatch_fan_out ◌>>=◌ snapshot_peer_ids_excluding
dispatch_fan_out-peers c w caller_id method params s entries order e =
    let targets = keep (λ id. not (text_eq id caller_id)) (keys s.peers) in
    let begun = (begin_all c w method params targets s).0 in
    let s' = (begin_all c w method params targets s).1 in
    let ended = finish_all c w (w.completion begun) s' in
    let same : ended.0 ≡ entries = ground arith in
    rw (← same, finish_all-keys c w (w.completion begun) s')
      (subst (λ l. Perm (map (λ (t, _). t) (w.completion begun)) l)
        (begin_all-keys c w method params targets s) (Perm.map _ (order begun)))
