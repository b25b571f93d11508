-- ===== src/Holonrpc/Server/Silence.antt =====
-- Calls of clients and broadcasts send no response: `Invoke` of pkg/holonrpc/server.go,
-- `dispatchFanOut` and the broadcasts of pkg/holonrpc/routing.go, at a method that is not empty.
use go_holons.Common.{ℕ, ◌≡◌, ◌≢◌, refl, Option, none, some, List, [], ◌∷◌, false}
use go_holons.Common.Text.{Text, is_empty, trim_space}
use go_holons.Common.Map.{lookup}
use go_holons.Holonrpc.Value.{Object}
use go_holons.Holonrpc.Message.{Codec, RpcMessage, Error, request_message}
use go_holons.Holonrpc.Server.State.{
  World, Wake, answered, context_done, peer_done, Called, refused, waiting, M, pure, gets, ◌>>=◌,
}
use go_holons.Holonrpc.Server.Send.{write_peer}
use go_holons.Holonrpc.Server.Invoke.{
  next_server_id, register_call, forget_call, refuse, write_request, marshal_request, call_peer,
  call_known, begin_invoke, take_answer, wait, finish_invoke, invoke,
}
use go_holons.Holonrpc.Server.Route.{
  FanoutResult, write_each, write_all, broadcast_raw, broadcast_notification_many, begin_all,
  finish_all, dispatch_fan_out, broadcast_entries,
}
use go_holons.Holonrpc.Server.Sends.{IsSilent, by_states, Ends->>=, Ends-if}

is_empty-false : (t : Text) → t ≢ [] → is_empty t ≡ false
is_empty-false [] h = absurd (h refl)
is_empty-false (_ ∷ _) h = refl

IsSilent->>= :
    {A B : Type 0} (m : M A) (f : A → M B)
    → IsSilent m
    → ((a : A) → IsSilent (f a))
    → IsSilent (m >>= f)
IsSilent->>= m f h k = Ends->>= (λ fs. fs ≡ []) m f h k

module _ (c : Codec) (w : World) where
  write_peer-IsSilent :
      (peer : ℕ) (m : RpcMessage) (payload : Text)
      → m.method ≢ []
      → IsSilent (write_peer c w peer m payload)
  unfolding write_peer ◌>>=◌
  write_peer-IsSilent peer m payload h = by_states λ s. rw (is_empty-false m.method h)

  forget_call-IsSilent : (peer : ℕ) (key : Text) → IsSilent (forget_call peer key)
  unfolding forget_call
  forget_call-IsSilent peer key = by_states λ s. refl

  refuse-IsSilent : (peer : ℕ) (key : Text) (e : Error) → IsSilent (refuse peer key e)
  refuse-IsSilent peer key e =
      IsSilent->>= (forget_call peer key) _ (forget_call-IsSilent peer key)
        (λ _. by_states λ s. refl)

  after_write-IsSilent :
      (peer : ℕ) (key : Text) (ch : ℕ) (o : Option Error)
      → IsSilent (elim o as (λ _. M Called) [
        | none ↦ pure (waiting peer key ch)
        | some e ↦ refuse peer key e
      ])
  after_write-IsSilent peer key ch none = by_states λ s. refl
  after_write-IsSilent peer key ch (some e) = refuse-IsSilent peer key e

  write_request-IsSilent :
      (peer : ℕ) (key : Text) (ch : ℕ) (req : RpcMessage) (payload : Option Text)
      → req.method ≢ []
      → IsSilent (write_request c w peer key ch req payload)
  unfolding write_request
  write_request-IsSilent peer key ch req none h = refuse-IsSilent peer key _
  write_request-IsSilent peer key ch req (some payload) h =
      IsSilent->>= (write_peer c w peer req payload) _ (write_peer-IsSilent peer req payload h)
        (after_write-IsSilent peer key ch)

  marshal_request-IsSilent :
      (peer : ℕ) (id key method : Text) (ch : ℕ) (params : Option Text)
      → method ≢ []
      → IsSilent (marshal_request c w peer id key method ch params)
  unfolding marshal_request
  marshal_request-IsSilent peer id key method ch none h = refuse-IsSilent peer key _
  marshal_request-IsSilent peer id key method ch (some params) h =
      write_request-IsSilent peer key ch (request_message id method params) _ h

  call_peer-IsSilent :
      (method : Text) (params : Option Object) (peer : ℕ)
      → method ≢ []
      → IsSilent (call_peer c w method params peer)
  unfolding call_peer next_server_id register_call
  call_peer-IsSilent method params peer h = IsSilent->>= next_server_id _ (by_states λ s. refl) λ n.
      IsSilent->>= (register_call peer _) _ (by_states λ s. refl)
        λ ch. marshal_request-IsSilent peer _ _ method ch _ h

  call_known-IsSilent :
      (client_id method : Text) (params : Option Object) (found : Option ℕ)
      → method ≢ []
      → IsSilent (call_known c w client_id method params found)
  call_known-IsSilent client_id method params none h = by_states λ s. refl
  call_known-IsSilent client_id method params (some peer) h =
      call_peer-IsSilent method params peer h

  begin_invoke-IsSilent :
      (client_id method : Text) (params : Option Object)
      → method ≢ []
      → IsSilent (begin_invoke c w client_id method params)
  unfolding begin_invoke
  begin_invoke-IsSilent client_id method params h =
      Ends-if _ (is_empty (trim_space method)) _ _ (λ _. by_states λ s. refl)
        λ _.
          IsSilent->>= (gets (λ s. lookup client_id s.peers)) _ (by_states λ s. refl)
            λ found. call_known-IsSilent client_id method params found h

  take_answer-IsSilent : (peer ch : ℕ) (k : Wake) → IsSilent (take_answer c w peer ch k)
  unfolding take_answer
  take_answer-IsSilent peer ch (answered m) = by_states λ s. refl
  take_answer-IsSilent peer ch (context_done e) = by_states λ s. refl
  take_answer-IsSilent peer ch peer_done = by_states λ s. refl

  finish_invoke-IsSilent : (called : Called) → IsSilent (finish_invoke c w called)
  unfolding finish_invoke wait
  finish_invoke-IsSilent (refused e) = by_states λ s. refl
  finish_invoke-IsSilent (waiting peer key ch) =
      IsSilent->>= (wait c w peer key ch) _ (by_states λ s. refl) λ wake.
        IsSilent->>= (take_answer c w peer ch wake) _ (take_answer-IsSilent peer ch wake) λ _.
          IsSilent->>= (forget_call peer key) _ (forget_call-IsSilent peer key)
            (λ _. by_states λ s. refl)

  pub invoke-IsSilent :
      (client_id method : Text) (params : Option Object)
      → method ≢ []
      → IsSilent (invoke c w client_id method params)
  unfolding invoke
  invoke-IsSilent client_id method params h =
      IsSilent->>= (begin_invoke c w client_id method params) _
        (begin_invoke-IsSilent client_id method params h) finish_invoke-IsSilent

  write_each-IsSilent :
      (m : RpcMessage) (payload : Text) (peers : List ℕ)
      → m.method ≢ []
      → IsSilent (write_each c w m payload peers)
  unfolding write_each
  write_each-IsSilent m payload [] h = by_states λ s. refl
  write_each-IsSilent m payload (peer ∷ peers) h =
      IsSilent->>= (write_peer c w peer m payload) _ (write_peer-IsSilent peer m payload h)
        λ _. write_each-IsSilent m payload peers h

  write_all-IsSilent :
      (m : RpcMessage) (payload : Option Text) (peers : List ℕ)
      → m.method ≢ []
      → IsSilent (write_all c w m payload peers)
  write_all-IsSilent m none peers h = by_states λ s. refl
  write_all-IsSilent m (some payload) peers h = write_each-IsSilent m payload peers h

  broadcast_raw-IsSilent :
      (exclude : List Text) (method : Text) (params : Option Text)
      → method ≢ []
      → IsSilent (broadcast_raw c w exclude method params)
  broadcast_raw-IsSilent exclude method none h = by_states λ s. refl
  broadcast_raw-IsSilent exclude method (some params) h =
      IsSilent->>= (gets _) _ (by_states λ s. refl)
        λ targets. write_all-IsSilent (request_message [] method params) _ targets h

  pub broadcast_notification_many-IsSilent :
      (exclude : List Text) (method : Text) (payload : Object)
      → method ≢ []
      → IsSilent (broadcast_notification_many c w exclude method payload)
  unfolding broadcast_notification_many
  broadcast_notification_many-IsSilent exclude method payload h =
      broadcast_raw-IsSilent exclude method _ h

  pub broadcast_entries-IsSilent :
      (caller_id method : Text) (rs : List FanoutResult)
      → method ≢ []
      → IsSilent (broadcast_entries c w caller_id method rs)
  unfolding broadcast_entries
  broadcast_entries-IsSilent caller_id method [] h = by_states λ s. refl
  broadcast_entries-IsSilent caller_id method (r ∷ rs) h =
      IsSilent->>= (broadcast_notification_many c w _ method _) _
        (broadcast_notification_many-IsSilent _ method _ h)
        λ _. broadcast_entries-IsSilent caller_id method rs h

  begin_all-IsSilent :
      (method : Text) (params : Object) (targets : List Text)
      → method ≢ []
      → IsSilent (begin_all c w method params targets)
  unfolding begin_all
  begin_all-IsSilent method params [] h = by_states λ s. refl
  begin_all-IsSilent method params (target ∷ targets) h =
      IsSilent->>= (begin_invoke c w target method (some params)) _
        (begin_invoke-IsSilent target method (some params) h)
        λ called.
          IsSilent->>= (begin_all c w method params targets) _
            (begin_all-IsSilent method params targets h) (λ _. by_states λ s. refl)

  finish_all-IsSilent : (cs : List (Text × Called)) → IsSilent (finish_all c w cs)
  unfolding finish_all
  finish_all-IsSilent [] = by_states λ s. refl
  finish_all-IsSilent ((target, called) ∷ rest) =
      IsSilent->>= (finish_invoke c w called) _ (finish_invoke-IsSilent called) λ reply.
        IsSilent->>= (finish_all c w rest) _ (finish_all-IsSilent rest) (λ _. by_states λ s. refl)

  pub dispatch_fan_out-IsSilent :
      (caller_id method : Text) (params : Object)
      → method ≢ []
      → IsSilent (dispatch_fan_out c w caller_id method params)
  unfolding dispatch_fan_out
  dispatch_fan_out-IsSilent caller_id method params h =
      IsSilent->>= (gets _) _ (by_states λ s. refl) λ targets.
        Ends-if _ (is_empty targets) _ _ (λ _. by_states λ s. refl)
          λ _.
            IsSilent->>= (begin_all c w method params targets) _
              (begin_all-IsSilent method params targets h)
              λ begun.
                IsSilent->>= (finish_all c w (w.completion begun)) _
                  (finish_all-IsSilent (w.completion begun)) (λ _. by_states λ s. refl)
