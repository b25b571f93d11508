-- ===== src/Holonrpc/Routing.antt =====
-- pkg/holonrpc/routing.go, `parseRouteHints`: the reserved params `_routing` and `_peer`, and the
-- fan-out prefix `*.` of a method.
pub mod Laws
use go_holons.Common.{Bool, true, false, not, ◌&&◌, ◌||◌, Option, none, some, List, [], ◌∷◌, ◌++◌}
use go_holons.Common.{if◌then◌else◌}
use go_holons.Common.Text.{Text, text, text_eq, is_empty, trim_space, has_prefix, trim_prefix}
use go_holons.Common.Map.{lookup, erase}
use go_holons.Holonrpc.Value.{Value, null, string, Object}
use go_holons.Holonrpc.Message.{Codec, ResponseError, code_invalid_request, code_invalid_params}

abbrev pub route_mode_default : Text
route_mode_default = []

abbrev pub route_mode_broadcast_response : Text
route_mode_broadcast_response = text "broadcast-response"

abbrev pub route_mode_full_broadcast : Text
route_mode_full_broadcast = text "full-broadcast"

abbrev pub routing_key : Text
routing_key = text "_routing"

abbrev pub peer_key : Text
peer_key = text "_peer"

abbrev pub fan_out_prefix : Text
fan_out_prefix = text "*."

-- An empty `target_peer_id` means that no peer is named.
pub record RouteHints : Type 0 where
  pub target_peer_id : Text
  pub mode : Text

-- The results of `parseRouteHints` where its error is nil.
pub record Route : Type 0 where
  pub method : Text
  pub fan_out : Bool
  pub params : Object
  pub hints : RouteHints

pub data Result {ℓ} (A : Type ℓ) : Type ℓ where
  ok : A → Result A
  err : ResponseError → Result A

infixl 5 ◌>>=◌
abbrev pub ◌>>=◌ {ℓ κ} : {A : Type ℓ} {B : Type κ} → Result A → (A → Result B) → Result B
ok a >>= f = f a
err e >>= f = err e

abbrev pub invalid_request : Text → ResponseError
invalid_request message = record { code = code_invalid_request; message = message; detail = null }

abbrev pub invalid_params : Text → ResponseError
invalid_params message = record { code = code_invalid_params; message = message; detail = null }

-- `mode, ok := raw.(string)`
abbrev pub as_text : Value → Option Text
as_text (string s) = some s
as_text _ = none

-- The `switch mode`
unfoldable pub is_mode : Text → Bool
is_mode mode =
    text_eq mode route_mode_default
    || text_eq mode route_mode_broadcast_response
    || text_eq mode route_mode_full_broadcast

unfoldable pub check_mode : Codec → Option Text → Result Text
check_mode c none = err (invalid_params (text "_routing must be a string"))
check_mode c (some raw) =
    let mode = trim_space raw in
    if is_mode mode
    then ok mode
    else err (invalid_params (text "unsupported _routing " ++ c.quote mode))

unfoldable pub check_peer : Option Text → Result Text
check_peer none = err (invalid_params (text "_peer must be a string"))
check_peer (some raw) =
    let peer_id = trim_space raw in
    if is_empty peer_id then err (invalid_params (text "_peer must be non-empty")) else ok peer_id

-- The blocks on `_routing` and on `_peer`: an absent key leaves the hint empty, a present one is
-- checked and then deleted.
unfoldable pub take_hint : Text → (Option Text → Result Text) → Object → Result (Text × Object)
take_hint key check cleaned = elim (lookup key cleaned) [
  | none ↦ ok ([], cleaned)
  | some raw ↦ check (as_text raw) >>= λ hint. ok (hint, erase key cleaned)
]

-- The block on the prefix `*.`: whether the method fans out, and the method without it.
unfoldable pub take_fan_out : Text → Result (Bool × Text)
take_fan_out method =
    let inner = trim_space (trim_prefix method fan_out_prefix) in
    if has_prefix method fan_out_prefix
    then if is_empty inner
      then err (invalid_request (text "invalid fan-out method"))
      else ok (true, inner)
    else ok (false, method)

unfoldable pub check_full_broadcast : Text → Bool → Result (Unit {0})
check_full_broadcast mode fan_out =
    if text_eq mode route_mode_full_broadcast && not fan_out
    then err (invalid_params (text "full-broadcast requires a fan-out method"))
    else ok tt

abbrev pub check_method : Text → Result Text
check_method method =
    let trimmed = trim_space method in
    if is_empty trimmed then err (invalid_request (text "invalid request")) else ok trimmed

-- `parseRouteHints`
unfoldable pub parse_route_hints : Codec → Text → Object → Result Route
parse_route_hints c method params = do
  trimmed ← check_method method
  (mode, cleaned) ← take_hint routing_key (check_mode c) params
  (peer_id, rest) ← take_hint peer_key check_peer cleaned
  (fan_out, inner) ← take_fan_out trimmed
  _ ← check_full_broadcast mode fan_out
  ok (record {
    method = inner;
    fan_out = fan_out;
    params = rest;
    hints = record { target_peer_id = peer_id; mode = mode };
  })
