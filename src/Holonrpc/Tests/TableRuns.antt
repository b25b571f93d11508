-- ===== src/Holonrpc/Tests/TableRuns.antt =====
-- Runs of the pending table and of `parseRouteHints`, of pkg/holonrpc.
use go_holons.Common.{ℕ, ◌≡◌, ◌≢◌, refl, ap, List, [], ◌∷◌, true}
use go_holons.Common.Text.{Text, text, text_eq, trim_space, trim_left, is_space, after_prefix}
use go_holons.Common.Map.{lookup, erase}
use go_holons.Holonrpc.Value.{string, Object}
use go_holons.Holonrpc.Pending.{Pending, empty, register}
use go_holons.Holonrpc.Pending.Laws.{view, empty-IsValid}
use go_holons.Holonrpc.Pending.Steps.{
  Event, registers, delivers, fails, run, first_answer, register-first_answer,
}
use go_holons.Holonrpc.Pending.Refines.{spec_run, run-refines}
use go_holons.Holonrpc.Routing.{
  Route, parse_route_hints, is_mode, check_mode, check_peer, take_hint, take_fan_out,
  check_full_broadcast, route_mode_full_broadcast,
}
use go_holons.Holonrpc.Routing.Laws.{IsRoute, parse_route_hints-IsRoute}
use go_holons.Holonrpc.Tests.{toy}

abbrev key : Text
key = text "\"s1\""

abbrev other : Text
other = text "\"s2\""

-- Another call starts, its answer comes, then ours, a late second one, and the connection ends.
abbrev history : List (Event ℕ)
history = registers other ∷ delivers other 20 ∷ delivers key 10 ∷ delivers key 11 ∷ fails 0 ∷ []

abbrev start : Pending ℕ
start = empty

other-ne-key : other ≢ key
unfolding text text_eq
other-ne-key e = cc (ap (λ t. text_eq t key) e)

register-first_answer_example :
    (run history (register key start).1).buffers (register key start).0 ≡ first_answer key history
unfolding register empty
register-first_answer_example =
    register-first_answer key start history empty-IsValid (other-ne-key, (tt, (tt, (tt, (tt, tt)))))

run-refines_example : view (run history start) key ≡ spec_run key history (view start key)
run-refines_example = run-refines key history start (tt, (tt, (tt, (tt, (tt, tt))))) empty-IsValid

abbrev params : Object
params = (text "_routing", string (text " full-broadcast ")) ∷ (text "n", string []) ∷ []

abbrev route : Route
route = record {
  method = text "greet";
  fan_out = true;
  params = (text "n", string []) ∷ [];
  hints = record { target_peer_id = []; mode = route_mode_full_broadcast };
}

parse_route_hints-IsRoute_example : IsRoute (text "*.greet") params route
unfolding parse_route_hints is_mode check_mode check_peer take_hint take_fan_out
    check_full_broadcast text text_eq trim_space trim_left is_space after_prefix lookup erase
parse_route_hints-IsRoute_example = parse_route_hints-IsRoute toy (text "*.greet") params route refl
