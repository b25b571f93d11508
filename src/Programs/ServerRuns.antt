-- ===== src/Programs/ServerRuns.antt =====
-- Runs of cmd/echo-server from `Listen` on: what it prints and how it ends.
use go_holons.Common.{Option, none, some, List, [], ◌∷◌, Bool, true}
use go_holons.Common.Text.{Text}
use go_holons.Programs.Echo.{is_benign}
use go_holons.Programs.EchoServer
use go_holons.Programs.EchoServer.{ServerFlags, server_flags, parse_args, Failure}

abbrev pub printed : List EchoServer.Did → List Text
printed [] = []
printed (EchoServer.prints t ∷ done) = t ∷ printed done
printed (EchoServer.complains e ∷ done) = printed done
printed (EchoServer.stops_gracefully ∷ done) = printed done
printed (EchoServer.stops ∷ done) = printed done
printed (EchoServer.closes_listener ∷ done) = printed done

-- Whether `Serve` ends well: without an error, or with a benign one.
abbrev pub ends_well : Option Failure → Bool
ends_well none = true
ends_well (some f) = is_benign f.stopped f.message
