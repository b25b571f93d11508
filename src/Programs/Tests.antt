-- ===== src/Programs/Tests.antt =====
-- Runs of pkg/serve, pkg/grpcclient and the echo programs.
mod MainRuns
use go_holons.Common.{inl, inr}
use go_holons.Holonrpc.Message.{plain}
use go_holons.Common.{
  ◌==◌, if◌then◌else◌, arith, ◌≡◌, ◌≢◌, refl, ap, none, some, [], ◌∷◌, ◌++◌, true, false,
}
use go_holons.Common.Text.{Text, text, text_eq, trim_space, trim_left, is_space, after_prefix}
use go_holons.Transport.Uri.{Host, Listener, unix_listener, listen, listen_unix, default_uri}
use go_holons.Programs.Serve.{parse_flags, parse_flags-first}
use go_holons.Programs.GrpcClient.{unix_prefix, dial}
use go_holons.Programs.Echo.{Splitter, unix, tcp, normalize_target, is_any, public_uri}
use go_holons.Programs.Agreement.{IsAt, listen-dial_unix, is_plain, IsSplitter, public_uri-dials}
use go_holons.Programs.Child.{Child, Wording, IsReaped, launch, launch-IsReaped}

verbose_ne_flag : (text "-v" ≢ text "--listen") × (text "-v" ≢ text "--port")
unfolding text text_eq
verbose_ne_flag = (
  (λ e. cc (ap (λ t. text_eq t (text "--listen")) e)),
  (λ e. cc (ap (λ t. text_eq t (text "--port")) e)),
)

parse_flags-first_example :
    (parse_flags (text "-v" ∷ text "--listen" ∷ text "stdio://" ∷ []) ≡ text "stdio://")
    × (parse_flags (text "-v" ∷ text "--port" ∷ text "stdio://" ∷ [])
        ≡ text "tcp://:" ++ text "stdio://")
    × (parse_flags (text "-v" ∷ text "--listen" ∷ []) ≡ default_uri)
    × (parse_flags [] ≡ default_uri)
parse_flags-first_example =
    parse_flags-first (text "-v" ∷ []) [] (text "stdio://") (text "--listen") (verbose_ne_flag, tt)

abbrev pub host : Host
host = record {
  parse_url = λ _. inl (plain []);
  port_error = λ _. none;
  listen = λ network address. inr 3;
  bound = λ _. text "127.0.0.1:80";
  remove_error = λ _. none;
  getenv = λ _. [];
  pipes = 0;
  quote = λ t. t;
}

abbrev socket : Text
socket = text "/tmp/h.sock"

abbrev at_socket : Listener
at_socket = unix_listener (record { handle = 3; path = socket; closed = false })

listen-dial_unix_example :
    IsAt host socket at_socket
    × ((dial (unix_prefix ++ socket)).socket ≡ some socket)
    × (normalize_target (unix_prefix ++ socket) ≡ unix socket)
unfolding listen listen_unix after_prefix text trim_space trim_left is_space
listen-dial_unix_example = listen-dial_unix host socket at_socket refl

-- The text before the first colon, and the text after it.
abbrev pub split : Splitter
split [] = none
split (x ∷ t) =
    let rest = split t in
    if x == b':'
    then some ([], t)
    else elim rest [ none ↦ none | some (host, port) ↦ some (x ∷ host, port) ]

split-IsSplitter : IsSplitter split
unfolding text
split-IsSplitter = record { splits = splits }
  where
    splits :
        (host port : Text)
        → is_plain host ≡ true
        → is_plain port ≡ true
        → split (host ++ (text ":" ++ port)) ≡ some (host, port)
    splits [] port h p = refl
    splits (x ∷ host) port h p = ground (arith, splits host port)

public_uri-dials_example :
    (dialed : Text) × (normalize_target (public_uri split (text "tcp://:0") (text "0.0.0.0:8080"))
      ≡ tcp dialed)
    × (split dialed ≡ some (text "127.0.0.1", text "8080"))
unfolding after_prefix text text_eq
public_uri-dials_example =
    public_uri-dials split (text "tcp://:0") (text "0.0.0.0:8080") [] (text "0") (text "0.0.0.0")
      (text "8080") split-IsSplitter refl refl refl (inl refl) refl

abbrev pub child : Child
child = record {
  stdin_error = none;
  stdout_error = none;
  start_error = none;
  output = 1 ∷ 2 ∷ [];
  in_time = true;
  handshake_error = none;
}

abbrev wording : Wording
wording = record { not_started = []; no_output = []; timeout = [] }

launch-IsReaped_example : IsReaped child (launch wording child)
launch-IsReaped_example = launch-IsReaped wording child
