-- ===== src/Programs/Serve.antt =====
-- pkg/serve/serve.go: `ParseFlags`, and the steps of `RunWithOptions`.
use go_holons.Common.{
  ◌≡◌, ◌≢◌, refl, ◌∙◌, List, [], ◌∷◌, ◌++◌, Bool, true, false, All, arith, if◌then◌else◌,
}
use go_holons.Common.Text.{Text, text, text_eq, text_eq-false}
use go_holons.Holonrpc.Message.{Error}
use go_holons.Transport.Uri.{default_uri, Host, Listener, Listened, listening, failed, listen}

-- `ParseFlags`; a flag counts only where another argument follows it.
unfoldable pub parse_flags : List Text → Text
parse_flags [] = default_uri
parse_flags (arg ∷ []) = default_uri
parse_flags (arg ∷ value ∷ rest) =
    let later = parse_flags (value ∷ rest) in
    if text_eq arg (text "--listen")
    then value
    else if text_eq arg (text "--port")
    then text "tcp://:" ++ value
    else later

-- What `RunWithOptions` does with the gRPC server, in order.
pub data Action : Type 0 where
  registers reflects stops_gracefully stops_at_once : Action
  serves : Listener → Action

-- `RunWithOptions` up to `Serve`, which blocks: its error, or its actions
pub data Run : Type 0 where
  not_run : Error → Run
  runs : List Action → Run

abbrev pub served : Bool → Listened → Run
served reflect (failed e) = not_run e
served reflect (listening lis) =
    runs (registers ∷ (if reflect then reflects ∷ [] else []) ++ serves lis ∷ [])

unfoldable pub run_with_options : Host → Text → Bool → Run
run_with_options h uri reflect = served reflect (listen h uri)

-- `Run`
abbrev pub run : Host → Text → Run
run h uri = run_with_options h uri true

-- The goroutine of `RunWithOptions` after a signal, given whether the draining ends within ten
-- seconds.
abbrev pub on_signal : Bool → List Action
on_signal true = stops_gracefully ∷ []
on_signal false = stops_gracefully ∷ stops_at_once ∷ []

abbrev pub IsNoFlag : Text → Type 0
IsNoFlag arg = (arg ≢ text "--listen") × (arg ≢ text "--port")

-- An argument that is no flag is passed over.
parse_flags-skip :
    (arg value : Text) (rest : List Text)
    → IsNoFlag arg
    → parse_flags (arg ∷ value ∷ rest) ≡ parse_flags (value ∷ rest)
unfolding parse_flags
parse_flags-skip arg value rest h =
    ground (arith, text_eq-false arg (text "--listen") h.0, text_eq-false arg (text "--port") h.1)

parse_flags-prefix :
    (before : List Text) (flag value : Text) (rest : List Text)
    → All IsNoFlag before
    → parse_flags (before ++ flag ∷ value ∷ rest) ≡ parse_flags (flag ∷ value ∷ rest)
parse_flags-prefix [] flag value rest h = refl
parse_flags-prefix (arg ∷ []) flag value rest h = parse_flags-skip arg flag (value ∷ rest) h.0
parse_flags-prefix (arg ∷ next ∷ before) flag value rest h =
    parse_flags-skip arg next (before ++ flag ∷ value ∷ rest) h.0
    ∙ parse_flags-prefix (next ∷ before) flag value rest h.1

no_flags :
    (args : List Text) (last : Text)
    → All IsNoFlag args
    → parse_flags (args ++ last ∷ []) ≡ default_uri
unfolding parse_flags
no_flags [] last h = refl
no_flags (arg ∷ []) last h = parse_flags-skip arg last [] h.0
no_flags (arg ∷ next ∷ args) last h =
    parse_flags-skip arg next (args ++ last ∷ []) h.0 ∙ no_flags (next ∷ args) last h.1

-- `ParseFlags` takes the first `--listen` or `--port` that another argument follows: its value, or
-- that port on every interface over TCP. Without such a flag, even with one as the last argument,
-- it gives the default.
pub parse_flags-first :
    (before rest : List Text) (value last : Text)
    → All IsNoFlag before
    → (parse_flags (before ++ text "--listen" ∷ value ∷ rest) ≡ value)
      × (parse_flags (before ++ text "--port" ∷ value ∷ rest) ≡ text "tcp://:" ++ value)
      × (parse_flags (before ++ last ∷ []) ≡ default_uri)
      × (parse_flags [] ≡ default_uri)
unfolding parse_flags text text_eq
parse_flags-first before rest value last h = (
  parse_flags-prefix before (text "--listen") value rest h,
  parse_flags-prefix before (text "--port") value rest h,
  no_flags before last h,
  refl,
)
