-- ===== src/Programs/Child.antt =====
-- `DialStdio` of pkg/grpcclient/client.go and `dialStdioCommand` of cmd/echo-client/main.go: they
-- start a server as a child process and talk gRPC over its pipes.
use go_holons.Common.{
  ℕ, ◌≡◌, refl, sym, ap, if-cases, ◌⊎◌, inl, inr, Option, none, some, List, [], ◌∷◌, ◌++◌, Bool,
  true, false, if◌then◌else◌,
}
use go_holons.Common.Text.{Text, text}
use go_holons.Holonrpc.Message.{Error, plain, wrapped}

-- What the operating system and grpc decide: the errors of the pipes and of the start; what the
-- child writes to its standard output before that ends; whether its first byte, or that end, comes
-- before the caller's context ends; and the error of the handshake.
pub record Child : Type 0 where
  pub stdin_error : Option Error
  pub stdout_error : Option Error
  pub start_error : Option Error
  pub output : List ℕ
  pub in_time : Bool
  pub handshake_error : Option Error

pub data Action : Type 0 where
  starts kills waits : Action

-- A connection, with what its reader will read, or an error.
pub data Launched : Type 0 where
  connected : (reader : List ℕ) → Launched
  failed : Error → Launched

-- How the two callers word their errors.
pub record Wording : Type 0 where
  pub not_started : Text
  pub no_output : Text
  pub timeout : Text

abbrev pub kill_and_wait : List Action
kill_and_wait = kills ∷ waits ∷ []

-- `io.MultiReader(bytes.NewReader(firstByte), stdoutPipe)`
abbrev pub multi_reader : List ℕ → List ℕ → List ℕ
multi_reader first rest = first ++ rest

-- the handshake over the pipes
abbrev pub shake_hands : List ℕ → Option Error → Launched × List Action
shake_hands reader (some e) =
    (failed (wrapped (text "grpc handshake over stdio: ") e), starts ∷ kill_and_wait)
shake_hands reader none = (connected reader, starts ∷ [])

-- `io.ReadFull` of one byte
abbrev pub read_first : Wording → Child → List ℕ → Launched × List Action
read_first t c [] = (failed (wrapped t.no_output (plain (text "EOF"))), starts ∷ kill_and_wait)
read_first t c (first ∷ rest) = shake_hands (multi_reader (first ∷ []) rest) c.handshake_error

-- after the start: the `select` on the first byte
unfoldable pub await_first : Wording → Child → Launched × List Action
await_first t c =
    if c.in_time
    then read_first t c c.output
    else (failed (plain t.timeout), starts ∷ kill_and_wait)

abbrev pub started : Wording → Child → Option Error → Launched × List Action
started t c (some e) = (failed (wrapped t.not_started e), [])
started t c none = await_first t c

abbrev pub piped : Wording → Child → Option Error → Launched × List Action
piped t c (some e) = (failed (wrapped (text "create stdout pipe: ") e), [])
piped t c none = started t c c.start_error

abbrev pub launch_piped : Wording → Child → Option Error → Launched × List Action
launch_piped t c (some e) = (failed (wrapped (text "create stdin pipe: ") e), [])
launch_piped t c none = piped t c c.stdout_error

unfoldable pub launch : Wording → Child → Launched × List Action
unfolding await_first
launch t c = launch_piped t c c.stdin_error

-- `DialStdio`
abbrev pub dial_stdio : Text → Child → Launched × List Action
dial_stdio binary_path c =
    launch
      (record {
        not_started = text "start " ++ binary_path ++ text ": ";
        no_output = text "server did not start: ";
        timeout = text "server startup timeout";
      })
      c

-- `dialStdioCommand`
abbrev pub dial_stdio_command : Child → Launched × List Action
dial_stdio_command c =
    launch
      (record {
        not_started = text "start stdio server: ";
        no_output = text "stdio server startup failed: ";
        timeout = text "stdio server startup timeout";
      })
      c

-- The `sync.Once` of the dialer: whether the pipe was handed out, and whether it is now.
abbrev pub dial_once : Bool → Bool × Bool
dial_once consumed = (true, if consumed then false else true)

abbrev pub IsReaped : Child → Launched × List Action → Type 0
IsReaped c r =
    (r ≡ (connected c.output, starts ∷ []))
    ⊎ ((e : Error) × ((r ≡ (failed e, starts ∷ kills ∷ waits ∷ [])) ⊎ (r ≡ (failed e, []))))

failed-IsReaped : (c : Child) (e : Error) → IsReaped c (failed e, [])
failed-IsReaped c e = inr (e, inr refl)

killed-IsReaped : (c : Child) (e : Error) → IsReaped c (failed e, starts ∷ kills ∷ waits ∷ [])
killed-IsReaped c e = inr (e, inl refl)

read_first-IsReaped :
    (t : Wording) (c : Child) (output : List ℕ)
    → c.output ≡ output
    → IsReaped c (read_first t c output)
read_first-IsReaped t c [] e = killed-IsReaped c _
read_first-IsReaped t c (first ∷ rest) e = shaken c.handshake_error
  where
    shaken : (o : Option Error) → IsReaped c (shake_hands (multi_reader (first ∷ []) rest) o)
    shaken (some failure) = killed-IsReaped c _
    shaken none = inl (ap (λ l. (connected l, starts ∷ [])) (sym e))

await_first-IsReaped : (t : Wording) (c : Child) → IsReaped c (await_first t c)
unfolding await_first
await_first-IsReaped t c =
    if-cases (IsReaped c) c.in_time _ _ (λ _. read_first-IsReaped t c c.output refl)
      (λ _. killed-IsReaped c _)

-- However a child is launched: it is started, and the connection's reader reads all that the child
-- writes, the first byte included; or an error is reported, and the child was killed and waited for
-- if it had been started. This holds of both callers, whatever their wording.
pub launch-IsReaped : (t : Wording) (c : Child) → IsReaped c (launch t c)
unfolding launch
launch-IsReaped t c = in_pipe c.stdin_error
  where
    start : (o : Option Error) → IsReaped c (started t c o)
    start (some e) = failed-IsReaped c _
    start none = await_first-IsReaped t c

    out_pipe : (o : Option Error) → IsReaped c (piped t c o)
    out_pipe (some e) = failed-IsReaped c _
    out_pipe none = start c.start_error

    in_pipe : (o : Option Error) → IsReaped c (launch_piped t c o)
    in_pipe (some e) = failed-IsReaped c _
    in_pipe none = out_pipe c.stdout_error
