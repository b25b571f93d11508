-- ===== src/Common/Flags.antt =====
-- What the programs use of Go's package flag: `flag.Parse` over flags that take a value, where an
-- error ends the program.
use Prim.Native.Nat.{ℕ}
use mathlib.Core.Path.{◌≡◌, refl}
use mathlib.Core.Bool.{◌||◌}
use mathlib.Core.Option.{Option, none, some}
use mathlib.Core.List.{List, [], ◌∷◌}
use go_holons.Common.Tests.{◌==◌, if◌then◌else◌}
use go_holons.Common.Text.{Text, text, text_eq, is_empty}

-- What `flag` reads in one argument: the end of the flags, an error, the name of a flag whose value
-- is the next argument, or a name and its value.
pub data Arg : Type 0 where
  plain dashes malformed : Arg
  flagged : Text → Arg
  assigned : (name value : Text) → Arg

-- A name and what follows the first `=`.
abbrev pub cut : Text → Text × Option Text
cut [] = ([], none)
cut (c ∷ s) = let (name, value) = cut s in if c == b'=' then ([], some s) else (c ∷ name, value)

abbrev pub flag_of : Text × Option Text → Arg
flag_of (name, none) = flagged name
flag_of (name, some value) = assigned name value

abbrev pub read_name : Text → Arg
read_name [] = malformed
read_name (c ∷ s) =
    let (name, value) = cut s in
    if c == b'-' || c == b'=' then malformed else flag_of (c ∷ name, value)

unfoldable pub read_arg : Text → Arg
read_arg [] = plain
read_arg (c ∷ []) = plain
read_arg (c ∷ d ∷ s) =
    if c == b'-'
    then if d == b'-' then if is_empty s then dashes else read_name s else read_name (d ∷ s)
    else plain

-- The values and the arguments that are left, or the exit code of the program.
pub data Parsed (S : Type 0) : Type 0 where
  parsed : S → List Text → Parsed S
  exits : ℕ → Parsed S

-- The flags of a program: what each name does with its value, if it is defined and takes it.
abbrev pub Flags : Type 0 → Type 0
Flags S = Text → Option (Text → S → Option S)

-- `-help` and `-h` print the usage and exit with 0, unless they are defined.
abbrev pub undefined : Text → ℕ
undefined name = if text_eq name (text "help") || text_eq name (text "h") then 0 else 2

module _ {S : Type 0} where
  abbrev pub set_value : Option S → (S → Parsed S) → Parsed S
  set_value none k = exits 2
  set_value (some s) k = k s

  abbrev pub set_flag : Text → Option (Text → S → Option S) → Text → S → (S → Parsed S) → Parsed S
  set_flag name none value s k = exits (undefined name)
  set_flag name (some set) value s k = set_value (set value s) k

  abbrev pub without_value : Text → Option (Text → S → Option S) → Parsed S
  without_value name none = exits (undefined name)
  without_value name (some set) = exits 2

  unfoldable pub parse : Flags S → List Text → S → Parsed S
  unfolding read_arg
  parse flags [] s = parsed s []
  parse flags (arg ∷ []) s = elim (read_arg arg) [
    | plain ↦ parsed s (arg ∷ [])
    | dashes ↦ parsed s []
    | malformed ↦ exits 2
    | flagged name ↦ without_value name (flags name)
    | assigned name value ↦ set_flag name (flags name) value s (λ s'. parsed s' [])
  ]
  parse flags (arg ∷ next ∷ rest) s = elim (read_arg arg) [
    | plain ↦ parsed s (arg ∷ next ∷ rest)
    | dashes ↦ parsed s (next ∷ rest)
    | malformed ↦ exits 2
    | flagged name ↦ set_flag name (flags name) next s (parse flags rest)
    | assigned name value ↦ set_flag name (flags name) value s (parse flags (next ∷ rest))
  ]

  -- A flag and its value in the next argument, whatever that is.
  pub parse-flag :
      (flags : Flags S) (name value : Text) (rest : List Text) (s : S) (arg : Text)
      → read_arg arg ≡ flagged name
      → parse flags (arg ∷ value ∷ rest) s ≡ set_flag name (flags name) value s (parse flags rest)
  unfolding parse
  parse-flag flags name value rest s arg e = rw (e, parse) refl
