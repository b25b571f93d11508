-- ===== src/Holonrpc/Tests.antt =====
-- Concrete inputs: a small encoder that keeps what the program relies on, a world in which nothing
-- fails, and one run of each theorem.
mod ServerRuns
mod ClientRuns
mod TableRuns
mod CallRuns
mod LoopRuns
mod ReadRuns
mod PeerRuns
mod RelayRuns
use mathlib.Core.List.{reverse-append, reverse-reverse}
use go_holons.Common.{
  ℕ, ◌≡◌, refl, sym, ap, ◌∙◌, inl, inr, Option, none, some, List, [], ◌∷◌, ◌++◌, reverse, Bool,
  true, false, ◌==◌, if◌then◌else◌,
}
use go_holons.Common.Text.{Text, text, text_eq, trim_space, trim_left, is_space}
use go_holons.Holonrpc.Value.{Fields, field, Value, null, string, object, end, Object}
use go_holons.Holonrpc.Message.{
  Codec, IsLawful, HasEncoding, RpcMessage, ResponseError, Error, IsRaw, request_message,
  json_rpc_version,
}

abbrev quote_mark : ℕ
quote_mark = 34

abbrev init : Text → Text
init [] = []
init (x ∷ []) = []
init (x ∷ y ∷ t) = x ∷ init (y ∷ t)

abbrev quoted : Text → Text
quoted s = quote_mark ∷ s ++ quote_mark ∷ []

abbrev encode : Value → Option Text
encode null = some (text "null")
encode (string s) = some (quoted s)
encode _ = some (text "{}")

abbrev broadcasting : Fields
broadcasting = field (text "_routing") (string (text "broadcast-response")) end

abbrev decode : Text → Option Value
decode [] = none
decode (x ∷ t) =
    if x == quote_mark
    then some (string (init t))
    else if x == b'@'
    then some (object (field (text "_peer") (string t) end))
    else if x == b'#'
    then some (object (field (text "_peer") (string t) broadcasting))
    else if text_eq (x ∷ t) (text "null")
    then some null
    else some (object end)

-- Strings in quotes without escapes; any other value but nil is written `{}`. What follows an `@` is
-- read as the name of a peer in an object, what follows a `#` with a broadcast of the response.
abbrev pub toy : Codec
toy = record {
  decode = decode;
  valid = λ _. true;
  encode = encode;
  decode_message = λ _. none;
  encode_message = λ m. some (m.id ++ m.method ++ m.params ++ m.result);
  show = λ _. text "value";
  quote = quoted;
}

init-append : (s : Text) (x : ℕ) → init (s ++ x ∷ []) ≡ s
init-append [] x = refl
init-append (a ∷ []) x = refl
init-append (a ∷ b ∷ s) x = ap (λ t. a ∷ t) (init-append (b ∷ s) x)

reverse-quoted : (s : Text) → reverse (quoted s) ≡ quoted (reverse s)
reverse-quoted s =
    reverse-append (quote_mark ∷ s) (quote_mark ∷ [])
    ∙ ap (λ t. quote_mark ∷ t) (reverse-append (quote_mark ∷ []) s)

trim_space-quoted : (s : Text) → trim_space (quoted s) ≡ quoted s
unfolding trim_space trim_left is_space
trim_space-quoted s =
    ap (λ t. reverse (trim_left t)) (reverse-quoted s)
    ∙ reverse-quoted (reverse s)
    ∙ ap quoted (reverse-reverse s)

pub toy-IsLawful : IsLawful toy
unfolding text text_eq
toy-IsLawful = record {
  encodes_string = λ s. (
    quoted s,
    refl,
    ap (λ t. some (string t)) (init-append s quote_mark),
    trim_space-quoted s,
    refl,
  );
  encodes_empty = refl;
  decodes_null = refl;
  decodes_empty = refl;
  encodes_valid = λ v raw e. refl;
  encodes_message = λ m a b d e. (m.id ++ m.method ++ m.params ++ m.result, refl);
}

pub toy-HasEncoding : (e : ResponseError) → HasEncoding toy (some e)
toy-HasEncoding e = encoded e.detail
  where
    encoded : (v : Value) → (raw : Text) × (toy.encode v ≡ some raw)
    encoded null = (text "null", refl)
    encoded (string s) = (quoted s, refl)
    encoded (Value.boolean b) = (text "{}", refl)
    encoded (Value.number n) = (text "{}", refl)
    encoded (Value.array vs) = (text "{}", refl)
    encoded (object fs) = (text "{}", refl)

abbrev pub request_id : Text
request_id = quoted (text "c1")
