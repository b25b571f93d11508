-- ===== src/Holonrpc/Message.antt =====
-- pkg/holonrpc/types.go: the envelope, its identifiers, params, results and error codes. What the
-- file calls of encoding/json and of fmt's `%q` and `%v` is the record `Codec`.
pub mod Laws
use go_holons.Common.{Bool, true, false, not, ◌&&◌, ◌||◌, Option, none, some, List, [], ◌∷◌, ◌++◌}
use go_holons.Common.{if◌then◌else◌, ◌≡◌, ◌⊎◌}
use go_holons.Common.Int.{ℤ, pos, negsuc, format_int}
use go_holons.Common.Text.{Text, text, text_eq, is_empty, trim_space}
use go_holons.Holonrpc.Value.{Value, null, string, object, end, Object, entries, of_entries}

abbrev pub json_rpc_version : Text
json_rpc_version = text "2.0"

abbrev pub code_parse_error : ℤ
code_parse_error = negsuc 32699

abbrev pub code_invalid_request : ℤ
code_invalid_request = negsuc 32599

abbrev pub code_method_not_found : ℤ
code_method_not_found = negsuc 32600

abbrev pub code_invalid_params : ℤ
code_invalid_params = negsuc 32601

abbrev pub code_internal_error : ℤ
code_internal_error = negsuc 32602

abbrev pub code_unavailable : ℤ
code_unavailable = pos 14

-- `Data` is `detail` here, and `nil` is `null`.
pub record ResponseError : Type 0 where
  pub code : ℤ
  pub message : Text
  pub detail : Value

-- A `json.RawMessage` is its text; the empty text stands for an absent field.
pub record RpcMessage : Type 0 where
  pub jsonrpc : Text
  pub id : Text
  pub method : Text
  pub params : Text
  pub result : Text
  pub error : Option ResponseError

-- A Go `error` as the program tells errors apart: by `errors.As` and `errors.Is`, through
-- `fmt.Errorf("…: %w", err)`.
pub data Error : Type 0 where
  response : ResponseError → Error
  canceled deadline_exceeded : Error
  plain : Text → Error
  wrapped : Text → Error → Error

-- What the program calls of encoding/json and fmt: `json.Unmarshal` into an `any`, `json.Valid`,
-- `json.Marshal` of a value, both for the envelope, and the verbs `%v` and `%q`.
pub record Codec : Type 0 where
  pub decode : Text → Option Value
  pub valid : Text → Bool
  pub encode : Value → Option Text
  pub decode_message : Text → Option RpcMessage
  pub encode_message : RpcMessage → Option Text
  pub show : Value → Text
  pub quote : Text → Text

abbrev pub error_connection_closed : Error
error_connection_closed = plain (text "holon-rpc connection closed")

abbrev is_null : Value → Bool
is_null null = true
is_null _ = false

-- `bytes.Equal(t, []byte("null"))`
abbrev pub is_null_text : Text → Bool
is_null_text t = text_eq t (text "null")

-- `hasID`
unfoldable pub has_id : Text → Bool
has_id id = let trimmed = trim_space id in not (is_empty trimmed) && not (is_null_text trimmed)

-- `idKey`: the key, or nothing for a notification.
unfoldable pub id_key : Text → Option Text
id_key id =
    let trimmed = trim_space id in
    if is_empty trimmed || is_null_text trimmed then none else some trimmed

module _ (c : Codec) where
  -- `(*ResponseError).Error`, of an error that is not nil
  unfoldable pub response_text : ResponseError → Text
  response_text e =
      let head = text "rpc error " ++ format_int e.code ++ text ": " ++ e.message in
      if is_null e.detail then head else head ++ text " (data: " ++ c.show e.detail ++ text ")"

  -- `err.Error()`
  unfoldable pub error_text : Error → Text
  unfolding response_text
  error_text (response e) = response_text e
  error_text canceled = text "context canceled"
  error_text deadline_exceeded = text "context deadline exceeded"
  error_text (plain t) = t
  error_text (wrapped prefix e) = prefix ++ error_text e

  -- `makeID`: the encoder's error is dropped.
  unfoldable pub make_id : Text → Text
  make_id id = elim (c.encode (string id)) [ none ↦ [] | some raw ↦ raw ]

  -- `json.Unmarshal` into a `string`: `null` leaves the empty string.
  abbrev as_string : Option Value → Option Text
  as_string (some (string s)) = some s
  as_string (some null) = some []
  as_string _ = none

  -- `decodeStringID`
  unfoldable pub decode_string_id : Text → Option Text
  decode_string_id id = as_string (c.decode (trim_space id))

  -- `json.Unmarshal` into a `map[string]any`; a `null` leaves the nil map, which the caller
  -- replaces by an empty one.
  abbrev as_params : Option Value → Option Object
  as_params (some (object fs)) = some (entries fs)
  as_params (some null) = some []
  as_params _ = none

  -- `decodeParams`; the error is always "params must be an object".
  unfoldable pub decode_params : Text → Option Object
  decode_params raw =
      let trimmed = trim_space raw in
      if is_empty trimmed
      then some []
      else if is_null_text trimmed
      then some []
      else as_params (c.decode trimmed)

  abbrev as_result : Value → Object
  as_result null = []
  as_result (object fs) = entries fs
  as_result v = (text "value", v) ∷ []

  abbrev as_results : Option Value → Option Object
  as_results none = none
  as_results (some v) = some (as_result v)

  -- `decodeResult`: a result that is no object is wrapped.
  unfoldable pub decode_result : Text → Option Object
  decode_result raw =
      let trimmed = trim_space raw in
      if is_empty trimmed then some [] else as_results (c.decode trimmed)

  -- `marshalObject`: a nil map is written as `{}`.
  unfoldable pub marshal_object : Option Object → Option Text
  marshal_object none = some (text "{}")
  marshal_object (some m) = c.encode (object (of_entries m))

  -- `marshalMessage`
  unfoldable pub marshal_message : RpcMessage → Option Text
  marshal_message msg = c.encode_message msg

  -- `classifyDecodeError`
  unfoldable pub classify_decode_error : Text → ℤ
  classify_decode_error raw = if c.valid raw then code_invalid_request else code_parse_error

-- `errors.As(err, &rpcErr)`
unfoldable pub as_response : Error → Option ResponseError
as_response (response e) = some e
as_response canceled = none
as_response deadline_exceeded = none
as_response (plain _) = none
as_response (wrapped _ e) = as_response e

-- `errors.Is(err, context.Canceled)`
unfoldable pub is_canceled : Error → Bool
is_canceled canceled = true
is_canceled (wrapped _ e) = is_canceled e
is_canceled _ = false

-- `errors.Is(err, context.DeadlineExceeded)`
unfoldable pub is_deadline_exceeded : Error → Bool
is_deadline_exceeded deadline_exceeded = true
is_deadline_exceeded (wrapped _ e) = is_deadline_exceeded e
is_deadline_exceeded _ = false

-- An envelope with `result`, one with `error`, and one with `method`.
abbrev pub result_message : Text → Text → RpcMessage
result_message id result = record {
  jsonrpc = json_rpc_version;
  id = id;
  method = [];
  params = [];
  result = result;
  error = none;
}

abbrev pub error_message : Text → ResponseError → RpcMessage
error_message id e = record {
  jsonrpc = json_rpc_version;
  id = id;
  method = [];
  params = [];
  result = [];
  error = some e;
}

abbrev pub request_message : Text → Text → Text → RpcMessage
request_message id method params = record {
  jsonrpc = json_rpc_version;
  id = id;
  method = method;
  params = params;
  result = [];
  error = none;
}

-- A raw field that the encoder accepts.
abbrev pub IsRaw : Codec → Text → Type 0
IsRaw c raw = (raw ≡ []) ⊎ (c.valid raw ≡ true)

-- Error data that the encoder accepts.
abbrev pub HasEncoding : Codec → Option ResponseError → Type 0
HasEncoding c none = Unit {0}
HasEncoding c (some e) = (raw : Text) × (c.encode e.detail ≡ some raw)

-- What the program relies on of the encoder: a string is written as a text with no space at its
-- ends, which decodes to it; an empty map is
-- written as `{}`; `null` decodes to nil; `json.Marshal` writes valid JSON; and an
-- envelope whose raw fields are absent or valid, and whose error data can be written, is written.
pub record IsLawful (c : Codec) : Type 0 where
  pub encodes_string :
      (s : Text)
      → (raw : Text) × (c.encode (string s) ≡ some raw)
        × (c.decode raw ≡ some (string s))
        × (trim_space raw ≡ raw)
        × (c.valid raw ≡ true)
  pub encodes_empty : c.encode (object end) ≡ some (text "{}")
  pub decodes_null : c.decode (text "null") ≡ some null
  pub decodes_empty : c.decode [] ≡ none
  pub encodes_valid : (v : Value) (raw : Text) → c.encode v ≡ some raw → c.valid raw ≡ true
  pub encodes_message :
      (m : RpcMessage)
      → IsRaw c m.id
      → IsRaw c m.params
      → IsRaw c m.result
      → HasEncoding c m.error
      → (raw : Text) × (c.encode_message m ≡ some raw)
