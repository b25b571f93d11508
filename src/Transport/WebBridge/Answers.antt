-- ===== src/Transport/WebBridge/Answers.antt =====
-- What the gateway of pkg/transport/wsweb.go answers to a browser, and whom it lets in.
use go_holons.Common.{◌≡◌, ◌≢◌, ◌↔◌, refl, ◌⊎◌, inl, none, some, List, [], ◌∷◌, true, arith}
use go_holons.Common.Text.{Text, mem_text}
use go_holons.Transport.WebBridge.{
  WsErr, WsMsg, WebCodec, WebBridge, forbidden, allow_origins, admit, ws_error, ws_result, fallback,
}

-- A response under the identifier: a result, or an error.
abbrev pub IsResponse : Text → WsMsg → Type 0
IsResponse id m =
    ((result : Text) × (m ≡ ws_result id result))
    ⊎ ((e : WsErr) × (m ≡ ws_error id e.code e.message))

-- Written is one text: the encoding of a response, or, where the encoder refuses that response, the
-- fixed body without an identifier.
pub record IsWebReply (c : WebCodec) (id : Text) (out : List Text) : Type 0 where
  pub message : WsMsg
  pub response : IsResponse id message
  pub written :
      ((payload : Text) × (c.encode message ≡ some payload) × (out ≡ payload ∷ []))
      ⊎ ((c.encode message ≡ none) × (out ≡ fallback ∷ []))

-- After `AllowOrigins` with some origins, an origin gets past the check of the gateway exactly if it
-- is one of them; after `AllowOrigins` with none, every origin does.
pub admit-allow_origins :
    (b : WebBridge) (origin : Text) (origins : List Text)
    → (admit origin (allow_origins origins b) ≢ forbidden)
      ↔ ((origins ≡ []) ⊎ (mem_text origin origins ≡ true))
unfolding admit allow_origins
admit-allow_origins b origin [] = (λ _. inl refl, λ _ e. cc)
admit-allow_origins b origin (o ∷ os) = ground arith
