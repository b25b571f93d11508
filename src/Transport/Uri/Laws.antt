-- ===== src/Transport/Uri/Laws.antt =====
-- Which listener `Listen` of pkg/transport/transport.go makes for which scheme.
use go_holons.Common.{
  ℕ, ◌⊎◌, ◌≡◌, refl, sym, ap, ◌∙◌, Option, none, some, ◌++◌, Bool, true, false, not, ◌&&◌, ◌||◌,
  arith, if-cases, Option-cases, Bool-cases, inl, inr, subst,
}
use go_holons.Common.Text.{
  Text, text, text_eq, text_eq_iff, is_empty, trim_space, has_prefix, before, after_prefix,
  after_prefix_sound, to_lower,
}
use go_holons.Holonrpc.Message.{Error}
use go_holons.Transport.Listeners.{WsListener, ws_scheme, ws_address}
use go_holons.Transport.Uri.{
  scheme, WsUrl, Host, Listener, tcp_listener, unix_listener, stdio_listener, mem_listener,
  ws_listener, Listened, listening, failed, is_stdio, tcp_bound, unix_bound, unix_removed,
  listen_unix, ws_bound, split_ws_host, listen_ws_at, listen_ws_url, new_ws_listener, listen,
}

-- The scheme that a listener serves.
abbrev pub kind : Listener → Text
kind (tcp_listener handle address) = text "tcp"
kind (unix_listener l) = text "unix"
kind (stdio_listener l) = text "stdio"
kind mem_listener = text "mem"
kind (ws_listener l) = ws_scheme l.is_tls

tcp-scheme : (rest : Text) → scheme (text "tcp://" ++ rest) ≡ text "tcp"
unfolding scheme before after_prefix text
tcp-scheme rest = refl

unix-scheme : (rest : Text) → scheme (text "unix://" ++ rest) ≡ text "unix"
unfolding scheme before after_prefix text
unix-scheme rest = refl

mem-scheme : (rest : Text) → scheme (text "mem://" ++ rest) ≡ text "mem"
unfolding scheme before after_prefix text
mem-scheme rest = refl

ws-scheme :
    (is_tls : Bool) (address path : Text)
    → scheme (ws_scheme is_tls ++ text "://" ++ address ++ path) ≡ ws_scheme is_tls
unfolding scheme before after_prefix text
ws-scheme true address path = refl
ws-scheme false address path = refl

whole_scheme : scheme (text "stdio://") ≡ text "stdio"
unfolding scheme before after_prefix text
whole_scheme = refl

bare_scheme : scheme (text "stdio") ≡ text "stdio"
unfolding scheme before after_prefix text
bare_scheme = refl

stdio-scheme : (uri : Text) → is_stdio uri ≡ true → scheme uri ≡ text "stdio"
stdio-scheme uri e = elim (Bool-cases (text_eq uri (text "stdio://"))) [
  | inl whole ↦ rw ((text_eq_iff uri (text "stdio://")).0 whole) whole_scheme
  | inr other ↦
      let bare : text_eq uri (text "stdio") ≡ true = rw other at e in
      rw ((text_eq_iff uri (text "stdio")).0 bare) bare_scheme
]

-- A URI with a prefix is that prefix and a rest.
prefixed :
    (p uri : Text) (P : Text → Type 0)
    → ((rest : Text) → P (p ++ rest))
    → has_prefix uri p ≡ true
    → P uri
prefixed p uri P h e = elim (Option-cases (after_prefix p uri)) [
  | inl absent ↦ cc
  | inr (rest, found) ↦ subst P (sym (after_prefix_sound p uri rest found)) (h rest)
]

-- A URI parser finds the scheme of the URIs that are handed to it.
abbrev pub FindsScheme : Host → Text → Type 0
FindsScheme h uri = (u : WsUrl) → h.parse_url uri ≡ inr u → to_lower u.scheme ≡ scheme uri

abbrev Serves : Text → Listened → Type 0
Serves s r = (l : Listener) → r ≡ listening l → kind l ≡ s

listening-kind : (x l : Listener) → listening x ≡ listening l → kind l ≡ kind x
listening-kind x l e = let same : x ≡ l = cc in ap kind (sym same)

failed-Serves : (s : Text) (e : Error) → Serves s (failed e)
failed-Serves s e l h = cc

tls_scheme :
    (s : Text)
    → (not (text_eq s (text "ws")) && not (text_eq s (text "wss"))) ≡ false
    → ws_scheme (text_eq s (text "wss")) ≡ s
tls_scheme s e = ground (arith, text_eq_iff s (text "ws"), text_eq_iff s (text "wss"))

module _ (h : Host) where
  tcp_bound-Serves : (address : Text) (o : Error ⊎ ℕ) → Serves (text "tcp") (tcp_bound h address o)
  tcp_bound-Serves address (inl failure) l e = cc
  tcp_bound-Serves address (inr handle) l e = ground arith

  unix_bound-Serves : (path : Text) (o : Error ⊎ ℕ) → Serves (text "unix") (unix_bound h path o)
  unix_bound-Serves path (inl failure) l e = cc
  unix_bound-Serves path (inr handle) l e = ground arith

  unix_removed-Serves :
      (path : Text) (o : Option Error) → Serves (text "unix") (unix_removed h path o)
  unix_removed-Serves path (some failure) l e = cc
  unix_removed-Serves path none l e = unix_bound-Serves path (h.listen (text "unix") path) l e

  listen_unix-Serves : (uri path : Text) → Serves (text "unix") (listen_unix h uri path)
  unfolding listen_unix
  listen_unix-Serves uri path =
      if-cases (Serves (text "unix")) (is_empty (trim_space path)) _ _ (λ _. failed-Serves _ _)
        (λ _. unix_removed-Serves path (h.remove_error path))

  ws_bound-Serves :
      (is_tls : Bool) (address path : Text) (o : Error ⊎ ℕ)
      → Serves (ws_scheme is_tls) (ws_bound h is_tls address path o)
  ws_bound-Serves is_tls address path (inl failure) l e = cc
  ws_bound-Serves is_tls address path (inr handle) l e = ground arith

  listen_ws_at-Serves :
      (is_tls : Bool) (u : WsUrl) → Serves (ws_scheme is_tls) (listen_ws_at h is_tls u)
  unfolding listen_ws_at
  listen_ws_at-Serves is_tls u =
      if-cases (Serves (ws_scheme is_tls)) (is_tls && _) _ _ (λ _. failed-Serves _ _)
        (λ _. ws_bound-Serves is_tls u.host _ _)

  split_ws_host-Serves :
      (is_tls : Bool) (u : WsUrl) (o : Option Error)
      → Serves (ws_scheme is_tls) (split_ws_host h is_tls u o)
  split_ws_host-Serves is_tls u (some failure) l e = cc
  split_ws_host-Serves is_tls u none l e = listen_ws_at-Serves is_tls u l e

  listen_ws_url-Serves :
      (uri s : Text) (o : Error ⊎ WsUrl)
      → ((u : WsUrl) → o ≡ inr u → to_lower u.scheme ≡ s)
      → Serves s (listen_ws_url h uri o)
  unfolding listen_ws_url
  listen_ws_url-Serves uri s (inl failure) finds = failed-Serves s _
  listen_ws_url-Serves uri s (inr u) finds =
      let lowered = to_lower u.scheme in
      if-cases (Serves s) (not (text_eq lowered (text "ws")) && not (text_eq lowered (text "wss")))
        _ _ (λ _. failed-Serves s _)
        λ known.
          if-cases (Serves s) (is_empty (trim_space u.host)) _ _ (λ _. failed-Serves s _)
            λ _. λ l e.
              split_ws_host-Serves (text_eq lowered (text "wss")) u (h.port_error u.host) l e
              ∙ tls_scheme lowered known
              ∙ finds u refl

  listen_ws-Serves : (uri : Text) → FindsScheme h uri → Serves (scheme uri) (new_ws_listener h uri)
  unfolding new_ws_listener
  listen_ws-Serves uri finds = listen_ws_url-Serves uri (scheme uri) (h.parse_url uri) finds

-- Where `Listen` succeeds, the scheme that `Scheme` extracts from the URI is that of the listener
-- that it made: "tcp", "unix", "stdio", "mem", "ws" or "wss". So every other URI is refused.
pub listen-kind :
    (h : Host) (uri : Text) (l : Listener)
    → FindsScheme h uri
    → listen h uri ≡ listening l
    → kind l ≡ scheme uri
unfolding listen
listen-kind h uri l finds =
    let Served : Listened → Type 0 = λ r. r ≡ listening l → kind l ≡ scheme uri in
    if-cases Served (has_prefix uri (text "tcp://")) _ _
      (λ p. λ e.
        tcp_bound-Serves h _ _ l e
        ∙ sym (prefixed (text "tcp://") uri (λ u. scheme u ≡ text "tcp") tcp-scheme p))
      λ _.
        if-cases Served (has_prefix uri (text "unix://")) _ _
          (λ p. λ e.
            listen_unix-Serves h uri _ l e
            ∙ sym (prefixed (text "unix://") uri (λ u. scheme u ≡ text "unix") unix-scheme p))
          λ _.
            if-cases Served (is_stdio uri) _ _
              (λ p. λ e. listening-kind _ l e ∙ sym (stdio-scheme uri p))
              λ _.
                if-cases Served (has_prefix uri (text "mem://")) _ _
                  (λ p. λ e.
                    listening-kind _ l e
                    ∙ sym (prefixed (text "mem://") uri (λ u. scheme u ≡ text "mem") mem-scheme p))
                  λ _.
                    if-cases Served
                      (has_prefix uri (text "ws://") || has_prefix uri (text "wss://")) _ _
                      (λ p. listen_ws-Serves h uri finds l) λ _. failed-Serves _ _ l

-- The address that a WebSocket listener of `Listen` reports is a URI of the scheme it was asked for.
pub ws_address-scheme :
    (h : Host) (uri : Text) (l : WsListener)
    → FindsScheme h uri
    → listen h uri ≡ listening (ws_listener l)
    → scheme (ws_address l) ≡ scheme uri
ws_address-scheme h uri l finds e =
    ws-scheme l.is_tls l.address l.path ∙ listen-kind h uri (ws_listener l) finds e
