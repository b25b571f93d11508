-- ===== src/Programs/Agreement.antt =====
-- What one side listens on and the other dials: `Listen` of pkg/transport/transport.go, `Dial` of
-- pkg/grpcclient/client.go, and the URIs of cmd/echo-server and cmd/echo-client.
use go_holons.Common.{
  Bool, not, ◌&&◌, ◌==◌, ℕ, ◌⊎◌, inl, inr, ◌≡◌, refl, sym, ◌∙◌, Option, none, some, [], ◌∷◌, ◌++◌,
  true, false, arith, if◌then◌else◌, if-cases,
}
use go_holons.Common.Text.{
  Text, text, has_prefix, trim_prefix, is_empty, text_eq, trim_space, trim_left, after_prefix,
}
use go_holons.Holonrpc.Message.{Error}
use go_holons.Transport.Uri.{
  Host, Listener, unix_listener, Listened, listening, listen, listen_unix, unix_bound, unix_removed,
}
use go_holons.Programs.GrpcClient.{unix_prefix, is_unix_address, dial}
use go_holons.Programs.Echo.{
  Splitter, tcp, unix, normalize_target, is_any, extract_tcp_host, public_uri,
}

-- The Unix listener around the handle that `net.Listen` gave for that very path, which it remembers.
abbrev pub IsAt : Host → Text → Listener → Type 0
IsAt h path l =
    (handle : ℕ) × (h.listen (text "unix") path ≡ inr handle)
    × (l ≡ unix_listener (record { handle = handle; path = path; closed = false }))

abbrev Binds : Host → Text → Listened → Type 0
Binds h path r = (l : Listener) → r ≡ listening l → IsAt h path l × (is_empty path ≡ false)

unix_bound-Binds :
    (h : Host) (path : Text) (o : Error ⊎ ℕ)
    → is_empty path ≡ false
    → h.listen (text "unix") path ≡ o
    → Binds h path (unix_bound h path o)
unix_bound-Binds h path (inl failure) named bound l e = cc
unix_bound-Binds h path (inr handle) named bound l e = ((handle, bound, cc), named)

unix_removed-Binds :
    (h : Host) (path : Text) (o : Option Error)
    → is_empty path ≡ false
    → Binds h path (unix_removed h path o)
unix_removed-Binds h path (some failure) named l e = cc
unix_removed-Binds h path none named l e =
    unix_bound-Binds h path (h.listen (text "unix") path) named refl l e

trimmed_not_empty : (path : Text) → is_empty (trim_space path) ≡ false → is_empty path ≡ false
unfolding trim_space trim_left
trimmed_not_empty [] e = e
trimmed_not_empty (x ∷ path) e = refl

listen_unix-Binds : (h : Host) (uri path : Text) → Binds h path (listen_unix h uri path)
unfolding listen_unix
listen_unix-Binds h uri path =
    if-cases (Binds h path) (is_empty (trim_space path)) _ _ (λ _ l e. cc)
      (λ named. unix_removed-Binds h path (h.remove_error path) (trimmed_not_empty path named))

listen-unix :
    (h : Host) (path : Text)
    → listen h (unix_prefix ++ path) ≡ listen_unix h (unix_prefix ++ path) path
unfolding listen after_prefix text
listen-unix h path = refl

is_unix_address-unix : (x : ℕ) (path : Text) → is_unix_address (unix_prefix ++ x ∷ path) ≡ true
unfolding is_unix_address after_prefix text
is_unix_address-unix x path = ground arith

dial-unix : (path : Text) → is_empty path ≡ false → (dial (unix_prefix ++ path)).socket ≡ some path
unfolding dial is_unix_address after_prefix text
dial-unix [] e = cc
dial-unix (x ∷ path) e = rw (is_unix_address-unix x path, dial) refl

normalize_target-unix : (path : Text) → normalize_target (unix_prefix ++ path) ≡ unix path
unfolding normalize_target after_prefix text
normalize_target-unix path = refl

-- Where `Listen` succeeds with a `unix://` URI, its listener is what `net.Listen` gave for the path
-- that follows, and remembers that path; and that is the socket that `Dial` of the gRPC client and `normalizeTarget` of the echo client take from the same
-- URI.
pub listen-dial_unix :
    (h : Host) (path : Text) (l : Listener)
    → listen h (unix_prefix ++ path) ≡ listening l
    → IsAt h path l
      × ((dial (unix_prefix ++ path)).socket ≡ some path)
      × (normalize_target (unix_prefix ++ path) ≡ unix path)
listen-dial_unix h path l e =
    let (at, named) =
      listen_unix-Binds h (unix_prefix ++ path) path l (sym (listen-unix h path) ∙ e) in
    (at, dial-unix path named, normalize_target-unix path)

normalize_target-tcp : (rest : Text) → normalize_target (text "tcp://" ++ rest) ≡ tcp rest
unfolding normalize_target after_prefix text
normalize_target-tcp rest = refl

-- Without what sets an IPv6 address apart: a colon or a bracket.
abbrev pub is_plain : Text → Bool
is_plain [] = true
is_plain (x ∷ t) = not (x == b':') && not (x == b'[') && not (x == b']') && is_plain t

-- What `net.SplitHostPort` says of a plain host and a plain port that a colon joins.
pub record IsSplitter (split : Splitter) : Type 0 where
  pub splits :
      (host port : Text)
      → is_plain host ≡ true
      → is_plain port ≡ true
      → split (host ++ (text ":" ++ port)) ≡ some (host, port)

-- The host that is shown for the host of a URI.
abbrev pub shown_for : Text → Text
shown_for host = if is_any host then text "127.0.0.1" else host

plain_shown :
    (host : Text) → (is_any host ≡ true) ⊎ (is_plain host ≡ true) → is_plain (shown_for host) ≡ true
unfolding text text_eq
plain_shown host (inl any) = rw any refl
plain_shown host (inr plain) =
    if-cases (λ (t : Text). is_plain t ≡ true) (is_any host) _ _ (λ _. refl) (λ _. plain)

-- The URI that the echo server prints for a TCP listener is dialed by the echo client: at the host of
-- the URI that the server was started with, or 127.0.0.1 where that is a wildcard, and at the port of
-- the bound address; and the address that is dialed splits into these two. The host of the URI is a
-- wildcard or without colons and brackets, as no IPv6 address is, and so is the port.
pub public_uri-dials :
    (split : Splitter) (uri address host wanted bound_host port : Text)
    → IsSplitter split
    → has_prefix uri (text "tcp://") ≡ true
    → split (trim_prefix uri (text "tcp://")) ≡ some (host, wanted)
    → split address ≡ some (bound_host, port)
    → (is_any host ≡ true) ⊎ (is_plain host ≡ true)
    → is_plain port ≡ true
    → (dialed : Text) × (normalize_target (public_uri split uri address) ≡ tcp dialed)
      × (split dialed ≡ some (shown_for host, port))
unfolding public_uri extract_tcp_host
public_uri-dials split uri address host wanted bound_host port law is_tcp started bound named
      plain =
    (
      shown_for host ++ (text ":" ++ port),
      rw (is_tcp, started, bound) (normalize_target-tcp (shown_for host ++ (text ":" ++ port))),
      law.splits (shown_for host) port (plain_shown host named) plain,
    )
