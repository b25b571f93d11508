-- ===== src/Holonrpc/Server/Calls.antt =====
-- The calls that the server makes: the identifiers and the pending table of `Server.Invoke`, and
-- `handlePeerResponse`, of pkg/holonrpc/server.go.
use go_holons.Common.{ℕ, ◌^◌, ◌<◌, ◌≡◌, ◌≢◌, refl, sym, ap, ◌∙◌, Option, none, some, true, arith}
use go_holons.Common.Int.{int64, format_int, format_int64-injective}
use go_holons.Common.Text.{
  append-cancel, Text, text, text_eq_refl, text_eq-false, has_prefix, after_prefix-append,
}
use go_holons.Holonrpc.Message.{
  Codec, IsLawful, RpcMessage, has_id, id_key, make_id, decode_string_id,
}
use go_holons.Holonrpc.Message.Laws.{
  id_key-make_id, has_id-make_id, make_id-injective, decode_string_id-make_id,
}
use go_holons.Holonrpc.Pending.{deliver}
use go_holons.Holonrpc.Pending.Laws.{IsValid, view, view-deliver}
use go_holons.Holonrpc.Server.State.{Server}
use go_holons.Holonrpc.Server.Invoke.{key_of, server_id}
use go_holons.Holonrpc.Server.Request.{handle_peer_response, check_version, deliver_keyed}

server_id-injective : (a b : ℕ) → a < 2 ^ 64 → b < 2 ^ 64 → server_id a ≡ server_id b → a ≡ b
server_id-injective a b ha hb e = format_int64-injective a b ha hb (append-cancel (text "s") _ _ e)

pub key_of-make_id : (c : Codec) → IsLawful c → (id : Text) → key_of (make_id c id) ≡ make_id c id
unfolding key_of
key_of-make_id c law id = rw (id_key-make_id c law id, key_of)

key_of-injective :
    (c : Codec) (a b : ℕ)
    → IsLawful c
    → a < 2 ^ 64
    → b < 2 ^ 64
    → key_of (make_id c (server_id a)) ≡ key_of (make_id c (server_id b))
    → a ≡ b
key_of-injective c a b law ha hb e = server_id-injective a b ha hb (
    make_id-injective c law (server_id a) (server_id b)
      (sym (key_of-make_id c law (server_id a)) ∙ e ∙ key_of-make_id c law (server_id b)))

-- Calls with different counters wait under different keys: `nextServerID` would have to run
-- through all 2^64 values of an int64 before a key comes back.
pub key_of-distinct :
    (c : Codec) (a b : ℕ)
    → IsLawful c
    → a < 2 ^ 64
    → b < 2 ^ 64
    → a ≢ b
    → key_of (make_id c (server_id a)) ≢ key_of (make_id c (server_id b))
key_of-distinct c a b law ha hb differ e = differ (key_of-injective c a b law ha hb e)

-- What the client checks of a server's identifier holds of every one that `Invoke` makes: it is
-- there, it is a JSON string, and that string starts with "s".
pub server_id_accepted :
    (c : Codec) (n : ℕ)
    → IsLawful c
    → (has_id (make_id c (server_id n)) ≡ true)
      × ((sid : Text) × (decode_string_id c (make_id c (server_id n)) ≡ some sid)
          × (has_prefix sid (text "s") ≡ true))
server_id_accepted c n law = (
  has_id-make_id c law (server_id n),
  (
    server_id n,
    decode_string_id-make_id c law (server_id n),
    rw (after_prefix-append (text "s") (format_int (int64 n))),
  ),
)

pub delivered_pending :
    (peer : ℕ) (m : RpcMessage) (key : Text) (s : Server)
    → id_key m.id ≡ some key
    → ((handle_peer_response peer m s).1.heap peer).pending
      ≡ deliver key (check_version m) (s.heap peer).pending
unfolding handle_peer_response
delivered_pending peer m key s e = rw (e, deliver_keyed) (ground arith)

delivered_elsewhere :
    (peer : ℕ) (m : RpcMessage) (o : Option Text) (s : Server) (q : ℕ)
    → q ≢ peer
    → (deliver_keyed peer m o s).1.heap q ≡ s.heap q
delivered_elsewhere peer m none s q h = refl
delivered_elsewhere peer m (some key) s q h = ground arith

-- A response whose key a call of the peer waits under answers that call, with an error in its
-- place if the version is wrong; no other call of the peer and no other peer notices.
pub handle_peer_response-answers :
    (peer : ℕ) (m : RpcMessage) (key : Text) (s : Server)
    → IsValid (s.heap peer).pending
    → id_key m.id ≡ some key
    → view (s.heap peer).pending key ≡ some none
    → let s' = (handle_peer_response peer m s).1 in
      (view (s'.heap peer).pending key ≡ some (some (check_version m)))
      × ((j : Text) → j ≢ key → view (s'.heap peer).pending j ≡ view (s.heap peer).pending j)
      × ((q : ℕ) → q ≢ peer → s'.heap q ≡ s.heap q)
unfolding handle_peer_response
handle_peer_response-answers peer m key s v e waits =
    let p = (s.heap peer).pending in
    let same = delivered_pending peer m key s e in
    (
      ap (λ q. view q key) same
          ∙ view-deliver key key (check_version m) p v
          ∙ ground (arith, text_eq_refl key, waits),
      λ j differ.
          ap (λ q. view q j) same
          ∙ view-deliver key j (check_version m) p v
          ∙ ground (arith, text_eq-false key j (λ k. differ (sym k))),
      λ q differ. delivered_elsewhere peer m (id_key m.id) s q differ,
    )
