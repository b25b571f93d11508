-- ===== src/Holonrpc/Message/Laws.antt =====
-- Identifiers of pkg/holonrpc/types.go: their encoding, their map keys and the check on receipt.
use go_holons.Common.{true, false, some, [], ◌∷◌, ◌≡◌, refl, ap, arith, is_some}
use go_holons.Common.Text.{Text, text, text_eq, text_eq-false, is_empty, trim_space}
use go_holons.Holonrpc.Value.{string}
use go_holons.Holonrpc.Message.{Codec, IsLawful, has_id, id_key, make_id, decode_string_id}

-- `hasID` and the flag of `idKey` are the same test.
pub has_id-id_key : (id : Text) → has_id id ≡ is_some (id_key id)
unfolding has_id id_key
has_id-id_key id = ground arith

module _ (c : Codec) (w : IsLawful c) where
  make_id_eq : (s : Text) → make_id c s ≡ (w.encodes_string s).0
  unfolding make_id
  make_id_eq s = rw ((w.encodes_string s).1, make_id)

  decode-make_id : (s : Text) → c.decode (make_id c s) ≡ some (string s)
  decode-make_id s = rw (make_id_eq s) (w.encodes_string s).2

  trim_space-make_id : (s : Text) → trim_space (make_id c s) ≡ make_id c s
  trim_space-make_id s = rw (make_id_eq s) (w.encodes_string s).3

  pub valid-make_id : (s : Text) → c.valid (make_id c s) ≡ true
  valid-make_id s = rw (make_id_eq s) (w.encodes_string s).4

  not_empty : (raw : Text) (s : Text) → c.decode raw ≡ some (string s) → is_empty raw ≡ false
  not_empty [] s e = cc w.decodes_empty
  not_empty (x ∷ raw) s e = refl

  not_null :
      (raw : Text) (s : Text) → c.decode raw ≡ some (string s) → text_eq raw (text "null") ≡ false
  not_null raw s e = text_eq-false raw (text "null") (λ p. cc (w.decodes_null, ap c.decode p))

  -- A made identifier is its own key in the pending table.
  pub id_key-make_id : (s : Text) → id_key (make_id c s) ≡ some (make_id c s)
  unfolding id_key
  id_key-make_id s =
      let trimmed = trim_space-make_id s in
      rw (trimmed, not_empty _ s (decode-make_id s), not_null _ s (decode-make_id s))

  pub has_id-make_id : (s : Text) → has_id (make_id c s) ≡ true
  has_id-make_id s = rw (has_id-id_key (make_id c s), id_key-make_id s)

  -- The receiver of a made identifier reads the text that it was made of.
  pub decode_string_id-make_id : (s : Text) → decode_string_id c (make_id c s) ≡ some s
  unfolding decode_string_id
  decode_string_id-make_id s = rw (trim_space-make_id s, decode-make_id s)

  -- Different identifiers have different keys.
  pub make_id-injective : (s t : Text) → make_id c s ≡ make_id c t → s ≡ t
  make_id-injective s t e = cc (decode_string_id-make_id s, decode_string_id-make_id t)
