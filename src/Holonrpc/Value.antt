-- ===== src/Holonrpc/Value.antt =====
-- The Go values that encoding/json builds from a JSON text (`any`), and Go's `map[string]any`.
use go_holons.Common.{List, [], ◌∷◌, Bool, ◌≡◌, refl, ap}
use go_holons.Common.Text.{Text}
use go_holons.Common.Map.{Map}

mutual
  pub data Value : Type 0 where
    null : Value
    boolean : Bool → Value
    -- the literal of a number
    number : Text → Value
    string : Text → Value
    array : Items → Value
    object : Fields → Value

  pub data Items : Type 0 where
    nil : Items
    cons : Value → Items → Items

  pub data Fields : Type 0 where
    end : Fields
    field : Text → Value → Fields → Fields

-- `map[string]any`
abbrev pub Object : Type 0
Object = Map Value

abbrev pub entries : Fields → Object
entries end = []
entries (field k v fs) = (k, v) ∷ entries fs

abbrev pub of_entries : Object → Fields
of_entries [] = end
of_entries ((k, v) ∷ m) = field k v (of_entries m)

abbrev pub of_items : List Value → Items
of_items [] = nil
of_items (v ∷ vs) = cons v (of_items vs)

pub entries-of_entries : (m : Object) → entries (of_entries m) ≡ m
entries-of_entries [] = refl
entries-of_entries ((k, v) ∷ m) = ap (λ r. (k, v) ∷ r) (entries-of_entries m)
