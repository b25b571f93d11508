-- ===== src/Common/Int.antt =====
-- Signed integers, and `%d`: error codes are `int`, request counters are `int64`.
use Prim.Native.Nat.{ℕ, zero, suc, ◌+◌, ◌-◌, ◌*◌, ◌/◌, ◌%◌, ◌^◌, ◌≤◌, ◌<◌}
use go_holons.Common.Tests.{ltb, if◌then◌else◌, Bool-cases}
use go_holons.Common.Text.{Text}
use go_holons.Common.Lists.{All, All-append}
use mathlib.Core.Path.{◌≡◌, refl, ap, sym, subst, ◌∙◌}
use mathlib.Core.Logic.{◌≢◌, inl, inr}
use mathlib.Core.List.{[], ◌∷◌, ◌++◌}
use native.Mathlib.Omega.{arith}

-- `negsuc n` is -(n + 1).
pub data ℤ : Type 0 where
  pos : ℕ → ℤ
  negsuc : ℕ → ℤ

-- The decimal digits of `n`, most significant first; `n` itself is enough fuel.
decimal_from : ℕ → ℕ → Text
decimal_from zero n = (48 + n) ∷ []
decimal_from (suc f) n =
    let more = decimal_from f (n / 10) ++ (48 + n % 10) ∷ [] in
    if ltb n 10 then (48 + n) ∷ [] else more

unfoldable pub decimal : ℕ → Text
unfolding decimal_from
decimal n = decimal_from n n

-- `%d` of an `int`
unfoldable pub format_int : ℤ → Text
format_int (pos n) = decimal n
format_int (negsuc n) = 45 ∷ decimal (n + 1)

abbrev pub int64_mod : ℕ
int64_mod = 2 ^ 64

-- `atomic.AddInt64(&n, 1)` on the bit pattern of an `int64`, with its wrap-around.
unfoldable pub add_int64 : ℕ → ℕ
add_int64 n = (n + 1) % 2 ^ 64

-- The integer that a bit pattern stands for.
unfoldable pub int64 : ℕ → ℤ
int64 n = if ltb n (2 ^ 63) then pos n else negsuc (2 ^ 64 - 1 - n)

-- The number that a row of digits stands for, read from the left.
value : ℕ → Text → ℕ
value acc [] = acc
value acc (d ∷ ds) = value (acc * 10 + (d - 48)) ds

value-append : (acc : ℕ) (s t : Text) → value acc (s ++ t) ≡ value (value acc s) t
unfolding value
value-append acc [] t = refl
value-append acc (d ∷ s) t = value-append (acc * 10 + (d - 48)) s t

value-decimal_from : (f n : ℕ) → n ≤ f → value 0 (decimal_from f n) ≡ n
unfolding value decimal_from
value-decimal_from zero n h = omega arith
value-decimal_from (suc f) n h = elim (Bool-cases (ltb n 10)) [
  | inl small ↦ rw small (omega arith)
  | inr large ↦ rw large (
      value-append 0 (decimal_from f (n / 10)) ((48 + n % 10) ∷ [])
      ∙ ground (arith, value-decimal_from f (n / 10)))
]

pub decimal-injective : (m n : ℕ) → decimal m ≡ decimal n → m ≡ n
unfolding decimal
decimal-injective m n e =
    sym (value-decimal_from m m (omega arith))
    ∙ ap (value 0) e
    ∙ value-decimal_from n n (omega arith)

decimal_from-IsDigits : (f n : ℕ) → All (λ d. 48 ≤ d) (decimal_from f n)
unfolding decimal_from
decimal_from-IsDigits zero n = (omega arith, tt)
decimal_from-IsDigits (suc f) n = elim (Bool-cases (ltb n 10)) [
  | inl small ↦ rw small (omega arith, tt)
  | inr large ↦ rw large (
      All-append (λ d. 48 ≤ d) (decimal_from f (n / 10)) _ (decimal_from-IsDigits f (n / 10))
        (omega arith, tt))
]

-- A minus sign starts no natural number.
minus-ne-decimal : (m : ℕ) (s : Text) → 45 ∷ s ≢ decimal m
unfolding decimal
minus-ne-decimal m s e = absurd (omega (arith, (subst (All (λ d. 48 ≤ d)) (sym e) digits).0))
  where
    digits : All (λ d. 48 ≤ d) (decimal_from m m)
    digits = decimal_from-IsDigits m m

-- Two `int64` bit patterns print alike only if they are equal.
pub format_int64-injective :
    (a b : ℕ) → a < 2 ^ 64 → b < 2 ^ 64 → format_int (int64 a) ≡ format_int (int64 b) → a ≡ b
unfolding format_int int64
format_int64-injective a b ha hb e = ground (
  arith,
  decimal-injective a b,
  decimal-injective (2 ^ 64 - 1 - a + 1) (2 ^ 64 - 1 - b + 1),
  minus-ne-decimal a (decimal (2 ^ 64 - 1 - b + 1)),
  minus-ne-decimal b (decimal (2 ^ 64 - 1 - a + 1)),
)
