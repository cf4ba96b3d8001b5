-- ===== src/Prelude/Decimal.antt =====
-- `str(n)` for a natural number, and that it tells numbers apart.
use Prim.Native.Nat.{ℕ, zero, suc, ◌+◌, ◌-◌, ◌*◌, ◌/◌, ◌%◌, ◌≤◌, ◌<◌}
use mathlib.Core.Path.{◌≡◌, ap, sym, ◌∙◌}
use mathlib.Core.Logic.{inl, inr}
use mathlib.Core.List.{[], ◌∷◌, ◌++◌, foldl, foldl-append}
use native.Mathlib.Omega.{arith}
use lacme.Prelude.Tests.{ltb, ltb→lt, ltb-false→le, if◌then◌else◌, Bool-cases}
use lacme.Prelude.Equality.{Str}
use lacme.Prelude.Lists.{All}

-- `fuel` bounds the number of digits.
decimal_fuel : ℕ → ℕ → Str
decimal_fuel zero n = []
decimal_fuel (suc f) n =
    let rest = decimal_fuel f (n / 10) in (if ltb n 10 then [] else rest) ++ (b'0' + n % 10) ∷ []

unfoldable pub decimal : ℕ → Str
unfolding decimal_fuel
decimal n = decimal_fuel (suc n) n

digit_step : ℕ → ℕ → ℕ
digit_step acc c = acc * 10 + (c - b'0')

value : Str → ℕ
value s = foldl digit_step 0 s

value-decimal_fuel : (f n : ℕ) → n < f → value (decimal_fuel f n) ≡ n
unfolding decimal_fuel value digit_step
value-decimal_fuel zero n h = absurd (omega arith)
value-decimal_fuel (suc f) n h = elim (Bool-cases (ltb n 10)) [
  | inl small ↦ rw small (omega (arith, ltb→lt n 10 small))
  | inr big ↦
      let le = ltb-false→le n 10 big in
      let ih = value-decimal_fuel f (n / 10) (omega arith) in
      rw big (rw foldl-append (rw ih (omega arith)))
]

pub decimal-injective : (m n : ℕ) → decimal m ≡ decimal n → m ≡ n
unfolding decimal
decimal-injective m n e =
    sym (value-decimal_fuel (suc m) m (omega arith))
    ∙ ap value e
    ∙ value-decimal_fuel (suc n) n (omega arith)

abbrev pub IsDigit : ℕ → Type 0
IsDigit c = (b'0' ≤ c) × (c ≤ b'9')

All-concat : (s : Str) (c : ℕ) → All IsDigit s → IsDigit c → All IsDigit (s ++ c ∷ [])
All-concat [] c h d = (d, tt)
All-concat (x ∷ s) c h d = (h.0, All-concat s c h.1 d)

decimal_fuel_digits : (f n : ℕ) → All IsDigit (decimal_fuel f n)
unfolding decimal_fuel
decimal_fuel_digits zero n = tt
decimal_fuel_digits (suc f) n = elim (Bool-cases (ltb n 10)) [
  | inl small ↦ rw small (omega arith)
  | inr big ↦ rw big (All-concat _ _ (decimal_fuel_digits f (n / 10)) (omega arith))
]

-- A decimal has digits only.
pub decimal_digits : (n : ℕ) → All IsDigit (decimal n)
unfolding decimal
decimal_digits n = decimal_fuel_digits (suc n) n
