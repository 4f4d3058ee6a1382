-- ===== src/Prelude/Decimal.antt =====
-- `String(n)` of a natural number below 10^21, where the runtime prints every digit.
use Prim.Native.Nat.{ℕ, zero, suc, ◌+◌, ◌*◌, ◌-◌, ◌/◌, ◌%◌, ◌<◌}
use mathlib.Core.Path.{◌≡◌, refl, ap, ◌∙◌}
use mathlib.Core.Bool.{true, false, ◌&&◌}
use mathlib.Core.List.{[], ◌∷◌}
use native.Mathlib.Omega.{arith}
use ok_folio.Prelude.Tests.{ltb, leb, is_nil, Bool-cases}
use ok_folio.Prelude.Lists.{All}
use mathlib.Core.Logic.{inl, inr}
use ok_folio.Prelude.Text.{Text}

-- The digits of `n` in front of `rest`; `fuel` exceeds the number of digits.
digits_from : ℕ → ℕ → Text → Text
digits_from zero n rest = rest
digits_from (suc fuel) n rest = elim (ltb n 10) [
  | true ↦ (48 + n) ∷ rest
  | false ↦ digits_from fuel (n / 10) ((48 + n % 10) ∷ rest)
]

unfoldable pub decimal : ℕ → Text
unfolding digits_from
decimal n = digits_from (suc n) n []

-- The number that a text of digits stands for, read from the left behind `acc`.
unfoldable pub value_from : ℕ → Text → ℕ
value_from acc [] = acc
value_from acc (c ∷ s) = value_from (acc * 10 + (c - 48)) s

value_from-digits_from :
    (fuel n : ℕ) (rest : Text)
    → n < fuel
    → value_from 0 (digits_from fuel n rest) ≡ value_from n rest
unfolding digits_from value_from
value_from-digits_from zero n rest h = absurd (omega arith)
value_from-digits_from (suc fuel) n rest h = elim (Bool-cases (ltb n 10)) [
  | inl small ↦ rw (small, digits_from) (ap (λ (k : ℕ). value_from k rest) (omega arith))
  | inr large ↦
      rw (large, digits_from)
        (value_from-digits_from fuel (n / 10) ((48 + n % 10) ∷ rest) (ground arith)
          ∙ ap (λ (k : ℕ). value_from k rest) (omega arith))
]

-- A printed number reads back as itself.
pub value_from-decimal : (n : ℕ) → value_from 0 (decimal n) ≡ n
unfolding decimal value_from
value_from-decimal n = value_from-digits_from (suc n) n [] (omega arith)

abbrev pub IsDigit : ℕ → Type 0
IsDigit c = (leb 48 c && leb c 57) ≡ true

digits_from-IsDigit :
    (fuel n : ℕ) (rest : Text) → All IsDigit rest → All IsDigit (digits_from fuel n rest)
unfolding digits_from
digits_from-IsDigit zero n rest h = h
digits_from-IsDigit (suc fuel) n rest h = elim (Bool-cases (ltb n 10)) [
  | inl small ↦ rw (small, digits_from) (ground arith, h)
  | inr large ↦
      rw (large, digits_from)
        (digits_from-IsDigit fuel (n / 10) ((48 + n % 10) ∷ rest) (ground arith, h))
]

pub decimal-IsDigit : (n : ℕ) → All IsDigit (decimal n)
unfolding decimal
decimal-IsDigit n = digits_from-IsDigit (suc n) n [] tt

digits_from_solid :
    (fuel n : ℕ) (rest : Text) → is_nil rest ≡ false → is_nil (digits_from fuel n rest) ≡ false
unfolding digits_from
digits_from_solid zero n rest h = h
digits_from_solid (suc fuel) n rest h = elim (Bool-cases (ltb n 10)) [
  | inl small ↦ rw (small, digits_from) refl
  | inr large ↦
      rw (large, digits_from) (digits_from_solid fuel (n / 10) ((48 + n % 10) ∷ rest) refl)
]

pub decimal_solid : (n : ℕ) → is_nil (decimal n) ≡ false
unfolding decimal digits_from
decimal_solid n = elim (Bool-cases (ltb n 10)) [
  | inl small ↦ rw (small, digits_from) refl
  | inr large ↦ rw (large, digits_from) (digits_from_solid n (n / 10) ((48 + n % 10) ∷ []) refl)
]
