-- ===== src/Streams/Numbers.antt =====
-- `String(n)` and `Number.parseInt(s, 10)` of the runtime, on whole numbers that it holds exactly.
use ok_folio.Prelude.{
  ◌≡◌, refl, ap, ◌∙◌, All, is_nil, arith, ℕ, suc, ◌+◌, ◌*◌, ◌-◌, [], ◌∷◌, Option, none, some, Bool,
  false, ◌==◌, ◌&&◌, leb, if◌then◌else◌,
}
use ok_folio.Prelude.Text.{Text, trim_start, is_space, trim_start_solid}
use ok_folio.Prelude.Int.{ℤ, pos, negsuc, sub_ℕ}
use ok_folio.Prelude.Decimal.{
  decimal, IsDigit, decimal-IsDigit, decimal_solid, value_from, value_from-decimal,
}

unfoldable pub string_of : ℤ → Text
unfolding decimal
string_of (pos n) = decimal n
string_of (negsuc n) = b'-' ∷ decimal (suc n)

abbrev pub is_digit : ℕ → Bool
is_digit c = leb b'0' c && leb c b'9'

-- The value of the digits up to the first other character, behind `acc`.
unfoldable pub digits_prefix : ℕ → Text → ℕ
digits_prefix acc [] = acc
digits_prefix acc (c ∷ s) = if is_digit c then digits_prefix (acc * 10 + (c - 48)) s else acc

unfoldable pub parse_digits : Text → Option ℕ
parse_digits [] = none
parse_digits (c ∷ s) = if is_digit c then some (digits_prefix 0 (c ∷ s)) else none

abbrev negate : Option ℕ → Option ℤ
negate none = none
negate (some n) = some (sub_ℕ 0 n)

abbrev positive : Option ℕ → Option ℤ
positive none = none
positive (some n) = some (pos n)

abbrev signed : Text → Option ℤ
signed [] = none
signed (c ∷ s) =
    if c == b'-'
    then negate (parse_digits s)
    else if c == b'+'
    then positive (parse_digits s)
    else positive (parse_digits (c ∷ s))

-- `none` is NaN.
unfoldable pub parse_int : Text → Option ℤ
unfolding parse_digits digits_prefix
parse_int s = signed (trim_start s)

digits_prefix_all : (acc : ℕ) (s : Text) → All IsDigit s → digits_prefix acc s ≡ value_from acc s
unfolding digits_prefix value_from
digits_prefix_all acc [] h = refl
digits_prefix_all acc (c ∷ s) (d, h) = rw d (digits_prefix_all (acc * 10 + (c - 48)) s h)

digit_solid : (c : ℕ) → IsDigit c → is_space c ≡ false
unfolding is_space
digit_solid c d = ground arith

parse_digits_all :
    (s : Text) → is_nil s ≡ false → All IsDigit s → parse_digits s ≡ some (value_from 0 s)
unfolding parse_digits
parse_digits_all [] solid h = ground arith
parse_digits_all (c ∷ s) solid (d, h) = rw d (ap some (digits_prefix_all 0 (c ∷ s) (d, h)))

parse_int_digits :
    (s : Text) → is_nil s ≡ false → All IsDigit s → parse_int s ≡ positive (parse_digits s)
unfolding parse_int
parse_int_digits [] solid h = ground arith
parse_int_digits (c ∷ s) solid (d, h) = rw (trim_start_solid c s (digit_solid c d)) (ground arith)

dash_solid : is_space b'-' ≡ false
unfolding is_space
dash_solid = refl

-- A printed whole number reads back as itself.
pub parse_int-string_of : (z : ℤ) → parse_int (string_of z) ≡ some z
unfolding string_of parse_int
parse_int-string_of (pos n) =
    parse_int_digits (decimal n) (decimal_solid n) (decimal-IsDigit n)
    ∙ ap positive (
        parse_digits_all (decimal n) (decimal_solid n) (decimal-IsDigit n)
        ∙ ap some (value_from-decimal n))
parse_int-string_of (negsuc n) = rw (trim_start_solid b'-' (decimal (suc n)) dash_solid) (
    ap negate (
      parse_digits_all (decimal (suc n)) (decimal_solid (suc n)) (decimal-IsDigit (suc n))
      ∙ ap some (value_from-decimal (suc n)))
    ∙ ground arith)
