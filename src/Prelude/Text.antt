-- ===== src/Prelude/Text.antt =====
-- Strings of the JavaScript runtime: lists of UTF-16 code units, with the operations that the
-- dashboard calls.
use Prim.Native.Char.{code}
use Prim.Native.String.{String}
use Prim.Native.Nat.{ℕ}
use mathlib.Core.Path.{◌≡◌, refl, ap}
use mathlib.Core.Bool.{Bool, true, false, ◌&&◌, ◌||◌}
use mathlib.Core.List.{List, [], ◌∷◌}
use native.Mathlib.Omega.{arith}
use mathlib.Core.Logic.{inl, inr}
use ok_folio.Prelude.Tests.{if◌then◌else◌, ◌==◌, leb, Bool-cases}
use ok_folio.Prelude.Lists.{All}

abbrev pub Text : Type 0
Text = List ℕ

-- A literal of the basic multilingual plane.
abbrev pub codes : String → Text
codes String.[] = []
codes (String.◌∷◌ c s) = code c ∷ codes s

-- `s === t`
unfoldable pub text_eq : Text → Text → Bool
text_eq [] [] = true
text_eq (a ∷ s) (b ∷ t) = a == b && text_eq s t
text_eq _ _ = false

pub text_eq_sound : (s t : Text) → text_eq s t ≡ true → s ≡ t
unfolding text_eq
text_eq_sound [] [] h = refl
text_eq_sound [] (b ∷ t) h = ground arith
text_eq_sound (a ∷ s) [] h = ground arith
text_eq_sound (a ∷ s) (b ∷ t) h = ground (arith, text_eq_sound s t)

pub text_eq_refl : (s : Text) → text_eq s s ≡ true
unfolding text_eq
text_eq_refl [] = refl
text_eq_refl (a ∷ s) = ground (arith, text_eq_refl s)

-- The white space and line terminators that `trim` removes.
unfoldable pub is_space : ℕ → Bool
is_space c =
    (leb 9 c && leb c 13)
    || c == 0x20
    || c == 0xa0
    || c == 0x1680
    || (leb 0x2000 c && leb c 0x200a)
    || c == 0x2028
    || c == 0x2029
    || c == 0x202f
    || c == 0x205f
    || c == 0x3000
    || c == 0xfeff

unfoldable pub trim_start : Text → Text
trim_start [] = []
trim_start (c ∷ s) = if is_space c then trim_start s else c ∷ s

-- One step of trimming from the end: a space goes if nothing is kept behind it.
keep_end : ℕ → Text → Text
keep_end c [] = if is_space c then [] else c ∷ []
keep_end c (d ∷ s) = c ∷ d ∷ s

pub trim_end : Text → Text
trim_end [] = []
trim_end (c ∷ s) = keep_end c (trim_end s)

-- `s.trim()`
unfoldable pub trim : Text → Text
unfolding trim_start trim_end keep_end is_space
trim s = trim_end (trim_start s)

pub trim_nil : trim [] ≡ []
unfolding trim
trim_nil = refl

-- A text that `trim` leaves alone at its start.
abbrev Starts : Text → Type 0
Starts [] = Unit
Starts (c ∷ s) = is_space c ≡ false

trim_start-Starts : (s : Text) → Starts (trim_start s)
unfolding trim_start
trim_start-Starts [] = tt
trim_start-Starts (c ∷ s) = ground (arith, trim_start-Starts s)

keep_end-Starts : (c : ℕ) (s : Text) → is_space c ≡ false → Starts (keep_end c s)
unfolding keep_end
keep_end-Starts c [] h = ground arith
keep_end-Starts c (d ∷ s) h = h

trim_end-Starts : (s : Text) → Starts s → Starts (trim_end s)
unfolding trim_end
trim_end-Starts [] h = tt
trim_end-Starts (c ∷ s) h = keep_end-Starts c (trim_end s) h

trim_start_id : (s : Text) → Starts s → trim_start s ≡ s
unfolding trim_start
trim_start_id [] h = refl
trim_start_id (c ∷ s) h = ground arith

trim_end-keep_end : (c : ℕ) (s : Text) → trim_end s ≡ s → trim_end (keep_end c s) ≡ keep_end c s
unfolding trim_end keep_end
trim_end-keep_end c [] h = ground arith
trim_end-keep_end c (d ∷ s) h = ap (keep_end c) h

trim_end_idem : (s : Text) → trim_end (trim_end s) ≡ trim_end s
unfolding trim_end
trim_end_idem [] = refl
trim_end_idem (c ∷ s) = trim_end-keep_end c (trim_end s) (trim_end_idem s)

-- Trimming twice is trimming once.
pub trim_idem : (s : Text) → trim (trim s) ≡ trim s
unfolding trim
trim_idem s =
    rw (trim_start_id (trim_end (trim_start s)) (trim_end-Starts _ (trim_start-Starts s)))
      (trim_end_idem (trim_start s))

pub trim_start_solid : (c : ℕ) (s : Text) → is_space c ≡ false → trim_start (c ∷ s) ≡ c ∷ s
unfolding trim_start
trim_start_solid c s solid = rw solid refl

-- A text whose last character, if any, is no space.
abbrev pub Ends : Text → Type 0
Ends [] = Unit
Ends (c ∷ []) = is_space c ≡ false
Ends (c ∷ d ∷ s) = Ends (d ∷ s)

keep_end-Ends : (c : ℕ) (s : Text) → Ends s → Ends (keep_end c s)
unfolding keep_end
keep_end-Ends c [] h = elim (Bool-cases (is_space c)) [
  | inl space ↦ rw space tt
  | inr solid ↦ rw solid solid
]
keep_end-Ends c (d ∷ s) h = h

trim_end-Ends : (s : Text) → Ends (trim_end s)
unfolding trim_end
trim_end-Ends [] = tt
trim_end-Ends (c ∷ s) = keep_end-Ends c (trim_end s) (trim_end-Ends s)

pub trim-Ends : (s : Text) → Ends (trim s)
unfolding trim
trim-Ends s = trim_end-Ends (trim_start s)

-- What holds of every character of a text holds of its trimmed text.
module _ {ℓ} (P : ℕ → Type ℓ) where
  trim_start-All : (s : Text) → All P s → All P (trim_start s)
  unfolding trim_start
  trim_start-All [] h = tt
  trim_start-All (c ∷ s) (p, h) = elim (Bool-cases (is_space c)) [
    | inl space ↦ rw space (trim_start-All s h)
    | inr solid ↦ rw solid (p, h)
  ]

  keep_end-All : (c : ℕ) (s : Text) → P c → All P s → All P (keep_end c s)
  unfolding keep_end
  keep_end-All c [] p h = elim (Bool-cases (is_space c)) [
    | inl space ↦ rw space tt
    | inr solid ↦ rw solid (p, tt)
  ]
  keep_end-All c (d ∷ s) p h = (p, h)

  trim_end-All : (s : Text) → All P s → All P (trim_end s)
  unfolding trim_end
  trim_end-All [] h = tt
  trim_end-All (c ∷ s) (p, h) = keep_end-All c (trim_end s) p (trim_end-All s h)

  pub trim-All : (s : Text) → All P s → All P (trim s)
  unfolding trim
  trim-All s h = trim_end-All (trim_start s) (trim_start-All s h)
