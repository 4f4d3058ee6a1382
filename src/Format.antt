-- ===== src/Format.antt =====
-- Labels: the formatting helpers of dashboard/src/folio/context.tsx and dashboard/src/utils.ts, and
-- `formatAgo` of dashboard/src/folio/Streams.tsx. Dates, locales and the URL parser belong to the
-- browser: they are the fields of `Runtime`.
pub mod Dates
pub mod Titles
pub mod Bytes
mod Tests
pub mod Samples
use ok_folio.Prelude.{
  ℕ, suc, zero, ◌+◌, ◌*◌, ◌/◌, ◌%◌, ◌^◌, List, [], ◌∷◌, ◌++◌, Option, none, some, Bool, true, false,
  ◌==◌, ◌||◌, ◌&&◌, not, ltb, leb, is_nil, if◌then◌else◌, or_else,
}
use ok_folio.Prelude.Text.{Text, codes, trim, is_space, text_eq}
use ok_folio.Prelude.Decimal.{decimal}
use ok_folio.Prelude.Int.{ℤ, pos, negsuc, pos_part, ◌-ℤ◌}

-- A time is in milliseconds; `parse_date` answers `none` for an invalid date (NaN).
pub record Runtime : Type 0 where
  pub parse_date : Text → Option ℤ
  pub now : ℤ
  pub month_year : ℤ → Text
  pub long_date_time : ℤ → Text
  pub date_time : ℤ → Text
  pub utc_date : ℤ → Text
  pub month_day : ℤ → Text
  pub iso_string : ℤ → Text
  pub hostname : Text → Option Text
  pub lower : Text → Text

abbrev pub dash : Text
dash = codes "—"

-- The loop `while (v >= 1024 && i < units.length - 1)`: `v` is `n / 1024 ^ i`. Its rounds are at
-- most the four units above "B".
unfoldable pub unit_index : ℕ → ℕ → ℕ → ℕ
unit_index zero n i = i
unit_index (suc rounds) n i = elim (leb (1024 ^ suc i) n) [
  | true ↦ unit_index rounds n (suc i)
  | false ↦ i
]

abbrev pub unit_name : ℕ → Text
unit_name zero = codes "B"
unit_name (suc zero) = codes "KB"
unit_name (suc (suc zero)) = codes "MB"
unit_name (suc (suc (suc zero))) = codes "GB"
unit_name _ = codes "TB"

-- `Math.round(n / d)`
abbrev pub round : ℕ → ℕ → ℕ
round n d = (2 * n + d) / (2 * d)

-- `(n / d).toFixed(1)`: the nearest number of tenths, the larger of two.
abbrev pub to_fixed : ℕ → ℕ → Text
to_fixed n d =
    let tenths = round (10 * n) d in decimal (tenths / 10) ++ (b'.' ∷ decimal (tenths % 10))

unfoldable pub format_bytes : ℕ → Text
unfolding unit_index decimal
format_bytes n =
    let i = unit_index 4 n 0 in
    let d = 1024 ^ i in
    if n == 0
    then dash
    else (if leb (10 * d) n || i == 0 then decimal (round n d) else to_fixed n d)
      ++ (b' ' ∷ unit_name i)

-- The class `[\s*_.\-—–·•]`.
unfoldable pub is_filler : ℕ → Bool
unfolding is_space
is_filler c =
    is_space c
    || c == b'*'
    || c == b'_'
    || c == b'.'
    || c == b'-'
    || c == 0x2014
    || c == 0x2013
    || c == 0xb7
    || c == 0x2022

unfoldable pub all_filler : Text → Bool
unfolding is_filler
all_filler [] = true
all_filler (c ∷ s) = is_filler c && all_filler s

-- The class `[0-9a-f]` under the flag `i`.
unfoldable pub is_hex : ℕ → Bool
is_hex c = (leb b'0' c && leb c b'9') || (leb b'a' c && leb c b'f') || (leb b'A' c && leb c b'F')

-- `n` hexadecimal digits, then what follows.
unfoldable pub after_hex : ℕ → Text → Option Text
unfolding is_hex
after_hex zero s = some s
after_hex (suc n) [] = none
after_hex (suc n) (c ∷ s) = if is_hex c then after_hex n s else none

abbrev pub after_dash : Text → Option Text
after_dash [] = none
after_dash (c ∷ s) = if c == b'-' then some s else none

abbrev then_text : Option Text → (Text → Option Text) → Option Text
then_text none f = none
then_text (some s) f = f s

-- `/^[0-9a-f]{8}-[0-9a-f]{4}-[0-9a-f]{4}/i`
unfoldable pub starts_uuid : Text → Bool
unfolding after_hex
starts_uuid s =
    elim (then_text
      (then_text (then_text (then_text (after_hex 8 s) after_dash) (after_hex 4)) after_dash)
      (after_hex 4)) [ none ↦ false | some rest ↦ true ]

unfoldable pub clean_title : Text → Text
unfolding all_filler starts_uuid
clean_title raw =
    let t = trim raw in
    if is_nil t then [] else if all_filler t then [] else if starts_uuid t then [] else t

-- `.replace(/^www\./, "")`
unfoldable pub strip_www : Text → Text
strip_www (a ∷ b ∷ c ∷ d ∷ s) =
    if a == b'w' && b == b'w' && c == b'w' && d == b'.' then s else a ∷ b ∷ c ∷ d ∷ s
strip_www s = s

-- `s.startsWith(prefix)`
unfoldable pub starts_with : Text → Text → Bool
starts_with s [] = true
starts_with [] (p ∷ prefix) = false
starts_with (c ∷ s) (p ∷ prefix) = c == p && starts_with s prefix

-- `s.includes(part)`
unfoldable pub includes : Text → Text → Bool
unfolding starts_with
includes [] part = is_nil part
includes (c ∷ s) part = starts_with (c ∷ s) part || includes s part

module _ (rt : Runtime) where
  unfoldable pub host_from : Text → Text
  unfolding strip_www
  host_from value =
      if is_nil value
      then []
      else elim (rt.hostname value) [ none ↦ value | some host ↦ strip_www host ]

  unfoldable pub camera_label : Text → Text → Text
  unfolding starts_with
  camera_label make model =
      let clean_make = trim make in
      let clean_model = trim model in
      if is_nil clean_make
      then clean_model
      else if is_nil clean_model
      then clean_make
      else if starts_with (rt.lower clean_model) (rt.lower clean_make)
      then clean_model
      else clean_make ++ (b' ' ∷ clean_model)
