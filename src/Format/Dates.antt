-- ===== src/Format/Dates.antt =====
-- Dates: `relativeAdded`, `absoluteAdded`, `formatMetadataDate` and `editorDateValue` of
-- dashboard/src/folio/context.tsx, `formatDate`, `formatDuration` and `getRelativeTime` of
-- dashboard/src/utils.ts, `formatAgo` of dashboard/src/folio/Streams.tsx.
use ok_folio.Prelude.{
  ℕ, ◌/◌, ◌%◌, [], ◌++◌, Option, none, some, ◌==◌, ◌||◌, ltb, is_nil, if◌then◌else◌, take,
}
use ok_folio.Prelude.Text.{Text, codes, text_eq}
use ok_folio.Prelude.Decimal.{decimal}
use ok_folio.Prelude.Int.{ℤ, pos, negsuc, pos_part, ◌-ℤ◌}
use ok_folio.Format.{Runtime, dash}

-- `value ? new Date(value) : …`, for a text that may be null.
abbrev pub given : Option Text → Text
given none = []
given (some s) = s

abbrev zero_date : Text
zero_date = codes "0001-01-01T00:00:00Z"

-- The elapsed milliseconds, or 0 where `t` lies ahead: each caller treats all ages below its first
-- unit alike, negative ones included.
abbrev pub elapsed : ℤ → ℤ → ℕ
elapsed now t = pos_part (now -ℤ t)

-- The label by the number of whole days.
unfoldable pub added_label : ℕ → Text → Text
unfolding decimal
added_label days month_year =
    if days == 0
    then codes "Today"
    else if days == 1
    then codes "Yesterday"
    else if ltb days 7
    then codes "This week"
    else if ltb days 14
    then codes "Last week"
    else if ltb days 60
    then decimal (days / 7) ++ codes " weeks ago"
    else month_year

-- The label by the number of whole minutes.
unfoldable pub ago_label : ℕ → Text → Text
unfolding decimal
ago_label minutes older =
    let hours = minutes / 60 in
    let days = hours / 24 in
    if ltb minutes 1
    then codes "just now"
    else if ltb minutes 60
    then decimal minutes ++ codes "m ago"
    else if ltb hours 24
    then decimal hours ++ codes "h ago"
    else if ltb days 7
    then decimal days ++ codes "d ago"
    else older

-- The label by the number of whole seconds.
unfoldable pub sync_label : ℕ → Text → Text
unfolding decimal
sync_label s older =
    let days = s / 86400 in
    if ltb s 60
    then codes "just now"
    else if ltb s 3600
    then decimal (s / 60) ++ codes " min ago"
    else if ltb s 86400
    then decimal (s / 3600) ++ codes " hours ago"
    else if days == 1
    then codes "yesterday"
    else if ltb days 30
    then decimal days ++ codes " days ago"
    else older

unfoldable pub duration_label : ℤ → Text
unfolding decimal
duration_label (negsuc ms) = codes "0s"
duration_label (pos ms) =
    let seconds = ms / 1000 in
    if ltb seconds 60
    then decimal seconds ++ codes "s"
    else decimal (seconds / 60) ++ (codes "m " ++ (decimal (seconds % 60) ++ codes "s"))

module _ (rt : Runtime) where
  unfoldable pub relative_added : Text → Text
  unfolding added_label
  relative_added value = if is_nil value then dash else elim (rt.parse_date value) [
    | none ↦ dash
    | some d ↦ added_label (elapsed rt.now d / 86400000) (rt.month_year d)
  ]

  unfoldable pub absolute_added : Text → Text
  absolute_added value =
      if is_nil value
      then []
      else elim (rt.parse_date value) [ none ↦ [] | some d ↦ rt.long_date_time d ]

  unfoldable pub format_metadata_date : Option Text → Text
  format_metadata_date value =
      if is_nil (given value)
      then []
      else elim (rt.parse_date (given value)) [ none ↦ [] | some d ↦ rt.utc_date d ]

  unfoldable pub editor_date_value : Option Text → Text
  editor_date_value value =
      if is_nil (given value)
      then []
      else elim (rt.parse_date (given value)) [ none ↦ [] | some d ↦ take 10 (rt.iso_string d) ]

  unfoldable pub format_date : Option Text → Text
  format_date date_string =
      if is_nil (given date_string) || text_eq (given date_string) zero_date
      then dash
      else elim (rt.parse_date (given date_string)) [ none ↦ dash | some d ↦ rt.date_time d ]

  -- The end of a run: the current time while it is empty or the zero date.
  abbrev end_time_of : Text → Option ℤ
  end_time_of end_time =
      if is_nil end_time || text_eq end_time zero_date then some rt.now else rt.parse_date end_time

  abbrev duration_between : Option ℤ → Option ℤ → Text
  duration_between (some start) (some end) = duration_label (end -ℤ start)
  duration_between _ _ = codes "NaNm NaNs"

  unfoldable pub format_duration : Text → Text → Text
  unfolding duration_label
  format_duration start_time end_time =
      duration_between (rt.parse_date start_time) (end_time_of end_time)

  unfoldable pub get_relative_time : Text → Text
  unfolding ago_label format_date
  get_relative_time date_string = elim (rt.parse_date date_string) [
    | none ↦ format_date (some date_string)
    | some d ↦ ago_label (elapsed rt.now d / 60000) (format_date (some date_string))
  ]

  unfoldable pub format_ago : Option Text → Text
  unfolding sync_label
  format_ago iso = if is_nil (given iso) then codes "never" else elim (rt.parse_date (given iso)) [
    | none ↦ codes "never"
    | some d ↦ sync_label (elapsed rt.now d / 1000) (rt.month_day d)
  ]
