-- ===== src/Format/Samples.antt =====
-- A runtime, pieces and photos for the tests.
use ok_folio.Prelude.{◌+◌, none, some, leb, ◌&&◌, map, if◌then◌else◌}
use ok_folio.Prelude.Text.{Text, codes}
use ok_folio.Prelude.Int.{pos}
use ok_folio.Format.{Runtime}

-- `toLowerCase` on ASCII
abbrev pub ascii_lower : Text → Text
ascii_lower = map (λ c. if leb b'A' c && leb c b'Z' then c + 32 else c)

-- A browser at time 0 to which every date is that time.
abbrev pub browser : Runtime
browser = record {
  parse_date = λ s. some (pos 0);
  now = pos 0;
  month_year = λ t. codes "Jan 1970";
  long_date_time = λ t. codes "January 1, 1970";
  date_time = λ t. codes "1/1/1970";
  utc_date = λ t. codes "Jan 1, 1970";
  month_day = λ t. codes "Jan 1";
  iso_string = λ t. codes "1970-01-01T00:00:00.000Z";
  hostname = λ s. none;
  lower = ascii_lower;
}
