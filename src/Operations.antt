-- ===== src/Operations.antt =====
-- The screens of the extraction in dashboard/src/components and dashboard/src/pages: the list of
-- failed downloads, the counts of a run, and the paging that the lists share. `Search` is the search,
-- `Recent` the recent media, `Modal` the image modal.
pub mod Search
pub mod Searched
pub mod Recent
pub mod Merged
pub mod Modal
mod Tests
use ok_folio.Prelude.{
  ℕ, ◌+◌, ◌-◌, ◌*◌, ◌/◌, List, [], ◌∷◌, ◌++◌, Option, none, some, Bool, true, false, ◌==◌, ◌||◌,
  ltb, leb, not, is_nil, filter, find?, first_some, length, min, or_else, if◌then◌else◌,
}
use ok_folio.Prelude.Text.{Text, codes, text_eq}
use ok_folio.Prelude.Int.{ℤ, pos, negsuc}
use ok_folio.Types.{Photo}
use ok_folio.Folios.{photo_ids}
use ok_folio.Folios.Selection.{toggle_id}
use ok_folio.Streams.Numbers.{parse_int}

-- `Math.max(a, b)`
abbrev pub max : ℕ → ℕ → ℕ
max a b = if leb a b then b else a

-- `FailedPhotos`: the selection, with the photos whose retry was asked for, in order.
pub record Failed : Type 0 where
  pub selected : List ℕ
  pub retried : List ℕ

abbrev without_id : ℕ → List ℕ → List ℕ
without_id id = filter (λ i. not (i == id))

unfoldable pub handle_retry : ℕ → Failed → Failed
handle_retry id s = record { selected = without_id id s.selected; retried = s.retried ++ id ∷ [] }

unfoldable pub handle_retry_selected : Failed → Failed
handle_retry_selected s = record { selected = []; retried = s.retried ++ s.selected }

unfoldable pub toggle_photo : ℕ → Failed → Failed
unfolding toggle_id
toggle_photo id s = record s { selected = toggle_id id s.selected }

-- The checkbox over the list, which passes for checked by a count.
unfoldable pub select_all : List Photo → Bool → Failed → Failed
select_all photos checked s = record s { selected = if checked then photo_ids photos else [] }

abbrev pub all_checked : List Photo → Failed → Bool
all_checked photos s = length s.selected == length photos

pub record Run : Type 0 where
  pub id : ℕ
  pub status : Text
  pub photos_found : ℕ
  pub photos_downloaded : ℕ
  pub photos_skipped : ℕ
  pub photos_failed : ℕ

abbrev is_running : Run → Bool
is_running run = text_eq run.status (codes "running")

abbrev first_run : List Run → Option Run
first_run [] = none
first_run (run ∷ runs) = some run

-- `refetchInterval` of `RunHistory`, in milliseconds.
abbrev some_running : List Run → Bool
some_running [] = false
some_running (run ∷ runs) = is_running run || some_running runs

unfoldable pub refetch_interval : Option (List Run) → ℕ
unfolding text_eq
refetch_interval runs = if some_running (or_else runs []) then 3000 else 30000

-- The run that `LiveProgress` shows.
unfoldable pub latest_run : List Run → Option Run
unfolding text_eq
latest_run runs = first_some (find? is_running runs) (first_run runs)

-- What its bar is a share of.
unfoldable pub progress_total : Run → ℕ
progress_total run =
    max (max (run.photos_downloaded + run.photos_skipped + run.photos_failed) run.photos_found) 1

-- `Math.ceil(total / limit)`, of the lists in pages.
unfoldable pub total_pages : ℕ → ℕ → ℕ
total_pages total limit = (total + (limit - 1)) / limit

-- `Math.max(0, page - 1)`, where `page` is a natural number.
abbrev pub previous_page : ℕ → ℕ
previous_page page = page - 1

-- `Math.min(totalPages - 1, page + 1)`, of a button shown for more than one page.
unfoldable pub next_page : ℕ → ℕ → ℕ
next_page pages page = min (pages - 1) (page + 1)

-- `parseInt(value) || 1`: NaN and 0 pass for false.
abbrev pub or_one : Option ℤ → ℤ
or_one none = pos 1
or_one (some (pos n)) = if n == 0 then pos 1 else pos n
or_one (some (negsuc n)) = negsuc n

abbrev at_least_one : ℤ → ℕ
at_least_one (pos n) = max 1 n
at_least_one (negsuc n) = 1

-- The page count that `Controls` keeps for what is typed in its number input, whose value is decimal.
unfoldable pub page_count : Text → ℕ
unfolding parse_int
page_count value = min 20 (at_least_one (or_one (parse_int value)))
