-- ===== src/Operations/Tests.antt =====
-- Tests of the screens of the extraction.
use ok_folio.Prelude.{
  ℕ, ◌≤◌, List, [], ◌∷◌, ◌++◌, none, some, true, false, map, elem, Distinct, length, ◌≡◌, refl,
}
use ok_folio.Prelude.Text.{Text, codes, is_space, trim_start}
use ok_folio.Types.{Photo}
use ok_folio.Folios.{photo_ids}
use ok_folio.Operations.{
  Failed, handle_retry_selected, toggle_photo, all_checked, refetch_interval, total_pages,
  next_page, page_count,
}
use ok_folio.Operations.Search.{empty_search, asked, fire, handle_search}
use ok_folio.Operations.Searched.{
  SearchEvent, typed, fired, turned, step, run, typed_values, searches, search_of, last_of,
  typed_searches,
}
use ok_folio.Operations.Recent.{latest_first, recent_media}
use ok_folio.Operations.Merged.{IsLatestFirst, latest_first_lem}
use ok_folio.Operations.Modal.{
  go_to_next, handle_key, escape, arrow_left, arrow_right, close, stay, show,
}

-- "f", "fo" and an emptied input, with a timeout between the first two and a page turned.
abbrev keys : List SearchEvent
keys = typed (codes "f") ∷ fired ∷ turned 2 ∷ typed (codes "fo") ∷ typed [] ∷ fired ∷ fired ∷ []

typed_searches_example :
    ((done : List Text) × (done ++ (run keys empty_search).timers ≡ typed_values keys)
      × (searches keys empty_search ≡ map search_of done))
    × (last_of (run keys empty_search).debounced_query (run keys empty_search).timers
        ≡ (run keys empty_search).query)
typed_searches_example = typed_searches keys

searched :
    searches keys empty_search ≡ some (codes "f", (50, 0)) ∷ some (codes "fo", (50, 0)) ∷ none ∷ []
unfolding searches step asked fire handle_search
searched = refl

abbrev media : ℕ → Text → Photo
media id downloaded_at = record {
  id = id;
  url = [];
  source_page = [];
  title = [];
  artist = [];
  upload_date = [];
  file_path = [];
  file_name = [];
  image_width = 0;
  image_height = 0;
  captured_at = none;
  camera_make = [];
  camera_model = [];
  lens_model = [];
  orientation = [];
  gps_latitude = none;
  gps_longitude = none;
  downloaded_at = downloaded_at;
  file_size = 0;
  notes = [];
  keywords = [];
  manual_fields = [];
  favorite = false;
  status = codes "downloaded";
}

abbrev today : List Photo
today = media 3 (codes "ab") ∷ media 2 (codes "a") ∷ []

abbrev week : List Photo
week = media 2 (codes "a") ∷ media 7 (codes "abc") ∷ media 9 (codes "ab") ∷ []

-- A time is the length of its text.
latest_first_lem_example :
    Distinct (photo_ids (latest_first length today week))
    × ((a : ℕ)
        → elem a (photo_ids (latest_first length today week)) ≡ elem a (photo_ids (today ++ week)))
    × IsLatestFirst length (latest_first length today week)
    × IsLatestFirst length (recent_media length today week)
    × (length (recent_media length today week) ≤ 8)
latest_first_lem_example = latest_first_lem length today week

merged : photo_ids (recent_media length today week) ≡ 7 ∷ 3 ∷ 9 ∷ 2 ∷ []
unfolding recent_media
merged = refl

abbrev chosen : Failed
chosen = toggle_photo 3 (toggle_photo 2 (record { selected = []; retried = [] }))

-- After a refetch without them, the chosen photos pass for the whole list, and are retried.
stale_selection :
    (all_checked (media 7 [] ∷ media 9 [] ∷ []) chosen ≡ true)
    × ((handle_retry_selected chosen).retried ≡ 2 ∷ 3 ∷ [])
unfolding toggle_photo handle_retry_selected
stale_selection = (refl, refl)

counts :
    (map page_count (codes "7" ∷ codes "" ∷ codes "-3" ∷ codes "400" ∷ []) ≡ 7 ∷ 1 ∷ 1 ∷ 20 ∷ [])
    × (total_pages 101 50 ≡ 3)
    × (next_page 3 2 ≡ 2)
unfolding page_count total_pages next_page is_space trim_start
counts = (refl, refl, refl)

slow_poll : refetch_interval none ≡ 30000
unfolding refetch_interval
slow_poll = refl

-- The arrows stop at the ends.
arrows :
    (map (handle_key (4 ∷ 6 ∷ []) 6) (escape ∷ arrow_left ∷ arrow_right ∷ [])
      ≡ close ∷ show 4 ∷ stay ∷ [])
    × (go_to_next (4 ∷ 6 ∷ []) 5 ≡ none)
unfolding handle_key go_to_next
arrows = (refl, refl)
