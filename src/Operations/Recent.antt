-- ===== src/Operations/Recent.antt =====
-- dashboard/src/pages/ExtractorOperations.tsx, `RecentMedia`: the media of today and of the week,
-- each once, the latest first. `time` is `new Date(value).getTime()`, of valid dates since 1970; the
-- runtime's `sort` is stable.
use ok_folio.Prelude.{ℕ, List, [], ◌∷◌, ◌++◌, ◌==◌, ltb, take, if◌then◌else◌}
use ok_folio.Prelude.Text.{Text}
use ok_folio.Types.{Photo}

-- `byID.set(photo.ID, photo)`: a key that is there keeps its place.
unfoldable pub set_by_id : Photo → List Photo → List Photo
set_by_id photo [] = photo ∷ []
set_by_id photo (other ∷ l) = if other.id == photo.id then photo ∷ l else other ∷ set_by_id photo l

unfoldable pub by_id : List Photo → List Photo → List Photo
unfolding set_by_id
by_id l [] = l
by_id l (photo ∷ photos) = by_id (set_by_id photo l) photos

module _ (time : Text → ℕ) where
  -- Behind the photos that are as late.
  unfoldable pub insert : Photo → List Photo → List Photo
  insert photo [] = photo ∷ []
  insert photo (other ∷ l) =
      if ltb (time other.downloaded_at) (time photo.downloaded_at)
      then photo ∷ other ∷ l
      else other ∷ insert photo l

  unfoldable pub sort_onto : List Photo → List Photo → List Photo
  unfolding insert
  sort_onto l [] = l
  sort_onto l (photo ∷ photos) = sort_onto (insert photo l) photos

  unfoldable pub latest_first : List Photo → List Photo → List Photo
  unfolding by_id sort_onto
  latest_first today week = sort_onto [] (by_id [] (today ++ week))

  unfoldable pub recent_media : List Photo → List Photo → List Photo
  unfolding latest_first
  recent_media today week = take 8 (latest_first today week)
