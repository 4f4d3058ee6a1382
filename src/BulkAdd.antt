-- ===== src/BulkAdd.antt =====
-- dashboard/src/folio/context.tsx: `addPiecesToFolioAction`, which adds selected pieces to a folio by
-- one request each, in order, until one fails, and reports the counts in a toast. The replies of the
-- server are a function of the photo id, since no id is sent twice; `locale` is `toLocaleString`.
pub mod Counts
pub mod Run
pub mod Outcome
mod Tests
use ok_folio.Prelude.{
  ℕ, suc, zero, ◌+◌, ◌-◌, List, [], ◌∷◌, ◌++◌, Option, none, some, Bool, true, false, ◌==◌, ltb,
  not, filter, map, is_nil, length, if◌then◌else◌, or_else, IdSet,
}
use ok_folio.Prelude.Text.{Text, codes}
use ok_folio.Toasts.{Toast, ToastStatus, loading, success, error, add_toast, update_toast}
use ok_folio.Actions.{
  Thrown, Request, QueryKey, folios, folio_pieces, folio_cover_sheet_pieces, succeed_with,
  fail_with, or_text,
}
use ok_folio.Actions.Store.{Store}
use ok_folio.Keywords.{unique_positive_ids}

pub record AddPiecesToFolioResult : Type 0 where
  pub requested : ℕ
  pub added : ℕ
  pub duplicate : ℕ
  pub failed : ℕ

-- The settled promise of `addPieceToFolio`: `added` of its result, or what it throws, which is an
-- `Error` by dashboard/src/api.ts and so passes for true in `if (error)`.
pub data Reply : Type 0 where
  new_piece present : Reply
  thrown : Thrown → Reply

-- `parts.join(separator)`
unfoldable pub join : Text → List Text → Text
join separator [] = []
join separator (part ∷ []) = part
join separator (part ∷ next ∷ parts) = part ++ (separator ++ join separator (next ∷ parts))

-- `existingIds ? uniqueIds.filter((photoId) => !existingIds.has(photoId)) : uniqueIds`
unfoldable pub pending_ids : Option IdSet → List ℕ → List ℕ
pending_ids none unique_ids = unique_ids
pending_ids (some existing) unique_ids = filter (λ id. not (existing id)) unique_ids

-- The state of the loop: the counts, the ids posted so far, the pauses made, and the error.
pub record Progress : Type 0 where
  pub added : ℕ
  pub duplicate : ℕ
  pub posted : List ℕ
  pub pauses : ℕ
  pub error : Option Thrown

-- One request that does not throw.
abbrev pub count_reply : Bool → ℕ → Progress → Progress
count_reply true id p = record p { added = p.added + 1; posted = p.posted ++ id ∷ [] }
count_reply false id p = record p { duplicate = p.duplicate + 1; posted = p.posted ++ id ∷ [] }

-- `if (index < pendingIds.length - 1) await wait(FOLIO_BULK_ADD_INTERVAL_MS)`
abbrev pub pause : List ℕ → Progress → Progress
pause rest p = if is_nil rest then p else record p { pauses = p.pauses + 1 }

abbrev pub folio_bulk_add_interval_ms : ℕ
folio_bulk_add_interval_ms = 125

module _ (reply : ℕ → Reply) where
  unfoldable pub post_all : List ℕ → Progress → Progress
  post_all [] p = p
  post_all (id ∷ rest) p = elim (reply id) [
    | new_piece ↦ post_all rest (pause rest (count_reply true id p))
    | present ↦ post_all rest (pause rest (count_reply false id p))
    | thrown err ↦ record p { posted = p.posted ++ id ∷ []; error = some err }
  ]

-- `result` after the loop.
unfoldable pub final_result : ℕ → ℕ → ℕ → Progress → AddPiecesToFolioResult
final_result requested pending_count initial_duplicates p = record {
  requested = requested;
  added = p.added;
  duplicate = p.duplicate;
  failed = elim p.error [
    | none ↦ 0
    | some err ↦ pending_count - p.added - (p.duplicate - initial_duplicates)
  ];
}

unfoldable pub initial_progress : ℕ → Progress
initial_progress initial_duplicates = record {
  added = 0;
  duplicate = initial_duplicates;
  posted = [];
  pauses = 0;
  error = none;
}

module _ (locale : ℕ → Text) where
  unfoldable pub added_pieces_detail : AddPiecesToFolioResult → Text
  unfolding join
  added_pieces_detail result = join (codes " · ") (
      (if ltb 0 result.added then (locale result.added ++ codes " added") ∷ [] else [])
      ++ ((if ltb 0 result.duplicate
            then (locale result.duplicate ++ codes " already in folio") ∷ []
            else [])
          ++ (if ltb 0 result.failed then (locale result.failed ++ codes " failed") ∷ [] else [])))

  -- The toast while the requests run; `undefined` where nothing is in the folio yet.
  unfoldable pub loading_toast : ℕ → ℕ → AddPiecesToFolioResult → Toast
  loading_toast id pending_count result = record {
    id = id;
    status = loading;
    title =
        if pending_count == 1
        then codes "Adding piece to folio"
        else codes "Adding " ++ (locale pending_count ++ codes " pieces to folio");
    detail = if ltb 0 result.duplicate then some (added_pieces_detail result) else none;
  }

  unfoldable pub error_detail : AddPiecesToFolioResult → Thrown → Text
  unfolding join
  error_detail result err =
      or_text
        (join (codes ". ")
          (filter (λ s. not (is_nil s)) (added_pieces_detail result ∷ or_else err [] ∷ [])))
        (codes "No pieces were added")

  unfoldable pub success_title : AddPiecesToFolioResult → Text
  success_title result =
      if ltb 0 result.added
      then codes "Added "
        ++ (locale result.added
            ++ (b' ' ∷ (if result.added == 1 then codes "piece" else codes "pieces")
                ++ codes " to folio"))
      else codes "Pieces already in folio"
