-- ===== src/BulkAdd/Run.antt =====
-- dashboard/src/folio/context.tsx, `addPiecesToFolioAction`: the whole call over the shared store,
-- in the three parts between which other actions may run.
use ok_folio.Prelude.{
  ℕ, ◌+◌, ◌-◌, List, [], ◌∷◌, ◌++◌, Option, none, some, Bool, true, false, ltb, map, is_nil, length,
  if◌then◌else◌, IdSet,
}
use ok_folio.Prelude.Text.{Text, codes}
use ok_folio.Toasts.{success, add_toast, update_toast}
use ok_folio.Actions.{
  Request, QueryKey, folios, folio_pieces, folio_cover_sheet_pieces, succeed_with, fail_with,
}
use ok_folio.Actions.Store.{Store}
use ok_folio.Keywords.{unique_positive_ids}
use ok_folio.BulkAdd.{
  AddPiecesToFolioResult, Reply, Progress, pending_ids, post_all, final_result, initial_progress,
  added_pieces_detail, loading_toast, error_detail, success_title,
}

module _ (locale : ℕ → Text) (folio_id : ℕ) where
  abbrev pub stale_keys : List QueryKey
  stale_keys = folio_pieces folio_id ∷ folios ∷ folio_cover_sheet_pieces folio_id ∷ []

  -- Every piece is in the folio already: one success toast, and no request.
  unfoldable pub report_present : ℕ → AddPiecesToFolioResult → Store → Store
  unfolding add_toast
  report_present id result s = record s {
    toast_seq = id;
    toasts =
        add_toast
          (record {
            id = id;
            status = success;
            title = codes "Pieces already in folio";
            detail = some (added_pieces_detail locale result);
          })
          s.toasts;
    timers = (id, 2800) ∷ s.timers;
  }

  unfoldable pub begin_adding : ℕ → ℕ → AddPiecesToFolioResult → Store → Store
  unfolding add_toast
  begin_adding id pending_count result s = record s {
    toast_seq = id;
    toasts = add_toast (loading_toast locale id pending_count result) s.toasts;
  }

  -- After the loop: the requests that it sent, and its report.
  unfoldable pub finish_adding : ℕ → AddPiecesToFolioResult → Progress → Store → Store × Bool
  finish_adding id result p s =
      let sent = s.sent ++ map (λ photo. Request.add_piece_to_folio folio_id photo) p.posted in
      elim p.error [
        | some err ↦ (
          record s {
            sent = sent;
            toasts =
                update_toast id
                  (fail_with (codes "Couldn’t add selected pieces")
                    (some (error_detail locale result err)))
                  s.toasts;
            invalidated = if ltb 0 result.added then s.invalidated ++ stale_keys else s.invalidated;
          },
          false,
        )
        | none ↦ (
          record s {
            sent = sent;
            toasts =
                update_toast id
                  (succeed_with (success_title locale result) (
                    if ltb 0 result.duplicate
                    then some (added_pieces_detail locale result)
                    else none))
                  s.toasts;
            timers = (id, 2800) ∷ s.timers;
            invalidated = s.invalidated ++ stale_keys;
          },
          true,
        )
      ]

  unfoldable pub add_pieces_to_folio : (ℕ → Reply) → List ℕ → Option IdSet → Store → Store × Bool
  add_pieces_to_folio reply photo_ids existing s =
      let unique_ids = unique_positive_ids photo_ids in
      let pending = pending_ids existing unique_ids in
      let initial_duplicates = length unique_ids - length pending in
      let result : AddPiecesToFolioResult = record {
        requested = length unique_ids;
        added = 0;
        duplicate = initial_duplicates;
        failed = 0;
      } in
      let id = s.toast_seq + 1 in
      let progress = post_all reply pending (initial_progress initial_duplicates) in
      let final = final_result (length unique_ids) (length pending) initial_duplicates progress in
      if is_nil unique_ids
      then (s, false)
      else if is_nil pending
      then (report_present id result s, true)
      else finish_adding id final progress (begin_adding id (length pending) result s)
