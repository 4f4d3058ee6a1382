-- ===== src/Metadata.antt =====
-- dashboard/src/folio/context.tsx: optimistic edits of piece metadata (`editPieceMetadata`, with
-- `updatePhotoInCaches`); dashboard/src/api.ts: `PieceMetadataPatch`, `BulkMetadataEdit`. Bulk has `bulkEditPieces`.
-- An optional field of a patch is `none` where the source has undefined; a date or note that may be
-- null is `some none` there. The caches are the pages of each query under the two keys.
pub mod Bulk
pub mod Filing
pub mod Rollback
pub mod Overlap
mod Tests
use ok_folio.Prelude.{
  ℕ, ◌+◌, List, [], ◌∷◌, ◌++◌, Option, none, some, Bool, true, false, ◌==◌, find?, first_some,
  or_else, is_some, map, is_nil, if◌then◌else◌, IdMap, put, delete, filter, not,
}
use ok_folio.Prelude.Text.{Text, codes, trim}
use ok_folio.Toasts.{Toast, loading, add_toast, update_toast}
use ok_folio.Types.{Photo}
use ok_folio.Actions.{
  Thrown, Outcome, resolved, rejected, QueryKey, folio_catalog, gallery_catalog, all_folio_pieces,
  succeed, fail_with, or_text,
}
use ok_folio.Actions.Store.{Store}
use ok_folio.Keywords.{normalize_keywords, merge_edited_fields}
use ok_folio.Catalog.{Page}
use ok_folio.Format.{Runtime}
use ok_folio.Pieces.{PieceVm, map_photo, unknown}

pub record PieceMetadataPatch : Type 0 where
  pub title : Option Text
  pub artist : Option Text
  pub date : Option (Option Text)
  pub keywords : Option (List Text)
  pub note : Option (Option Text)

pub record BulkMetadataEdit : Type 0 where
  pub ids : List ℕ
  pub set_artist : Option Text
  pub set_date : Option Text
  pub add_keywords : Option (List Text)
  pub remove_keywords : Option (List Text)

-- The API calls that an edit makes.
pub data EditRequest : Type 0 where
  update_piece_metadata : ℕ → PieceMetadataPatch → EditRequest
  bulk_edit_catalog : BulkMetadataEdit → EditRequest

pub record EditState : Type 0 where
  pub overrides : IdMap PieceVm
  pub edit_requests : List EditRequest
  pub store : Store
  pub catalog_queries : List (List (Page Photo))
  pub folio_piece_queries : List (List (Page Photo))

abbrev pub if_given {ℓ κ} : {A : Type ℓ} {B : Type κ} → Option A → (A → B) → B → B
if_given none f b = b
if_given (some a) f b = f a

-- The names of the fields that the patch sets, without the empty ones.
unfoldable pub patch_fields : PieceMetadataPatch → List Text
patch_fields input =
    filter (λ s. not (is_nil s))
      ((if is_some input.title then codes "title" else [])
        ∷ (if is_some input.artist then codes "artist" else [])
        ∷ (if is_some input.date then codes "date" else [])
        ∷ (if is_some input.keywords then codes "keywords" else [])
        ∷ (if is_some input.note then codes "note" else [])
        ∷ [])

-- A page with each of its photos replaced.
abbrev pub on_photos : (Photo → Photo) → Page Photo → Page Photo
on_photos f page = record page { items = map f page.items }

-- `photos.map((item) => (item.ID === photo.ID ? photo : item))` on every page of every query.
unfoldable pub update_photo_in_queries : Photo → List (List (Page Photo)) → List (List (Page Photo))
update_photo_in_queries photo =
    map (map (on_photos (λ item. if item.id == photo.id then photo else item)))

abbrev pub find_piece : ℕ → List PieceVm → Option PieceVm
find_piece id = find? (λ p. p.id == id)

-- The piece that an edit starts from.
abbrev pub current_piece : ℕ → List PieceVm → List PieceVm → IdMap PieceVm → Option PieceVm
current_piece id pieces viewer_pieces prev =
    first_some (prev id) (first_some (find_piece id pieces) (find_piece id viewer_pieces))

-- `if (hadPreviousOverride && previousOverride) next[id] = previousOverride; else delete next[id];`
unfoldable pub restore : ℕ → Option PieceVm → IdMap PieceVm → IdMap PieceVm
restore id (some previous) prev = put prev id previous
restore id none prev = delete prev id

-- What the promise answers at once, where there is nothing to edit.
unfoldable pub unsent_answer : PieceMetadataPatch → Option Bool
unfolding patch_fields
unsent_answer input = if is_nil (patch_fields input) then some true else none

module _ (rt : Runtime) where
  -- `updatePhotoInCaches`
  unfoldable pub update_photo_in_caches : Photo → EditState → EditState
  unfolding update_photo_in_queries
  update_photo_in_caches photo s = record s {
    overrides = put s.overrides photo.id (map_photo rt photo);
    catalog_queries = update_photo_in_queries photo s.catalog_queries;
    folio_piece_queries = update_photo_in_queries photo s.folio_piece_queries;
  }

  -- The piece that the edit shows before the server answers.
  unfoldable pub patched : PieceMetadataPatch → List Text → PieceVm → PieceVm
  patched input fields current = record current {
    t = if_given input.title trim current.t;
    a = if_given input.artist (λ a. or_text (trim a) unknown) current.a;
    edit_date = if_given input.date (λ d. or_else d []) current.edit_date;
    keywords = if_given input.keywords (normalize_keywords rt.lower) current.keywords;
    note = if_given input.note (λ n. trim (or_else n [])) current.note;
    edited_fields = merge_edited_fields rt.lower current.edited_fields fields;
  }

  unfoldable pub apply_patch :
      ℕ → PieceMetadataPatch → List PieceVm → List PieceVm → IdMap PieceVm → IdMap PieceVm
  unfolding patched
  apply_patch id input pieces viewer_pieces prev =
      elim (current_piece id pieces viewer_pieces prev) [
        | none ↦ prev
        | some current ↦ put prev id (patched input (patch_fields input) current)
      ]

  -- The synchronous part of `editPieceMetadata`; an edit of nothing only takes a toast id.
  unfoldable pub begin_edit :
      ℕ → PieceMetadataPatch → List PieceVm → List PieceVm → EditState → EditState
  unfolding apply_patch patch_fields
  begin_edit id input pieces viewer_pieces s =
      let toast_id = s.store.toast_seq + 1 in
      if is_nil (patch_fields input)
      then record s { store = record s.store { toast_seq = toast_id } }
      else record s {
        overrides = apply_patch id input pieces viewer_pieces s.overrides;
        edit_requests = s.edit_requests ++ update_piece_metadata id input ∷ [];
        store = record s.store {
          toast_seq = toast_id;
          toasts =
              add_toast
                (record {
                  id = toast_id;
                  status = loading;
                  title = codes "Saving edits";
                  detail = none;
                })
                s.store.toasts;
        };
      }

  -- The handlers of the request; `previous` is the override that the last render showed.
  unfoldable pub settle_edit : ℕ → ℕ → Option PieceVm → Outcome Photo → EditState → EditState × Bool
  unfolding update_photo_in_caches restore
  settle_edit id toast_id previous (resolved photo) s =
      let shown = update_photo_in_caches photo s in
      (
        record shown {
          store = record shown.store {
            toasts = update_toast toast_id (succeed (codes "Piece edited")) s.store.toasts;
            timers = (toast_id, 2600) ∷ s.store.timers;
            invalidated =
                s.store.invalidated ++ folio_catalog ∷ gallery_catalog ∷ all_folio_pieces ∷ [];
          };
        },
        true,
      )
  settle_edit id toast_id previous (rejected err) s = (
    record s {
      overrides = restore id previous s.overrides;
      store = record s.store {
        toasts = update_toast toast_id (fail_with (codes "Couldn’t save edits") err) s.store.toasts;
        invalidated = s.store.invalidated ++ folio_catalog ∷ [];
      };
    },
    false,
  )
