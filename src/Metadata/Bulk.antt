-- ===== src/Metadata/Bulk.antt =====
-- dashboard/src/folio/context.tsx: `bulkEditPieces`, with `updatePhotosInInfiniteCaches`.
use ok_folio.Prelude.{
  ℕ, suc, ◌+◌, List, [], ◌∷◌, ◌++◌, Option, none, some, Bool, true, false, ◌==◌, ◌||◌, not,
  first_some, or_else, is_some, map, is_nil, if◌then◌else◌, IdMap, put, filter, length,
}
use ok_folio.Prelude.Text.{Text, codes, trim}
use ok_folio.Prelude.Decimal.{decimal}
use ok_folio.Toasts.{loading, add_toast, update_toast}
use ok_folio.Types.{Photo}
use ok_folio.Actions.{
  Outcome, resolved, rejected, folio_catalog, gallery_catalog, all_folio_pieces, succeed, fail_with,
  or_text,
}
use ok_folio.Keywords.{has_text, normalize_keywords, merge_edited_fields}
use ok_folio.Catalog.{Page}
use ok_folio.Format.{Runtime}
use ok_folio.Pieces.{PieceVm, map_photo, unknown}
use ok_folio.Metadata.{BulkMetadataEdit, bulk_edit_catalog, EditState, if_given, restore, on_photos}

pub record BulkResult : Type 0 where
  pub updated : ℕ
  pub photos : List Photo

-- `input.ids.indexOf(id)`, of an id that is listed
unfoldable pub index_of : ℕ → List ℕ → ℕ
index_of id [] = 0
index_of id (x ∷ xs) = if x == id then 0 else suc (index_of id xs)

-- `input.ids.filter((id, index) => input.ids.indexOf(id) === index)`, from an index on
unfoldable pub first_occurrences : List ℕ → ℕ → List ℕ → List ℕ
first_occurrences all index [] = []
first_occurrences all index (id ∷ ids) =
    if index_of id all == index
    then id ∷ first_occurrences all (suc index) ids
    else first_occurrences all (suc index) ids

abbrev pub bulk_ids : BulkMetadataEdit → List ℕ
bulk_ids input = first_occurrences input.ids 0 input.ids

abbrev pub edits_keywords : BulkMetadataEdit → Bool
edits_keywords input = is_some input.add_keywords || is_some input.remove_keywords

unfoldable pub bulk_fields : BulkMetadataEdit → List Text
bulk_fields input =
    filter (λ s. not (is_nil s))
      ((if is_some input.set_artist then codes "artist" else [])
        ∷ (if is_some input.set_date then codes "date" else [])
        ∷ (if edits_keywords input then codes "keywords" else [])
        ∷ [])

-- What the promise answers at once, where nothing is selected or there is nothing to edit.
unfoldable pub bulk_unsent_answer : BulkMetadataEdit → Option Bool
unfolding bulk_fields first_occurrences
bulk_unsent_answer input =
    if is_nil (bulk_ids input)
    then some false
    else if is_nil (bulk_fields input)
    then some true
    else none

-- The value of the last entry with a key, as a `Map` built from the list reads it.
unfoldable pub last_by_id {ℓ} : {A : Type ℓ} → (A → ℕ) → List A → ℕ → Option A
last_by_id key [] id = none
last_by_id key (x ∷ xs) id =
    first_some (last_by_id key xs id) (if key x == id then some x else none)

unfoldable pub update_photos_in_queries :
    List Photo → List (List (Page Photo)) → List (List (Page Photo))
unfolding last_by_id
update_photos_in_queries photos =
    map (map (on_photos (λ photo. or_else (last_by_id (λ p. p.id) photos photo.id) photo)))

-- The loop of the failure handler; `rendered` is the overrides that the last render showed.
unfoldable pub restore_all : IdMap PieceVm → List ℕ → IdMap PieceVm → IdMap PieceVm
unfolding restore
restore_all rendered [] next = next
restore_all rendered (id ∷ ids) next = restore_all rendered ids (restore id (rendered id) next)

module _ (rt : Runtime) where
  abbrev removed_keys : BulkMetadataEdit → List Text
  removed_keys input =
      filter (λ s. not (is_nil s))
        (map (λ keyword. rt.lower (trim keyword)) (or_else input.remove_keywords []))

  unfoldable pub bulk_patched : BulkMetadataEdit → List Text → PieceVm → PieceVm
  bulk_patched input fields current = record current {
    a = if_given input.set_artist (λ a. or_text (trim a) unknown) current.a;
    edit_date = if_given input.set_date trim current.edit_date;
    keywords =
        if edits_keywords input
        then normalize_keywords rt.lower (
            filter (λ keyword. not (has_text (rt.lower keyword) (removed_keys input)))
              current.keywords
            ++ or_else input.add_keywords [])
        else current.keywords;
    edited_fields = merge_edited_fields rt.lower current.edited_fields fields;
  }

  -- One round of the loop: an id that neither an override nor a loaded piece knows is skipped.
  unfoldable pub bulk_round : BulkMetadataEdit → List PieceVm → ℕ → IdMap PieceVm → IdMap PieceVm
  unfolding bulk_patched bulk_fields last_by_id
  bulk_round input known id next = elim (first_some (next id) (last_by_id (λ p. p.id) known id)) [
    | none ↦ next
    | some current ↦ put next id (bulk_patched input (bulk_fields input) current)
  ]

  unfoldable pub apply_bulk :
      BulkMetadataEdit → List PieceVm → List ℕ → IdMap PieceVm → IdMap PieceVm
  apply_bulk input known [] next = next
  apply_bulk input known (id ∷ ids) next =
      apply_bulk input known ids (bulk_round input known id next)

  unfoldable pub put_photos : List Photo → IdMap PieceVm → IdMap PieceVm
  put_photos [] next = next
  put_photos (photo ∷ photos) next = put_photos photos (put next photo.id (map_photo rt photo))

  -- `updatePhotosInInfiniteCaches`
  unfoldable pub update_photos_in_caches : List Photo → EditState → EditState
  unfolding put_photos update_photos_in_queries
  update_photos_in_caches photos s = if is_nil photos then s else record s {
    overrides = put_photos photos s.overrides;
    catalog_queries = update_photos_in_queries photos s.catalog_queries;
    folio_piece_queries = update_photos_in_queries photos s.folio_piece_queries;
  }

  -- The synchronous part; nothing selected takes no toast id, nothing to edit takes one.
  unfoldable pub begin_bulk_edit :
      BulkMetadataEdit → List PieceVm → List PieceVm → EditState → EditState
  unfolding apply_bulk bulk_fields first_occurrences index_of
  begin_bulk_edit input pieces viewer_pieces s =
      let ids = bulk_ids input in
      let toast_id = s.store.toast_seq + 1 in
      if is_nil ids
      then s
      else if is_nil (bulk_fields input)
      then record s { store = record s.store { toast_seq = toast_id } }
      else record s {
        overrides = apply_bulk input (pieces ++ viewer_pieces) ids s.overrides;
        edit_requests = s.edit_requests ++ bulk_edit_catalog (record input { ids = ids }) ∷ [];
        store = record s.store {
          toast_seq = toast_id;
          toasts =
              add_toast
                (record {
                  id = toast_id;
                  status = loading;
                  title = codes "Updating " ++ (decimal (length ids) ++ codes " pieces");
                  detail = none;
                })
                s.store.toasts;
        };
      }

  unfoldable pub settle_bulk_edit :
      List ℕ → ℕ → IdMap PieceVm → Outcome BulkResult → EditState → EditState × Bool
  unfolding update_photos_in_caches restore_all
  settle_bulk_edit ids toast_id rendered (resolved result) s =
      let shown = update_photos_in_caches result.photos s in
      (
        record shown {
          store = record s.store {
            toasts =
                update_toast toast_id
                  (succeed (
                    codes "Updated "
                    ++ (decimal result.updated
                        ++ (if result.updated == 1 then codes " piece" else codes " pieces"))))
                  s.store.toasts;
            timers = (toast_id, 3000) ∷ s.store.timers;
            invalidated =
                s.store.invalidated ++ folio_catalog ∷ gallery_catalog ∷ all_folio_pieces ∷ [];
          };
        },
        true,
      )
  settle_bulk_edit ids toast_id rendered (rejected err) s = (
    record s {
      overrides = restore_all rendered ids s.overrides;
      store = record s.store {
        toasts =
            update_toast toast_id (fail_with (codes "Couldn’t update selected pieces") err)
              s.store.toasts;
        invalidated = s.store.invalidated ++ folio_catalog ∷ all_folio_pieces ∷ [];
      };
    },
    false,
  )
