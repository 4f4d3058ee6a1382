-- ===== src/Metadata/Tests.antt =====
-- Tests of the metadata edits of dashboard/src/folio/context.tsx.
use ok_folio.Prelude.{ℕ, [], ◌∷◌, none, some, Bool, false, ◌≡◌, refl, empty, arith}
use ok_folio.Prelude.Text.{Text, codes, trim}
use ok_folio.Actions.{rejected}
use ok_folio.Actions.Store.{initial}
use ok_folio.Format.Samples.{browser}
use ok_folio.Pieces.{PieceVm, piece_stub}
use ok_folio.Pieces.Overlay.{IsFiled}
use ok_folio.Metadata.{EditState, PieceMetadataPatch, BulkMetadataEdit, begin_edit, settle_edit}
use ok_folio.Metadata.Bulk.{bulk_ids, begin_bulk_edit, settle_bulk_edit}
use ok_folio.Metadata.Rollback.{edit_rolled_back, bulk_edit_rolled_back}
use ok_folio.Metadata.Overlap.{both_rejected, rejected_title_stays}

abbrev piece : PieceVm
piece = piece_stub 7 (record { title = some (codes "Untitled"); artist = none; thumb = none })

abbrev state : EditState
state = record {
  overrides = empty;
  edit_requests = [];
  store = initial;
  catalog_queries = [];
  folio_piece_queries = [];
}

abbrev retitle : Text → PieceMetadataPatch
retitle title = record {
  title = some title;
  artist = none;
  date = none;
  keywords = none;
  note = none;
}

abbrev tagging : BulkMetadataEdit
tagging = record {
  ids = 7 ∷ 8 ∷ 7 ∷ [];
  set_artist = none;
  set_date = none;
  add_keywords = some (codes "print" ∷ []);
  remove_keywords = none;
}

abbrev refused_edit : EditState × Bool
refused_edit =
    settle_edit browser 7 1 (state.overrides 7) (rejected none)
      (begin_edit browser 7 (retitle (codes "Dawn")) (piece ∷ []) [] state)

edit_rolled_back_example :
    ((j : ℕ) → refused_edit.0.overrides j ≡ state.overrides j) × (refused_edit.1 ≡ false)
edit_rolled_back_example =
    edit_rolled_back browser state 7 1 (retitle (codes "Dawn")) (piece ∷ []) [] none

abbrev refused_bulk : EditState × Bool
refused_bulk =
    settle_bulk_edit browser (bulk_ids tagging) 1 state.overrides (rejected none)
      (begin_bulk_edit browser tagging (piece ∷ []) [] state)

bulk_edit_rolled_back_example :
    ((j : ℕ) → refused_bulk.0.overrides j ≡ state.overrides j) × (refused_bulk.1 ≡ false)
bulk_edit_rolled_back_example = bulk_edit_rolled_back browser state 1 tagging (piece ∷ []) [] none

nothing-IsFiled : IsFiled empty
nothing-IsFiled i p e = absurd (ground arith)

rejected_title_stays_example :
    (p : PieceVm) × ((both_rejected browser 7
          (retitle (codes "Dawn"))
          (retitle (codes "Dusk"))
          (piece ∷ [])
          []
          1
          2
          none
          none
          state).0.overrides
        7
      ≡ some p)
    × (p.t ≡ trim (codes "Dawn"))
unfolding piece_stub
rejected_title_stays_example =
    rejected_title_stays browser 7 (retitle (codes "Dawn")) (retitle (codes "Dusk")) (piece ∷ []) []
      state 1 2 none none (codes "Dawn") piece refl refl
