-- ===== src/Metadata/Overlap.antt =====
-- dashboard/src/folio/context.tsx, `editPieceMetadata`: two edits of one piece whose requests overlap.
use ok_folio.Prelude.{ℕ, List, some, Bool, false, is_nil, ◌≡◌, ◌∙◌, ==_refl}
use ok_folio.Prelude.Text.{Text, trim}
use ok_folio.Actions.{rejected, Thrown}
use ok_folio.Format.{Runtime}
use ok_folio.Pieces.{PieceVm}
use ok_folio.Metadata.{
  EditState, PieceMetadataPatch, patched, patch_fields, apply_patch, begin_edit, settle_edit,
  current_piece,
}
use ok_folio.Metadata.Rollback.{restore_lem}

module _ (rt : Runtime) (id : ℕ) (first second : PieceMetadataPatch)
    (pieces viewer_pieces : List PieceVm) where
  abbrev pub after_first : EditState → EditState
  after_first s = begin_edit rt id first pieces viewer_pieces s

  -- Both edits are begun, each seeing the overrides before it; then both are rejected, in order.
  abbrev pub both_rejected : ℕ → ℕ → Thrown → Thrown → EditState → EditState × Bool
  both_rejected toast_id toast_id' err err' s =
      settle_edit rt id toast_id' ((after_first s).overrides id) (rejected err')
        (settle_edit rt id toast_id (s.overrides id) (rejected err)
          (begin_edit rt id second pieces viewer_pieces (after_first s))).0

  fields_of_title : (t : Text) → first.title ≡ some t → is_nil (patch_fields first) ≡ false
  unfolding patch_fields
  fields_of_title t given = rw (given, patch_fields)

  shown_first :
      (s : EditState) (t : Text) (current : PieceVm)
      → first.title ≡ some t
      → current_piece id pieces viewer_pieces s.overrides ≡ some current
      → (after_first s).overrides id ≡ some (patched rt first (patch_fields first) current)
  unfolding begin_edit apply_patch
  shown_first s t current given found =
      rw (fields_of_title t given, begin_edit) (rw (found, apply_patch) (rw (==_refl id)))

  title_patched :
      (t : Text) (fields : List Text) (current : PieceVm)
      → first.title ≡ some t
      → (patched rt first fields current).t ≡ trim t
  unfolding patched
  title_patched t fields current given = rw given

  restored_first :
      (s : EditState) (toast_id toast_id' : ℕ) (err err' : Thrown)
      → (both_rejected toast_id toast_id' err err' s).0.overrides id ≡ (after_first s).overrides id
  unfolding settle_edit
  restored_first s toast_id toast_id' err err' =
      restore_lem id ((after_first s).overrides id) _ id ∙ rw (==_refl id)

  -- If an edit with a title is begun on a known piece, a second edit of that piece is begun while the
  -- first is in flight, and both are then rejected in that order, the override that stays for the
  -- piece has the title of the first edit.
  pub rejected_title_stays :
      (s : EditState) (toast_id toast_id' : ℕ) (err err' : Thrown) (t : Text) (current : PieceVm)
      → first.title ≡ some t
      → current_piece id pieces viewer_pieces s.overrides ≡ some current
      → (p : PieceVm) × ((both_rejected toast_id toast_id' err err' s).0.overrides id ≡ some p)
        × (p.t ≡ trim t)
  rejected_title_stays s toast_id toast_id' err err' t current given found = (
    patched rt first (patch_fields first) current,
    restored_first s toast_id toast_id' err err' ∙ shown_first s t current given found,
    title_patched t (patch_fields first) current given,
  )
