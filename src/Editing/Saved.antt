-- ===== src/Editing/Saved.antt =====
-- dashboard/src/folio/PieceViewer.tsx, `saveEdit`, with dashboard/src/folio/context.tsx,
-- `editPieceMetadata` and `overlayPiece`: what the piece shows at once when a draft is saved.
use ok_folio.Prelude.{
  subst, List, Option, none, some, Bool, true, false, is_nil, ◌≡◌, refl, sym, ◌∙◌, ap, inl, inr,
  Bool-cases, or_else, IdMap,
}
use ok_folio.Format.{Runtime}
use ok_folio.Types.{Photo}
use ok_folio.Pieces.{PieceVm, map_photo, overlay_piece}
use ok_folio.Pieces.Overlay.{IsFiled}
use ok_folio.Metadata.{
  PieceMetadataPatch, EditState, patch_fields, patched, find_piece, current_piece, begin_edit,
}
use ok_folio.Editing.{EditorState, draft_patch, save_edit}
use ok_folio.Editing.Drafted.{IsClean, Shows, patched-Shows, unpatched-Shows}
use ok_folio.Editing.Filed.{
  edit_with, after_save, AreClean, with_fav, overlay_lem, id-with_fav, draft_patch-with_fav,
  patched-with_fav, with_fav-Shows, current_piece_lem, overrides-begin_edit, or_else-IsClean,
  id-or_else,
}

module _ (rt : Runtime) (photo : Photo) (favs : IdMap Bool) (pieces viewer_pieces : List PieceVm)
    (s : EditorState) (st : EditState) where
  -- The piece of the photo, as the provider shows it.
  abbrev pub shown : EditState → PieceVm
  shown t = overlay_piece t.overrides favs (map_photo rt photo)

  abbrev based : EditState → PieceVm
  based t = or_else (t.overrides photo.id) (map_photo rt photo)

  shown_lem : (t : EditState) → shown t ≡ with_fav (favs (based t).id) (based t)
  unfolding map_photo
  shown_lem t = overlay_lem t.overrides favs (map_photo rt photo)

  patch_unsent :
      (p : PieceVm)
      → s.saving_edit ≡ false
      → is_nil (patch_fields (draft_patch rt.lower p s.edit_draft)) ≡ true
      → (save_edit rt.lower (some p) s).1 ≡ none
  unfolding save_edit
  patch_unsent p idle unchanged = rw (idle, unchanged) refl

  patch_sent :
      (p : PieceVm)
      → s.saving_edit ≡ false
      → is_nil (patch_fields (draft_patch rt.lower p s.edit_draft)) ≡ false
      → (save_edit rt.lower (some p) s).1 ≡ some (draft_patch rt.lower p s.edit_draft)
  unfolding save_edit
  patch_sent p idle changed = rw (idle, changed) refl

  after_unsent :
      (p : PieceVm)
      → s.saving_edit ≡ false
      → is_nil (patch_fields (draft_patch rt.lower p s.edit_draft)) ≡ true
      → after_save rt p s pieces viewer_pieces st ≡ st
  unfolding after_save
  after_unsent p idle unchanged =
      ap (edit_with rt p.id pieces viewer_pieces st) (patch_unsent p idle unchanged)

  after_sent :
      (p : PieceVm)
      → s.saving_edit ≡ false
      → is_nil (patch_fields (draft_patch rt.lower p s.edit_draft)) ≡ false
      → after_save rt p s pieces viewer_pieces st
        ≡ begin_edit rt p.id (draft_patch rt.lower p s.edit_draft) pieces viewer_pieces st
  unfolding after_save
  after_sent p idle changed =
      ap (edit_with rt p.id pieces viewer_pieces st) (patch_sent p idle changed)

  -- The piece after an edit of it that is sent.
  shown_sent :
      (patch : PieceMetadataPatch) (current : PieceVm)
      → is_nil (patch_fields patch) ≡ false
      → current_piece photo.id pieces viewer_pieces st.overrides ≡ some current
      → (k : Option Bool) × (shown (begin_edit rt photo.id patch pieces viewer_pieces st)
          ≡ with_fav k (patched rt patch (patch_fields patch) current))
  shown_sent patch current sent found =
      let t = begin_edit rt photo.id patch pieces viewer_pieces st in
      let filed : based t ≡ patched rt patch (patch_fields patch) current =
        ap (λ o. or_else o (map_photo rt photo))
          (overrides-begin_edit rt photo.id patch pieces viewer_pieces st current sent found) in
      (favs (based t).id, shown_lem t ∙ ap (with_fav (favs (based t).id)) filed)

  sent-Shows :
      (f g : Option Bool)
      → IsClean (based st)
      → is_nil (patch_fields (draft_patch rt.lower (based st) s.edit_draft)) ≡ false
      → current_piece photo.id pieces viewer_pieces st.overrides ≡ some (with_fav g (based st))
      → Shows rt s.edit_draft (with_fav f (based st)) (
          shown (
            begin_edit rt photo.id
              (draft_patch rt.lower (based st) s.edit_draft)
              pieces
              viewer_pieces
              st))
  sent-Shows f g clean changed found =
      let patch = draft_patch rt.lower (based st) s.edit_draft in
      let (k, after) = shown_sent patch (with_fav g (based st)) changed found in
      subst (Shows rt s.edit_draft (with_fav f (based st)))
        (sym
          (after ∙ ap (with_fav k) (patched-with_fav rt patch (patch_fields patch) g (based st))))
        (with_fav-Shows rt s.edit_draft f k (based st) _ (
          with_fav-Shows rt s.edit_draft none g (based st) _
            (patched-Shows rt s.edit_draft (based st) (patch_fields patch) clean)))

  saved-Shows :
      (f g : Option Bool)
      → IsClean (based st)
      → (based st).id ≡ photo.id
      → current_piece photo.id pieces viewer_pieces st.overrides ≡ some (with_fav g (based st))
      → s.saving_edit ≡ false
      → Shows rt s.edit_draft
          (with_fav f (based st))
          (shown (after_save rt (with_fav f (based st)) s pieces viewer_pieces st))
  saved-Shows f g clean same found idle =
      let p = with_fav f (based st) in
      let patch = draft_patch-with_fav rt.lower f (based st) s.edit_draft in
      let fields = ap (λ q. is_nil (patch_fields q)) patch in
      elim (Bool-cases (is_nil (patch_fields (draft_patch rt.lower (based st) s.edit_draft)))) [
        | inl unchanged ↦
            subst (Shows rt s.edit_draft p)
              (sym (ap shown (after_unsent p idle (fields ∙ unchanged)) ∙ shown_lem st))
              (with_fav-Shows rt s.edit_draft f _ (based st) (based st)
                (unpatched-Shows rt s.edit_draft (based st) clean unchanged))
        | inr changed ↦
            subst (λ t. Shows rt s.edit_draft p (shown t))
              (sym (
                after_sent p idle (fields ∙ changed)
                ∙ ap (λ q. begin_edit rt p.id q pieces viewer_pieces st) patch
                ∙ ap
                    (λ i.
                      begin_edit rt i (draft_patch rt.lower (based st) s.edit_draft) pieces
                        viewer_pieces st)
                    (id-with_fav f (based st) ∙ same)))
              (sent-Shows f g clean changed found)
      ]

  -- For a photo of the loaded catalog, with every override clean and filed under the id of its
  -- piece, and no save under way: once its form is saved, the piece shows the draft at once, its
  -- title, artist, date and note trimmed, with no artist as "Unknown", and its keywords in normal
  -- form, or as they stood where they have the same normal form; also where the form has no change
  -- to send.
  pub save_edit-Shows :
      IsFiled st.overrides
      → AreClean st.overrides
      → find_piece photo.id pieces ≡ some (shown st)
      → s.saving_edit ≡ false
      → Shows rt s.edit_draft
          (shown st)
          (shown (after_save rt (shown st) s pieces viewer_pieces st))
  save_edit-Shows filed clean listed idle =
      let f = favs (based st).id in
      let on_view = shown_lem st in
      let (g, found) =
        current_piece_lem photo.id pieces viewer_pieces st.overrides (map_photo rt photo) f
          (listed ∙ ap (λ p. some p) on_view) in
      subst (λ p. Shows rt s.edit_draft p (shown (after_save rt p s pieces viewer_pieces st)))
        (sym on_view)
        (saved-Shows f g (or_else-IsClean rt photo st.overrides clean)
          (id-or_else rt photo st.overrides filed) found idle)
