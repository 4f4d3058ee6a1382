-- ===== src/Metadata/Filing.antt =====
-- dashboard/src/folio/context.tsx: every override stays filed under its piece's id.
use ok_folio.Prelude.{
  ℕ, List, [], ◌∷◌, ◌++◌, some, ◌==◌, ◌≡◌, refl, ◌∙◌, arith, IdMap, put, delete, is_nil, Bool-cases,
  Option-cases, inl, inr,
}
use ok_folio.Prelude.Text.{Text}
use ok_folio.Types.{Photo}
use ok_folio.Actions.{Outcome, resolved, rejected}
use ok_folio.Format.{Runtime}
use ok_folio.Pieces.{PieceVm, map_photo}
use ok_folio.Pieces.Overlay.{IsFiled}
use ok_folio.Metadata.{
  BulkMetadataEdit, EditState, PieceMetadataPatch, find_piece, patched, patch_fields, apply_patch,
  begin_edit, restore, settle_edit, current_piece,
}
use ok_folio.Metadata.Bulk.{
  BulkResult, last_by_id, bulk_ids, bulk_round, bulk_fields, bulk_patched, apply_bulk, put_photos,
  restore_all, begin_bulk_edit, settle_bulk_edit,
}

IsFiled-put :
    (m : IdMap PieceVm) (id : ℕ) (p : PieceVm) → IsFiled m → p.id ≡ id → IsFiled (put m id p)
IsFiled-put m id p h e i q at_i = elim (Bool-cases (i == id)) [
  | inl same ↦ let eq : p ≡ q = ground arith in rw (← eq) (ground arith)
  | inr other ↦ h i q (rw other at at_i)
]

IsFiled-delete : (m : IdMap PieceVm) (id : ℕ) → IsFiled m → IsFiled (delete m id)
IsFiled-delete m id h i q at_i = elim (Bool-cases (i == id)) [
  | inl same ↦ absurd (ground arith)
  | inr other ↦ h i q (rw other at at_i)
]

find_piece_id : (id : ℕ) (l : List PieceVm) (p : PieceVm) → find_piece id l ≡ some p → p.id ≡ id
find_piece_id id [] p h = ground arith
find_piece_id id (q ∷ l) p h = elim (Bool-cases (q.id == id)) [
  | inl same ↦ let eq : q ≡ p = ground arith in rw (← eq) (ground arith)
  | inr other ↦ find_piece_id id l p (rw other at h)
]

last_by_id_id :
    (id : ℕ) (l : List PieceVm) (p : PieceVm) → last_by_id (λ q. q.id) l id ≡ some p → p.id ≡ id
unfolding last_by_id
last_by_id_id id [] p h = ground arith
last_by_id_id id (q ∷ l) p h = elim (Option-cases (last_by_id (λ r. r.id) l id)) [
  | inl missing ↦ elim (Bool-cases (q.id == id)) [
    | inl same ↦ let eq : q ≡ p = ground arith in rw (← eq) (ground arith)
    | inr other ↦ absurd (ground arith)
  ]
  | inr (r, found) ↦ last_by_id_id id l p (found ∙ (rw found at h))
]

current_piece_id :
    (id : ℕ) (pieces viewer_pieces : List PieceVm) (m : IdMap PieceVm) (p : PieceVm)
    → IsFiled m
    → current_piece id pieces viewer_pieces m ≡ some p
    → p.id ≡ id
current_piece_id id pieces viewer_pieces m p h e = elim (Option-cases (m id)) [
  | inr (q, stored) ↦ h id p (stored ∙ rw stored at e)
  | inl fresh ↦ elim (Option-cases (find_piece id pieces)) [
    | inr (q, listed) ↦ find_piece_id id pieces p (listed ∙ rw (fresh, listed) at e)
    | inl unlisted ↦ find_piece_id id viewer_pieces p (rw (fresh, unlisted) at e)
  ]
]

pub restore-IsFiled :
    (id : ℕ) (rendered m : IdMap PieceVm)
    → IsFiled rendered
    → IsFiled m
    → IsFiled (restore id (rendered id) m)
unfolding restore
restore-IsFiled id rendered m hr h = elim (Option-cases (rendered id)) [
  | inl fresh ↦ rw fresh (IsFiled-delete m id h)
  | inr (p, stored) ↦ rw stored (IsFiled-put m id p h (hr id p stored))
]

restore_all-IsFiled :
    (rendered : IdMap PieceVm) (ids : List ℕ) (m : IdMap PieceVm)
    → IsFiled rendered
    → IsFiled m
    → IsFiled (restore_all rendered ids m)
unfolding restore_all
restore_all-IsFiled rendered [] m hr h = h
restore_all-IsFiled rendered (id ∷ ids) m hr h =
    restore_all-IsFiled rendered ids _ hr (restore-IsFiled id rendered m hr h)

module _ (rt : Runtime) where
  id-patched :
      (input : PieceMetadataPatch) (fields : List Text) (p : PieceVm)
      → (patched rt input fields p).id ≡ p.id
  unfolding patched
  id-patched input fields p = refl

  id-bulk_patched :
      (input : BulkMetadataEdit) (fields : List Text) (p : PieceVm)
      → (bulk_patched rt input fields p).id ≡ p.id
  unfolding bulk_patched
  id-bulk_patched input fields p = refl

  id-map_photo : (photo : Photo) → (map_photo rt photo).id ≡ photo.id
  unfolding map_photo
  id-map_photo photo = refl

  apply_patch-IsFiled :
      (id : ℕ) (input : PieceMetadataPatch) (pieces viewer_pieces : List PieceVm)
      (m : IdMap PieceVm)
      → IsFiled m
      → IsFiled (apply_patch rt id input pieces viewer_pieces m)
  unfolding apply_patch
  apply_patch-IsFiled id input pieces viewer_pieces m h =
      elim (Option-cases (current_piece id pieces viewer_pieces m)) [
        | inl missing ↦ rw (missing, apply_patch) h
        | inr (current, found) ↦
            rw (found, apply_patch)
              (IsFiled-put m id _ h (
                id-patched input (patch_fields input) current
                ∙ current_piece_id id pieces viewer_pieces m current h found))
      ]

  put_photos-IsFiled :
      (photos : List Photo) (m : IdMap PieceVm) → IsFiled m → IsFiled (put_photos rt photos m)
  unfolding put_photos
  put_photos-IsFiled [] m h = h
  put_photos-IsFiled (photo ∷ photos) m h =
      put_photos-IsFiled photos _ (IsFiled-put m photo.id _ h (id-map_photo photo))

  bulk_round-IsFiled :
      (input : BulkMetadataEdit) (known : List PieceVm) (id : ℕ) (m : IdMap PieceVm)
      → IsFiled m
      → IsFiled (bulk_round rt input known id m)
  unfolding bulk_round
  bulk_round-IsFiled input known id m h = elim (Option-cases (m id)) [
    | inr (p, stored) ↦
        rw (stored, bulk_round)
          (IsFiled-put m id _ h (id-bulk_patched input (bulk_fields input) p ∙ h id p stored))
    | inl fresh ↦ elim (Option-cases (last_by_id (λ p. p.id) known id)) [
      | inr (p, listed) ↦
          rw (fresh, bulk_round)
            (rw (listed, bulk_round)
              (IsFiled-put m id _ h
                (id-bulk_patched input (bulk_fields input) p ∙ last_by_id_id id known p listed)))
      | inl unknown ↦ rw (fresh, bulk_round) (rw (unknown, bulk_round) h)
    ]
  ]

  apply_bulk-IsFiled :
      (input : BulkMetadataEdit) (known : List PieceVm) (ids : List ℕ) (m : IdMap PieceVm)
      → IsFiled m
      → IsFiled (apply_bulk rt input known ids m)
  unfolding apply_bulk
  apply_bulk-IsFiled input known [] m h = h
  apply_bulk-IsFiled input known (id ∷ ids) m h =
      apply_bulk-IsFiled input known ids _ (bulk_round-IsFiled input known id m h)

  begin_edit-IsFiled :
      (s : EditState) (id : ℕ) (input : PieceMetadataPatch) (pieces viewer_pieces : List PieceVm)
      → IsFiled s.overrides
      → IsFiled (begin_edit rt id input pieces viewer_pieces s).overrides
  unfolding begin_edit
  begin_edit-IsFiled s id input pieces viewer_pieces h =
      elim (Bool-cases (is_nil (patch_fields input))) [
        | inl nothing ↦ rw (nothing, begin_edit) h
        | inr something ↦
            rw (something, begin_edit)
              (apply_patch-IsFiled id input pieces viewer_pieces s.overrides h)
      ]

  settle_edit-IsFiled :
      (s : EditState) (rendered : IdMap PieceVm) (id toast_id : ℕ) (o : Outcome Photo)
      → IsFiled s.overrides
      → IsFiled rendered
      → IsFiled (settle_edit rt id toast_id (rendered id) o s).0.overrides
  unfolding settle_edit
  settle_edit-IsFiled s rendered id toast_id (resolved photo) h hr =
      IsFiled-put s.overrides photo.id _ h (id-map_photo photo)
  settle_edit-IsFiled s rendered id toast_id (rejected err) h hr =
      restore-IsFiled id rendered s.overrides hr h

  begin_bulk_edit-IsFiled :
      (s : EditState) (input : BulkMetadataEdit) (pieces viewer_pieces : List PieceVm)
      → IsFiled s.overrides
      → IsFiled (begin_bulk_edit rt input pieces viewer_pieces s).overrides
  unfolding begin_bulk_edit
  begin_bulk_edit-IsFiled s input pieces viewer_pieces h =
      elim (Bool-cases (is_nil (bulk_ids input))) [
        | inl nobody ↦ rw (nobody, begin_bulk_edit) h
        | inr somebody ↦ elim (Bool-cases (is_nil (bulk_fields input))) [
          | inl nothing ↦ rw (somebody, begin_bulk_edit) (rw (nothing, begin_bulk_edit) h)
          | inr something ↦
              rw (somebody, begin_bulk_edit)
                (rw (something, begin_bulk_edit)
                  (apply_bulk-IsFiled input (pieces ++ viewer_pieces) (bulk_ids input) s.overrides
                    h))
        ]
      ]

  settle_bulk_edit-IsFiled :
      (s : EditState) (rendered : IdMap PieceVm) (ids : List ℕ) (toast_id : ℕ)
      (o : Outcome BulkResult)
      → IsFiled s.overrides
      → IsFiled rendered
      → IsFiled (settle_bulk_edit rt ids toast_id rendered o s).0.overrides
  unfolding settle_bulk_edit
  settle_bulk_edit-IsFiled s rendered ids toast_id (resolved result) h hr =
      elim (Bool-cases (is_nil result.photos)) [
        | inl nothing ↦ rw (nothing, settle_bulk_edit) h
        | inr something ↦
            rw (something, settle_bulk_edit) (put_photos-IsFiled result.photos s.overrides h)
      ]
  settle_bulk_edit-IsFiled s rendered ids toast_id (rejected err) h hr =
      restore_all-IsFiled rendered ids s.overrides hr h

  -- The optimistic part and the handlers of an edit, and of a bulk edit, keep every override filed
  -- under the id of the piece that it holds, if the overrides of the last render are so filed.
  pub edits-IsFiled :
      (s : EditState) (rendered : IdMap PieceVm)
      → IsFiled s.overrides
      → IsFiled rendered
      → ((id : ℕ) (input : PieceMetadataPatch) (pieces viewer_pieces : List PieceVm)
          → IsFiled (begin_edit rt id input pieces viewer_pieces s).overrides)
        × ((id toast_id : ℕ) (o : Outcome Photo)
            → IsFiled (settle_edit rt id toast_id (rendered id) o s).0.overrides)
        × ((input : BulkMetadataEdit) (pieces viewer_pieces : List PieceVm)
            → IsFiled (begin_bulk_edit rt input pieces viewer_pieces s).overrides)
        × ((ids : List ℕ) (toast_id : ℕ) (o : Outcome BulkResult)
            → IsFiled (settle_bulk_edit rt ids toast_id rendered o s).0.overrides)
  edits-IsFiled s rendered h hr = (
    λ id input pieces viewer_pieces. begin_edit-IsFiled s id input pieces viewer_pieces h,
    λ id toast_id o. settle_edit-IsFiled s rendered id toast_id o h hr,
    λ input pieces viewer_pieces. begin_bulk_edit-IsFiled s input pieces viewer_pieces h,
    λ ids toast_id o. settle_bulk_edit-IsFiled s rendered ids toast_id o h hr,
  )
