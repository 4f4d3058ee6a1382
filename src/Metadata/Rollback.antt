-- ===== src/Metadata/Rollback.antt =====
-- dashboard/src/folio/context.tsx: what a rejected edit leaves behind.
use ok_folio.Prelude.{
  ℕ, List, [], ◌∷◌, ◌++◌, Option, none, some, false, ◌==◌, is_nil, elem, ◌≡◌, refl, ◌∙◌, arith,
  IdMap, if◌then◌else◌, Bool-cases, Option-cases, inl, inr, first_some,
}
use ok_folio.Actions.{rejected, Thrown}
use ok_folio.Format.{Runtime}
use ok_folio.Pieces.{PieceVm}
use ok_folio.Metadata.{
  BulkMetadataEdit, EditState, PieceMetadataPatch, patch_fields, apply_patch, begin_edit, restore,
  settle_edit, current_piece,
}
use ok_folio.Metadata.Bulk.{
  bulk_ids, bulk_fields, bulk_round, apply_bulk, restore_all, begin_bulk_edit, settle_bulk_edit,
  last_by_id,
}

pub restore_lem :
    (id : ℕ) (o : Option PieceVm) (m : IdMap PieceVm) (j : ℕ)
    → restore id o m j ≡ (if j == id then o else m j)
unfolding restore
restore_lem id none m j = refl
restore_lem id (some p) m j = refl

restore_all_lem :
    (rendered : IdMap PieceVm) (ids : List ℕ) (m : IdMap PieceVm) (j : ℕ)
    → restore_all rendered ids m j ≡ (if elem j ids then rendered j else m j)
unfolding restore_all
restore_all_lem rendered [] m j = refl
restore_all_lem rendered (id ∷ ids) m j = elim (Bool-cases (j == id)) [
  | inl same ↦
      let eq : j ≡ id = ground arith in
      rw
        (
          restore_all_lem rendered ids (restore id (rendered id) m) j,
          restore_lem id (rendered id) m j,
        )
        (rw eq (ground arith))
  | inr other ↦ ground (
    arith,
    restore_all_lem rendered ids (restore id (rendered id) m) j,
    restore_lem id (rendered id) m j,
  )
]

module _ (rt : Runtime) where
  apply_patch_ne :
      (id : ℕ) (input : PieceMetadataPatch) (pieces viewer_pieces : List PieceVm)
      (m : IdMap PieceVm) (j : ℕ)
      → (j == id) ≡ false
      → apply_patch rt id input pieces viewer_pieces m j ≡ m j
  unfolding apply_patch
  apply_patch_ne id input pieces viewer_pieces m j other =
      elim (Option-cases (current_piece id pieces viewer_pieces m)) [
        | inl missing ↦ rw (missing, apply_patch)
        | inr (current, found) ↦ rw (found, apply_patch) (rw other)
      ]

  bulk_round_ne :
      (input : BulkMetadataEdit) (known : List PieceVm) (id : ℕ) (m : IdMap PieceVm) (j : ℕ)
      → (j == id) ≡ false
      → bulk_round rt input known id m j ≡ m j
  unfolding bulk_round
  bulk_round_ne input known id m j other =
      elim (Option-cases (first_some (m id) (last_by_id (λ p. p.id) known id))) [
        | inl missing ↦ rw (missing, bulk_round)
        | inr (current, found) ↦ rw (found, bulk_round) (rw other)
      ]

  apply_bulk_ne :
      (input : BulkMetadataEdit) (known : List PieceVm) (ids : List ℕ) (m : IdMap PieceVm) (j : ℕ)
      → elem j ids ≡ false
      → apply_bulk rt input known ids m j ≡ m j
  unfolding apply_bulk
  apply_bulk_ne input known [] m j out = refl
  apply_bulk_ne input known (id ∷ ids) m j out =
      apply_bulk_ne input known ids (bulk_round rt input known id m) j (ground arith)
      ∙ bulk_round_ne input known id m j (ground arith)

  begin_edit_ne :
      (s : EditState) (id : ℕ) (input : PieceMetadataPatch) (pieces viewer_pieces : List PieceVm)
      (j : ℕ)
      → (j == id) ≡ false
      → (begin_edit rt id input pieces viewer_pieces s).overrides j ≡ s.overrides j
  unfolding begin_edit
  begin_edit_ne s id input pieces viewer_pieces j other =
      elim (Bool-cases (is_nil (patch_fields input))) [
        | inl nothing ↦ rw (nothing, begin_edit)
        | inr something ↦
            rw (something, begin_edit)
              (apply_patch_ne id input pieces viewer_pieces s.overrides j other)
      ]

  begin_bulk_edit_ne :
      (s : EditState) (input : BulkMetadataEdit) (pieces viewer_pieces : List PieceVm) (j : ℕ)
      → elem j (bulk_ids input) ≡ false
      → (begin_bulk_edit rt input pieces viewer_pieces s).overrides j ≡ s.overrides j
  unfolding begin_bulk_edit
  begin_bulk_edit_ne s input pieces viewer_pieces j out =
      elim (Bool-cases (is_nil (bulk_ids input))) [
        | inl nobody ↦ rw (nobody, begin_bulk_edit)
        | inr somebody ↦ elim (Bool-cases (is_nil (bulk_fields input))) [
          | inl nothing ↦ rw (somebody, begin_bulk_edit) (rw (nothing, begin_bulk_edit))
          | inr something ↦
              rw (somebody, begin_bulk_edit)
                (rw (something, begin_bulk_edit)
                  (apply_bulk_ne input (pieces ++ viewer_pieces) (bulk_ids input) s.overrides j
                    out))
        ]
      ]

  edit_restored :
      (s : EditState) (id : ℕ) (input : PieceMetadataPatch) (pieces viewer_pieces : List PieceVm)
      (j : ℕ)
      → restore id (s.overrides id) (begin_edit rt id input pieces viewer_pieces s).overrides j
        ≡ s.overrides j
  edit_restored s id input pieces viewer_pieces j =
      restore_lem id (s.overrides id) _ j ∙ elim (Bool-cases (j == id)) [
        | inl same ↦ let eq : j ≡ id = ground arith in rw (same, eq)
        | inr other ↦ rw other (begin_edit_ne s id input pieces viewer_pieces j other)
      ]

  bulk_restored :
      (s : EditState) (input : BulkMetadataEdit) (pieces viewer_pieces : List PieceVm) (j : ℕ)
      → restore_all s.overrides
          (bulk_ids input)
          (begin_bulk_edit rt input pieces viewer_pieces s).overrides
          j
        ≡ s.overrides j
  bulk_restored s input pieces viewer_pieces j =
      restore_all_lem s.overrides (bulk_ids input) _ j
      ∙ elim (Bool-cases (elem j (bulk_ids input))) [
        | inl named ↦ rw named
        | inr other ↦ rw other (begin_bulk_edit_ne s input pieces viewer_pieces j other)
      ]

  -- An edit that is begun and then rejected, with the overrides at its beginning as the last render
  -- and nothing in between, leaves every override as it was, and answers false.
  pub edit_rolled_back :
      (s : EditState) (id toast_id : ℕ) (input : PieceMetadataPatch)
      (pieces viewer_pieces : List PieceVm) (err : Thrown)
      → let t =
          settle_edit rt id toast_id
            (s.overrides id)
            (rejected err)
            (begin_edit rt id input pieces viewer_pieces s) in
        ((j : ℕ) → t.0.overrides j ≡ s.overrides j) × (t.1 ≡ false)
  unfolding settle_edit
  edit_rolled_back s id toast_id input pieces viewer_pieces err =
      (edit_restored s id input pieces viewer_pieces, refl)

  -- A bulk edit that is begun and then rejected, with the overrides at its beginning as the last
  -- render and nothing in between, leaves every override as it was, of the ids that it names and
  -- of all others, and answers false.
  pub bulk_edit_rolled_back :
      (s : EditState) (toast_id : ℕ) (input : BulkMetadataEdit)
      (pieces viewer_pieces : List PieceVm) (err : Thrown)
      → let t =
          settle_bulk_edit rt
            (bulk_ids input)
            toast_id
            s.overrides
            (rejected err)
            (begin_bulk_edit rt input pieces viewer_pieces s) in
        ((j : ℕ) → t.0.overrides j ≡ s.overrides j) × (t.1 ≡ false)
  unfolding settle_bulk_edit
  bulk_edit_rolled_back s toast_id input pieces viewer_pieces err =
      (bulk_restored s input pieces viewer_pieces, refl)
