-- ===== src/AddPiece/Accepted.antt =====
-- dashboard/src/folio/AddPieceModal.tsx: every run of the form, and what it uploads.
use ok_folio.Prelude.{List, [], ◌∷◌, Option, none, some, true, All, ◌≡◌, Bool-cases, inl, inr}
use ok_folio.Prelude.Text.{Text}
use ok_folio.Types.{UploadFile, CreatePieceInput}
use ok_folio.AddPiece.{
  AddForm, SourceMode, blank_form, is_accepted_image, stage_file, add_file, handle_add,
  reset_and_close,
}

-- What is typed, chosen, dropped or clicked.
pub data AddEvent : Type 0 where
  opened added cancelled : AddEvent
  mode_chosen : SourceMode → AddEvent
  staged : Option UploadFile → AddEvent
  title_typed source_typed artist_typed date_typed notes_typed : Text → AddEvent

module _ (lower : Text → Text) where
  unfoldable pub step : AddEvent → AddForm → AddForm × Option CreatePieceInput
  step opened s = (record s { add_open = true }, none)
  step added s = handle_add s
  step cancelled s = (reset_and_close s, none)
  step (mode_chosen mode) s = (record s { source_mode = mode }, none)
  step (staged file) s = (stage_file lower file s, none)
  step (title_typed v) s = (record s { title = v }, none)
  step (source_typed v) s = (record s { source = v }, none)
  step (artist_typed v) s = (record s { artist = v }, none)
  step (date_typed v) s = (record s { date = v }, none)
  step (notes_typed v) s = (record s { notes = v }, none)

  abbrev with_input : Option CreatePieceInput → List CreatePieceInput → List CreatePieceInput
  with_input none l = l
  with_input (some input) l = input ∷ l

  -- What a run hands to `importPiece`, in its order.
  unfoldable pub uploads : List AddEvent → AddForm → List CreatePieceInput
  uploads [] s = []
  uploads (e ∷ events) s = with_input (step e s).1 (uploads events (step e s).0)

  -- The file staged, if any, is an accepted image.
  abbrev IsStaged : Option UploadFile → Type 0
  IsStaged none = Unit
  IsStaged (some file) = is_accepted_image lower file ≡ true

  abbrev pub IsImage : CreatePieceInput → Type 0
  IsImage input = is_accepted_image lower input.file ≡ true

  abbrev IsChecked : AddForm × Option CreatePieceInput → Type 0
  IsChecked (s, none) = IsStaged s.file
  IsChecked (s, some input) = IsStaged s.file × IsImage input

  stage_file-IsStaged :
      (file : Option UploadFile) (s : AddForm)
      → IsStaged s.file
      → IsStaged (stage_file lower file s).file
  unfolding stage_file
  stage_file-IsStaged none s h = h
  stage_file-IsStaged (some file) s h = elim (Bool-cases (is_accepted_image lower file)) [
    | inl image ↦ rw image image
    | inr other ↦ rw other tt
  ]

  add_file-IsChecked :
      (file : Option UploadFile) (s : AddForm)
      → IsStaged file
      → IsStaged s.file
      → IsChecked (add_file file s)
  unfolding reset_and_close
  add_file-IsChecked none s h k = k
  add_file-IsChecked (some file) s h k = (tt, h)

  step-IsChecked : (e : AddEvent) (s : AddForm) → IsStaged s.file → IsChecked (step e s)
  unfolding step handle_add reset_and_close
  step-IsChecked opened s h = h
  step-IsChecked added s h = add_file-IsChecked s.file s h h
  step-IsChecked cancelled s h = tt
  step-IsChecked (mode_chosen mode) s h = h
  step-IsChecked (staged file) s h = stage_file-IsStaged file s h
  step-IsChecked (title_typed v) s h = h
  step-IsChecked (source_typed v) s h = h
  step-IsChecked (artist_typed v) s h = h
  step-IsChecked (date_typed v) s h = h
  step-IsChecked (notes_typed v) s h = h

  then_checked :
      (t : AddForm × Option CreatePieceInput) (l : List CreatePieceInput)
      → IsChecked t
      → (IsStaged t.0.file → All IsImage l)
      → All IsImage (with_input t.1 l)
  then_checked (s, none) l h further = further h
  then_checked (s, some input) l (h, image) further = (image, further h)

  staged_uploads :
      (events : List AddEvent) (s : AddForm) → IsStaged s.file → All IsImage (uploads events s)
  unfolding uploads
  staged_uploads [] s h = tt
  staged_uploads (e ∷ events) s h =
      then_checked (step e s) _ (step-IsChecked e s h) (staged_uploads events (step e s).0)

  -- Whatever is typed, chosen, dropped and clicked on the form, each file that it hands over to be
  -- uploaded is an accepted image.
  pub uploads-IsImage : (events : List AddEvent) → All IsImage (uploads events blank_form)
  uploads-IsImage events = staged_uploads events blank_form tt
