-- ===== src/AddPiece/Tests.antt =====
-- Tests of the upload form.
use ok_folio.Prelude.{List, [], ◌∷◌, some, true, false, All, ◌≡◌, refl}
use ok_folio.Prelude.Text.{Text, codes, text_eq}
use ok_folio.Types.{UploadFile}
use ok_folio.Format.Samples.{ascii_lower}
use ok_folio.AddPiece.{
  blank_form, is_accepted_image, stage_file, handle_add, ends_with, piece_input,
}
use ok_folio.AddPiece.Accepted.{
  AddEvent, opened, staged, added, title_typed, IsImage, uploads, uploads-IsImage, step,
}

abbrev named : Text → Text → UploadFile
named name type = record { name = name; type = type }

by_extension : is_accepted_image ascii_lower (named (codes "A.JPEG") []) ≡ true
unfolding is_accepted_image ends_with text_eq
by_extension = refl

no_image : is_accepted_image ascii_lower (named (codes "jpg") (codes "text/plain")) ≡ false
unfolding is_accepted_image ends_with text_eq
no_image = refl

abbrev events : List AddEvent
events =
    opened
    ∷ added
    ∷ staged (some (named (codes "a.tif") []))
    ∷ title_typed (codes "Dawn")
    ∷ added
    ∷ added
    ∷ []

uploads-IsImage_example : All (IsImage ascii_lower) (uploads ascii_lower events blank_form)
uploads-IsImage_example = uploads-IsImage ascii_lower events

-- The second click finds the form reset.
uploaded_once :
    uploads ascii_lower events blank_form
    ≡ piece_input (named (codes "a.tif") []) (record blank_form { title = codes "Dawn" }) ∷ []
unfolding uploads step handle_add stage_file is_accepted_image ends_with text_eq
uploaded_once = refl
