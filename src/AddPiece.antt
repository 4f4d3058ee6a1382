-- ===== src/AddPiece.antt =====
-- dashboard/src/folio/AddPieceModal.tsx: the form that uploads an image. `lower` is `toLowerCase`;
-- the preview's object URL, which follows the file, and the inputs' own values are the browser's.
pub mod Accepted
mod Tests
use ok_folio.Prelude.{
  ℕ, ◌-◌, List, [], ◌∷◌, Option, none, some, Bool, true, false, ◌||◌, ◌&&◌, leb, drop, length,
  if◌then◌else◌,
}
use ok_folio.Prelude.Text.{Text, codes, text_eq}
use ok_folio.Types.{UploadFile, CreatePieceInput}

abbrev pub accepted_image_types : List Text
accepted_image_types =
    codes "image/jpeg" ∷ codes "image/png" ∷ codes "image/tiff" ∷ codes "image/webp" ∷ []

abbrev pub accepted_image_extensions : List Text
accepted_image_extensions =
    codes ".jpg" ∷ codes ".jpeg" ∷ codes ".png" ∷ codes ".tif" ∷ codes ".tiff" ∷ codes ".webp" ∷ []

-- `set.has(s)`
abbrev pub has_type : Text → List Text → Bool
has_type s [] = false
has_type s (t ∷ l) = text_eq s t || has_type s l

-- `s.endsWith(t)`
unfoldable pub ends_with : Text → Text → Bool
ends_with s t = leb (length t) (length s) && text_eq (drop (length s - length t) s) t

abbrev pub ends_with_some : Text → List Text → Bool
ends_with_some s [] = false
ends_with_some s (t ∷ l) = ends_with s t || ends_with_some s l

unfoldable pub is_accepted_image : (Text → Text) → UploadFile → Bool
unfolding ends_with text_eq
is_accepted_image lower file =
    has_type file.type accepted_image_types
    || ends_with_some (lower file.name) accepted_image_extensions

pub data SourceMode : Type 0 where
  library camera : SourceMode

-- `add_open` is the provider's, which `closeAdd` sets to false.
pub record AddForm : Type 0 where
  pub add_open : Bool
  pub file : Option UploadFile
  pub source_mode : SourceMode
  pub title : Text
  pub source : Text
  pub artist : Text
  pub date : Text
  pub notes : Text
  pub error : Text

abbrev pub blank_form : AddForm
blank_form = record {
  add_open = false;
  file = none;
  source_mode = library;
  title = [];
  source = [];
  artist = [];
  date = [];
  notes = [];
  error = [];
}

unfoldable pub reset_and_close : AddForm → AddForm
reset_and_close s = blank_form

unfoldable pub stage_file : (Text → Text) → Option UploadFile → AddForm → AddForm
unfolding is_accepted_image
stage_file lower none s = s
stage_file lower (some next_file) s =
    if is_accepted_image lower next_file
    then record s { error = []; file = some next_file }
    else record s { error = codes "Choose a JPEG, PNG, TIFF, or WebP image."; file = none }

abbrev pub piece_input : UploadFile → AddForm → CreatePieceInput
piece_input file s = record {
  file = file;
  title = s.title;
  source = s.source;
  artist = s.artist;
  date = s.date;
  notes = s.notes;
}

abbrev pub add_file : Option UploadFile → AddForm → AddForm × Option CreatePieceInput
add_file none s = (record s { error = codes "Choose an image before adding the piece." }, none)
add_file (some file) s = (reset_and_close s, some (piece_input file s))

-- With what is handed to `importPiece`, if anything.
unfoldable pub handle_add : AddForm → AddForm × Option CreatePieceInput
unfolding reset_and_close
handle_add s = add_file s.file s
