-- ===== src/Pieces.antt =====
-- dashboard/src/folio/context.tsx: `PieceVM`, `mapPhoto`, `pieceStub` and the overlay of local edits
-- on catalog rows; dashboard/src/api.ts: the image URLs.
pub mod Overlay
mod Tests
use ok_folio.Prelude.{
  ℕ, List, [], ◌∷◌, ◌++◌, Option, none, some, Bool, true, false, ◌==◌, ◌||◌, not, filter, map,
  is_nil, if◌then◌else◌, or_else, IdMap,
}
use ok_folio.Prelude.Text.{Text, codes, trim}
use ok_folio.Prelude.Decimal.{decimal}
use ok_folio.Types.{Photo}
use ok_folio.Actions.{or_text}
use ok_folio.Format.{Runtime, dash, clean_title, format_bytes, host_from, camera_label}
use ok_folio.Format.Dates.{relative_added, absolute_added, format_metadata_date, editor_date_value}

pub record PieceVm : Type 0 where
  pub id : ℕ
  pub t : Text
  pub a : Text
  pub y : Text
  pub edit_date : Text
  pub src : Text
  pub med : Text
  pub kind : Text
  pub note : Text
  pub keywords : List Text
  pub folio : Text
  pub img : Text
  pub thumb : Text
  pub fav : Bool
  pub file : Text
  pub size : Text
  pub dim : Text
  pub captured : Text
  pub camera : Text
  pub lens : Text
  pub added : Text
  pub added_exact : Text
  pub edited_fields : List Text

abbrev pub api_base : Text
api_base = codes "/api/v1"

-- A width of 0 is falsy, like one left out.
unfoldable pub get_photo_thumbnail_url : ℕ → Option ℕ → Text
unfolding decimal
get_photo_thumbnail_url id width =
    let base = api_base ++ (codes "/photos/" ++ (decimal id ++ codes "/thumbnail")) in
    let w = or_else width 0 in if w == 0 then base else base ++ (codes "?w=" ++ decimal w)

unfoldable pub get_photo_image_url : ℕ → Text
unfolding decimal
get_photo_image_url id = api_base ++ (codes "/photos/" ++ (decimal id ++ codes "/image"))

abbrev pub unknown : Text
unknown = codes "Unknown"

-- `.map((s) => s.trim()).filter(Boolean)`
abbrev pub trim_all : List Text → List Text
trim_all l = filter (λ s. not (is_nil s)) (map trim l)

-- Fields of the API are present and of their declared types.
unfoldable pub map_photo : Runtime → Photo → PieceVm
map_photo rt p = record {
  id = p.id;
  t = clean_title p.title;
  a = or_text (trim p.artist) unknown;
  y = [];
  edit_date = editor_date_value rt (if is_nil p.upload_date then none else some p.upload_date);
  src = or_text (or_text (host_from rt p.source_page) p.source_page) dash;
  med = [];
  kind = [];
  note = trim p.notes;
  keywords = trim_all p.keywords;
  folio = [];
  img = get_photo_image_url p.id;
  thumb = get_photo_thumbnail_url p.id (some 400);
  fav = p.favorite;
  file = or_text p.file_name dash;
  size = format_bytes p.file_size;
  dim =
      if p.image_width == 0 || p.image_height == 0
      then []
      else decimal p.image_width ++ (codes " x " ++ decimal p.image_height);
  captured = format_metadata_date rt p.captured_at;
  camera = camera_label rt p.camera_make p.camera_model;
  lens = trim p.lens_model;
  added = relative_added rt p.downloaded_at;
  added_exact = absolute_added rt p.downloaded_at;
  edited_fields = trim_all p.manual_fields;
}

pub record StubOptions : Type 0 where
  pub title : Option Text
  pub artist : Option Text
  pub thumb : Option Text

unfoldable pub piece_stub : ℕ → StubOptions → PieceVm
piece_stub id opts = record {
  id = id;
  t = trim (or_else opts.title []);
  a = or_text (trim (or_else opts.artist [])) unknown;
  y = [];
  edit_date = [];
  src = dash;
  med = [];
  kind = [];
  note = [];
  keywords = [];
  folio = [];
  img = get_photo_image_url id;
  thumb = or_else opts.thumb (get_photo_thumbnail_url id (some 400));
  fav = false;
  file = dash;
  size = dash;
  dim = [];
  captured = [];
  camera = [];
  lens = [];
  added = dash;
  added_exact = [];
  edited_fields = [];
}

-- `overlayPiece`. An override is `Partial<PieceVM>` in the source; every one that the provider stores
-- is a copy of a whole piece (`{ ...current }` or `mapPhoto(photo)`), so spreading it replaces all.
unfoldable pub overlay_piece : IdMap PieceVm → IdMap Bool → PieceVm → PieceVm
overlay_piece metadata_overrides fav_override piece =
    let with_metadata = or_else (metadata_overrides piece.id) piece in
    elim (fav_override with_metadata.id) [
      | none ↦ with_metadata
      | some fav ↦ record with_metadata { fav = fav }
    ]
