-- ===== src/Editing.antt =====
-- dashboard/src/folio/PieceViewer.tsx: the form that edits the piece on view. `lower` is
-- `toLowerCase`.
pub mod Drafted
pub mod Filed
pub mod Saved
pub mod Panel
pub mod Chrome
pub mod Armed
pub mod BulkBar
mod Tests
use ok_folio.Prelude.{
  ℕ, List, [], ◌∷◌, ◌++◌, Option, none, some, Bool, true, false, ◌||◌, not, filter, is_nil,
  if◌then◌else◌,
}
use ok_folio.Prelude.Text.{Text, codes, trim, text_eq}
use ok_folio.Keywords.{normalize_draft_keywords, same_keywords}
use ok_folio.Pieces.{PieceVm, unknown}
use ok_folio.Metadata.{PieceMetadataPatch, patch_fields}

pub record EditDraft : Type 0 where
  pub title : Text
  pub artist : Text
  pub date : Text
  pub keywords : List Text
  pub note : Text

pub record EditorState : Type 0 where
  pub editing : Bool
  pub saving_edit : Bool
  pub keyword_draft : Text
  pub edit_draft : EditDraft

-- The draft that shows the piece, set by `startEditing` and, out of editing, by an effect.
unfoldable pub piece_draft : PieceVm → EditDraft
piece_draft selected = record {
  title = selected.t;
  artist = if text_eq selected.a unknown then [] else selected.a;
  date = selected.edit_date;
  keywords = selected.keywords;
  note = selected.note;
}

unfoldable pub start_editing : Option PieceVm → EditorState → EditorState
unfolding piece_draft
start_editing none s = s
start_editing (some selected) s =
    if s.editing
    then s
    else record s { edit_draft = piece_draft selected; keyword_draft = []; editing = true }

unfoldable pub cancel_editing : EditorState → EditorState
cancel_editing s = record s { editing = false; keyword_draft = [] }

-- What the effect on the piece's id and the panel's mode resets of the form.
unfoldable pub leave_piece : EditorState → EditorState
leave_piece s = record s { editing = false; saving_edit = false; keyword_draft = [] }

-- The effect that keeps the draft of a closed form equal to the piece.
unfoldable pub follow_piece : PieceVm → EditorState → EditorState
unfolding piece_draft
follow_piece selected s = if s.editing then s else record s { edit_draft = piece_draft selected }

-- The button of a keyword: `draft.keywords.filter((item) => item !== keyword)`.
unfoldable pub remove_keyword : Text → EditDraft → EditDraft
remove_keyword keyword draft = record draft {
  keywords = filter (λ item. not (text_eq item keyword)) draft.keywords;
}

abbrev pub given : Bool → Text → Option Text
given true value = some value
given false value = none

module _ (lower : Text → Text) where
  -- `draft.keywords.some((keyword) => keyword.toLowerCase() === value.toLowerCase())`
  abbrev has_keyword : Text → List Text → Bool
  has_keyword value [] = false
  has_keyword value (keyword ∷ l) = text_eq (lower keyword) (lower value) || has_keyword value l

  unfoldable pub add_keyword : EditorState → EditorState
  add_keyword s =
      let value = trim s.keyword_draft in
      if is_nil value then s else record s {
        edit_draft =
            if has_keyword value s.edit_draft.keywords
            then s.edit_draft
            else record s.edit_draft { keywords = s.edit_draft.keywords ++ value ∷ [] };
        keyword_draft = [];
      }

  -- The patch that `saveEdit` builds; an absent field is `none`, a null date `some none`.
  unfoldable pub draft_patch : PieceVm → EditDraft → PieceMetadataPatch
  draft_patch selected draft =
      let next_title = trim draft.title in
      let next_artist = trim draft.artist in
      let current_artist = if text_eq selected.a unknown then [] else trim selected.a in
      let next_date = trim draft.date in
      let next_keywords = normalize_draft_keywords lower draft.keywords in
      let current_keywords = normalize_draft_keywords lower selected.keywords in
      let next_note = trim draft.note in
      record {
        title = given (not (text_eq next_title (trim selected.t))) next_title;
        artist = given (not (text_eq next_artist current_artist)) next_artist;
        date =
            if not (text_eq next_date selected.edit_date)
            then some (given (not (is_nil next_date)) next_date)
            else none;
        keywords =
            if not (same_keywords next_keywords current_keywords) then some next_keywords else none;
        note = if not (text_eq next_note (trim selected.note)) then some (some next_note) else none;
      }

  -- `saveEdit`, with the patch that it hands to `editPieceMetadata`, if it calls it.
  unfoldable pub save_edit : Option PieceVm → EditorState → EditorState × Option PieceMetadataPatch
  unfolding draft_patch patch_fields
  save_edit none s = (s, none)
  save_edit (some selected) s =
      let patch = draft_patch selected s.edit_draft in
      if s.saving_edit
      then (s, none)
      else if is_nil (patch_fields patch)
      then (record s { editing = false }, none)
      else (record s { saving_edit = true }, some patch)

-- What runs when the promise of `editPieceMetadata` answers `ok`.
unfoldable pub end_save : Bool → EditorState → EditorState
end_save ok s = record s { saving_edit = false; editing = if ok then false else s.editing }
