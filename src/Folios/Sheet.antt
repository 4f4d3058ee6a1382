-- ===== src/Folios/Sheet.antt =====
-- dashboard/src/folio/Folios.tsx: `MobileFolioSheet`, and `MobileDetailMenu` of
-- dashboard/src/folio/FolioDetail.tsx, which share the deletion in two clicks.
pub mod Confirmed
use ok_folio.Prelude.{
  ℕ, List, [], ◌∷◌, Option, none, some, Bool, true, false, ◌||◌, is_nil, if◌then◌else◌,
}
use ok_folio.Prelude.Text.{Text, codes, trim, text_eq}
use ok_folio.Types.{Folio}
use ok_folio.Actions.{Request}
use ok_folio.Actions.Folios.{create_folio, rename_folio, change_folio_cover, delete_folio}

-- `FolioSheetState`
pub data SheetState : Type 0 where
  create : SheetState
  actions rename cover : Folio → SheetState

pub record FolioSheet : Type 0 where
  pub state : SheetState
  pub name : Text
  pub name_error : Text
  pub is_submitting_name : Bool
  pub confirm_delete : Bool

abbrev pub sheet_name : SheetState → Text
sheet_name (rename folio) = folio.name
sheet_name _ = []

-- The sheet when it opens, and after the effect of a change of `state`.
unfoldable pub switch : SheetState → FolioSheet
switch state = record {
  state = state;
  name = sheet_name state;
  name_error = [];
  is_submitting_name = false;
  confirm_delete = false;
}

-- What a handler does besides: the request of the action that it calls, if any, and whether it
-- calls `onClose` at once.
pub record Effect : Type 0 where
  pub request : Option Request
  pub closes : Bool

abbrev pub quiet : Effect
quiet = record { request = none; closes = false }

abbrev pub closing : Effect
closing = record { request = none; closes = true }

-- What `submitName` does about a name that is not blank.
unfoldable pub name_effect : SheetState → Text → Effect
unfolding create_folio rename_folio
name_effect create trimmed = record {
  request = some (create_folio trimmed).request;
  closes = false;
}
name_effect (rename folio) trimmed =
    if text_eq trimmed folio.name
    then closing
    else record { request = some (rename_folio folio.id trimmed).request; closes = false }
name_effect _ trimmed = closing

-- The synchronous part of `submitName`.
unfoldable pub submit_name : FolioSheet → FolioSheet × Effect
unfolding name_effect
submit_name s =
    let trimmed = trim s.name in
    if is_nil trimmed || s.is_submitting_name
    then (s, quiet)
    else (record s { name_error = []; is_submitting_name = true }, name_effect s.state trimmed)

abbrev name_refusal : SheetState → Text
name_refusal create = codes "Folio could not be created. Try again."
name_refusal _ = codes "Folio could not be renamed. Try again."

-- What follows the answer of the action, true if it is done.
unfoldable pub end_submit_name : Bool → FolioSheet → FolioSheet × Effect
end_submit_name true s = (s, closing)
end_submit_name false s =
    (record s { name_error = name_refusal s.state; is_submitting_name = false }, quiet)

abbrev pub delete_from : SheetState → FolioSheet → FolioSheet × Effect
delete_from (actions folio) s =
    if s.confirm_delete
    then (s, record { request = some (delete_folio folio.id).request; closes = true })
    else (record s { confirm_delete = true }, quiet)
delete_from _ s = (s, quiet)

-- A click on the button that deletes the folio, which the sheet has in its mode "actions".
unfoldable pub click_delete : FolioSheet → FolioSheet × Effect
unfolding delete_folio
click_delete s = delete_from s.state s

abbrev pub cover_from : ℕ → SheetState → Effect
cover_from photo_id (cover folio) = record {
  request = some (change_folio_cover folio.id (some photo_id)).request;
  closes = true;
}
cover_from photo_id _ = quiet

-- A click on a piece, which the sheet has in its mode "cover".
unfoldable pub choose_cover : ℕ → FolioSheet → FolioSheet × Effect
unfolding change_folio_cover
choose_cover photo_id s = (s, cover_from photo_id s.state)

pub record DetailMenu : Type 0 where
  pub name : Text
  pub renaming : Bool
  pub confirm_delete : Bool

unfoldable pub submit_rename : Folio → DetailMenu → Effect
unfolding rename_folio
submit_rename folio s =
    let trimmed = trim s.name in
    if is_nil trimmed || text_eq trimmed folio.name
    then closing
    else record { request = some (rename_folio folio.id trimmed).request; closes = true }

-- The menu stays open until the answer.
unfoldable pub click_menu_delete : Folio → DetailMenu → DetailMenu × Effect
unfolding delete_folio
click_menu_delete folio s =
    if s.confirm_delete
    then (s, record { request = some (delete_folio folio.id).request; closes = false })
    else (record s { confirm_delete = true }, quiet)

abbrev pub click_cover : Folio → Option ℕ → Effect
click_cover folio none = quiet
click_cover folio (some first_piece_id) = record {
  request = some (change_folio_cover folio.id (some first_piece_id)).request;
  closes = true;
}
