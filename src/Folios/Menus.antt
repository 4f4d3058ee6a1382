-- ===== src/Folios/Menus.antt =====
-- dashboard/src/folio/Folios.tsx, `FolioTile`, and dashboard/src/folio/FolioDetail.tsx: the menus and
-- dialogs of a folio on the desktop, with the requests of the actions that they call.
use ok_folio.Prelude.{ℕ, Option, none, some, Bool, true, false, first_some, or_else}
use ok_folio.Types.{Folio}
use ok_folio.Actions.{Request}
use ok_folio.Actions.Folios.{change_folio_cover, delete_folio}

pub data TileMenu : Type 0 where
  actions cover : TileMenu

-- `rename_target` is the screen's, which opens its dialog for a rename.
pub record Tile : Type 0 where
  pub menu_open : Option TileMenu
  pub delete_open : Bool
  pub rename_target : Option Folio

abbrev toggled_menu : Option TileMenu → Option TileMenu
toggled_menu none = some actions
toggled_menu (some menu) = none

unfoldable pub toggle_menu : Tile → Tile
toggle_menu s = record s { menu_open = toggled_menu s.menu_open }

unfoldable pub open_cover_menu : Tile → Tile
open_cover_menu s = record s { menu_open = some cover }

unfoldable pub rename_tile : Folio → Tile → Tile
rename_tile folio s = record s { menu_open = none; rename_target = some folio }

unfoldable pub change_cover : Folio → ℕ → Tile → Tile × Request
unfolding change_folio_cover
change_cover folio photo_id s =
    (record s { menu_open = none }, (change_folio_cover folio.id (some photo_id)).request)

unfoldable pub remove_tile : Tile → Tile
remove_tile s = record s { menu_open = none; delete_open = true }

-- `onConfirm` of the dialog that asks before the deletion.
unfoldable pub confirm_delete : Folio → Tile → Tile × Request
unfolding delete_folio
confirm_delete folio s = (record s { delete_open = false }, (delete_folio folio.id).request)

-- The dialogs of the screen of one folio.
pub record Dialogs : Type 0 where
  pub actions_open : Bool
  pub cover_open : Bool
  pub rename_open : Bool
  pub delete_open : Bool

unfoldable pub on_rename : Dialogs → Dialogs
on_rename s = record s { actions_open = false; rename_open = true }

unfoldable pub on_cover : Dialogs → Dialogs
on_cover s = record s { actions_open = false; cover_open = true }

unfoldable pub on_delete : Dialogs → Dialogs
on_delete s = record s { actions_open = false; delete_open = true }

-- `onConfirm` of its dialog; the screen is left for "/folios" exactly where the answer is true.
unfoldable pub confirm_detail_delete : Folio → Dialogs → Dialogs × Request
unfolding delete_folio
confirm_detail_delete folio s = (record s { delete_open = false }, (delete_folio folio.id).request)

-- The count shown: of the first page, else of the folio, else of the pieces loaded.
unfoldable pub shown_total : Option ℕ → Option Folio → ℕ → ℕ
shown_total first_page folio loaded =
    or_else (first_some first_page (elim folio [ none ↦ none | some f ↦ some f.piece_count ]))
      loaded
