-- ===== src/Folios/Picker.antt =====
-- dashboard/src/folio/FolioDetail.tsx: `AddPiecesPicker`, which searches the catalog and adds the
-- pieces chosen in it to a folio.
use ok_folio.Prelude.{
  ℕ, List, [], ◌∷◌, ◌++◌, Option, none, some, Bool, true, false, ◌||◌, ◌==◌, is_nil, length,
  or_else, if◌then◌else◌,
}
use ok_folio.Prelude.Text.{Text, codes, trim}
use ok_folio.Actions.{Outcome}
use ok_folio.Folios.Selection.{toggle_id}

-- `timer` is what the pending timeout of the search sets, if one is pending.
pub record Picker : Type 0 where
  pub selected : List ℕ
  pub adding : Bool
  pub search : Text
  pub query : Text
  pub timer : Option Text

-- The picker when it opens, with the effect of its first render.
unfoldable pub open_picker : Picker
unfolding trim
open_picker = record {
  selected = [];
  adding = false;
  search = [];
  query = [];
  timer = some (trim []);
}

-- `setSearch`, with the effect that follows: the pending timeout is replaced.
unfoldable pub set_search : Text → Picker → Picker
set_search search s = record s { search = search; timer = some (trim search) }

unfoldable pub fire_search : Picker → Picker
fire_search s = record s { query = or_else s.timer s.query; timer = none }

unfoldable pub toggle : ℕ → Picker → Picker
unfolding toggle_id
toggle photo_id s = if s.adding then s else record s { selected = toggle_id photo_id s.selected }

-- The synchronous part of `addSelected`, with the ids handed to `addPiecesToFolioAction`, if any.
unfoldable pub begin_add : Picker → Picker × Option (List ℕ)
begin_add s =
    if s.adding || is_nil s.selected
    then (s, none)
    else (record s { adding = true }, some s.selected)

-- What follows the answer; the picker closes exactly where the answer is true.
unfoldable pub end_add : Outcome Bool → Picker → Picker
end_add answer s = record s { adding = false }

-- The filter of the catalog query: `query ? { query } : {}`
abbrev pub catalog_query : Picker → Option Text
catalog_query s = if is_nil s.query then none else some s.query

abbrev pub confirm_label : (ℕ → Text) → Picker → Text
confirm_label locale s =
    if s.adding
    then codes "Adding..."
    else if is_nil s.selected
    then codes "Add pieces"
    else codes "Add "
      ++ (locale (length s.selected)
          ++ (b' ' ∷ (if length s.selected == 1 then codes "piece" else codes "pieces")))
