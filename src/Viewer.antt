-- ===== src/Viewer.antt =====
-- dashboard/src/folio/context.tsx: the piece viewer's state (`selectedId`, `viewerPieces`,
-- `viewerPiecesSourceRef`) and its operations. `none` is a thrown TypeError (`activePieces[n].id`
-- outside the array).
pub mod Lookup
pub mod Stepping
pub mod Opening
mod Tests
use ok_folio.Prelude.{
  ℕ, ◌+◌, List, [], ◌∷◌, ◌++◌, Option, none, some, Bool, true, false, ◌==◌, ◌||◌, find?,
  find_index?, get_elem?, is_nil, length, map, set, if◌then◌else◌, IdMap,
}
use ok_folio.Prelude.Text.{Text, trim, text_eq}
use ok_folio.Prelude.Int.{ℤ, pos, negsuc, ◌+ℤ◌, rem}
use ok_folio.Pieces.{PieceVm, overlay_piece, unknown}

pub data ViewerPiecesSource : Type 0 where
  explicit transient no_source : ViewerPiecesSource

pub record Viewer : Type 0 where
  pub selected_id : Option ℕ
  pub viewer_pieces : List PieceVm
  pub source : ViewerPiecesSource

abbrev pub has_id : ℕ → PieceVm → Bool
has_id id p = p.id == id

abbrev pub is_transient : ViewerPiecesSource → Bool
is_transient transient = true
is_transient _ = false

-- The updater of `openPiece`, for a list that a caller has set.
unfoldable pub place_piece : ℕ → PieceVm → List PieceVm → List PieceVm
place_piece id piece current = elim (find_index? (has_id id) current) [
  | some existing_index ↦ set current existing_index piece
  | none ↦ current ++ piece ∷ []
]

unfoldable pub open_piece : ℕ → Option PieceVm → Viewer → Viewer
unfolding place_piece
open_piece id (some piece) v =
    if is_transient v.source || is_nil v.viewer_pieces
    then record { selected_id = some id; viewer_pieces = piece ∷ []; source = transient }
    else record v { selected_id = some id; viewer_pieces = place_piece id piece v.viewer_pieces }
open_piece id none v =
    if is_transient v.source
    then record { selected_id = some id; viewer_pieces = []; source = no_source }
    else record v { selected_id = some id }

-- `closePiece`, and the effect of a change of `location.pathname`.
unfoldable pub close_piece : Viewer → Viewer
close_piece v = record v { selected_id = none }

unfoldable pub set_viewer_pieces : List PieceVm → Viewer → Viewer
set_viewer_pieces next_pieces v = record v {
  viewer_pieces = next_pieces;
  source = if is_nil next_pieces then no_source else explicit;
}

-- `viewerPieces.length > 0 ? viewerPieces : pieces`
abbrev pub active_pieces : List PieceVm → Viewer → List PieceVm
active_pieces pieces v = if is_nil v.viewer_pieces then pieces else v.viewer_pieces

-- `(i + dir + activePieces.length) % activePieces.length`
unfoldable pub step_index : ℕ → ℤ → ℕ → ℤ
step_index i dir n = rem (pos i +ℤ dir +ℤ pos n) n

-- `activePieces[n].id`
abbrev pub id_at : List PieceVm → ℤ → Option ℕ
id_at l (pos n) = elim (get_elem? l n) [ none ↦ none | some p ↦ some p.id ]
id_at l (negsuc n) = none

-- The updater of `stepPiece`.
unfoldable pub step_selected : List PieceVm → ℤ → ℕ → Option ℕ
step_selected active dir cur = elim (find_index? (has_id cur) active) [
  | none ↦ some cur
  | some i ↦ id_at active (step_index i dir (length active))
]

unfoldable pub step_piece : List PieceVm → ℤ → Viewer → Option Viewer
step_piece pieces dir v = elim v.selected_id [
  | none ↦ some v
  | some cur ↦ elim (step_selected (active_pieces pieces v) dir cur) [
    | none ↦ none
    | some id ↦ some (record v { selected_id = some id })
  ]
]

-- `activeViewerPieces`, with the overlay of local edits.
unfoldable pub active_viewer_pieces :
    IdMap PieceVm → IdMap Bool → List PieceVm → Viewer → List PieceVm
active_viewer_pieces overrides favs pieces v =
    if is_nil v.viewer_pieces then pieces else map (overlay_piece overrides favs) v.viewer_pieces

unfoldable pub selected : List PieceVm → Viewer → Option PieceVm
selected active v = elim v.selected_id [ none ↦ none | some id ↦ find? (has_id id) active ]

-- `selIndex`, with `none` for -1.
unfoldable pub sel_index : List PieceVm → Viewer → Option ℕ
sel_index active v = elim v.selected_id [ none ↦ none | some id ↦ find_index? (has_id id) active ]

-- `filterByArtist`: the new artist filter, if any, and the viewer; a navigation to "/" goes with it.
unfoldable pub filter_by_artist : Text → Text → Viewer → Text × Viewer × Bool
unfolding close_piece
filter_by_artist name artist v =
    let next = trim name in
    if is_nil next || text_eq next unknown then (artist, v, false) else (next, close_piece v, true)
