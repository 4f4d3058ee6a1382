-- ===== src/Viewer/Tests.antt =====
-- Tests of the piece viewer's state in dashboard/src/folio/context.tsx.
use ok_folio.Prelude.{
  ℕ, ◌+◌, ◌-◌, ◌%◌, [], ◌∷◌, none, some, ◌≡◌, refl, get_elem?, Distinct, arith, Bool, true, IdMap,
  put, empty,
}
use ok_folio.Prelude.Text.{codes}
use ok_folio.Pieces.{PieceVm, piece_stub, overlay_piece}
use ok_folio.Pieces.Overlay.{IsFiled}
use ok_folio.Viewer.{
  Viewer, explicit, active_pieces, step_piece, step_selected, step_index, open_piece, selected,
  active_viewer_pieces,
}
use ok_folio.Viewer.Lookup.{piece_ids}
use ok_folio.Viewer.Stepping.{StandsAt, step_moves, step_returns, forward, back, then_step}
use ok_folio.Viewer.Opening.{open_piece_selects}

abbrev piece : ℕ → PieceVm
piece id = piece_stub id (record { title = none; artist = none; thumb = none })

-- The viewer on the last of three pieces.
abbrev viewer : Viewer
viewer = record {
  selected_id = some 9;
  viewer_pieces = piece 4 ∷ piece 7 ∷ piece 9 ∷ [];
  source = explicit;
}

viewer-StandsAt : StandsAt [] viewer 2 (piece 9)
unfolding piece_stub
viewer-StandsAt = record { distinct = (refl, (refl, (refl, tt))); at_i = refl; current = refl }

step_moves_example :
    ((q : PieceVm) × (get_elem? (active_pieces [] viewer) ((2 + 1) % 3) ≡ some q)
      × (step_piece [] forward viewer ≡ some (record viewer { selected_id = some q.id })))
    × ((q : PieceVm) × (get_elem? (active_pieces [] viewer) ((2 + 3 - 1) % 3) ≡ some q)
        × (step_piece [] back viewer ≡ some (record viewer { selected_id = some q.id })))
step_moves_example = step_moves [] viewer 2 (piece 9) viewer-StandsAt

step_returns_example :
    (then_step [] back (step_piece [] forward viewer) ≡ some viewer)
    × (then_step [] forward (step_piece [] back viewer) ≡ some viewer)
step_returns_example = step_returns [] viewer 2 (piece 9) viewer-StandsAt

-- Past the end the viewer shows the first piece.
wraps : step_piece [] forward viewer ≡ some (record viewer { selected_id = some 4 })
unfolding step_piece step_selected step_index piece_stub
wraps = refl

-- The piece that is opened has an edit of its title, and is a favourite.
abbrev edits : IdMap PieceVm
edits =
    put empty 7 (piece_stub 7 (record { title = some (codes "Owl"); artist = none; thumb = none }))

edits-IsFiled : IsFiled edits
unfolding piece_stub
edits-IsFiled i p filed = ground arith

abbrev hearts : IdMap Bool
hearts = put empty 7 true

open_piece_selects_example :
    Distinct (piece_ids (open_piece 7 (some (piece 7)) viewer).viewer_pieces)
    × (selected
          (active_viewer_pieces edits hearts [] (open_piece 7 (some (piece 7)) viewer))
          (open_piece 7 (some (piece 7)) viewer)
        ≡ some (overlay_piece edits hearts (piece 7)))
unfolding piece_stub
open_piece_selects_example =
    open_piece_selects 7 (piece 7) edits hearts [] viewer refl (refl, (refl, (refl, tt)))
      edits-IsFiled
