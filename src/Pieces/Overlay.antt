-- ===== src/Pieces/Overlay.antt =====
-- dashboard/src/folio/context.tsx: what the overlay of local edits shows, and what every piece of the
-- catalog has.
use ok_folio.Prelude.{inl, inr, Option-cases, ℕ, some, Bool, ◌≡◌, IdMap, or_else, arith}
use ok_folio.Pieces.{PieceVm, overlay_piece}

-- Every override is filed under the id of the piece that it holds.
abbrev pub IsFiled : IdMap PieceVm → Type 0
IsFiled m = (i : ℕ) (p : PieceVm) → m i ≡ some p → p.id ≡ i

pub id-overlay_piece :
    (m : IdMap PieceVm) (f : IdMap Bool) (p : PieceVm) → IsFiled m → (overlay_piece m f p).id ≡ p.id
unfolding overlay_piece
id-overlay_piece m f p h = elim (Option-cases (m p.id)) [
  | inl e ↦ ground arith
  | inr (q, e) ↦ ground (arith, h p.id q e)
]

fav-overlay_piece :
    (m : IdMap PieceVm) (f : IdMap Bool) (p : PieceVm)
    → IsFiled m
    → (overlay_piece m f p).fav ≡ or_else (f p.id) (or_else (m p.id) p).fav
unfolding overlay_piece
fav-overlay_piece m f p h = elim (Option-cases (m p.id)) [
  | inl e ↦ ground arith
  | inr (q, e) ↦ ground (arith, h p.id q e)
]

-- If every override is filed under the id of its piece, a piece shown with the overlay keeps its id,
-- and is shown as a favourite by the toggled value if there is one, else by the override, else by the
-- catalog row.
pub overlay_piece_lem :
    (m : IdMap PieceVm) (f : IdMap Bool) (p : PieceVm)
    → IsFiled m
    → ((overlay_piece m f p).id ≡ p.id)
      × ((overlay_piece m f p).fav ≡ or_else (f p.id) (or_else (m p.id) p).fav)
overlay_piece_lem m f p h = (id-overlay_piece m f p h, fav-overlay_piece m f p h)
