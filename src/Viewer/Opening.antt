-- ===== src/Viewer/Opening.antt =====
-- dashboard/src/folio/context.tsx, `openPiece`.
use ok_folio.Prelude.{
  ℕ, List, [], ◌∷◌, some, Bool, false, ◌||◌, find?, is_nil, map, if◌then◌else◌, ◌≡◌, ◌≢◌, refl,
  ◌==◌, ◌∙◌, ap, arith, elem, Distinct, Bool-cases, inl, inr, IdMap,
}
use ok_folio.Pieces.{PieceVm, overlay_piece}
use ok_folio.Pieces.Overlay.{IsFiled, id-overlay_piece}
use ok_folio.Viewer.{
  Viewer, has_id, place_piece, open_piece, active_viewer_pieces, selected, is_transient,
}
use ok_folio.Viewer.Lookup.{piece_ids}

-- `place_piece` by one pass: replace the first piece with the id, or append.
place_from : ℕ → PieceVm → List PieceVm → List PieceVm
place_from id p [] = p ∷ []
place_from id p (q ∷ l) = if has_id id q then p ∷ l else q ∷ place_from id p l

place_piece_lem : (id : ℕ) (p : PieceVm) (l : List PieceVm) → place_piece id p l ≡ place_from id p l
unfolding place_piece place_from
place_piece_lem id p [] = refl
place_piece_lem id p (q ∷ l) = ground (arith, place_piece_lem id p l)

place_from-cons : (id : ℕ) (p : PieceVm) (l : List PieceVm) → is_nil (place_from id p l) ≡ false
unfolding place_from
place_from-cons id p [] = refl
place_from-cons id p (q ∷ l) = ground arith

find-place_from :
    (id : ℕ) (p : PieceVm) (l : List PieceVm)
    → p.id ≡ id
    → find? (has_id id) (place_from id p l) ≡ some p
unfolding place_from
find-place_from id p [] h = ground arith
find-place_from id p (q ∷ l) h = ground (arith, find-place_from id p l)

elem-place_from :
    (id : ℕ) (p : PieceVm) (a : ℕ) (l : List PieceVm)
    → p.id ≡ id
    → a ≢ id
    → elem a (piece_ids (place_from id p l)) ≡ elem a (piece_ids l)
unfolding place_from
elem-place_from id p a [] h ne = ground arith
elem-place_from id p a (q ∷ l) h ne = ground (arith, elem-place_from id p a l)

Distinct-place_from :
    (id : ℕ) (p : PieceVm) (l : List PieceVm)
    → p.id ≡ id
    → Distinct (piece_ids l)
    → Distinct (piece_ids (place_from id p l))
unfolding place_from
Distinct-place_from id p [] h d = (refl, tt)
Distinct-place_from id p (q ∷ l) h (new, d) = elim (Bool-cases (has_id id q)) [
  | inl same ↦ let eq : p.id ≡ q.id = ground arith in rw same (rw eq new, d)
  | inr other ↦
      rw other
        (elem-place_from id p q.id l h (λ e. ground arith) ∙ new, Distinct-place_from id p l h d)
]

-- The piece with an id, in a list whose rows are shown with the local edits.
find-overlay :
    (id : ℕ) (m : IdMap PieceVm) (f : IdMap Bool) (l : List PieceVm) (p : PieceVm)
    → IsFiled m
    → find? (has_id id) l ≡ some p
    → find? (has_id id) (map (overlay_piece m f) l) ≡ some (overlay_piece m f p)
find-overlay id m f [] p filed found = ground arith
find-overlay id m f (q ∷ l) p filed found =
    let kept : has_id id (overlay_piece m f q) ≡ has_id id q =
      ap (λ i. i == id) (id-overlay_piece m f q filed) in
    elim (Bool-cases (has_id id q)) [
      | inl same ↦
          let eq : q ≡ p = ground arith in rw (kept, same) (ap (λ r. some (overlay_piece m f r)) eq)
      | inr other ↦ rw (kept, other) (find-overlay id m f l p filed (ground arith))
    ]

-- The viewer's own list, which is not empty after an opening, has the piece.
opened_list :
    (id : ℕ) (p : PieceVm) (v : Viewer)
    → p.id ≡ id
    → Distinct (piece_ids v.viewer_pieces)
    → let v' = open_piece id (some p) v in
      Distinct (piece_ids v'.viewer_pieces)
      × (is_nil v'.viewer_pieces ≡ false)
      × (find? (has_id id) v'.viewer_pieces ≡ some p)
      × (v'.selected_id ≡ some id)
unfolding open_piece
opened_list id p v h d = elim (Bool-cases (is_transient v.source || is_nil v.viewer_pieces)) [
  | inl alone ↦ rw alone ((refl, tt), refl, ground arith, refl)
  | inr among ↦
      rw (among, place_piece_lem id p v.viewer_pieces)
        (
          Distinct-place_from id p v.viewer_pieces h d,
          place_from-cons id p v.viewer_pieces,
          find-place_from id p v.viewer_pieces h,
          refl,
        )
]

-- Opening a piece under its own id keeps the ids of the viewer's pieces distinct, and the piece
-- selected is then the one opened, with the local edits and favourites over the fields that were
-- passed in, provided every edit is filed under the id of its piece.
pub open_piece_selects :
    (id : ℕ) (p : PieceVm) (m : IdMap PieceVm) (f : IdMap Bool) (pieces : List PieceVm) (v : Viewer)
    → p.id ≡ id
    → Distinct (piece_ids v.viewer_pieces)
    → IsFiled m
    → let v' = open_piece id (some p) v in
      Distinct (piece_ids v'.viewer_pieces)
      × (selected (active_viewer_pieces m f pieces v') v' ≡ some (overlay_piece m f p))
unfolding active_viewer_pieces selected
open_piece_selects id p m f pieces v h d filed =
    let (distinct, nonempty, found, chosen) = opened_list id p v h d in
    (distinct, rw (nonempty, chosen) (find-overlay id m f _ p filed found))
