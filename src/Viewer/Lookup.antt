-- ===== src/Viewer/Lookup.antt =====
-- dashboard/src/folio/context.tsx: positions of ids in a list of pieces.
use ok_folio.Prelude.{
  ℕ, zero, suc, ◌<◌, List, [], ◌∷◌, some, true, ◌==◌, find_index?, get_elem?, length, map, ◌≡◌,
  refl, arith, elem, Distinct, Bool-cases, inl, inr,
}
use ok_folio.Pieces.{PieceVm}
use ok_folio.Viewer.{has_id}

abbrev pub piece_ids : List PieceVm → List ℕ
piece_ids = map (λ p. p.id)

-- A found index is in range, and the piece there has the id.
pub find_index_sound :
    (id : ℕ) (l : List PieceVm) (i : ℕ)
    → find_index? (has_id id) l ≡ some i
    → (p : PieceVm) × (get_elem? l i ≡ some p) × (p.id ≡ id) × (i < length l)
find_index_sound id [] i h = absurd (ground arith)
find_index_sound id (q ∷ l) zero h = elim (Bool-cases (q.id == id)) [
  | inl same ↦ (q, refl, ground arith, omega arith)
  | inr other ↦ absurd (ground arith)
]
find_index_sound id (q ∷ l) (suc i) h = elim (Bool-cases (q.id == id)) [
  | inl same ↦ absurd (ground arith)
  | inr other ↦
      let (p, at_i, same_id, lt) = find_index_sound id l i (ground arith) in
      (p, at_i, same_id, omega arith)
]

pub elem_of_get :
    (l : List PieceVm) (i : ℕ) (p : PieceVm)
    → get_elem? l i ≡ some p
    → elem p.id (piece_ids l) ≡ true
elem_of_get [] i p h = ground arith
elem_of_get (q ∷ l) zero p h = ground arith
elem_of_get (q ∷ l) (suc i) p h = ground (arith, elem_of_get l i p)

-- With distinct ids, the index of the piece at `i` is `i`.
pub find_index-get :
    (l : List PieceVm) (i : ℕ) (p : PieceVm)
    → Distinct (piece_ids l)
    → get_elem? l i ≡ some p
    → find_index? (has_id p.id) l ≡ some i
find_index-get [] i p d h = ground arith
find_index-get (q ∷ l) zero p d h = ground arith
find_index-get (q ∷ l) (suc i) p (new, d) h =
    ground (arith, find_index-get l i p, elem_of_get l i p)

pub get_of_lt : (l : List PieceVm) (i : ℕ) → i < length l → (p : PieceVm) × (get_elem? l i ≡ some p)
get_of_lt [] i h = elim h [ ]
get_of_lt (q ∷ l) zero h = (q, refl)
get_of_lt (q ∷ l) (suc i) h = get_of_lt l i (omega arith)

pub lt_of_get : (l : List PieceVm) (i : ℕ) (p : PieceVm) → get_elem? l i ≡ some p → i < length l
lt_of_get [] i p h = absurd (ground arith)
lt_of_get (q ∷ l) zero p h = omega arith
lt_of_get (q ∷ l) (suc i) p h = omega (arith, lt_of_get l i p h)
