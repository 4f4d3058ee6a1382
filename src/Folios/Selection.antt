-- ===== src/Folios/Selection.antt =====
-- dashboard/src/folio/FolioDetail.tsx: the selection of pieces of a folio. A `Set` of ids is the
-- list of its elements in the order of their insertion.
use ok_folio.Prelude.{
  ℕ, List, [], ◌∷◌, ◌++◌, Bool, false, ◌==◌, not, is_nil, filter, map, elem, Distinct,
  Distinct-filter, elem-without, if◌then◌else◌, ◌≡◌, refl, arith, Bool-cases, inl, inr, elem-append,
}
use ok_folio.Actions.{Request}
use ok_folio.Actions.Folios.{remove_piece_from_folio}

-- The updater of `toggleSelected`.
unfoldable pub toggle_id : ℕ → List ℕ → List ℕ
toggle_id id ids = if elem id ids then filter (λ i. not (i == id)) ids else ids ++ id ∷ []

pub record Selection : Type 0 where
  pub selection_mode : Bool
  pub selected_ids : List ℕ

unfoldable pub toggle_selected : ℕ → Selection → Selection
unfolding toggle_id
toggle_selected id s = record s { selected_ids = toggle_id id s.selected_ids }

unfoldable pub clear_selection : Selection → Selection
clear_selection s = record { selection_mode = false; selected_ids = [] }

unfoldable pub toggle_selection_mode : Selection → Selection
toggle_selection_mode s = record { selection_mode = not s.selection_mode; selected_ids = [] }

-- With the requests of the actions, in their order.
unfoldable pub remove_selected_from_folio : ℕ → Selection → Selection × List Request
unfolding clear_selection remove_piece_from_folio
remove_selected_from_folio folio_id s = if is_nil s.selected_ids then (s, []) else (
  clear_selection s,
  map (λ id. (remove_piece_from_folio folio_id id).request) s.selected_ids,
)

-- A toggle changes whether its own id is selected, and no other.
pub elem-toggle_id :
    (i j : ℕ) (ids : List ℕ)
    → elem j (toggle_id i ids) ≡ (if j == i then not (elem i ids) else elem j ids)
unfolding toggle_id
elem-toggle_id i j ids = elim (Bool-cases (elem i ids)) [
  | inl chosen ↦ rw chosen (elem-without i j ids)
  | inr fresh ↦ rw fresh (ground (arith, elem-append j ids (i ∷ [])))
]

Distinct-snoc :
    (id : ℕ) (ids : List ℕ) → elem id ids ≡ false → Distinct ids → Distinct (ids ++ id ∷ [])
Distinct-snoc id [] fresh h = (refl, tt)
Distinct-snoc id (x ∷ ids) fresh (new, h) =
    (ground (arith, elem-append x ids (id ∷ [])), Distinct-snoc id ids (ground arith) h)

pub Distinct-toggle_id : (id : ℕ) (ids : List ℕ) → Distinct ids → Distinct (toggle_id id ids)
unfolding toggle_id
Distinct-toggle_id id ids h = elim (Bool-cases (elem id ids)) [
  | inl chosen ↦ rw chosen (Distinct-filter _ ids h)
  | inr fresh ↦ rw fresh (Distinct-snoc id ids fresh h)
]
