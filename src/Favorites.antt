-- ===== src/Favorites.antt =====
-- dashboard/src/folio/context.tsx: `isFav` and the optimistic `toggleFav`, with its set of requests
-- in flight. `pending` holds the requests that have not settled: the id and the value asked for;
-- `refreshes` counts the invalidations of the catalog.
pub mod InFlight
pub mod World
pub mod Agreement
pub mod Overlap
mod Tests
use ok_folio.Prelude.{
  ℕ, ◌+◌, List, [], ◌∷◌, ◌++◌, Option, none, some, Bool, true, false, ◌==◌, not, filter, find?, map,
  if◌then◌else◌, or_else, IdMap, IdSet, put, add_id, delete_id,
}
use ok_folio.Pieces.{PieceVm}

pub record FavState : Type 0 where
  pub fav_override : IdMap Bool
  pub in_flight : IdSet
  pub pending : List (ℕ × Bool)
  pub refreshes : ℕ

-- `pieces.find((p) => p.id === id)?.fav ?? false`
unfoldable pub catalog_fav : List PieceVm → ℕ → Bool
catalog_fav pieces id = elim (find? (λ p. p.id == id) pieces) [ none ↦ false | some p ↦ p.fav ]

unfoldable pub is_fav : FavState → List PieceVm → ℕ → Bool
is_fav s pieces id = or_else (s.fav_override id) (catalog_fav pieces id)

unfoldable pub toggle_fav : List PieceVm → ℕ → FavState → FavState
unfolding is_fav
toggle_fav pieces id s =
    let next = not (is_fav s pieces id) in
    let shown = record s { fav_override = put s.fav_override id next } in
    if s.in_flight id
    then shown
    else record shown { in_flight = add_id s.in_flight id; pending = s.pending ++ (id, next) ∷ [] }

abbrev pub settled_pending : ℕ → List (ℕ × Bool) → List (ℕ × Bool)
settled_pending id = filter (λ r. not (r.0 == id))

-- The request for `id` and `next` succeeds: `finally`.
unfoldable pub confirm_fav : ℕ → FavState → FavState
confirm_fav id s = record s {
  in_flight = delete_id s.in_flight id;
  pending = settled_pending id s.pending;
  refreshes = s.refreshes + 1;
}

-- It fails: `catch` reverts the optimistic value, then `finally`.
unfoldable pub reject_fav : ℕ → Bool → FavState → FavState
unfolding confirm_fav
reject_fav id next s = confirm_fav id (record s { fav_override = put s.fav_override id (not next) })

-- The value that the request in flight for `id` asks for.
unfoldable pub asked : ℕ → List (ℕ × Bool) → Option Bool
asked id [] = none
asked id ((j, next) ∷ l) = if j == id then some next else asked id l
