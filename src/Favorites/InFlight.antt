-- ===== src/Favorites/InFlight.antt =====
-- dashboard/src/folio/context.tsx, `toggleFav`: the guard on requests in flight.
use ok_folio.Prelude.{
  ℕ, List, [], ◌∷◌, ◌++◌, Bool, false, ◌==◌, ◌||◌, not, map, elem, Distinct, ◌≡◌, refl, sym, ◌∙◌,
  arith, if◌then◌else◌, Bool-cases, inl, inr,
}
use ok_folio.Pieces.{PieceVm}
use ok_folio.Favorites.{is_fav, FavState, toggle_fav, confirm_fav, reject_fav, settled_pending}

abbrev pub asked_ids : List (ℕ × Bool) → List ℕ
asked_ids = map (λ r. r.0)

-- The set of ids in flight is that of the pending requests, and no id has two requests.
pub record IsGuarded (s : FavState) : Type 0 where
  pub flying : (j : ℕ) → s.in_flight j ≡ elem j (asked_ids s.pending)
  pub once : Distinct (asked_ids s.pending)

elem-settled :
    (id j : ℕ) (l : List (ℕ × Bool))
    → elem j (asked_ids (settled_pending id l)) ≡ (if j == id then false else elem j (asked_ids l))
elem-settled id j [] = ground arith
elem-settled id j (r ∷ l) = ground (arith, elem-settled id j l)

Distinct-settled :
    (id : ℕ) (l : List (ℕ × Bool))
    → Distinct (asked_ids l)
    → Distinct (asked_ids (settled_pending id l))
Distinct-settled id [] d = tt
Distinct-settled id (r ∷ l) (new, d) =
    ground (arith, elem-settled id r.0 l, Distinct-settled id l d)

elem-asked :
    (id : ℕ) (next : Bool) (j : ℕ) (l : List (ℕ × Bool))
    → elem j (asked_ids (l ++ (id, next) ∷ [])) ≡ (j == id || elem j (asked_ids l))
elem-asked id next j [] = ground arith
elem-asked id next j (r ∷ l) = ground (arith, elem-asked id next j l)

Distinct-asked :
    (id : ℕ) (next : Bool) (l : List (ℕ × Bool))
    → elem id (asked_ids l) ≡ false
    → Distinct (asked_ids l)
    → Distinct (asked_ids (l ++ (id, next) ∷ []))
Distinct-asked id next [] new d = (refl, tt)
Distinct-asked id next (r ∷ l) new (out, d) =
    ground (arith, Distinct-asked id next l, elem-asked id next r.0 l)

pub toggle_fav-IsGuarded :
    (pieces : List PieceVm) (id : ℕ) (s : FavState)
    → IsGuarded s
    → IsGuarded (toggle_fav pieces id s)
unfolding toggle_fav
toggle_fav-IsGuarded pieces id s g = elim (Bool-cases (s.in_flight id)) [
  | inl busy ↦ rw (busy, toggle_fav) (record { flying = g.flying; once = g.once })
  | inr free ↦
      rw (free, toggle_fav)
        (record {
          flying =
              λ j. ground (arith, elem-asked id (not (is_fav s pieces id)) j s.pending, g.flying j);
          once = Distinct-asked id _ s.pending (sym (g.flying id) ∙ free) g.once;
        })
]

pub confirm_fav-IsGuarded : (id : ℕ) (s : FavState) → IsGuarded s → IsGuarded (confirm_fav id s)
unfolding confirm_fav
confirm_fav-IsGuarded id s g = record {
  flying = λ j. ground (arith, elem-settled id j s.pending, g.flying j);
  once = Distinct-settled id s.pending g.once;
}

pub reject_fav-IsGuarded :
    (id : ℕ) (next : Bool) (s : FavState) → IsGuarded s → IsGuarded (reject_fav id next s)
unfolding reject_fav
reject_fav-IsGuarded id next s g =
    confirm_fav-IsGuarded id _ (record { flying = g.flying; once = g.once })
