-- ===== src/Favorites/Overlap.antt =====
-- dashboard/src/folio/context.tsx, `toggleFav`: a second click while the first request is in flight.
use ok_folio.Prelude.{
  ℕ, List, none, some, Bool, true, false, not, ◌≡◌, refl, sym, ap, ◌∙◌, arith, ==_refl,
}
use ok_folio.Pieces.{PieceVm}
use ok_folio.Favorites.{FavState, is_fav, toggle_fav, confirm_fav, asked}
use ok_folio.Favorites.InFlight.{IsGuarded}
use ok_folio.Favorites.World.{World, store}
use ok_folio.Favorites.Agreement.{asked_of_free, asked-append_self, asked-settled}

-- Two clicks on `id`, and then the answer to the one request that they sent.
abbrev pub clicked_twice : ℕ → World → FavState
clicked_twice id w = toggle_fav w.pieces id (toggle_fav w.pieces id w.client)

abbrev pub answered : ℕ → World → World
answered id w = record w {
  client = confirm_fav id (clicked_twice id w);
  server = store w.server id (not (is_fav w.client w.pieces id));
}

-- A click flips what is shown.
is_fav-toggle_fav :
    (id : ℕ) (pieces : List PieceVm) (s : FavState)
    → is_fav (toggle_fav pieces id s) pieces id ≡ not (is_fav s pieces id)
unfolding toggle_fav is_fav
is_fav-toggle_fav id pieces s = ground arith

is_fav-confirm_fav :
    (id : ℕ) (pieces : List PieceVm) (s : FavState)
    → is_fav (confirm_fav id s) pieces id ≡ is_fav s pieces id
unfolding confirm_fav is_fav
is_fav-confirm_fav id pieces s = refl

not-not : (b : Bool) → not (not b) ≡ b
not-not true = refl
not-not false = refl

sent_once :
    (id : ℕ) (w : World)
    → IsGuarded w.client
    → w.client.in_flight id ≡ false
    → asked id (clicked_twice id w).pending ≡ some (not (is_fav w.client w.pieces id))
unfolding toggle_fav
sent_once id w g free =
    let idle = asked_of_free id w.client.pending (sym (g.flying id) ∙ free) in
    rw (free, ==_refl id) (asked-append_self id _ w.client.pending idle)

-- In a guarded state, if `id` has no request in flight and is clicked twice before the first
-- request is answered, the second click sends nothing: the one request asks for the opposite of
-- the value first seen. When it succeeds the user sees the first value again, the server has its
-- opposite, and no request for `id` is left in flight.
pub overlapping_toggle_diverges :
    (id : ℕ) (w : World)
    → IsGuarded w.client
    → w.client.in_flight id ≡ false
    → (asked id (clicked_twice id w).pending ≡ some (not (is_fav w.client w.pieces id)))
      × (is_fav (answered id w).client w.pieces id ≡ is_fav w.client w.pieces id)
      × ((answered id w).server id ≡ not (is_fav w.client w.pieces id))
      × (asked id (answered id w).client.pending ≡ none)
unfolding confirm_fav
overlapping_toggle_diverges id w g free = (
  sent_once id w g free,
  is_fav-confirm_fav id w.pieces (clicked_twice id w)
      ∙ (is_fav-toggle_fav id w.pieces (toggle_fav w.pieces id w.client)
          ∙ (ap not (is_fav-toggle_fav id w.pieces w.client) ∙ not-not _)),
  rw (==_refl id),
  asked-settled id id _ ∙ rw (==_refl id),
)
