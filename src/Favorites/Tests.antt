-- ===== src/Favorites/Tests.antt =====
-- Tests of the favourites of dashboard/src/folio/context.tsx.
use ok_folio.Prelude.{[], ◌∷◌, none, some, true, false, not, ◌≡◌, refl, inr, empty}
use ok_folio.Pieces.{piece_stub}
use ok_folio.Favorites.{is_fav, toggle_fav, confirm_fav, reject_fav, asked, catalog_fav}
use ok_folio.Favorites.InFlight.{IsGuarded}
use ok_folio.Favorites.World.{
  World, toggled, failed, refetched, served, unloaded, is_known, is_listed,
}
use ok_folio.Favorites.Agreement.{CalmReach, here, more, Agrees, calm-Agrees}
use ok_folio.Favorites.Overlap.{clicked_twice, answered, overlapping_toggle_diverges}

-- No piece is a favourite.
abbrev world : World
world = record {
  client = record { fav_override = empty; in_flight = λ j. false; pending = []; refreshes = 0 };
  pieces = piece_stub 7 (record { title = none; artist = none; thumb = none }) ∷ [];
  server = λ j. false;
}

world-IsGuarded : IsGuarded world.client
world-IsGuarded = record { flying = λ j. refl; once = tt }

abbrev loaded : World
loaded = record (unloaded (λ j. false)) { pieces = served (λ j. false) world.pieces }

abbrev clicked : World
clicked = record loaded { client = toggle_fav loaded.pieces 7 loaded.client }

abbrev refused : World
refused = record clicked { client = reject_fav 7 true clicked.client }

calm_run : CalmReach 7 (unloaded (λ j. false)) refused
unfolding toggle_fav is_fav catalog_fav piece_stub asked is_known is_listed served
calm_run =
    more
      (more (more here (refetched world.pieces (unloaded (λ j. false))) tt) (toggled 7 loaded)
        (inr (refl, refl)))
      (failed 7 true clicked refl) tt

-- A click that the server refuses.
calm-Agrees_example : IsGuarded refused.client × Agrees 7 refused
calm-Agrees_example = calm-Agrees 7 (λ j. false) calm_run

overlapping_toggle_diverges_example :
    (asked 7 (clicked_twice 7 world).pending ≡ some (not (is_fav world.client world.pieces 7)))
    × (is_fav (answered 7 world).client world.pieces 7 ≡ is_fav world.client world.pieces 7)
    × ((answered 7 world).server 7 ≡ not (is_fav world.client world.pieces 7))
    × (asked 7 (answered 7 world).client.pending ≡ none)
overlapping_toggle_diverges_example = overlapping_toggle_diverges 7 world world-IsGuarded refl

diverged : is_fav (answered 7 world).client world.pieces 7 ≡ not ((answered 7 world).server 7)
unfolding toggle_fav is_fav catalog_fav piece_stub asked confirm_fav
diverged = refl

-- A favourite that the catalog has not listed, as one opened from a folio, is shown as none, and a
-- click on it asks for the value that the server has.
unlisted_favourite :
    (is_fav (unloaded (λ j. true)).client [] 7 ≡ false)
    × (asked 7 (toggle_fav [] 7 (unloaded (λ j. true)).client).pending ≡ some true)
unfolding toggle_fav is_fav catalog_fav asked
unlisted_favourite = (refl, refl)
