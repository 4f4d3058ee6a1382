-- ===== src/Favorites/World.antt =====
-- dashboard/src/folio/context.tsx, `toggleFav`, beside the server: every order of clicks, answers
-- and catalog refetches, with no edit of metadata among them. A request that fails has changed
-- nothing on the server; a catalog that arrives has any rows, each with the server's value.
use ok_folio.Prelude.{
  ℕ, List, [], some, Bool, false, ◌==◌, ◌≡◌, IdSet, if◌then◌else◌, map, empty, find?, is_some, ◌||◌,
}
use ok_folio.Pieces.{PieceVm}
use ok_folio.Favorites.{FavState, toggle_fav, confirm_fav, reject_fav, asked}
use ok_folio.Favorites.InFlight.{
  IsGuarded, toggle_fav-IsGuarded, confirm_fav-IsGuarded, reject_fav-IsGuarded,
}

pub record World : Type 0 where
  pub client : FavState
  pub pieces : List PieceVm
  pub server : IdSet

abbrev pub store : IdSet → ℕ → Bool → IdSet
store server id next j = if j == id then next else server j

abbrev pub with_fav : Bool → PieceVm → PieceVm
with_fav fav p = record p { fav = fav }

-- The rows of a catalog, with the favourites that the server has.
unfoldable pub served : IdSet → List PieceVm → List PieceVm
served server rows = map (λ (p : PieceVm). with_fav (server p.id) p) rows

-- A screen that has loaded nothing.
abbrev pub unloaded : IdSet → World
unloaded server = record {
  client = record { fav_override = empty; in_flight = λ j. false; pending = []; refreshes = 0 };
  pieces = [];
  server = server;
}

unfoldable pub is_listed : List PieceVm → ℕ → Bool
is_listed pieces id = is_some (find? (λ p. p.id == id) pieces)

-- The provider knows a value of `id`: an override, or a row of the catalog.
unfoldable pub is_known : World → ℕ → Bool
unfolding is_listed
is_known w id = is_some (w.client.fav_override id) || is_listed w.pieces id

pub data Step : World → World → Type 0 where
  toggled : (id : ℕ) (w : World) → Step w (record w { client = toggle_fav w.pieces id w.client })
  confirmed :
      (id : ℕ) (next : Bool) (w : World)
      → asked id w.client.pending ≡ some next
      → Step w (record w { client = confirm_fav id w.client; server = store w.server id next })
  failed :
      (id : ℕ) (next : Bool) (w : World)
      → asked id w.client.pending ≡ some next
      → Step w (record w { client = reject_fav id next w.client })
  refetched :
      (rows : List PieceVm) (w : World) → Step w (record w { pieces = served w.server rows })

-- Every step keeps the guard: an id is in the set of ids in flight exactly if a request for it is
-- pending, and no id has two pending requests.
pub Step-IsGuarded : {w v : World} → Step w v → IsGuarded w.client → IsGuarded v.client
Step-IsGuarded (toggled id w) g = toggle_fav-IsGuarded w.pieces id w.client g
Step-IsGuarded (confirmed id next w e) g = confirm_fav-IsGuarded id w.client g
Step-IsGuarded (failed id next w e) g = reject_fav-IsGuarded id next w.client g
Step-IsGuarded (refetched pieces w) g = g
