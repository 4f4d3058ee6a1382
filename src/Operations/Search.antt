-- ===== src/Operations/Search.antt =====
-- dashboard/src/components/Search.tsx. The event handler's result, which would clear its timeout, is
-- used by nobody, so every timeout fires, in the order of their start.
use ok_folio.Prelude.{ℕ, ◌*◌, List, [], ◌∷◌, ◌++◌, Option, none, some, is_nil, if◌then◌else◌}
use ok_folio.Prelude.Text.{Text}

-- `timers` holds the values of the pending timeouts.
pub record Search : Type 0 where
  pub query : Text
  pub debounced_query : Text
  pub page : ℕ
  pub timers : List Text

abbrev pub empty_search : Search
empty_search = record { query = []; debounced_query = []; page = 0; timers = [] }

abbrev pub limit : ℕ
limit = 50

unfoldable pub handle_search : Text → Search → Search
handle_search value s = record s { query = value; timers = s.timers ++ value ∷ [] }

abbrev pub fire_first : List Text → Search → Search
fire_first [] s = s
fire_first (value ∷ timers) s = record s { debounced_query = value; page = 0; timers = timers }

-- The next pending timeout fires.
unfoldable pub fire : Search → Search
fire s = fire_first s.timers s

-- What `searchPhotos` is called with: the query, the limit and the offset.
unfoldable pub asked : Search → Option (Text × (ℕ × ℕ))
asked s =
    if is_nil s.debounced_query then none else some (s.debounced_query, (limit, s.page * limit))
