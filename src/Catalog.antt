-- ===== src/Catalog.antt =====
-- dashboard/src/folio/context.tsx: the paged catalog query (`queryFn`, `getNextPageParam`,
-- `loadMore`); the same page arithmetic serves the folio pages and pickers of
-- dashboard/src/folio/FolioDetail.tsx and the inbox of dashboard/src/folio/Inbox.tsx. Fetching and
-- caching are the query library's: a page is a function of its limit and offset.
pub mod Loading
mod Tests
use ok_folio.Prelude.{
  ℕ, zero, suc, ◌+◌, List, [], ◌∷◌, ◌++◌, Option, none, some, Bool, true, false, ◌&&◌, not, ltb,
  is_nil, length, if◌then◌else◌,
}
use ok_folio.Prelude.Text.{Text}

pub record Page {ℓ} (A : Type ℓ) : Type ℓ where
  pub items : List A
  pub total : ℕ

abbrev pub page_size : ℕ
page_size = 120

-- The filters of `fetchGalleryCatalog` that the provider sets; one left out is `none`.
pub record Filters : Type 0 where
  pub query : Option Text
  pub favorite : Option Bool
  pub artist : Option Text
  pub category : Option Text

abbrev pub given_text : Text → Option Text
given_text t = if is_nil t then none else some t

unfoldable pub catalog_filters : Text → Bool → Text → Text → Filters
catalog_filters debounced_query favorite_only artist category = record {
  query = given_text debounced_query;
  favorite = if favorite_only then some true else none;
  artist = given_text artist;
  category = given_text category;
}

module _ {ℓ} {A : Type ℓ} where
  -- `allPages.reduce((n, pg) => n + pg.photos.length, 0)`
  unfoldable pub loaded_from : ℕ → List (Page A) → ℕ
  loaded_from n [] = n
  loaded_from n (pg ∷ pages) = loaded_from (n + length pg.items) pages

  unfoldable pub get_next_page_param : Page A → List (Page A) → Option ℕ
  get_next_page_param last_page all_pages =
      let loaded = loaded_from 0 all_pages in
      if ltb loaded last_page.total then some loaded else none

  -- The last page of a query that has fetched some, and all of its photos in order.
  abbrev pub last_page : Page A → List (Page A) → Page A
  last_page pg [] = pg
  last_page pg (next ∷ pages) = last_page next pages

  abbrev pub all_items : List (Page A) → List A
  all_items [] = []
  all_items (pg ∷ pages) = pg.items ++ all_items pages

  module _ (fetch : ℕ → Page A) where
    -- `loadMore`: the pages after it, while `hasNextPage` holds and no page is being fetched.
    unfoldable pub load_more : Bool → Page A → List (Page A) → List (Page A)
    load_more fetching first pages =
        if fetching
        then pages
        else elim (get_next_page_param (last_page first pages) (first ∷ pages)) [
          | none ↦ pages
          | some offset ↦ pages ++ fetch offset ∷ []
        ]
