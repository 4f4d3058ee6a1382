-- ===== src/Gallery.antt =====
-- dashboard/src/folio/Gallery.tsx: the filters of the gallery, the artist that a typed name stands
-- for, and the featured piece. `lower` is `toLowerCase`.
pub mod Screen
pub mod Suggested
mod Tests
use ok_folio.Prelude.{
  ℕ, List, [], ◌∷◌, ◌++◌, Option, none, some, Bool, true, false, ◌==◌, ◌||◌, not, is_nil, or_else,
  first_some, filter, find?, map, take, if◌then◌else◌,
}
use ok_folio.Prelude.Text.{Text, codes, trim, text_eq}
use ok_folio.Format.{includes}
use ok_folio.Pieces.{PieceVm}

-- The filters of the provider.
pub record ActiveFilters : Type 0 where
  pub query : Text
  pub favorite_only : Bool
  pub artist : Text
  pub category : Text

pub record ArtistCount : Type 0 where
  pub artist : Text
  pub photo_count : ℕ

pub record Facet : Type 0 where
  pub id : Text
  pub display_name : Text
  pub count : ℕ

unfoldable pub has_active_filters : ActiveFilters → Bool
has_active_filters f =
    not (is_nil (trim f.query))
    || f.favorite_only
    || not (is_nil f.artist)
    || not (is_nil f.category)

unfoldable pub clear_filters : ActiveFilters → ActiveFilters
clear_filters f = record { query = []; favorite_only = false; artist = []; category = [] }

unfoldable pub use_scoped_suggestions : ActiveFilters → Bool
use_scoped_suggestions f = f.favorite_only || not (is_nil (trim f.query)) || not (is_nil f.category)

-- The artists asked for: of the facets where a filter is set, else of the whole list.
unfoldable pub suggested_artists :
    ActiveFilters → Option (List Facet) → Option (List ArtistCount) → List ArtistCount
unfolding use_scoped_suggestions
suggested_artists f facets artists =
    if use_scoped_suggestions f
    then map (λ item. record { artist = item.display_name; photo_count = item.count })
        (or_else facets [])
    else or_else artists []

abbrev pub first_of : List ArtistCount → Option ArtistCount
first_of [] = none
first_of (item ∷ l) = some item

-- `item?.artist ?? other`
abbrev pub artist_of : Option ArtistCount → Text → Text
artist_of none other = other
artist_of (some item) other = item.artist

module _ (lower : Text → Text) where
  abbrev pub normalized : Text → Text
  normalized draft = lower (trim draft)

  unfoldable pub suggestions : Text → List ArtistCount → List ArtistCount
  unfolding includes
  suggestions draft artists = take 8 (
      filter (λ item. is_nil (normalized draft) || includes (lower item.artist) (normalized draft))
        artists)

  -- The name that `submitArtist` hands to `chooseArtist`.
  unfoldable pub submitted_name : Text → List ArtistCount → Text
  unfolding text_eq
  submitted_name draft shown =
      artist_of (find? (λ item. text_eq (lower item.artist) (normalized draft)) shown)
        (artist_of (first_of shown) (trim draft))

  unfoldable pub category_for_medium : List Facet → Text → Option Facet
  unfolding text_eq
  category_for_medium categories medium =
      let target = lower (trim medium) in
      find?
        (λ facet.
          text_eq (lower (trim facet.id)) target
          || text_eq (lower (trim facet.display_name)) target)
        categories

  abbrev pub mobile_mediums : List Text
  mobile_mediums =
      codes "Painting"
      ∷ codes "Photography"
      ∷ codes "Drawing"
      ∷ codes "Print"
      ∷ codes "Sculpture"
      ∷ []

  unfoldable pub mobile_category_label : Text → Text
  unfolding text_eq
  mobile_category_label category =
      or_else (find? (λ medium. text_eq (lower medium) (lower (trim category))) mobile_mediums)
        category

  abbrev chip : Bool → Text → List Text
  chip shown label = if shown then label ∷ [] else []

  -- The labels of the chips that `ActiveMobileFilters` shows.
  unfoldable pub filter_chips : ActiveFilters → List Text
  unfolding mobile_category_label
  filter_chips f =
      chip (not (is_nil (trim f.query))) (codes "Search: " ++ trim f.query)
      ++ chip f.favorite_only (codes "Favorites")
      ++ chip (not (is_nil f.artist)) f.artist
      ++ chip (not (is_nil f.category)) (mobile_category_label f.category)

-- The filter bar's field for an artist, with the provider's filters.
pub record ArtistField : Type 0 where
  pub draft : Text
  pub is_open : Bool
  pub filters : ActiveFilters

-- `chooseArtist` of the filter bar, which leaves the filter alone for a blank name.
unfoldable pub choose_artist : Text → ArtistField → ArtistField
choose_artist name s =
    let next = trim name in
    if is_nil next
    then s
    else record { draft = []; is_open = false; filters = record s.filters { artist = next } }

-- `chooseArtist` of the sheet, where a blank name clears the filter.
unfoldable pub choose_sheet_artist : Text → ArtistField → ArtistField
choose_sheet_artist name s = record {
  draft = trim name;
  is_open = false;
  filters = record s.filters { artist = trim name };
}

-- `reset` of the sheet.
unfoldable pub reset : ArtistField → ArtistField
unfolding clear_filters
reset s = record s { draft = []; filters = clear_filters s.filters }

-- The feature of the magazine, `none` where there is no piece, and the pieces below it.
unfoldable pub featured : List PieceVm → Option PieceVm
featured [] = none
featured (p ∷ pieces) = first_some (find? (λ q. q.fav) (p ∷ pieces)) (some p)

abbrev below : Option PieceVm → List PieceVm → List PieceVm
below none pieces = []
below (some f) pieces = filter (λ p. not (p.id == f.id)) pieces

unfoldable pub magazine_grid : List PieceVm → List PieceVm
unfolding featured
magazine_grid pieces = below (featured pieces) pieces
