-- ===== src/Gallery/Screen.antt =====
-- dashboard/src/folio/Gallery.tsx: what the screen `Gallery` shows in each of its states, whether the
-- sentinel that loads more pieces stands below them, and the filters of the sheet's facets.
use ok_folio.Prelude.{
  ℕ, List, Option, none, some, Bool, true, false, ◌&&◌, ◌||◌, not, ltb, is_nil, filter,
  if◌then◌else◌,
}
use ok_folio.Prelude.Text.{Text, trim}
use ok_folio.Catalog.{Filters, given_text}
use ok_folio.Gallery.{ActiveFilters, has_active_filters, category_for_medium, mobile_mediums, Facet}
use ok_folio.Pieces.{PieceVm}

pub data GalleryMode : Type 0 where
  magazine library wall : GalleryMode

pub data GalleryView : Type 0 where
  unreachable loading filtered_empty empty desktop_empty : GalleryView
  selection magazine_view wall_view library_view : GalleryView

abbrev pub view_of : GalleryMode → GalleryView
view_of magazine = magazine_view
view_of wall = wall_view
view_of library = library_view

pub record GalleryScreen : Type 0 where
  pub is_mobile : Bool
  pub is_error : Bool
  pub is_loading : Bool
  pub pieces : List PieceVm
  pub total_photos : ℕ
  pub filters : ActiveFilters
  pub selection_mode : Bool
  pub mode : GalleryMode

unfoldable pub empty_view : GalleryScreen → GalleryView
unfolding has_active_filters
empty_view s =
    if not s.is_mobile
    then desktop_empty
    else if has_active_filters s.filters || ltb 0 s.total_photos
    then filtered_empty
    else empty

unfoldable pub gallery_view : GalleryScreen → GalleryView
unfolding empty_view
gallery_view s =
    if s.is_error
    then unreachable
    else if s.is_mobile && s.is_loading
    then loading
    else if not s.is_loading && is_nil s.pieces
    then empty_view s
    else if s.selection_mode
    then selection
    else view_of s.mode

-- `mode !== "wall" || isMobile`
abbrev pub is_below : GalleryScreen → Bool
is_below s = elim s.mode [ wall ↦ s.is_mobile | _ ↦ true ]

-- Whether `LoadMoreSentinel`, which calls `loadMore` when it comes near, is on the screen.
unfoldable pub has_sentinel : Bool → Bool → GalleryScreen → Bool
unfolding gallery_view
has_sentinel has_more loading_more s = (has_more || loading_more) && elim (gallery_view s) [
  | selection ↦ is_below s
  | magazine_view ↦ is_below s
  | wall_view ↦ is_below s
  | library_view ↦ is_below s
  | _ ↦ false
]

-- The filters of `filtersForFacets`, which leave the category free.
unfoldable pub filters_for_facets : ActiveFilters → Filters
filters_for_facets f = record {
  query = given_text (trim f.query);
  favorite = if f.favorite_only then some true else none;
  artist = given_text f.artist;
  category = none;
}

abbrev pub is_missing : Option Facet → Bool
is_missing none = true
is_missing (some facet) = false

-- `MOBILE_MEDIUMS.some((medium) => !categoryForMedium(categories, medium))`
unfoldable pub has_disabled_mediums : (Text → Text) → List Facet → Bool
unfolding category_for_medium
has_disabled_mediums lower categories = not (
    is_nil (
      filter (λ medium. is_missing (category_for_medium lower categories medium))
        (mobile_mediums lower)))
