-- ===== src/Gallery/Tests.antt =====
-- Tests of the gallery's filters.
use ok_folio.Prelude.{List, [], ◌∷◌, none, some, true, false, ◌≡◌, refl}
use ok_folio.Prelude.Text.{Text, codes, trim, text_eq}
use ok_folio.Format.{includes}
use ok_folio.Format.Samples.{ascii_lower}
use ok_folio.Pieces.{PieceVm, piece_stub}
use ok_folio.Gallery.{
  ArtistCount, suggestions, submitted_name, choose_artist, choose_sheet_artist, ArtistField,
  has_active_filters, featured, magazine_grid, category_for_medium, filter_chips,
  mobile_category_label,
}
use ok_folio.Gallery.Suggested.{IsMeant, submitted_name-IsMeant}
use ok_folio.Gallery.Screen.{
  GalleryScreen, gallery_view, has_sentinel, filters_for_facets, has_disabled_mediums, wall,
  library, selection, filtered_empty, empty_view,
}

abbrev artists : List ArtistCount
artists =
    record { artist = codes "Mary Cassatt"; photo_count = 9 }
    ∷ record { artist = codes "Cassatt"; photo_count = 2 }
    ∷ []

submitted_name-IsMeant_example : IsMeant ascii_lower (codes " CASSATT ") (
    submitted_name ascii_lower
      (codes " CASSATT ")
      (suggestions ascii_lower (codes " CASSATT ") artists))
submitted_name-IsMeant_example = submitted_name-IsMeant ascii_lower (codes " CASSATT ") artists

-- The exact name comes before the first one.
exact_first :
    submitted_name ascii_lower
      (codes " CASSATT ")
      (suggestions ascii_lower (codes " CASSATT ") artists)
    ≡ codes "Cassatt"
unfolding submitted_name suggestions includes text_eq trim
exact_first = refl

abbrev field : ArtistField
field = record {
  draft = codes " ";
  is_open = true;
  filters = record { query = []; favorite_only = false; artist = codes "Monet"; category = [] };
}

-- A blank name is refused by the bar, and clears the filter in the sheet.
blank_names :
    (choose_artist field.draft field ≡ field)
    × (has_active_filters (choose_sheet_artist field.draft field).filters ≡ false)
unfolding choose_artist choose_sheet_artist has_active_filters trim
blank_names = (refl, refl)

abbrev piece : Text → PieceVm
piece title = piece_stub 7 (record { title = some title; artist = none; thumb = none })

alone : magazine_grid (piece (codes "Dawn") ∷ []) ≡ []
unfolding magazine_grid featured piece_stub
alone = refl

by_label :
    category_for_medium ascii_lower
      (record { id = codes "2"; display_name = codes "print "; count = 1 } ∷ [])
      (codes "Print")
    ≡ some (record { id = codes "2"; display_name = codes "print "; count = 1 })
unfolding category_for_medium text_eq trim
by_label = refl

chips :
    filter_chips ascii_lower
      (record field.filters { query = codes " fog "; category = codes "print" })
    ≡ codes "Search: fog" ∷ codes "Monet" ∷ codes "Print" ∷ []
unfolding filter_chips mobile_category_label trim text_eq
chips = refl

abbrev desktop_wall : GalleryScreen
desktop_wall = record {
  is_mobile = false;
  is_error = false;
  is_loading = false;
  pieces = piece (codes "Dawn") ∷ [];
  total_photos = 9;
  filters = field.filters;
  selection_mode = true;
  mode = wall;
}

-- The wall of the desktop loads no more pieces, in a selection too.
screens :
    (gallery_view desktop_wall ≡ selection)
    × (has_sentinel true false desktop_wall ≡ false)
    × (has_sentinel true false (record desktop_wall { mode = library }) ≡ true)
    × (gallery_view (record desktop_wall { pieces = []; is_mobile = true }) ≡ filtered_empty)
unfolding gallery_view empty_view has_active_filters has_sentinel trim piece_stub
screens = (refl, refl, refl, refl)

facet_filters : (filters_for_facets field.filters).artist ≡ some (codes "Monet")
unfolding filters_for_facets trim
facet_filters = refl

disabled : has_disabled_mediums ascii_lower [] ≡ true
unfolding has_disabled_mediums category_for_medium
disabled = refl
