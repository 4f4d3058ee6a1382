-- ===== src/Api/Photos.antt =====
-- dashboard/src/api.ts: photos, artists, the gallery, favourites and uploads.
use ok_folio.Prelude.{ℕ, List, [], ◌∷◌, ◌++◌, Option, none, some, Bool, is_nil, if◌then◌else◌}
use ok_folio.Prelude.Text.{Text, codes}
use ok_folio.Prelude.Decimal.{decimal}
use ok_folio.Api.{
  post, patch_method, delete_method, Json, null_value, text_value, numbers_value, texts_value,
  no_body, json_body, form_body, FormField, file_field, text_field, Exchange, clear,
  read_then_clear, fixed, server_or, server_unguarded, server_text, under_base, get_request,
  get_with, send, query, both_caches, get_cache, page_params,
}
use ok_folio.Types.{CreatePieceInput}
use ok_folio.Metadata.{PieceMetadataPatch, BulkMetadataEdit}

unfoldable pub fetch_failed_photos : ℕ → Exchange
unfolding decimal
fetch_failed_photos limit =
    query (get_request (under_base (codes "/photos/failed?limit=" ∷ decimal limit ∷ [])))
      (codes "Failed to fetch failed photos")

unfoldable pub retry_photo : ℕ → Exchange
unfolding decimal
retry_photo id = record {
  request = send post (under_base (codes "/photos/retry?id=" ∷ decimal id ∷ [])) no_body;
  on_ok = clear both_caches;
  on_error = fixed (codes "Failed to retry photo");
}

unfoldable pub search_photos : Text → ℕ → ℕ → Exchange
unfolding decimal
search_photos q limit offset =
    query (get_with (under_base (codes "/search" ∷ [])) ((codes "q", q) ∷ page_params limit offset))
      (codes "Failed to search photos")

unfoldable pub fetch_artists : ℕ → ℕ → Text → Exchange
unfolding decimal
fetch_artists limit offset sort =
    query
      (get_with (under_base (codes "/artists" ∷ []))
        (page_params limit offset ++ (codes "sort", sort) ∷ []))
      (codes "Failed to fetch artists")

unfoldable pub fetch_artist_detail : Text → ℕ → ℕ → Exchange
unfolding decimal
fetch_artist_detail artist limit offset =
    query
      (get_with (under_base (codes "/artists/detail" ∷ []))
        ((codes "artist", artist) ∷ page_params limit offset))
      (codes "Failed to fetch artist detail")

unfoldable pub fetch_today_photos : ℕ → ℕ → Exchange
unfolding decimal
fetch_today_photos limit offset =
    query (get_with (under_base (codes "/photos/today" ∷ [])) (page_params limit offset))
      (codes "Failed to fetch today's photos")

unfoldable pub fetch_week_photos : ℕ → ℕ → Exchange
unfolding decimal
fetch_week_photos limit offset =
    query (get_with (under_base (codes "/photos/week" ∷ [])) (page_params limit offset))
      (codes "Failed to fetch week's photos")

-- A text filter that is set only if it is not empty.
abbrev set_text : Text → Option Text → List (Text × Text)
set_text key none = []
set_text key (some t) = if is_nil t then [] else (key, t) ∷ []

-- A filter that is set unless it is undefined.
abbrev set_given : Text → Option Text → List (Text × Text)
set_given key none = []
set_given key (some t) = (key, t) ∷ []

abbrev boolean_text : Option Bool → Option Text
boolean_text none = none
boolean_text (some b) = some (if b then codes "true" else codes "false")

pub record GalleryFilters : Type 0 where
  pub provider : Option Text
  pub source : Option Text
  pub category : Option Text
  pub artist : Option Text
  pub favorite : Option Bool
  pub query : Option Text

unfoldable pub fetch_gallery_catalog : ℕ → ℕ → GalleryFilters → Exchange
unfolding decimal
fetch_gallery_catalog limit offset filters =
    query
      (get_with (under_base (codes "/gallery/catalog" ∷ [])) (
        page_params limit offset
        ++ (set_text (codes "provider") filters.provider
            ++ (set_text (codes "source") filters.source
                ++ (set_text (codes "category") filters.category
                    ++ (set_given (codes "artist") filters.artist
                        ++ (set_given (codes "favorite") (boolean_text filters.favorite)
                            ++ set_text (codes "q") filters.query)))))))
      (codes "Failed to fetch gallery catalog")

abbrev optional_text : Text → Option Text → List (Text × Json)
optional_text key none = []
optional_text key (some t) = (key, text_value t) ∷ []

abbrev nullable_text : Text → Option (Option Text) → List (Text × Json)
nullable_text key none = []
nullable_text key (some none) = (key, null_value) ∷ []
nullable_text key (some (some t)) = (key, text_value t) ∷ []

abbrev optional_texts : Text → Option (List Text) → List (Text × Json)
optional_texts key none = []
optional_texts key (some l) = (key, texts_value l) ∷ []

abbrev patch_object : PieceMetadataPatch → List (Text × Json)
patch_object input =
    optional_text (codes "title") input.title
    ++ (optional_text (codes "artist") input.artist
        ++ (nullable_text (codes "date") input.date
            ++ (optional_texts (codes "keywords") input.keywords
                ++ nullable_text (codes "note") input.note)))

abbrev bulk_object : BulkMetadataEdit → List (Text × Json)
bulk_object input =
    (codes "ids", numbers_value input.ids)
    ∷ (optional_text (codes "set_artist") input.set_artist
        ++ (optional_text (codes "set_date") input.set_date
            ++ (optional_texts (codes "add_keywords") input.add_keywords
                ++ optional_texts (codes "remove_keywords") input.remove_keywords)))

unfoldable pub update_piece_metadata : ℕ → PieceMetadataPatch → Exchange
unfolding decimal
update_piece_metadata id input = record {
  request =
      send patch_method (under_base (codes "/photos/" ∷ decimal id ∷ []))
        (json_body (patch_object input));
  on_ok = read_then_clear get_cache;
  on_error = server_or (codes "Failed to update piece metadata");
}

unfoldable pub bulk_edit_catalog : BulkMetadataEdit → Exchange
unfolding decimal
bulk_edit_catalog input = record {
  request =
      send post (under_base (codes "/catalog/bulk-edit" ∷ [])) (json_body (bulk_object input));
  on_ok = read_then_clear get_cache;
  on_error = server_or (codes "Failed to update selected pieces");
}

unfoldable pub fetch_photo_detail : ℕ → Exchange
unfolding decimal
fetch_photo_detail id =
    query (get_request (under_base (codes "/photos/" ∷ decimal id ∷ [])))
      (codes "Failed to fetch photo detail")

unfoldable pub get_favorite_status : ℕ → Exchange
unfolding decimal
get_favorite_status photo_id =
    query (get_request (under_base (codes "/photos/" ∷ decimal photo_id ∷ codes "/favorite" ∷ [])))
      (codes "Failed to get favorite status")

unfoldable pub add_to_favorites : ℕ → Exchange
unfolding decimal
add_to_favorites photo_id = record {
  request =
      send post (under_base (codes "/photos/" ∷ decimal photo_id ∷ codes "/favorite" ∷ [])) no_body;
  on_ok = clear get_cache;
  on_error = server_unguarded (codes "Failed to add to favorites");
}

unfoldable pub remove_from_favorites : ℕ → Exchange
unfolding decimal
remove_from_favorites photo_id = record {
  request =
      send delete_method (under_base (codes "/photos/" ∷ decimal photo_id ∷ codes "/favorite" ∷ []))
        no_body;
  on_ok = clear get_cache;
  on_error = server_unguarded (codes "Failed to remove from favorites");
}

abbrev piece_form : CreatePieceInput → List (Text × FormField)
piece_form input =
    (codes "file", file_field input.file)
    ∷ (codes "title", text_field input.title)
    ∷ (codes "source", text_field input.source)
    ∷ (codes "artist", text_field input.artist)
    ∷ (codes "date", text_field input.date)
    ∷ (codes "notes", text_field input.notes)
    ∷ []

unfoldable pub create_piece : CreatePieceInput → Exchange
unfolding decimal
create_piece input = record {
  request = send post (under_base (codes "/pieces" ∷ [])) (form_body (piece_form input));
  on_ok = read_then_clear both_caches;
  on_error = server_text (codes "Failed to add piece");
}
