-- ===== src/Api/Folios.antt =====
-- dashboard/src/api.ts: the folios and their pieces.
use ok_folio.Prelude.{ℕ, List, [], ◌∷◌, ◌++◌, Option, none, some}
use ok_folio.Prelude.Text.{Text, codes}
use ok_folio.Prelude.Decimal.{decimal}
use ok_folio.Api.{
  post, patch_method, delete_method, Json, null_value, number_value, text_value, no_body, json_body,
  Exchange, clear, read_then_clear, server_or, under_base, get_request, get_with, send, query,
  get_cache, page_params,
}

unfoldable pub fetch_folios : Exchange
unfolding decimal
fetch_folios =
    query (get_request (under_base (codes "/folios" ∷ []))) (codes "Failed to fetch folios")

unfoldable pub fetch_folio_pieces : ℕ → ℕ → ℕ → Exchange
unfolding decimal
fetch_folio_pieces id limit offset =
    query
      (get_with (under_base (codes "/folios/" ∷ decimal id ∷ codes "/pieces" ∷ []))
        (page_params limit offset))
      (codes "Failed to fetch folio pieces")

-- An optional number that may be null: left out, null, or given.
abbrev cover_field : Option (Option ℕ) → List (Text × Json)
cover_field none = []
cover_field (some none) = (codes "cover_photo_id", null_value) ∷ []
cover_field (some (some id)) = (codes "cover_photo_id", number_value id) ∷ []

abbrev name_field : Option Text → List (Text × Json)
name_field none = []
name_field (some name) = (codes "name", text_value name) ∷ []

unfoldable pub create_folio : Text → Option (Option ℕ) → Exchange
unfolding decimal
create_folio name cover = record {
  request =
      send post (under_base (codes "/folios" ∷ []))
        (json_body (name_field (some name) ++ cover_field cover));
  on_ok = read_then_clear get_cache;
  on_error = server_or (codes "Failed to create folio");
}

unfoldable pub update_folio : ℕ → Option Text → Option (Option ℕ) → Exchange
unfolding decimal
update_folio id name cover = record {
  request =
      send patch_method (under_base (codes "/folios/" ∷ decimal id ∷ []))
        (json_body (name_field name ++ cover_field cover));
  on_ok = read_then_clear get_cache;
  on_error = server_or (codes "Failed to update folio");
}

unfoldable pub delete_folio : ℕ → Exchange
unfolding decimal
delete_folio id = record {
  request = send delete_method (under_base (codes "/folios/" ∷ decimal id ∷ [])) no_body;
  on_ok = clear get_cache;
  on_error = server_or (codes "Failed to delete folio");
}

unfoldable pub add_piece_to_folio : ℕ → ℕ → Exchange
unfolding decimal
add_piece_to_folio folio_id photo_id = record {
  request =
      send post (under_base (codes "/folios/" ∷ decimal folio_id ∷ codes "/pieces" ∷ []))
        (json_body ((codes "photo_id", number_value photo_id) ∷ []));
  on_ok = read_then_clear get_cache;
  on_error = server_or (codes "Failed to add piece to folio");
}

unfoldable pub remove_piece_from_folio : ℕ → ℕ → Exchange
unfolding decimal
remove_piece_from_folio folio_id photo_id = record {
  request =
      send delete_method
        (under_base
          (codes "/folios/" ∷ decimal folio_id ∷ codes "/pieces/" ∷ decimal photo_id ∷ []))
        no_body;
  on_ok = clear get_cache;
  on_error = server_or (codes "Failed to remove piece from folio");
}

unfoldable pub fetch_photo_folios : ℕ → Exchange
unfolding decimal
fetch_photo_folios photo_id =
    query (get_request (under_base (codes "/photos/" ∷ decimal photo_id ∷ codes "/folios" ∷ [])))
      (codes "Failed to fetch folios for piece")
