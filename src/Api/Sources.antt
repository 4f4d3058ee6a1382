-- ===== src/Api/Sources.antt =====
-- dashboard/src/api.ts: the sources of the connectors. An input is the object that is sent.
use ok_folio.Prelude.{ℕ, List, [], ◌∷◌, is_nil, if◌then◌else◌}
use ok_folio.Prelude.Text.{Text, codes}
use ok_folio.Prelude.Decimal.{decimal}
use ok_folio.Api.{
  post, patch_method, delete_method, Json, no_body, json_body, Exchange, clear, read,
  read_then_clear, server_or, under_base, get_with, send, query, get_cache,
}

unfoldable pub fetch_connector_sources : Text → Exchange
unfolding decimal
fetch_connector_sources type =
    query
      (get_with (under_base (codes "/settings/connector-sources" ∷ []))
        (if is_nil type then [] else (codes "type", type) ∷ []))
      (codes "Failed to fetch connector sources")

unfoldable pub create_connector_source : List (Text × Json) → Exchange
unfolding decimal
create_connector_source input = record {
  request = send post (under_base (codes "/settings/connector-sources" ∷ [])) (json_body input);
  on_ok = read_then_clear get_cache;
  on_error = server_or (codes "Failed to create connector source");
}

unfoldable pub preview_connector_source : List (Text × Json) → Exchange
unfolding decimal
preview_connector_source input = record {
  request =
      send post (under_base (codes "/settings/connector-sources/preview" ∷ [])) (json_body input);
  on_ok = read;
  on_error = server_or (codes "Failed to preview connector source");
}

unfoldable pub update_connector_source : ℕ → List (Text × Json) → Exchange
unfolding decimal
update_connector_source id input = record {
  request =
      send patch_method (under_base (codes "/settings/connector-sources/" ∷ decimal id ∷ []))
        (json_body input);
  on_ok = read_then_clear get_cache;
  on_error = server_or (codes "Failed to update connector source");
}

unfoldable pub delete_connector_source : ℕ → Exchange
unfolding decimal
delete_connector_source id = record {
  request =
      send delete_method (under_base (codes "/settings/connector-sources/" ∷ decimal id ∷ []))
        no_body;
  on_ok = clear get_cache;
  on_error = server_or (codes "Failed to delete connector source");
}

unfoldable pub backfill_connector_source : ℕ → Exchange
unfolding decimal
backfill_connector_source id = record {
  request =
      send post
        (under_base (codes "/settings/connector-sources/" ∷ decimal id ∷ codes "/backfill" ∷ []))
        no_body;
  on_ok = read_then_clear get_cache;
  on_error = server_or (codes "Failed to backfill connector source");
}
