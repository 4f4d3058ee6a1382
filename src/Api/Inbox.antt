-- ===== src/Api/Inbox.antt =====
-- dashboard/src/api.ts: the inbox.
use ok_folio.Prelude.{ℕ, List, [], ◌∷◌, ◌++◌, Option, none, some, is_nil, if◌then◌else◌}
use ok_folio.Prelude.Text.{Text, codes}
use ok_folio.Prelude.Decimal.{decimal}
use ok_folio.Api.{
  post, delete_method, Json, number_value, no_body, json_body, Exchange, clear, server_or,
  under_base, get_request, get_with, send, query, get_cache, page_params,
}

unfoldable pub fetch_inbox : Text → ℕ → ℕ → Exchange
unfolding decimal
fetch_inbox status limit offset =
    query
      (get_with (under_base (codes "/inbox" ∷ []))
        (page_params limit offset ++ (if is_nil status then [] else (codes "status", status) ∷ [])))
      (codes "Failed to fetch inbox")

unfoldable pub fetch_inbox_counts : Exchange
unfolding decimal
fetch_inbox_counts =
    query (get_request (under_base (codes "/inbox/counts" ∷ [])))
      (codes "Failed to fetch inbox counts")

unfoldable pub dismiss_inbox_item : ℕ → Exchange
unfolding decimal
dismiss_inbox_item id = record {
  request = send delete_method (under_base (codes "/inbox/" ∷ decimal id ∷ [])) no_body;
  on_ok = clear get_cache;
  on_error = server_or (codes "Failed to dismiss inbox item");
}

unfoldable pub keep_inbox_item : ℕ → Exchange
unfolding decimal
keep_inbox_item id = record {
  request = send post (under_base (codes "/inbox/" ∷ decimal id ∷ codes "/keep" ∷ [])) no_body;
  on_ok = clear get_cache;
  on_error = server_or (codes "Failed to keep inbox item");
}

unfoldable pub skip_inbox_item : ℕ → Exchange
unfolding decimal
skip_inbox_item id = record {
  request = send post (under_base (codes "/inbox/" ∷ decimal id ∷ codes "/skip" ∷ [])) no_body;
  on_ok = clear get_cache;
  on_error = server_or (codes "Failed to skip inbox item");
}

abbrev photo_field : Option ℕ → List (Text × Json)
photo_field none = []
photo_field (some id) = (codes "photo_id", number_value id) ∷ []

unfoldable pub move_inbox_item_to_folio : ℕ → ℕ → Option ℕ → Exchange
unfolding decimal
move_inbox_item_to_folio id folio_id photo_id = record {
  request =
      send post (under_base (codes "/inbox/" ∷ decimal id ∷ codes "/move" ∷ []))
        (json_body ((codes "folio_id", number_value folio_id) ∷ photo_field photo_id));
  on_ok = clear get_cache;
  on_error = server_or (codes "Failed to move inbox item");
}
