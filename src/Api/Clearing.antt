-- ===== src/Api/Clearing.antt =====
-- dashboard/src/api.ts: which calls clear the cache of GET responses, and when.
use ok_folio.Prelude.{
  List, Option, Bool, true, false, ◌&&◌, not, ◌≡◌, ◌⊎◌, inl, inr, refl, ◌∙◌, arith, Bool-cases,
}
use ok_folio.Actions.{Thrown, resolved, rejected}
use ok_folio.Api.{
  Method, get, CacheName, api_get, OnOk, read, clear, read_then_clear, Exchange, Response,
  unreachable, answered, Payload, unreadable, readable, Caches, lists_cache, is_ok,
  clear_offline_caches, succeed_with_body, exchange,
}
use ok_folio.Api.Calls.{
  ApiCall, StatsCall, SourceCall, FolioCall, PhotoCall, InboxCall, exchange_of, stats, source,
  folio, photo, inbox, stats_exchange, source_exchange, folio_exchange, photo_exchange,
  inbox_exchange, fetch_stats_call, fetch_runs_call, fetch_health_call, trigger_extraction_call,
  trigger_page_extraction_call, trigger_pages_extraction_call, fetch_worker_status_call,
  fetch_connector_status_call, fetch_timeline_call, fetch_top_artists_call, fetch_run_photos_call,
  fetch_connector_sources_call, create_connector_source_call, preview_connector_source_call,
  update_connector_source_call, delete_connector_source_call, backfill_connector_source_call,
  fetch_folios_call, fetch_folio_pieces_call, create_folio_call, update_folio_call,
  delete_folio_call, add_piece_to_folio_call, remove_piece_from_folio_call, fetch_photo_folios_call,
  fetch_failed_photos_call, retry_photo_call, search_photos_call, fetch_artists_call,
  fetch_artist_detail_call, fetch_today_photos_call, fetch_week_photos_call,
  fetch_gallery_catalog_call, update_piece_metadata_call, bulk_edit_catalog_call,
  fetch_photo_detail_call, get_favorite_status_call, add_to_favorites_call,
  remove_from_favorites_call, create_piece_call, fetch_inbox_call, fetch_inbox_counts_call,
  dismiss_inbox_item_call, keep_inbox_item_call, skip_inbox_item_call,
  move_inbox_item_to_folio_call,
}
use ok_folio.Api.Stats.{
  fetch_stats, fetch_runs, fetch_health, trigger_extraction, trigger_page_extraction,
  trigger_pages_extraction, fetch_worker_status, fetch_connector_status, fetch_timeline,
  fetch_top_artists, fetch_run_photos,
}
use ok_folio.Api.Sources.{
  fetch_connector_sources, create_connector_source, preview_connector_source,
  update_connector_source, delete_connector_source, backfill_connector_source,
}
use ok_folio.Api.Folios.{
  fetch_folios, fetch_folio_pieces, create_folio, update_folio, delete_folio, add_piece_to_folio,
  remove_piece_from_folio, fetch_photo_folios,
}
use ok_folio.Api.Photos.{
  fetch_failed_photos, retry_photo, search_photos, fetch_artists, fetch_artist_detail,
  fetch_today_photos, fetch_week_photos, fetch_gallery_catalog, update_piece_metadata,
  bulk_edit_catalog, fetch_photo_detail, get_favorite_status, add_to_favorites,
  remove_from_favorites, create_piece,
}
use ok_folio.Api.Inbox.{
  fetch_inbox, fetch_inbox_counts, dismiss_inbox_item, keep_inbox_item, skip_inbox_item,
  move_inbox_item_to_folio,
}

abbrev is_get : Method → Bool
is_get get = true
is_get _ = false

abbrev is_preview : ApiCall → Bool
is_preview (source (preview_connector_source_call input)) = true
is_preview _ = false

-- The calls that change what the server has: all but the GETs and the preview of a source.
unfoldable pub changes_server : ApiCall → Bool
unfolding exchange_of
changes_server c = not (is_get (exchange_of c).request.method) && not (is_preview c)

abbrev clears_get : OnOk → Bool
clears_get read = false
clears_get (clear names) = lists_cache api_get names
clears_get (read_then_clear names) = lists_cache api_get names

stats_clears : (c : StatsCall) → clears_get (exchange_of (stats c)).on_ok ≡ changes_server (stats c)
unfolding exchange_of changes_server stats_exchange fetch_stats fetch_runs fetch_health
    trigger_extraction trigger_page_extraction trigger_pages_extraction fetch_worker_status
    fetch_connector_status fetch_timeline fetch_top_artists fetch_run_photos
stats_clears fetch_stats_call = refl
stats_clears (fetch_runs_call a) = refl
stats_clears fetch_health_call = refl
stats_clears trigger_extraction_call = refl
stats_clears (trigger_page_extraction_call a) = refl
stats_clears (trigger_pages_extraction_call a) = refl
stats_clears fetch_worker_status_call = refl
stats_clears fetch_connector_status_call = refl
stats_clears (fetch_timeline_call a) = refl
stats_clears (fetch_top_artists_call a) = refl
stats_clears (fetch_run_photos_call a b c) = refl

source_clears :
    (c : SourceCall) → clears_get (exchange_of (source c)).on_ok ≡ changes_server (source c)
unfolding exchange_of changes_server source_exchange fetch_connector_sources create_connector_source
    preview_connector_source update_connector_source delete_connector_source
    backfill_connector_source
source_clears (fetch_connector_sources_call a) = refl
source_clears (create_connector_source_call a) = refl
source_clears (preview_connector_source_call a) = refl
source_clears (update_connector_source_call a b) = refl
source_clears (delete_connector_source_call a) = refl
source_clears (backfill_connector_source_call a) = refl

folio_clears : (c : FolioCall) → clears_get (exchange_of (folio c)).on_ok ≡ changes_server (folio c)
unfolding exchange_of changes_server folio_exchange fetch_folios fetch_folio_pieces create_folio
    update_folio delete_folio add_piece_to_folio remove_piece_from_folio fetch_photo_folios
folio_clears fetch_folios_call = refl
folio_clears (fetch_folio_pieces_call a b c) = refl
folio_clears (create_folio_call a b) = refl
folio_clears (update_folio_call a b c) = refl
folio_clears (delete_folio_call a) = refl
folio_clears (add_piece_to_folio_call a b) = refl
folio_clears (remove_piece_from_folio_call a b) = refl
folio_clears (fetch_photo_folios_call a) = refl

photo_clears : (c : PhotoCall) → clears_get (exchange_of (photo c)).on_ok ≡ changes_server (photo c)
unfolding exchange_of changes_server photo_exchange fetch_failed_photos retry_photo search_photos
    fetch_artists fetch_artist_detail fetch_today_photos fetch_week_photos fetch_gallery_catalog
    update_piece_metadata bulk_edit_catalog fetch_photo_detail get_favorite_status add_to_favorites
    remove_from_favorites create_piece
photo_clears (fetch_failed_photos_call a) = refl
photo_clears (retry_photo_call a) = refl
photo_clears (search_photos_call a b c) = refl
photo_clears (fetch_artists_call a b c) = refl
photo_clears (fetch_artist_detail_call a b c) = refl
photo_clears (fetch_today_photos_call a b) = refl
photo_clears (fetch_week_photos_call a b) = refl
photo_clears (fetch_gallery_catalog_call a b c) = refl
photo_clears (update_piece_metadata_call a b) = refl
photo_clears (bulk_edit_catalog_call a) = refl
photo_clears (fetch_photo_detail_call a) = refl
photo_clears (get_favorite_status_call a) = refl
photo_clears (add_to_favorites_call a) = refl
photo_clears (remove_from_favorites_call a) = refl
photo_clears (create_piece_call a) = refl

inbox_clears : (c : InboxCall) → clears_get (exchange_of (inbox c)).on_ok ≡ changes_server (inbox c)
unfolding exchange_of changes_server inbox_exchange fetch_inbox fetch_inbox_counts
    dismiss_inbox_item keep_inbox_item skip_inbox_item move_inbox_item_to_folio
inbox_clears (fetch_inbox_call a b c) = refl
inbox_clears fetch_inbox_counts_call = refl
inbox_clears (dismiss_inbox_item_call a) = refl
inbox_clears (keep_inbox_item_call a) = refl
inbox_clears (skip_inbox_item_call a) = refl
inbox_clears (move_inbox_item_to_folio_call a b c) = refl

call_clears : (c : ApiCall) → clears_get (exchange_of c).on_ok ≡ changes_server c
call_clears (stats c) = stats_clears c
call_clears (source c) = source_clears c
call_clears (folio c) = folio_clears c
call_clears (photo c) = photo_clears c
call_clears (inbox c) = inbox_clears c

-- What is left of the cache of GET responses by a success: nothing, unless there are no caches or
-- this one refuses.
abbrev pub IsCleared : Caches → Caches → Type 0
IsCleared before after =
    (after.held api_get ≡ false) ⊎ ((before.available ≡ false) ⊎ (before.refuses api_get ≡ true))

clear-IsCleared :
    (names : List CacheName) (s : Caches)
    → lists_cache api_get names ≡ true
    → IsCleared s (clear_offline_caches names s)
unfolding clear_offline_caches
clear-IsCleared names s listed = elim (Bool-cases s.available) [
  | inr off ↦ inr (inl off)
  | inl on ↦ elim (Bool-cases (s.refuses api_get)) [
    | inl stays ↦ inr (inr stays)
    | inr goes ↦ inl (ground arith)
  ]
]

module _ {A : Type 0} where
  body-IsCleared :
      (o : OnOk) (p : Payload A) (s : Caches) (v : Option A)
      → clears_get o ≡ true
      → (succeed_with_body o p s).0 ≡ resolved v
      → IsCleared s (succeed_with_body o p s).1
  unfolding succeed_with_body
  body-IsCleared read p s v listed e = absurd (ground arith)
  body-IsCleared (clear names) p s v listed e = clear-IsCleared names s listed
  body-IsCleared (read_then_clear names) (unreadable m) s v listed e = absurd (ground arith)
  body-IsCleared (read_then_clear names) (readable f a) s v listed e =
      clear-IsCleared names s listed

  exchange-IsCleared :
      (x : Exchange) (r : Response A) (s : Caches) (v : Option A)
      → clears_get x.on_ok ≡ true
      → (exchange x r s).0 ≡ resolved v
      → IsCleared s (exchange x r s).1
  unfolding exchange
  exchange-IsCleared x (unreachable m) s v listed e = absurd (ground arith)
  exchange-IsCleared x (answered status p) s v listed e = elim (Bool-cases (is_ok status)) [
    | inl ok ↦ rw (ok, exchange) (body-IsCleared x.on_ok p s v listed (rw (ok, exchange) at e))
    | inr failed ↦ absurd (ground arith)
  ]

  -- When a call that changes the server has succeeded, no GET response is left in the offline cache,
  -- unless the browser has no caches or refuses to delete this one.
  pub change-IsCleared :
      (c : ApiCall) (r : Response A) (s : Caches) (v : Option A)
      → changes_server c ≡ true
      → (exchange (exchange_of c) r s).0 ≡ resolved v
      → IsCleared s (exchange (exchange_of c) r s).1
  change-IsCleared c r s v change e =
      exchange-IsCleared (exchange_of c) r s v (call_clears c ∙ change) e

  body_kept :
      (o : OnOk) (p : Payload A) (s : Caches) (err : Thrown)
      → (succeed_with_body o p s).0 ≡ rejected err
      → (succeed_with_body o p s).1 ≡ s
  unfolding succeed_with_body
  body_kept read (unreadable m) s err e = refl
  body_kept read (readable f a) s err e = refl
  body_kept (clear names) p s err e = absurd (ground arith)
  body_kept (read_then_clear names) (unreadable m) s err e = refl
  body_kept (read_then_clear names) (readable f a) s err e = absurd (ground arith)

  -- An exchange whose promise is rejected, by the network, by the status or by a body that is no
  -- JSON, leaves the caches as they were.
  pub rejected_keeps_caches :
      (x : Exchange) (r : Response A) (s : Caches) (err : Thrown)
      → (exchange x r s).0 ≡ rejected err
      → (exchange x r s).1 ≡ s
  unfolding exchange
  rejected_keeps_caches x (unreachable m) s err e = refl
  rejected_keeps_caches x (answered status p) s err e = elim (Bool-cases (is_ok status)) [
    | inl ok ↦ rw (ok, exchange) (body_kept x.on_ok p s err (rw (ok, exchange) at e))
    | inr failed ↦ rw (failed, exchange)
  ]
