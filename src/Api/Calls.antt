-- ===== src/Api/Calls.antt =====
-- dashboard/src/api.ts: every function that makes one exchange, as data. `Similar` has
-- `fetchGallerySimilar`, which keeps a set.
use ok_folio.Prelude.{ℕ, List, Option}
use ok_folio.Prelude.Text.{Text}
use ok_folio.Types.{CreatePieceInput}
use ok_folio.Metadata.{PieceMetadataPatch, BulkMetadataEdit}
use ok_folio.Api.{Exchange, Json}
use ok_folio.Api.Stats
use ok_folio.Api.Sources
use ok_folio.Api.Folios
use ok_folio.Api.Photos
use ok_folio.Api.Inbox

pub data StatsCall : Type 0 where
  fetch_stats_call : StatsCall
  fetch_runs_call : ℕ → StatsCall
  fetch_health_call : StatsCall
  trigger_extraction_call : StatsCall
  trigger_page_extraction_call : ℕ → StatsCall
  trigger_pages_extraction_call : ℕ → StatsCall
  fetch_worker_status_call : StatsCall
  fetch_connector_status_call : StatsCall
  fetch_timeline_call : ℕ → StatsCall
  fetch_top_artists_call : ℕ → StatsCall
  fetch_run_photos_call : ℕ → ℕ → ℕ → StatsCall

unfoldable pub stats_exchange : StatsCall → Exchange
unfolding Stats.fetch_stats Stats.fetch_runs Stats.fetch_health Stats.trigger_extraction
    Stats.trigger_page_extraction Stats.trigger_pages_extraction Stats.fetch_worker_status
    Stats.fetch_connector_status Stats.fetch_timeline Stats.fetch_top_artists Stats.fetch_run_photos
stats_exchange fetch_stats_call = Stats.fetch_stats
stats_exchange (fetch_runs_call a) = Stats.fetch_runs a
stats_exchange fetch_health_call = Stats.fetch_health
stats_exchange trigger_extraction_call = Stats.trigger_extraction
stats_exchange (trigger_page_extraction_call a) = Stats.trigger_page_extraction a
stats_exchange (trigger_pages_extraction_call a) = Stats.trigger_pages_extraction a
stats_exchange fetch_worker_status_call = Stats.fetch_worker_status
stats_exchange fetch_connector_status_call = Stats.fetch_connector_status
stats_exchange (fetch_timeline_call a) = Stats.fetch_timeline a
stats_exchange (fetch_top_artists_call a) = Stats.fetch_top_artists a
stats_exchange (fetch_run_photos_call a b c) = Stats.fetch_run_photos a b c

pub data SourceCall : Type 0 where
  fetch_connector_sources_call : Text → SourceCall
  create_connector_source_call : List (Text × Json) → SourceCall
  preview_connector_source_call : List (Text × Json) → SourceCall
  update_connector_source_call : ℕ → List (Text × Json) → SourceCall
  delete_connector_source_call : ℕ → SourceCall
  backfill_connector_source_call : ℕ → SourceCall

unfoldable pub source_exchange : SourceCall → Exchange
unfolding Sources.fetch_connector_sources Sources.create_connector_source
    Sources.preview_connector_source Sources.update_connector_source Sources.delete_connector_source
    Sources.backfill_connector_source
source_exchange (fetch_connector_sources_call a) = Sources.fetch_connector_sources a
source_exchange (create_connector_source_call a) = Sources.create_connector_source a
source_exchange (preview_connector_source_call a) = Sources.preview_connector_source a
source_exchange (update_connector_source_call a b) = Sources.update_connector_source a b
source_exchange (delete_connector_source_call a) = Sources.delete_connector_source a
source_exchange (backfill_connector_source_call a) = Sources.backfill_connector_source a

pub data FolioCall : Type 0 where
  fetch_folios_call : FolioCall
  fetch_folio_pieces_call : ℕ → ℕ → ℕ → FolioCall
  create_folio_call : Text → Option (Option ℕ) → FolioCall
  update_folio_call : ℕ → Option Text → Option (Option ℕ) → FolioCall
  delete_folio_call : ℕ → FolioCall
  add_piece_to_folio_call : ℕ → ℕ → FolioCall
  remove_piece_from_folio_call : ℕ → ℕ → FolioCall
  fetch_photo_folios_call : ℕ → FolioCall

unfoldable pub folio_exchange : FolioCall → Exchange
unfolding Folios.fetch_folios Folios.fetch_folio_pieces Folios.create_folio Folios.update_folio
    Folios.delete_folio Folios.add_piece_to_folio Folios.remove_piece_from_folio
    Folios.fetch_photo_folios
folio_exchange fetch_folios_call = Folios.fetch_folios
folio_exchange (fetch_folio_pieces_call a b c) = Folios.fetch_folio_pieces a b c
folio_exchange (create_folio_call a b) = Folios.create_folio a b
folio_exchange (update_folio_call a b c) = Folios.update_folio a b c
folio_exchange (delete_folio_call a) = Folios.delete_folio a
folio_exchange (add_piece_to_folio_call a b) = Folios.add_piece_to_folio a b
folio_exchange (remove_piece_from_folio_call a b) = Folios.remove_piece_from_folio a b
folio_exchange (fetch_photo_folios_call a) = Folios.fetch_photo_folios a

pub data PhotoCall : Type 0 where
  fetch_failed_photos_call : ℕ → PhotoCall
  retry_photo_call : ℕ → PhotoCall
  search_photos_call : Text → ℕ → ℕ → PhotoCall
  fetch_artists_call : ℕ → ℕ → Text → PhotoCall
  fetch_artist_detail_call : Text → ℕ → ℕ → PhotoCall
  fetch_today_photos_call : ℕ → ℕ → PhotoCall
  fetch_week_photos_call : ℕ → ℕ → PhotoCall
  fetch_gallery_catalog_call : ℕ → ℕ → Photos.GalleryFilters → PhotoCall
  update_piece_metadata_call : ℕ → PieceMetadataPatch → PhotoCall
  bulk_edit_catalog_call : BulkMetadataEdit → PhotoCall
  fetch_photo_detail_call : ℕ → PhotoCall
  get_favorite_status_call : ℕ → PhotoCall
  add_to_favorites_call : ℕ → PhotoCall
  remove_from_favorites_call : ℕ → PhotoCall
  create_piece_call : CreatePieceInput → PhotoCall

unfoldable pub photo_exchange : PhotoCall → Exchange
unfolding Photos.fetch_failed_photos Photos.retry_photo Photos.search_photos Photos.fetch_artists
    Photos.fetch_artist_detail Photos.fetch_today_photos Photos.fetch_week_photos
    Photos.fetch_gallery_catalog Photos.update_piece_metadata Photos.bulk_edit_catalog
    Photos.fetch_photo_detail Photos.get_favorite_status Photos.add_to_favorites
    Photos.remove_from_favorites Photos.create_piece
photo_exchange (fetch_failed_photos_call a) = Photos.fetch_failed_photos a
photo_exchange (retry_photo_call a) = Photos.retry_photo a
photo_exchange (search_photos_call a b c) = Photos.search_photos a b c
photo_exchange (fetch_artists_call a b c) = Photos.fetch_artists a b c
photo_exchange (fetch_artist_detail_call a b c) = Photos.fetch_artist_detail a b c
photo_exchange (fetch_today_photos_call a b) = Photos.fetch_today_photos a b
photo_exchange (fetch_week_photos_call a b) = Photos.fetch_week_photos a b
photo_exchange (fetch_gallery_catalog_call a b c) = Photos.fetch_gallery_catalog a b c
photo_exchange (update_piece_metadata_call a b) = Photos.update_piece_metadata a b
photo_exchange (bulk_edit_catalog_call a) = Photos.bulk_edit_catalog a
photo_exchange (fetch_photo_detail_call a) = Photos.fetch_photo_detail a
photo_exchange (get_favorite_status_call a) = Photos.get_favorite_status a
photo_exchange (add_to_favorites_call a) = Photos.add_to_favorites a
photo_exchange (remove_from_favorites_call a) = Photos.remove_from_favorites a
photo_exchange (create_piece_call a) = Photos.create_piece a

pub data InboxCall : Type 0 where
  fetch_inbox_call : Text → ℕ → ℕ → InboxCall
  fetch_inbox_counts_call : InboxCall
  dismiss_inbox_item_call : ℕ → InboxCall
  keep_inbox_item_call : ℕ → InboxCall
  skip_inbox_item_call : ℕ → InboxCall
  move_inbox_item_to_folio_call : ℕ → ℕ → Option ℕ → InboxCall

unfoldable pub inbox_exchange : InboxCall → Exchange
unfolding Inbox.fetch_inbox Inbox.fetch_inbox_counts Inbox.dismiss_inbox_item Inbox.keep_inbox_item
    Inbox.skip_inbox_item Inbox.move_inbox_item_to_folio
inbox_exchange (fetch_inbox_call a b c) = Inbox.fetch_inbox a b c
inbox_exchange fetch_inbox_counts_call = Inbox.fetch_inbox_counts
inbox_exchange (dismiss_inbox_item_call a) = Inbox.dismiss_inbox_item a
inbox_exchange (keep_inbox_item_call a) = Inbox.keep_inbox_item a
inbox_exchange (skip_inbox_item_call a) = Inbox.skip_inbox_item a
inbox_exchange (move_inbox_item_to_folio_call a b c) = Inbox.move_inbox_item_to_folio a b c

pub data ApiCall : Type 0 where
  stats : StatsCall → ApiCall
  source : SourceCall → ApiCall
  folio : FolioCall → ApiCall
  photo : PhotoCall → ApiCall
  inbox : InboxCall → ApiCall

unfoldable pub exchange_of : ApiCall → Exchange
unfolding stats_exchange source_exchange folio_exchange photo_exchange inbox_exchange
exchange_of (stats c) = stats_exchange c
exchange_of (source c) = source_exchange c
exchange_of (folio c) = folio_exchange c
exchange_of (photo c) = photo_exchange c
exchange_of (inbox c) = inbox_exchange c
