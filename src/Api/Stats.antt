-- ===== src/Api/Stats.antt =====
-- dashboard/src/api.ts: statistics, runs and the extraction jobs.
use ok_folio.Prelude.{ℕ, [], ◌∷◌}
use ok_folio.Prelude.Text.{codes}
use ok_folio.Prelude.Decimal.{decimal}
use ok_folio.Api.{
  post, no_body, Exchange, clear, fixed, under_base, get_request, get_with, send, query,
  both_caches, page_params,
}

unfoldable pub fetch_stats : Exchange
unfolding decimal
fetch_stats = query (get_request (under_base (codes "/stats" ∷ []))) (codes "Failed to fetch stats")

unfoldable pub fetch_runs : ℕ → Exchange
unfolding decimal
fetch_runs limit =
    query (get_request (under_base (codes "/runs?limit=" ∷ decimal limit ∷ [])))
      (codes "Failed to fetch runs")

-- The one address outside `API_BASE`.
unfoldable pub fetch_health : Exchange
fetch_health = query (get_request (codes "/health")) (codes "Failed to fetch health")

unfoldable pub trigger_extraction : Exchange
unfolding decimal
trigger_extraction = record {
  request = send post (under_base (codes "/extract" ∷ [])) no_body;
  on_ok = clear both_caches;
  on_error = fixed (codes "Failed to trigger extraction");
}

unfoldable pub trigger_page_extraction : ℕ → Exchange
unfolding decimal
trigger_page_extraction page = record {
  request = send post (under_base (codes "/extract/page/" ∷ decimal page ∷ [])) no_body;
  on_ok = clear both_caches;
  on_error = fixed (codes "Failed to trigger page extraction");
}

unfoldable pub trigger_pages_extraction : ℕ → Exchange
unfolding decimal
trigger_pages_extraction count = record {
  request = send post (under_base (codes "/extract/pages?count=" ∷ decimal count ∷ [])) no_body;
  on_ok = clear both_caches;
  on_error = fixed (codes "Failed to trigger pages extraction");
}

unfoldable pub fetch_worker_status : Exchange
unfolding decimal
fetch_worker_status =
    query (get_request (under_base (codes "/workers/status" ∷ [])))
      (codes "Failed to fetch worker status")

unfoldable pub fetch_connector_status : Exchange
unfolding decimal
fetch_connector_status =
    query (get_request (under_base (codes "/streams/connectors/status" ∷ [])))
      (codes "Failed to fetch connector status")

unfoldable pub fetch_timeline : ℕ → Exchange
unfolding decimal
fetch_timeline days =
    query (get_request (under_base (codes "/stats/timeline?days=" ∷ decimal days ∷ [])))
      (codes "Failed to fetch timeline")

unfoldable pub fetch_top_artists : ℕ → Exchange
unfolding decimal
fetch_top_artists limit =
    query (get_request (under_base (codes "/stats/artists/top?limit=" ∷ decimal limit ∷ [])))
      (codes "Failed to fetch top artists")

unfoldable pub fetch_run_photos : ℕ → ℕ → ℕ → Exchange
unfolding decimal
fetch_run_photos run_id limit offset =
    query
      (get_with (under_base (codes "/runs/" ∷ decimal run_id ∷ codes "/photos" ∷ []))
        (page_params limit offset))
      (codes "Failed to fetch run photos")
