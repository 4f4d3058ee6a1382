-- ===== src/Destinations/Backfill.antt =====
-- dashboard/src/folio/DestinationControls.tsx: the loop of `runBackfill` against a server that
-- routes at most `BACKFILL_BATCH_SIZE` of the source's unrouted pieces at each request.
use ok_folio.Prelude.{
  ℕ, zero, suc, ◌+◌, ◌*◌, ◌<◌, ◌≤◌, some, ◌≡◌, refl, arith, leb, min, Bool-cases, inl, inr, subst,
}
use ok_folio.Actions.{Outcome, resolved, rejected}
use ok_folio.Destinations.{
  BackfillResult, backfill_batch_size, merge_backfill_result, backfill_loop,
}

-- What one request is documented to do, `unrouted` counting the pieces that still match.
abbrev pub RoutesBatch {ℓ} :
    {Server : Type ℓ} → (Server → ℕ) → Server → Outcome BackfillResult × Server → Type 0
RoutesBatch unrouted before (resolved batch, after) =
    (batch.matched ≡ min backfill_batch_size (unrouted before))
    × (unrouted after + batch.matched ≡ unrouted before)
RoutesBatch unrouted before (rejected err, after) = unrouted after ≡ unrouted before

-- A loop that ended without an error has matched every piece that was unrouted.
abbrev pub IsFull {ℓ} :
    {Server : Type ℓ} → (Server → ℕ) → ℕ → Outcome BackfillResult × Server → Type 0
IsFull unrouted all (resolved result, after) = (result.matched ≡ all) × (unrouted after ≡ 0)
IsFull unrouted all (rejected err, after) = Unit

module _ {ℓ} {Server : Type ℓ} (post : Server → Outcome BackfillResult × Server)
    (unrouted : Server → ℕ) where
  -- The loop from `server` ends, having matched what was unrouted.
  abbrev Ends : ℕ → BackfillResult → Server → Type ℓ
  Ends fuel total server =
      (end : Outcome BackfillResult × Server) × (backfill_loop post fuel total server ≡ some end)
      × IsFull unrouted (total.matched + unrouted server) end

  round-Ends :
      (fuel : ℕ) (total : BackfillResult) (server : Server) (answer : Outcome BackfillResult)
      → (post server).0 ≡ answer
      → RoutesBatch unrouted server (answer, (post server).1)
      → ((batch : BackfillResult)
          → backfill_batch_size + unrouted (post server).1 ≤ unrouted server
          → Ends fuel (merge_backfill_result total batch) (post server).1)
      → Ends (suc fuel) total server
  unfolding backfill_loop merge_backfill_result
  round-Ends fuel total server (rejected err) asked routes further =
      ((rejected err, (post server).1), rw (asked, backfill_loop) refl, tt)
  round-Ends fuel total server (resolved batch) asked (matched, left) further =
      elim (Bool-cases (leb backfill_batch_size batch.matched)) [
        | inl full ↦
            let (end, run, all) = further batch (ground arith) in
            let same : (merge_backfill_result total batch).matched + unrouted (post server).1
                ≡ total.matched + unrouted server =
              omega arith in
            (end, rw (asked, full, backfill_loop) run, subst (λ n. IsFull unrouted n end) same all)
        | inr last ↦ (
          (resolved (merge_backfill_result total batch), (post server).1),
          rw (asked, last, backfill_loop) refl,
          (ground arith, ground arith),
        )
      ]

  -- Against a server that routes a batch of the unrouted pieces, or all of them if they are fewer,
  -- at each request that it resolves, and none at one that it rejects: a loop with fuel for one
  -- round more than the full batches of the unrouted pieces ends, and unless a request fails it has
  -- matched each of them, on top of what it started from, and leaves none unrouted.
  pub backfill_loop_ends :
      (fuel : ℕ) (total : BackfillResult) (server : Server)
      → ((s : Server) → RoutesBatch unrouted s (post s))
      → unrouted server < backfill_batch_size * fuel
      → (end : Outcome BackfillResult × Server) × (backfill_loop post fuel total server ≡ some end)
        × IsFull unrouted (total.matched + unrouted server) end
  backfill_loop_ends zero total server routes enough = absurd (omega arith)
  backfill_loop_ends (suc fuel) total server routes enough =
      round-Ends fuel total server (post server).0 refl (routes server) (λ batch fewer.
        backfill_loop_ends fuel (merge_backfill_result total batch) (post server).1 routes
          (omega arith))
