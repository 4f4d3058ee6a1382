-- ===== src/Destinations/Tests.antt =====
-- Runs of the destination controls.
use ok_folio.Prelude.{ℕ, ◌-◌, [], ◌∷◌, none, some, true, false, ◌≡◌, refl, arith, min, length}
use ok_folio.Prelude.Text.{codes, trim}
use ok_folio.Prelude.Decimal.{decimal}
use ok_folio.Types.{Folio}
use ok_folio.Actions.{Outcome, resolved}
use ok_folio.Destinations.{
  BackfillResult, backfill_batch_size, empty_backfill_result, backfill_loop, merge_backfill_result,
  destination_gate_message, DestinationState, begin_create, end_create, with_folio,
  backfill_disabled, begin_backfill, end_backfill, request_backfill,
}
use ok_folio.Destinations.Backfill.{RoutesBatch, IsFull, backfill_loop_ends}

-- A server that is the number of the pieces still unrouted.
abbrev counting : ℕ → Outcome BackfillResult × ℕ
counting unrouted = (
  resolved (record empty_backfill_result {
    matched = min backfill_batch_size unrouted;
    added_to_folio = 1;
  }),
  unrouted - min backfill_batch_size unrouted,
)

counting-RoutesBatch : (s : ℕ) → RoutesBatch (λ n. n) s (counting s)
counting-RoutesBatch s = (refl, omega arith)

backfill_loop_ends_example :
    (end : Outcome BackfillResult × ℕ) × (backfill_loop counting 3 empty_backfill_result 2500
      ≡ some end)
    × IsFull (λ n. n) 2500 end
backfill_loop_ends_example =
    backfill_loop_ends counting (λ n. n) 3 empty_backfill_result 2500 counting-RoutesBatch
      (omega arith)

-- A source with exactly one full batch takes a second, empty round.
exact_batch :
    backfill_loop counting 2 empty_backfill_result 1000
    ≡ some (resolved (record empty_backfill_result { matched = 1000; added_to_folio = 2 }), 0)
unfolding backfill_loop merge_backfill_result
exact_batch = refl

gate :
    (destination_gate_message none true ≡ []) × (length (destination_gate_message none false) ≡ 60)
unfolding destination_gate_message
gate = (refl, refl)

abbrev shelf : ℕ → Folio
shelf id = record {
  id = id;
  name = codes "Herons";
  cover_photo_id = none;
  piece_count = 0;
  created_at = [];
  updated_at = [];
}

abbrev controls : DestinationState
controls = record {
  new_folio_name = codes " Herons ";
  create_error = [];
  creating = false;
  backfill_status = [];
  backfilling = false;
  confirm_backfill_open = false;
  folio_list = some (shelf 1 ∷ []);
  target = none;
  invalidated = [];
}

named : (begin_create controls).1 ≡ some (codes "Herons")
unfolding begin_create trim
named = refl

created : (end_create (resolved (shelf 2)) controls).folio_list ≡ some (shelf 1 ∷ shelf 2 ∷ [])
unfolding end_create with_folio
created = refl

created_again : (end_create (resolved (shelf 1)) controls).folio_list ≡ some (shelf 1 ∷ [])
unfolding end_create with_folio
created_again = refl

guarded :
    (begin_backfill false (some 0) true controls ≡ none)
    × ((request_backfill false (some 3) true controls).confirm_backfill_open ≡ true)
unfolding begin_backfill request_backfill backfill_disabled
guarded = (refl, refl)

summary :
    (end_backfill decimal
      (resolved (record empty_backfill_result { added_to_folio = 7 }))
      controls).backfill_status
    ≡ codes "Added 7 existing pieces"
unfolding end_backfill decimal
summary = refl
