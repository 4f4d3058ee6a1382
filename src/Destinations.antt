-- ===== src/Destinations.antt =====
-- dashboard/src/folio/DestinationControls.tsx: the destination of a stream source, the creation of a
-- folio from its form, and the backfill in batches. The server behind `backfillConnectorSource`
-- is a parameter: what it answers in a state, and its next state.
pub mod Backfill
mod Tests
use ok_folio.Prelude.{
  ℕ, zero, suc, ◌+◌, List, [], ◌∷◌, ◌++◌, Option, none, some, Bool, true, false, ◌==◌, ◌||◌, ◌&&◌,
  not, leb, first_some, or_else, is_some, is_nil, if◌then◌else◌,
}
use ok_folio.Prelude.Text.{Text, codes, trim}
use ok_folio.Types.{Folio}
use ok_folio.Actions.{
  Outcome, resolved, rejected, Thrown, QueryKey, folios, connector_sources, folio_catalog,
  all_folio_pieces,
}

pub record BackfillResult : Type 0 where
  pub matched : ℕ
  pub updated : ℕ
  pub added_to_folio : ℕ
  pub target_folio_id : Option ℕ
  pub show_in_library : Bool

abbrev pub backfill_batch_size : ℕ
backfill_batch_size = 1000

abbrev pub empty_backfill_result : BackfillResult
empty_backfill_result = record {
  matched = 0;
  updated = 0;
  added_to_folio = 0;
  target_folio_id = none;
  show_in_library = true;
}

unfoldable pub merge_backfill_result : BackfillResult → BackfillResult → BackfillResult
merge_backfill_result total next = record {
  matched = total.matched + next.matched;
  updated = total.updated + next.updated;
  added_to_folio = total.added_to_folio + next.added_to_folio;
  target_folio_id = first_some next.target_folio_id total.target_folio_id;
  show_in_library = next.show_in_library;
}

unfoldable pub destination_gate_message : Option ℕ → Bool → Text
destination_gate_message target_folio_id show_in_library =
    if not show_in_library && not (is_some target_folio_id)
    then codes "Select a target folio before hiding pieces from the gallery."
    else []

-- What the controls keep; `invalidated` lists the queries refreshed.
pub record DestinationState : Type 0 where
  pub new_folio_name : Text
  pub create_error : Text
  pub creating : Bool
  pub backfill_status : Text
  pub backfilling : Bool
  pub confirm_backfill_open : Bool
  pub folio_list : Option (List Folio)
  pub target : Option ℕ
  pub invalidated : List QueryKey

-- The synchronous part of `create`, with the name it sends, if any.
unfoldable pub begin_create : DestinationState → DestinationState × Option Text
begin_create s =
    let name = trim s.new_folio_name in
    if is_nil name then (s, none) else (record s { create_error = []; creating = true }, some name)

abbrev has_folio : ℕ → List Folio → Bool
has_folio id [] = false
has_folio id (f ∷ l) = f.id == id || has_folio id l

-- The cached list with the new folio.
unfoldable pub with_folio : Folio → Option (List Folio) → List Folio
with_folio folio none = folio ∷ []
with_folio folio (some current) =
    if has_folio folio.id current then current else current ++ folio ∷ []

unfoldable pub end_create : Outcome Folio → DestinationState → DestinationState
unfolding with_folio
end_create (resolved folio) s = record s {
  folio_list = some (with_folio folio s.folio_list);
  target = some folio.id;
  new_folio_name = [];
  creating = false;
  invalidated = s.invalidated ++ folios ∷ [];
}
end_create (rejected err) s = record s {
  create_error = or_else err (codes "Failed to create folio");
  creating = false;
}

-- `sourceId` is falsy where it is absent or 0.
abbrev no_source : Option ℕ → Bool
no_source source_id = or_else source_id 0 == 0

unfoldable pub backfill_disabled : Bool → Option ℕ → Bool → DestinationState → Bool
backfill_disabled disabled source_id can_backfill s =
    disabled || s.backfilling || no_source source_id || not can_backfill

unfoldable pub request_backfill : Bool → Option ℕ → Bool → DestinationState → DestinationState
unfolding backfill_disabled
request_backfill disabled source_id can_backfill s =
    if backfill_disabled disabled source_id can_backfill s
    then s
    else record s { confirm_backfill_open = true }

-- Whether `runBackfill` enters its loop, and the state in which it does.
unfoldable pub begin_backfill : Bool → Option ℕ → Bool → DestinationState → Option DestinationState
unfolding backfill_disabled
begin_backfill disabled source_id can_backfill s =
    if no_source source_id || backfill_disabled disabled source_id can_backfill s
    then none
    else some (record s { backfill_status = codes "Backfilling..."; backfilling = true })

-- The loop `do … while (batch.matched >= BACKFILL_BATCH_SIZE)`; `none` where `fuel` runs out.
unfoldable pub backfill_loop {ℓ} :
    {Server : Type ℓ}
    → (Server → Outcome BackfillResult × Server)
    → ℕ
    → BackfillResult
    → Server
    → Option (Outcome BackfillResult × Server)
unfolding merge_backfill_result
backfill_loop post zero result server = none
backfill_loop post (suc fuel) result server = elim (post server).0 [
  | rejected err ↦ some (rejected err, (post server).1)
  | resolved batch ↦ elim (leb backfill_batch_size batch.matched) [
    | true ↦ backfill_loop post fuel (merge_backfill_result result batch) (post server).1
    | false ↦ some (resolved (merge_backfill_result result batch), (post server).1)
  ]
]

-- What follows the loop; `locale` is `toLocaleString`.
unfoldable pub end_backfill :
    (ℕ → Text) → Outcome BackfillResult → DestinationState → DestinationState
end_backfill locale (resolved result) s = record s {
  backfill_status = codes "Added " ++ (locale result.added_to_folio ++ codes " existing pieces");
  backfilling = false;
  invalidated = s.invalidated ++ folios ∷ connector_sources ∷ folio_catalog ∷ all_folio_pieces ∷ [];
}
end_backfill locale (rejected err) s = record s {
  backfill_status = or_else err (codes "Backfill failed");
  backfilling = false;
}
