-- ===== src/Actions/Store.antt =====
-- dashboard/src/folio/context.tsx: the state that the actions share, and its transitions. A pending
-- entry is a request whose promise has not settled; a timer is a `setTimeout` that will remove a
-- toast; `sent` and `invalidated` log the requests and the `invalidateQueries` calls.
use ok_folio.Prelude.{
  ℕ, ◌+◌, List, [], ◌∷◌, ◌++◌, Option, none, some, Bool, ◌==◌, not, filter, if◌then◌else◌, map,
}
use ok_folio.Prelude.Text.{Text}
use ok_folio.Toasts.{Toast, loading, add_toast, update_toast, dismiss_toast}
use ok_folio.Types.{CreatePieceInput, Folio}
use ok_folio.Actions.{Action, Outcome, resolved, rejected, QueryKey, Request, import_piece}
use ok_folio.Actions.Inbox.{dismiss_inbox, keep_inbox, skip_inbox, move_inbox_to_folio}
use ok_folio.Actions.Folios.{
  create_folio, rename_folio, change_folio_cover, delete_folio, add_piece_to_folio,
  remove_piece_from_folio,
}

-- One call of one of the provider's actions.
pub data Call : Type 0 where
  import_call : CreatePieceInput → Call
  dismiss_call keep_call skip_call : ℕ → Call
  move_call : ℕ → ℕ → Option ℕ → Call
  create_call : Text → Call
  rename_call : ℕ → Text → Call
  cover_call : ℕ → Option ℕ → Call
  delete_call : ℕ → Call
  add_call remove_call : ℕ → ℕ → Call

-- What the call's request resolves to, where the action reads it.
abbrev pub Response : Call → Type 0
Response (import_call input) = Bool
Response (create_call name) = Folio
Response (rename_call id name) = Folio
Response (cover_call id photo) = Folio
Response (add_call folio photo) = Bool
Response _ = Unit {0}

-- What the action's own promise resolves to.
abbrev pub Answer : Call → Type 0
Answer (create_call name) = Option Folio
Answer (rename_call id name) = Bool
Answer (delete_call id) = Bool
Answer _ = Unit {0}

unfoldable pub action : (c : Call) → Action (Response c) (Answer c)
unfolding import_piece dismiss_inbox keep_inbox skip_inbox move_inbox_to_folio create_folio
    rename_folio change_folio_cover delete_folio add_piece_to_folio remove_piece_from_folio
action (import_call input) = import_piece input
action (dismiss_call id) = dismiss_inbox id
action (keep_call id) = keep_inbox id
action (skip_call id) = skip_inbox id
action (move_call id folio photo) = move_inbox_to_folio id folio photo
action (create_call name) = create_folio name
action (rename_call id name) = rename_folio id name
action (cover_call id photo) = change_folio_cover id photo
action (delete_call id) = delete_folio id
action (add_call folio photo) = add_piece_to_folio folio photo
action (remove_call folio photo) = remove_piece_from_folio folio photo

pub record Store : Type 0 where
  pub toast_seq : ℕ
  pub toasts : List Toast
  pub pending : List (ℕ × Call)
  pub timers : List (ℕ × ℕ)
  pub sent : List Request
  pub invalidated : List QueryKey

abbrev pub initial : Store
initial = record {
  toast_seq = 0;
  toasts = [];
  pending = [];
  timers = [];
  sent = [];
  invalidated = [];
}

abbrev pub keys : {V : Type 0} → List (ℕ × V) → List ℕ
keys = map (λ p. p.0)

unfoldable pub forget : {V : Type 0} → ℕ → List (ℕ × V) → List (ℕ × V)
forget id = filter (λ p. not (p.0 == id))

unfoldable pub pending_call : ℕ → List (ℕ × Call) → Option Call
pending_call id [] = none
pending_call id ((j, c) ∷ l) = if j == id then some c else pending_call id l

-- The synchronous part of an action: the id, the loading toast, the request.
unfoldable pub begin : Call → Store → Store
unfolding add_toast
begin c s =
    let id = s.toast_seq + 1 in
    record s {
      toast_seq = id;
      toasts =
          add_toast
            (record {
              id = id;
              status = loading;
              title = (action c).loading_title;
              detail = (action c).loading_detail;
            })
            s.toasts;
      pending = (id, c) ∷ s.pending;
      sent = s.sent ++ (action c).request ∷ [];
    }

-- The `then` and `catch` handlers of the request that the toast `id` reports.
unfoldable pub settle : ℕ → (c : Call) → Outcome (Response c) → Store → Store
unfolding forget
settle id c (resolved r) s = record s {
  toasts = update_toast id ((action c).on_success r) s.toasts;
  pending = forget id s.pending;
  timers = (id, (action c).delay) ∷ s.timers;
  invalidated = s.invalidated ++ (action c).invalidates r;
}
settle id c (rejected err) s = record s {
  toasts = update_toast id ((action c).on_failure err) s.toasts;
  pending = forget id s.pending;
}

-- What the action's promise answers.
unfoldable pub answer : (c : Call) → Outcome (Response c) → Answer c
answer c (resolved r) = (action c).answer r
answer c (rejected err) = (action c).answer_failure

-- The timer that a success started.
unfoldable pub expire : ℕ → Store → Store
unfolding forget
expire id s = record s { toasts = dismiss_toast id s.toasts; timers = forget id s.timers }

-- `dismissToast`, from the button of the `Toaster`.
unfoldable pub dismiss : ℕ → Store → Store
dismiss id s = record s { toasts = dismiss_toast id s.toasts }
