-- ===== src/Inbox/Runs.antt =====
-- dashboard/src/folio/Inbox.tsx: every run of the dismissals, as a relation over the user's
-- clicks, the timeouts that fire, the answers to the skip requests and the end of the screen.
use ok_folio.Prelude.{
  ℕ, List, [], ◌∷◌, ◌++◌, none, some, Bool, true, false, ◌≡◌, ◌||◌, is_some, elem, empty,
}
use ok_folio.Prelude.Entries.{lookup}
use ok_folio.Types.{InboxItem}
use ok_folio.Inbox.{
  InboxState, dismiss_with_undo, fire, undo_dismiss, skip_resolved, skip_rejected, unmount,
}
use ok_folio.Inbox.Timers.{IsTimed}

-- The state with one of its unanswered skip requests removed.
abbrev pub answered : List (InboxItem × Bool) → InboxState → InboxState
answered rest s = record s { skips = rest }

-- The browser gives a timeout a handle that no pending one has.
pub data Step : InboxState → InboxState → Type 0 where
  dismissed :
      (handle : ℕ) (item : InboxItem) (s : InboxState)
      → s.mounted ≡ true
      → s.timeouts handle ≡ none
      → Step s (dismiss_with_undo handle item s)
  undone : (s : InboxState) → s.mounted ≡ true → Step s (undo_dismiss s)
  fired :
      (handle : ℕ) (item : InboxItem) (s : InboxState)
      → s.timeouts handle ≡ some item
      → Step s (fire handle item s)
  resolved :
      (before after : List (InboxItem × Bool)) (item : InboxItem) (restore_on_error : Bool)
      (s : InboxState)
      → s.skips ≡ before ++ (item, restore_on_error) ∷ after
      → Step s (skip_resolved item (answered (before ++ after) s))
  rejected :
      (before after : List (InboxItem × Bool)) (item : InboxItem) (restore_on_error : Bool)
      (s : InboxState)
      → s.skips ≡ before ++ (item, restore_on_error) ∷ after
      → Step s (skip_rejected item restore_on_error (answered (before ++ after) s))
  left : (s : InboxState) → s.mounted ≡ true → Step s (unmount s)

pub data Reach (s : InboxState) : InboxState → Type 0 where
  here : Reach s s
  next : {t u : InboxState} → Reach s t → Step t u → Reach s u

-- The screen when it mounts.
abbrev pub opened : InboxState
opened = record {
  dismiss_timers = [];
  pending_dismisses = [];
  mounted = true;
  dismissed = empty;
  undo_item = none;
  timeouts = empty;
  sent = [];
  skips = [];
  invalidated = [];
}

-- The timers agree, a hidden item is pending or its skip request was made, and a screen that is
-- left has no timeout.
pub record IsTracked (s : InboxState) : Type 0 where
  pub timers : IsTimed s.dismiss_timers s.timeouts s.pending_dismisses
  pub hidden :
      (j : ℕ) (item : InboxItem)
      → s.dismissed j ≡ some item
      → (is_some (lookup j s.pending_dismisses) || elem j s.sent) ≡ true
  pub quiet : s.mounted ≡ false → (h : ℕ) → s.timeouts h ≡ none
