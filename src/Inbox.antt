-- ===== src/Inbox.antt =====
-- dashboard/src/folio/Inbox.tsx: the dismissals with undo of the `Inbox` component. The browser's
-- pending timeouts are a map from the handle of each to the item that its callback commits.
-- `setTimeout` answers a positive handle, so the code's tests of a handle are tests of presence.
pub mod Runs
pub mod Timers
pub mod Tracking
pub mod Leaving
pub mod Keyed
pub mod Undone
pub mod Settled
pub mod Labels
mod Tests
use ok_folio.Prelude.{
  ℕ, List, [], ◌∷◌, ◌++◌, Option, none, some, Bool, true, false, ◌==◌, ◌&&◌, not, is_some, filter,
  if◌then◌else◌, IdMap, put, delete,
}
use ok_folio.Prelude.Entries.{Entries, lookup, assign, erase, values}
use ok_folio.Types.{InboxItem}
use ok_folio.Actions.{QueryKey, inbox, inbox_counts}

-- `sent` lists the ids of the skip requests, in their order; `skips` those with no answer yet, each
-- with its `restoreOnError`.
pub record InboxState : Type 0 where
  pub dismiss_timers : Entries ℕ
  pub pending_dismisses : Entries InboxItem
  pub mounted : Bool
  pub dismissed : IdMap InboxItem
  pub undo_item : Option InboxItem
  pub timeouts : IdMap InboxItem
  pub sent : List ℕ
  pub skips : List (InboxItem × Bool)
  pub invalidated : List QueryKey

abbrev pub clear_timeout : Option ℕ → IdMap InboxItem → IdMap InboxItem
clear_timeout none timeouts = timeouts
clear_timeout (some handle) timeouts = delete timeouts handle

-- `if (dismissTimers.current[id]) { window.clearTimeout(…); delete dismissTimers.current[id]; }`
unfoldable pub clear_dismiss_timer : ℕ → InboxState → InboxState
clear_dismiss_timer id s = record s {
  timeouts = clear_timeout (lookup id s.dismiss_timers) s.timeouts;
  dismiss_timers = erase id s.dismiss_timers;
}

-- The synchronous part of `commitDismiss`.
unfoldable pub commit_dismiss : InboxItem → Bool → InboxState → InboxState
unfolding clear_dismiss_timer
commit_dismiss item restore_on_error s = clear_dismiss_timer item.id (record s {
  pending_dismisses = erase item.id s.pending_dismisses;
  sent = s.sent ++ item.id ∷ [];
  skips = s.skips ++ (item, restore_on_error) ∷ [];
})

-- `handle` is what `setTimeout` answers.
unfoldable pub dismiss_with_undo : ℕ → InboxItem → InboxState → InboxState
dismiss_with_undo handle item s = record s {
  pending_dismisses = assign item.id item s.pending_dismisses;
  dismissed = put s.dismissed item.id item;
  undo_item = some item;
  timeouts = put (clear_timeout (lookup item.id s.dismiss_timers) s.timeouts) handle item;
  dismiss_timers = assign item.id handle s.dismiss_timers;
}

-- The callback of a timeout, which is no longer pending when it runs.
unfoldable pub fire : ℕ → InboxItem → InboxState → InboxState
unfolding commit_dismiss
fire handle item s = commit_dismiss item true (record s { timeouts = delete s.timeouts handle })

unfoldable pub undo_dismiss : InboxState → InboxState
unfolding clear_dismiss_timer
undo_dismiss s = elim s.undo_item [
  | none ↦ s
  | some item ↦
      let cleared = clear_dismiss_timer item.id s in
      record cleared {
        pending_dismisses = erase item.id s.pending_dismisses;
        dismissed = delete s.dismissed item.id;
        undo_item = none;
      }
]

-- `setUndoItem((current) => (current?.id === item.id ? null : current))`
unfoldable pub without_undo : ℕ → Option InboxItem → Option InboxItem
without_undo id none = none
without_undo id (some current) = if current.id == id then none else some current

-- The handler of `finally`.
unfoldable pub finish_skip : InboxItem → InboxState → InboxState
unfolding without_undo
finish_skip item s =
    if s.mounted then record s { undo_item = without_undo item.id s.undo_item } else s

unfoldable pub skip_resolved : InboxItem → InboxState → InboxState
unfolding finish_skip
skip_resolved item s =
    finish_skip item (record s { invalidated = s.invalidated ++ inbox ∷ inbox_counts ∷ [] })

unfoldable pub skip_rejected : InboxItem → Bool → InboxState → InboxState
unfolding finish_skip
skip_rejected item restore_on_error s = finish_skip item (record s {
  dismissed = if restore_on_error && s.mounted then delete s.dismissed item.id else s.dismissed;
})

-- `Object.values(dismissTimers.current).forEach((timer) => window.clearTimeout(timer))`
abbrev pub clear_timeouts : List ℕ → IdMap InboxItem → IdMap InboxItem
clear_timeouts [] timeouts = timeouts
clear_timeouts (handle ∷ l) timeouts = clear_timeouts l (delete timeouts handle)

-- `Object.values(pendingDismisses.current).forEach((item) => commitDismiss(item, false))`
unfoldable pub commit_all : List InboxItem → InboxState → InboxState
unfolding commit_dismiss
commit_all [] s = s
commit_all (item ∷ l) s = commit_all l (commit_dismiss item false s)

-- The cleanup of the effect.
unfoldable pub unmount : InboxState → InboxState
unfolding commit_all
unmount s =
    commit_all (values s.pending_dismisses)
      (record s { mounted = false; timeouts = clear_timeouts (values s.dismiss_timers) s.timeouts })

-- `items.filter((item) => !dismissed[item.id])`
unfoldable pub visible_items : InboxState → List InboxItem → List InboxItem
visible_items s = filter (λ item. not (is_some (s.dismissed item.id)))
