-- ===== src/Inbox/Tracking.antt =====
-- dashboard/src/folio/Inbox.tsx: the clicks, the timeouts and the answers keep the dismissals in
-- order.
use ok_folio.Prelude.{
  ℕ, List, [], ◌∷◌, none, some, Bool, true, ◌≡◌, arith, inl, inr, elem-append, Bool-cases,
  Option-cases,
}
use ok_folio.Prelude.Entries.{lookup-erase, lookup-assign}
use ok_folio.Types.{InboxItem}
use ok_folio.Inbox.{
  InboxState, dismiss_with_undo, fire, undo_dismiss, skip_resolved, skip_rejected, commit_dismiss,
  clear_dismiss_timer, finish_skip,
}
use ok_folio.Inbox.Timers.{cleared-IsTimed, set-IsTimed, fired-IsTimed}
use ok_folio.Inbox.Runs.{IsTracked, answered}

pub dismiss_with_undo-IsTracked :
    (handle : ℕ) (item : InboxItem) (s : InboxState)
    → IsTracked s
    → s.mounted ≡ true
    → s.timeouts handle ≡ none
    → IsTracked (dismiss_with_undo handle item s)
unfolding dismiss_with_undo
dismiss_with_undo-IsTracked handle item s k up fresh = record {
  timers = set-IsTimed item handle k.timers fresh;
  hidden = λ j held hid.
      ground (arith, lookup-assign j item.id item s.pending_dismisses, k.hidden j held);
  quiet = λ down h. ground arith;
}

pub fire-IsTracked :
    (handle : ℕ) (item : InboxItem) (s : InboxState)
    → IsTracked s
    → s.timeouts handle ≡ some item
    → IsTracked (fire handle item s)
unfolding fire commit_dismiss clear_dismiss_timer
fire-IsTracked handle item s k live = record {
  timers = fired-IsTimed handle item k.timers live;
  hidden = λ j held hid. ground (
    arith,
    lookup-erase j item.id s.pending_dismisses,
    elem-append j s.sent (item.id ∷ []),
    k.hidden j held hid,
  );
  quiet = λ down h. ground (arith, k.quiet down handle);
}

pub undo_dismiss-IsTracked :
    (s : InboxState) → IsTracked s → s.mounted ≡ true → IsTracked (undo_dismiss s)
unfolding undo_dismiss clear_dismiss_timer
undo_dismiss-IsTracked s k up = elim (Option-cases s.undo_item) [
  | inl nothing ↦ rw (nothing, undo_dismiss) k
  | inr (item, shown) ↦
      rw (shown, undo_dismiss)
        (record {
          timers = cleared-IsTimed item.id k.timers;
          hidden = λ j held hid.
              ground (arith, lookup-erase j item.id s.pending_dismisses, k.hidden j held);
          quiet = λ down h. ground arith;
        })
]

-- An answer only shows items again and takes away the offer to undo.
finish_skip-IsTracked :
    (item : InboxItem) (s : InboxState) → IsTracked s → IsTracked (finish_skip item s)
unfolding finish_skip
finish_skip-IsTracked item s k = elim (Bool-cases s.mounted) [
  | inl up ↦
      rw (up, finish_skip)
        (record { timers = k.timers; hidden = k.hidden; quiet = λ down. ground arith })
  | inr down ↦ simp (down, finish_skip) k
]

pub skip_resolved-IsTracked :
    (item : InboxItem) (rest : List (InboxItem × Bool)) (s : InboxState)
    → IsTracked s
    → IsTracked (skip_resolved item (answered rest s))
unfolding skip_resolved
skip_resolved-IsTracked item rest s k =
    finish_skip-IsTracked item _ (record { timers = k.timers; hidden = k.hidden; quiet = k.quiet })

pub skip_rejected-IsTracked :
    (item : InboxItem) (restore_on_error : Bool) (rest : List (InboxItem × Bool)) (s : InboxState)
    → IsTracked s
    → IsTracked (skip_rejected item restore_on_error (answered rest s))
unfolding skip_rejected
skip_rejected-IsTracked item restore_on_error rest s k = finish_skip-IsTracked item _ (record {
  timers = k.timers;
  hidden = λ j held hid. ground (arith, k.hidden j held);
  quiet = k.quiet;
})
