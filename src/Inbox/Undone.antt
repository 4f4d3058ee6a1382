-- ===== src/Inbox/Undone.antt =====
-- dashboard/src/folio/Inbox.tsx: `undoDismiss`, and the runs that follow it.
use ok_folio.Prelude.{
  ℕ, List, [], ◌∷◌, ◌++◌, Option, none, some, Bool, true, false, ◌==◌, ◌≡◌, arith, inl, inr, elem,
  elem-append, ◌&&◌, Bool-cases, Option-cases, if◌then◌else◌, IdMap, delete,
}
use ok_folio.Prelude.Entries.{lookup, lookup-erase, values}
use ok_folio.Types.{InboxItem}
use ok_folio.Actions.{inbox, inbox_counts}
use ok_folio.Inbox.{
  InboxState, unmount, undo_dismiss, skip_resolved, skip_rejected, finish_skip, clear_dismiss_timer,
  fire, dismiss_with_undo, commit_dismiss, commit_all, clear_timeout, clear_timeouts,
}
use ok_folio.Inbox.Timers.{cleared-IsTimed}
use ok_folio.Inbox.Runs.{Reach, Step, opened, answered}
use ok_folio.Inbox.Leaving.{ids}
use ok_folio.Inbox.Keyed.{Reach-Keyed, elem-ids-erased, elem-ids-erase, elem-ids-assign}
use ok_folio.Inbox.Settled.{Reach-IsTracked}

-- The step does not dismiss the item `id`.
abbrev Avoids : {s t : InboxState} → ℕ → Step s t → Type 0
Avoids id (Step.dismissed handle item s up fresh) = (item.id == id) ≡ false
Avoids id _ = Unit

-- The runs in which the item `id` is not dismissed.
pub data Run (id : ℕ) (s : InboxState) : InboxState → Type 0 where
  start : Run id s s
  more : {t u : InboxState} → Run id s t → (step : Step t u) → Avoids id step → Run id s u

-- The item `id` is shown, it was never sent, and nothing is under way that would send it.
record IsSpared (id : ℕ) (s : InboxState) : Type 0 where
  unsent : elem id s.sent ≡ false
  unpending : elem id (ids (values s.pending_dismisses)) ≡ false
  untimed : (h : ℕ) (other : InboxItem) → s.timeouts h ≡ some other → (other.id == id) ≡ false
  shown : s.dismissed id ≡ none

kept_timeout :
    (o : Option ℕ) (timeouts : IdMap InboxItem) (h : ℕ) (other : InboxItem)
    → clear_timeout o timeouts h ≡ some other
    → timeouts h ≡ some other
kept_timeout none timeouts h other live = live
kept_timeout (some handle) timeouts h other live = ground arith

commit_dismiss-IsSpared :
    (id : ℕ) (item : InboxItem) (restore_on_error : Bool) (s : InboxState)
    → IsSpared id s
    → (item.id == id) ≡ false
    → IsSpared id (commit_dismiss item restore_on_error s)
unfolding commit_dismiss clear_dismiss_timer
commit_dismiss-IsSpared id item restore_on_error s k o = record {
  unsent = ground (arith, elem-append id s.sent (item.id ∷ []), k.unsent);
  unpending = elem-ids-erase id item.id s.pending_dismisses k.unpending;
  untimed = λ h other live.
      k.untimed h other (kept_timeout (lookup item.id s.dismiss_timers) s.timeouts h other live);
  shown = k.shown;
}

commit_all-IsSpared :
    (id : ℕ) (l : List InboxItem) (s : InboxState)
    → IsSpared id s
    → elem id (ids l) ≡ false
    → IsSpared id (commit_all l s)
unfolding commit_all
commit_all-IsSpared id [] s k o = k
commit_all-IsSpared id (item ∷ l) s k o =
    commit_all-IsSpared id l (commit_dismiss item false s)
      (commit_dismiss-IsSpared id item false s k (ground arith)) (ground arith)

finish_skip-IsSpared :
    (id : ℕ) (item : InboxItem) (s : InboxState) → IsSpared id s → IsSpared id (finish_skip item s)
unfolding finish_skip
finish_skip-IsSpared id item s k = elim (Bool-cases s.mounted) [
  | inl up ↦
      simp (up, finish_skip)
        (record {
          unsent = k.unsent;
          unpending = k.unpending;
          untimed = k.untimed;
          shown = k.shown;
        })
  | inr down ↦ simp (down, finish_skip) k
]

skip_resolved-IsSpared :
    (id : ℕ) (item : InboxItem) (s : InboxState)
    → IsSpared id s
    → IsSpared id (skip_resolved item s)
unfolding skip_resolved
skip_resolved-IsSpared id item s k =
    finish_skip-IsSpared id item
      (record s { invalidated = s.invalidated ++ inbox ∷ inbox_counts ∷ [] })
      (record { unsent = k.unsent; unpending = k.unpending; untimed = k.untimed; shown = k.shown })

skip_rejected-IsSpared :
    (id : ℕ) (item : InboxItem) (restore_on_error : Bool) (s : InboxState)
    → IsSpared id s
    → IsSpared id (skip_rejected item restore_on_error s)
unfolding skip_rejected
skip_rejected-IsSpared id item restore_on_error s k =
    let remaining : IdMap InboxItem =
      if restore_on_error && s.mounted then delete s.dismissed item.id else s.dismissed in
    let still_shown : remaining id ≡ none = ground (arith, k.shown) in
    finish_skip-IsSpared id item (record s { dismissed = remaining })
      (record {
        unsent = k.unsent;
        unpending = k.unpending;
        untimed = k.untimed;
        shown = still_shown;
      })

undo_dismiss-IsSpared : (id : ℕ) (s : InboxState) → IsSpared id s → IsSpared id (undo_dismiss s)
unfolding undo_dismiss clear_dismiss_timer
undo_dismiss-IsSpared id s k = elim (Option-cases s.undo_item) [
  | inl nothing ↦ simp (nothing, undo_dismiss) k
  | inr (item, offered) ↦
      simp (offered, undo_dismiss)
        (record {
          unsent = k.unsent;
          unpending = elem-ids-erase id item.id s.pending_dismisses k.unpending;
          untimed = λ h other live.
              k.untimed h other
                (kept_timeout (lookup item.id s.dismiss_timers) s.timeouts h other live);
          shown = ground (arith, k.shown);
        })
]

clear_timeouts_kept :
    (l : List ℕ) (timeouts : IdMap InboxItem) (h : ℕ) (other : InboxItem)
    → clear_timeouts l timeouts h ≡ some other
    → timeouts h ≡ some other
clear_timeouts_kept [] timeouts h other live = live
clear_timeouts_kept (x ∷ l) timeouts h other live =
    kept_timeout (some x) timeouts h other (clear_timeouts_kept l (delete timeouts x) h other live)

Step-IsSpared :
    (id : ℕ) {s t : InboxState} (step : Step s t) → Avoids id step → IsSpared id s → IsSpared id t
unfolding dismiss_with_undo fire skip_resolved skip_rejected unmount
Step-IsSpared id (Step.dismissed handle item s up fresh) o k = record {
  unsent = k.unsent;
  unpending = elem-ids-assign id item s.pending_dismisses o k.unpending;
  untimed = λ h other live.
      ground (
        arith,
        k.untimed h other,
        kept_timeout (lookup item.id s.dismiss_timers) s.timeouts h other,
      );
  shown = ground (arith, k.shown);
}
Step-IsSpared id (Step.undone s up) o k = undo_dismiss-IsSpared id s k
Step-IsSpared id (Step.fired handle item s live) o k =
    commit_dismiss-IsSpared id item true _
      (record {
        unsent = k.unsent;
        unpending = k.unpending;
        untimed = λ h other still.
            k.untimed h other (kept_timeout (some handle) s.timeouts h other still);
        shown = k.shown;
      })
      (k.untimed handle item live)
Step-IsSpared id (Step.resolved before after item restore_on_error s among) o k =
    skip_resolved-IsSpared id item (answered (before ++ after) s)
      (record { unsent = k.unsent; unpending = k.unpending; untimed = k.untimed; shown = k.shown })
Step-IsSpared id (Step.rejected before after item restore_on_error s among) o k =
    skip_rejected-IsSpared id item restore_on_error (answered (before ++ after) s)
      (record { unsent = k.unsent; unpending = k.unpending; untimed = k.untimed; shown = k.shown })
Step-IsSpared id (Step.left s up) o k =
    commit_all-IsSpared id (values s.pending_dismisses) _
      (record {
        unsent = k.unsent;
        unpending = k.unpending;
        untimed = λ h other live.
            k.untimed h other
              (clear_timeouts_kept (values s.dismiss_timers) s.timeouts h other live);
        shown = k.shown;
      })
      k.unpending

Run-IsSpared : (id : ℕ) {s t : InboxState} → Run id s t → IsSpared id s → IsSpared id t
Run-IsSpared id start k = k
Run-IsSpared id (more r step o) k = Step-IsSpared id step o (Run-IsSpared id r k)

undone-IsSpared :
    (s : InboxState) (item : InboxItem)
    → Reach opened s
    → s.undo_item ≡ some item
    → elem item.id s.sent ≡ false
    → IsSpared item.id (undo_dismiss s)
unfolding undo_dismiss clear_dismiss_timer
undone-IsSpared s item r offered unsent =
    let t = cleared-IsTimed item.id (Reach-IsTracked r).timers in
    simp (offered, undo_dismiss)
      (record {
        unsent = unsent;
        unpending = elem-ids-erased item.id s.pending_dismisses (Reach-Keyed r);
        untimed = λ h other live.
            ground (arith, t.owned h other live, lookup-erase other.id item.id s.dismiss_timers);
        shown = ground arith;
      })

-- In a run from an opened screen, undoing a dismissal whose skip request was not yet sent keeps
-- the item shown and unsent through every later run that does not dismiss it again, leaving the
-- screen included.
pub undone_not_sent :
    (s t : InboxState) (item : InboxItem)
    → Reach opened s
    → s.undo_item ≡ some item
    → elem item.id s.sent ≡ false
    → Run item.id (undo_dismiss s) t
    → (elem item.id t.sent ≡ false) × (t.dismissed item.id ≡ none)
undone_not_sent s t item r offered unsent later =
    let k = Run-IsSpared item.id later (undone-IsSpared s item r offered unsent) in
    (k.unsent, k.shown)
