-- ===== src/Inbox/Settled.antt =====
-- dashboard/src/folio/Inbox.tsx: what holds of every run of the dismissals.
use ok_folio.Prelude.{
  ℕ, ◌++◌, none, some, true, false, ◌≡◌, refl, sym, ◌∙◌, arith, inl, inr, elem, Bool-cases,
}
use ok_folio.Prelude.Entries.{values}
use ok_folio.Types.{InboxItem}
use ok_folio.Inbox.{InboxState, unmount, skip_resolved, skip_rejected, finish_skip}
use ok_folio.Inbox.Runs.{IsTracked, Reach, Step, opened}
use ok_folio.Inbox.Tracking.{
  dismiss_with_undo-IsTracked, fire-IsTracked, undo_dismiss-IsTracked, skip_resolved-IsTracked,
  skip_rejected-IsTracked,
}
use ok_folio.Inbox.Leaving.{ids, unmount-IsTracked, unmount-sent, hidden_sent, unmount_mounted}

-- Every step of the dismissals keeps them tracked.
pub Step-IsTracked : {s t : InboxState} → Step s t → IsTracked s → IsTracked t
Step-IsTracked (Step.dismissed handle item s up fresh) k =
    dismiss_with_undo-IsTracked handle item s k up fresh
Step-IsTracked (Step.undone s up) k = undo_dismiss-IsTracked s k up
Step-IsTracked (Step.fired handle item s live) k = fire-IsTracked handle item s k live
Step-IsTracked (Step.resolved before after item restore_on_error s among) k =
    skip_resolved-IsTracked item (before ++ after) s k
Step-IsTracked (Step.rejected before after item restore_on_error s among) k =
    skip_rejected-IsTracked item restore_on_error (before ++ after) s k
Step-IsTracked (Step.left s up) k = unmount-IsTracked s k

opened-IsTracked : IsTracked opened
opened-IsTracked = record {
  timers = record {
    scheduled = λ j h set. ground arith;
    owned = λ h item live. ground arith;
    timed = λ j item held. ground arith;
  };
  hidden = λ j item hid. ground arith;
  quiet = λ down h. refl;
}

-- In every run from an opened screen, the timers, the pending dismissals and the browser's
-- timeouts agree, a hidden item is pending or was sent, and a screen that is left has no timeout.
pub Reach-IsTracked : {s : InboxState} → Reach opened s → IsTracked s
Reach-IsTracked Reach.here = opened-IsTracked
Reach-IsTracked (Reach.next r step) = Step-IsTracked step (Reach-IsTracked r)

-- An answer changes neither the timeouts, nor what was sent, nor whether the screen is mounted.
pub record IsAnswered (s t : InboxState) : Type 0 where
  pub sents : t.sent ≡ s.sent
  pub lives : t.timeouts ≡ s.timeouts
  pub mounts : t.mounted ≡ s.mounted

pub finish_skip-IsAnswered : (item : InboxItem) (s : InboxState) → IsAnswered s (finish_skip item s)
unfolding finish_skip
finish_skip-IsAnswered item s = elim (Bool-cases s.mounted) [
  | inl up ↦ simp (up, finish_skip) (record { sents = refl; lives = refl; mounts = sym up })
  | inr down ↦ simp (down, finish_skip) (record { sents = refl; lives = refl; mounts = refl })
]

abbrev Silent : InboxState → Type 0
Silent s = (s.mounted ≡ false) × ((h : ℕ) → s.timeouts h ≡ none)

Silent-answer : {s t : InboxState} → IsAnswered s t → Silent s → (t.sent ≡ s.sent) × Silent t
Silent-answer a (down, silent) = (a.sents, (a.mounts ∙ down, λ h. rw a.lives (silent h)))

-- A silent screen sends nothing and stays silent.
Silent-step : {s t : InboxState} → Step s t → Silent s → (t.sent ≡ s.sent) × Silent t
unfolding skip_resolved skip_rejected
Silent-step (Step.dismissed handle item s up fresh) (down, silent) = ground (arith, up, down)
Silent-step (Step.undone s up) (down, silent) = ground (arith, up, down)
Silent-step (Step.fired handle item s live) (down, silent) = ground (arith, silent handle)
Silent-step (Step.resolved before after item restore_on_error s among) (down, silent) =
    Silent-answer (finish_skip-IsAnswered item _) (down, silent)
Silent-step (Step.rejected before after item restore_on_error s among) (down, silent) =
    Silent-answer (finish_skip-IsAnswered item _) (down, silent)
Silent-step (Step.left s up) (down, silent) = ground (arith, up, down)

Silent-run : {s t : InboxState} → Reach s t → Silent s → (t.sent ≡ s.sent) × Silent t
Silent-run Reach.here silence = (refl, silence)
Silent-run (Reach.next r step) silence =
    let (same, still) = Silent-run r silence in
    let (again, after) = Silent-step step still in (again ∙ same, after)

-- Leaving a mounted screen, after any run from an opened one, sends the skip request of every
-- pending dismissal, by ascending id, so every hidden item was sent; and no run from there sends
-- anything more.
pub leaving_sends :
    (s t : InboxState)
    → Reach opened s
    → s.mounted ≡ true
    → Reach (unmount s) t
    → (t.sent ≡ s.sent ++ ids (values s.pending_dismisses))
      × ((j : ℕ) (item : InboxItem) → s.dismissed j ≡ some item → elem j t.sent ≡ true)
leaving_sends s t r up after =
    let k = Reach-IsTracked r in
    let (same, silence) =
      Silent-run after (unmount_mounted s, (unmount-IsTracked s k).quiet (unmount_mounted s)) in
    let sent : t.sent ≡ s.sent ++ ids (values s.pending_dismisses) = same ∙ unmount-sent s in
    (sent, λ j item hid. rw sent (hidden_sent s k j item hid))
