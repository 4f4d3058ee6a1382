-- ===== src/Inbox/Keyed.antt =====
-- dashboard/src/folio/Inbox.tsx: the keys of `pendingDismisses`.
use ok_folio.Prelude.{
  ℕ, List, [], ◌∷◌, true, false, ◌==◌, ◌≡◌, refl, arith, inl, inr, elem, Option-cases, All, ==_refl,
}
use ok_folio.Prelude.Entries.{Entries, values, erase, assign}
use ok_folio.Types.{InboxItem}
use ok_folio.Inbox.{
  InboxState, unmount, undo_dismiss, skip_resolved, skip_rejected, finish_skip, clear_dismiss_timer,
  fire, dismiss_with_undo, commit_dismiss, commit_all,
}
use ok_folio.Inbox.Runs.{Reach, Step, opened}
use ok_folio.Inbox.Leaving.{ids}

-- A pending item is stored under its id.
abbrev pub Keyed : Entries InboxItem → Type 0
Keyed = All (λ e. (e.0 == e.1.id) ≡ true)

Keyed-erase : (k : ℕ) (l : Entries InboxItem) → Keyed l → Keyed (erase k l)
Keyed-erase k [] h = tt
Keyed-erase k (e ∷ l) (p, h) = ground (arith, Keyed-erase k l h)

Keyed-assign : (item : InboxItem) (l : Entries InboxItem) → Keyed l → Keyed (assign item.id item l)
Keyed-assign item [] h = (==_refl item.id, tt)
Keyed-assign item (e ∷ l) (p, h) = ground (arith, Keyed-assign item l h)

Keyed-commit_all :
    (l : List InboxItem) (s : InboxState)
    → Keyed s.pending_dismisses
    → Keyed (commit_all l s).pending_dismisses
unfolding commit_all commit_dismiss clear_dismiss_timer
Keyed-commit_all [] s h = h
Keyed-commit_all (item ∷ l) s h =
    Keyed-commit_all l (commit_dismiss item false s) (Keyed-erase item.id s.pending_dismisses h)

finish_skip_pending :
    (item : InboxItem) (s : InboxState)
    → (finish_skip item s).pending_dismisses ≡ s.pending_dismisses
unfolding finish_skip
finish_skip_pending item s = ground arith

Step-Keyed : {s t : InboxState} → Step s t → Keyed s.pending_dismisses → Keyed t.pending_dismisses
unfolding dismiss_with_undo undo_dismiss fire commit_dismiss clear_dismiss_timer skip_resolved
    skip_rejected unmount
Step-Keyed (Step.dismissed handle item s up fresh) h = Keyed-assign item s.pending_dismisses h
Step-Keyed (Step.undone s up) h = elim (Option-cases s.undo_item) [
  | inl nothing ↦ simp (nothing, undo_dismiss) h
  | inr (item, shown) ↦ simp (shown, undo_dismiss) (Keyed-erase item.id s.pending_dismisses h)
]
Step-Keyed (Step.fired handle item s live) h = Keyed-erase item.id s.pending_dismisses h
Step-Keyed (Step.resolved before after item restore_on_error s among) h =
    rw (finish_skip_pending item) h
Step-Keyed (Step.rejected before after item restore_on_error s among) h =
    rw (finish_skip_pending item) h
Step-Keyed (Step.left s up) h = Keyed-commit_all (values s.pending_dismisses) _ h

pub Reach-Keyed : {s : InboxState} → Reach opened s → Keyed s.pending_dismisses
Reach-Keyed Reach.here = tt
Reach-Keyed (Reach.next r step) = Step-Keyed step (Reach-Keyed r)

pub elem-ids-erased :
    (k : ℕ) (l : Entries InboxItem) → Keyed l → elem k (ids (values (erase k l))) ≡ false
elem-ids-erased k [] h = refl
elem-ids-erased k (e ∷ l) (p, h) = ground (arith, elem-ids-erased k l h)

pub elem-ids-erase :
    (id k : ℕ) (l : Entries InboxItem)
    → elem id (ids (values l)) ≡ false
    → elem id (ids (values (erase k l))) ≡ false
elem-ids-erase id k [] h = refl
elem-ids-erase id k (e ∷ l) h = ground (arith, elem-ids-erase id k l)

pub elem-ids-assign :
    (id : ℕ) (item : InboxItem) (l : Entries InboxItem)
    → (item.id == id) ≡ false
    → elem id (ids (values l)) ≡ false
    → elem id (ids (values (assign item.id item l))) ≡ false
elem-ids-assign id item [] o h = ground arith
elem-ids-assign id item (e ∷ l) o h = ground (arith, elem-ids-assign id item l)
