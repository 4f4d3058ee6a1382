-- ===== src/Inbox/Leaving.antt =====
-- dashboard/src/folio/Inbox.tsx: the cleanup of the effect, which commits what is pending, and what
-- holds of every run.
use ok_folio.Prelude.{
  ℕ, List, [], ◌∷◌, ◌++◌, none, some, true, false, ◌≡◌, refl, sym, ◌∙◌, arith, inl, inr, elem,
  elem-append, Option-cases, if◌then◌else◌, map, IdMap, append_assoc, append-nil, delete,
}
use ok_folio.Prelude.Entries.{Entries, lookup, lookup-erase, values}
use ok_folio.Types.{InboxItem}
use ok_folio.Inbox.{
  InboxState, clear_timeouts, commit_all, unmount, commit_dismiss, clear_dismiss_timer,
  clear_timeout,
}
use ok_folio.Inbox.Runs.{IsTracked}

abbrev pub ids : List InboxItem → List ℕ
ids = map (λ item. item.id)

elem-values : (j h : ℕ) (l : Entries ℕ) → lookup j l ≡ some h → elem h (values l) ≡ true
elem-values j h [] found = ground arith
elem-values j h (e ∷ l) found = ground (arith, elem-values j h l)

elem-ids :
    (j : ℕ) (item : InboxItem) (l : Entries InboxItem)
    → lookup j l ≡ some item
    → elem item.id (ids (values l)) ≡ true
elem-ids j item [] found = ground arith
elem-ids j item (e ∷ l) found = ground (arith, elem-ids j item l)

clear_timeouts_lem :
    (l : List ℕ) (timeouts : IdMap InboxItem) (h : ℕ)
    → clear_timeouts l timeouts h ≡ (if elem h l then none else timeouts h)
clear_timeouts_lem [] timeouts h = refl
clear_timeouts_lem (x ∷ l) timeouts h = ground (arith, clear_timeouts_lem l (delete timeouts x) h)

pub sent-commit_all :
    (l : List InboxItem) (s : InboxState) → (commit_all l s).sent ≡ s.sent ++ ids l
unfolding commit_all commit_dismiss clear_dismiss_timer
sent-commit_all [] s = sym (append-nil s.sent)
sent-commit_all (item ∷ l) s =
    sent-commit_all l (commit_dismiss item false s) ∙ append_assoc s.sent (item.id ∷ []) (ids l)

cleared_silent :
    (id : ℕ) (s : InboxState)
    → ((h : ℕ) → s.timeouts h ≡ none)
    → (h : ℕ) → clear_timeout (lookup id s.dismiss_timers) s.timeouts h ≡ none
cleared_silent id s silent h = elim (Option-cases (lookup id s.dismiss_timers)) [
  | inl unset ↦ rw unset (silent h)
  | inr (handle, set) ↦ rw set (ground (arith, silent h))
]

-- What `commit_all` leaves of a state whose timeouts are cleared.
record IsEmptied (l : List InboxItem) (s t : InboxState) : Type 0 where
  pendings :
      (j : ℕ)
      → lookup j t.pending_dismisses
        ≡ (if elem j (ids l) then none else lookup j s.pending_dismisses)
  handles :
      (j : ℕ)
      → lookup j t.dismiss_timers ≡ (if elem j (ids l) then none else lookup j s.dismiss_timers)
  silent : (h : ℕ) → t.timeouts h ≡ none
  same_hidden : t.dismissed ≡ s.dismissed

commit_all-IsEmptied :
    (l : List InboxItem) (s : InboxState)
    → ((h : ℕ) → s.timeouts h ≡ none)
    → IsEmptied l s (commit_all l s)
unfolding commit_all commit_dismiss clear_dismiss_timer
commit_all-IsEmptied [] s silent = record {
  pendings = λ j. refl;
  handles = λ j. refl;
  silent = silent;
  same_hidden = refl;
}
commit_all-IsEmptied (item ∷ l) s silent =
    let rest =
      commit_all-IsEmptied l (commit_dismiss item false s) (cleared_silent item.id s silent) in
    record {
      pendings = λ j. ground (arith, rest.pendings j, lookup-erase j item.id s.pending_dismisses);
      handles = λ j. ground (arith, rest.handles j, lookup-erase j item.id s.dismiss_timers);
      silent = rest.silent;
      same_hidden = rest.same_hidden;
    }

stopped_all :
    (s : InboxState)
    → IsTracked s
    → (h : ℕ) → clear_timeouts (values s.dismiss_timers) s.timeouts h ≡ none
stopped_all s k h = elim (Option-cases (s.timeouts h)) [
  | inl idle ↦ ground (arith, clear_timeouts_lem (values s.dismiss_timers) s.timeouts h)
  | inr (item, live) ↦ ground (
    arith,
    clear_timeouts_lem (values s.dismiss_timers) s.timeouts h,
    elem-values item.id h s.dismiss_timers (k.timers.owned h item live),
  )
]

unmount-IsEmptied :
    (s : InboxState) → IsTracked s → IsEmptied (values s.pending_dismisses) s (unmount s)
unfolding unmount
unmount-IsEmptied s k =
    let stopped : (h : ℕ) → clear_timeouts (values s.dismiss_timers) s.timeouts h ≡ none =
      stopped_all s k in
    let e = commit_all-IsEmptied (values s.pending_dismisses) _ stopped in
    record {
      pendings = e.pendings;
      handles = e.handles;
      silent = e.silent;
      same_hidden = e.same_hidden;
    }

pub unmount_pending :
    (s : InboxState) → IsTracked s → (j : ℕ) → lookup j (unmount s).pending_dismisses ≡ none
unmount_pending s k j = elim (Option-cases (lookup j s.pending_dismisses)) [
  | inl absent ↦ ground (arith, (unmount-IsEmptied s k).pendings j)
  | inr (item, held) ↦ ground (
    arith,
    (unmount-IsEmptied s k).pendings j,
    elem-ids j item s.pending_dismisses held,
    (k.timers.timed j item held).0,
  )
]

pub unmount_timers :
    (s : InboxState) → IsTracked s → (j : ℕ) → lookup j (unmount s).dismiss_timers ≡ none
unmount_timers s k j = elim (Option-cases (lookup j s.dismiss_timers)) [
  | inl unset ↦ ground (arith, (unmount-IsEmptied s k).handles j)
  | inr (h, set) ↦
      let (item, live, own, held) = k.timers.scheduled j h set in
      ground (arith, (unmount-IsEmptied s k).handles j, elem-ids j item s.pending_dismisses held)
]

pub unmount-sent : (s : InboxState) → (unmount s).sent ≡ s.sent ++ ids (values s.pending_dismisses)
unfolding unmount
unmount-sent s = sent-commit_all (values s.pending_dismisses) _

-- On leaving, the hidden items have all been sent.
pub hidden_sent :
    (s : InboxState)
    → IsTracked s
    → (j : ℕ) (item : InboxItem) → s.dismissed j ≡ some item
    → elem j (s.sent ++ ids (values s.pending_dismisses)) ≡ true
hidden_sent s k j item hid = elim (Option-cases (lookup j s.pending_dismisses)) [
  | inl absent ↦
      ground (arith, elem-append j s.sent (ids (values s.pending_dismisses)), k.hidden j item hid)
  | inr (held_item, held) ↦ ground (
    arith,
    elem-append j s.sent (ids (values s.pending_dismisses)),
    elem-ids j held_item s.pending_dismisses held,
    (k.timers.timed j held_item held).0,
  )
]

pub unmount-IsTracked : (s : InboxState) → IsTracked s → IsTracked (unmount s)
unmount-IsTracked s k =
    let e = unmount-IsEmptied s k in
    record {
      timers = record {
        scheduled = λ j h set. ground (arith, unmount_timers s k j);
        owned = λ h item live. ground (arith, e.silent h);
        timed = λ j item held. ground (arith, unmount_pending s k j);
      };
      hidden = λ j item hid. rw (unmount-sent s) (ground (arith, hidden_sent s k j item));
      quiet = λ down. e.silent;
    }

mounted-commit_all : (l : List InboxItem) (s : InboxState) → (commit_all l s).mounted ≡ s.mounted
unfolding commit_all commit_dismiss clear_dismiss_timer
mounted-commit_all [] s = refl
mounted-commit_all (item ∷ l) s = mounted-commit_all l (commit_dismiss item false s)

pub unmount_mounted : (s : InboxState) → (unmount s).mounted ≡ false
unfolding unmount
unmount_mounted s = mounted-commit_all (values s.pending_dismisses) _
