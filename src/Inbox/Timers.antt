-- ===== src/Inbox/Timers.antt =====
-- dashboard/src/folio/Inbox.tsx: how `dismissTimers`, `pendingDismisses` and the browser's timeouts
-- agree, and what clearing and setting a timer does to them.
use ok_folio.Prelude.{
  ℕ, none, some, ◌≡◌, fun_ext, subst, arith, if◌then◌else◌, false, inl, inr, IdMap, put, delete,
  ◌==◌, Bool-cases, Option-cases,
}
use ok_folio.Prelude.Entries.{Entries, lookup, assign, erase, lookup-assign, lookup-erase}
use ok_folio.Types.{InboxItem}
use ok_folio.Inbox.{clear_timeout}

-- Each timer's timeout commits the pending item of its id, and nothing else is pending.
pub record IsTimed (timers : Entries ℕ) (timeouts : IdMap InboxItem) (pending : Entries InboxItem)
    : Type 0 where
  pub scheduled :
      (j h : ℕ)
      → lookup j timers ≡ some h
      → (item : InboxItem) × (timeouts h ≡ some item)
        × (item.id ≡ j)
        × (lookup j pending ≡ some item)
  pub owned : (h : ℕ) (item : InboxItem) → timeouts h ≡ some item → lookup item.id timers ≡ some h
  pub timed :
      (j : ℕ) (item : InboxItem)
      → lookup j pending ≡ some item
      → (item.id ≡ j) × ((h : ℕ) × (lookup j timers ≡ some h))

module _ {timers : Entries ℕ} {timeouts : IdMap InboxItem} {pending : Entries InboxItem} where
  -- What is left of the timeouts once the timer of `id` is cleared.
  kept :
      (id h : ℕ) (item : InboxItem)
      → IsTimed timers timeouts pending
      → clear_timeout (lookup id timers) timeouts h ≡ some item
      → (timeouts h ≡ some item) × ((item.id == id) ≡ false)
  kept id h item t live = elim (Option-cases (lookup id timers)) [
    | inl unset ↦
        let still : timeouts h ≡ some item =
          subst (λ o. clear_timeout o timeouts h ≡ some item) unset live in
        (still, ground (arith, t.owned h item still))
    | inr (h0, set) ↦
        let still : (if h == h0 then none else timeouts h) ≡ some item =
          subst (λ o. clear_timeout o timeouts h ≡ some item) set live in
        (ground arith, ground (arith, t.owned h item))
  ]

  keeps :
      (id h : ℕ) (item : InboxItem)
      → IsTimed timers timeouts pending
      → timeouts h ≡ some item
      → (item.id == id) ≡ false
      → clear_timeout (lookup id timers) timeouts h ≡ some item
  keeps id h item t live other = elim (Option-cases (lookup id timers)) [
    | inl unset ↦ rw unset live
    | inr (h0, set) ↦ rw set (ground (arith, t.scheduled id h0 set))
  ]

  pub cleared-IsTimed :
      (id : ℕ)
      → IsTimed timers timeouts pending
      → IsTimed (erase id timers) (clear_timeout (lookup id timers) timeouts) (erase id pending)
  cleared-IsTimed id t = record {
    scheduled = λ j h set.
        let (apart, was) : ((j == id) ≡ false) × (lookup j timers ≡ some h) =
          ground (arith, lookup-erase j id timers) in
        let (item, live, own, held) = t.scheduled j h was in
        (
          item,
          keeps id h item t live (ground arith),
          own,
          ground (arith, lookup-erase j id pending),
        );
    owned = λ h item live.
        let (was, apart) = kept id h item t live in
        ground (arith, lookup-erase item.id id timers, t.owned h item was);
    timed = λ j item held.
        ground (arith, lookup-erase j id pending, lookup-erase j id timers, t.timed j item);
  }

  pub set-IsTimed :
      (item : InboxItem) (handle : ℕ)
      → IsTimed timers timeouts pending
      → timeouts handle ≡ none
      → IsTimed
          (assign item.id handle timers)
          (put (clear_timeout (lookup item.id timers) timeouts) handle item)
          (assign item.id item pending)
  set-IsTimed item handle t fresh = record {
    scheduled = λ j h set. elim (Bool-cases (j == item.id)) [
      | inl same ↦ (
        item,
        ground (arith, lookup-assign j item.id handle timers),
        ground arith,
        ground (arith, lookup-assign j item.id item pending),
      )
      | inr apart ↦
          let was : lookup j timers ≡ some h =
            ground (arith, lookup-assign j item.id handle timers) in
          let (held_item, live, own, held) = t.scheduled j h was in
          (
            held_item,
            ground (arith, keeps item.id h held_item t live),
            own,
            ground (arith, lookup-assign j item.id item pending),
          )
    ];
    owned = λ h held_item live. elim (Bool-cases (h == handle)) [
      | inl same ↦ ground (arith, lookup-assign held_item.id item.id handle timers)
      | inr other ↦
          let (was, apart) = kept item.id h held_item t (ground arith) in
          ground (arith, lookup-assign held_item.id item.id handle timers, t.owned h held_item was)
    ];
    timed = λ j held_item held. ground (
      arith,
      lookup-assign j item.id item pending,
      lookup-assign j item.id handle timers,
      t.timed j held_item,
    );
  }

  -- A timeout that runs is gone before its callback clears its timer again.
  pub fired-IsTimed :
      (handle : ℕ) (item : InboxItem)
      → IsTimed timers timeouts pending
      → timeouts handle ≡ some item
      → IsTimed
          (erase item.id timers)
          (clear_timeout (lookup item.id timers) (delete timeouts handle))
          (erase item.id pending)
  fired-IsTimed handle item t live =
      let set : lookup item.id timers ≡ some handle = t.owned handle item live in
      let twice : clear_timeout (lookup item.id timers) (delete timeouts handle)
          ≡ clear_timeout (lookup item.id timers) timeouts =
        rw set (fun_ext (λ h. ground arith)) in
      rw twice (cleared-IsTimed item.id t)
