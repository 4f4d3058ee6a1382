-- ===== src/Actions/Lifecycle/Invariant.antt =====
-- dashboard/src/folio/context.tsx: what holds of the toasts, the requests in flight and the timers
-- in every state that the background actions reach.
use ok_folio.Prelude.{
  ℕ, ◌+◌, ◌≤◌, List, [], ◌∷◌, some, ◌≡◌, subst₂, All, All-imp, All-zip, All-append, Distinct, arith,
}
use ok_folio.Toasts.{Toast, error, ids, add_toast, update_toast}
use ok_folio.Toasts.Laws.{
  KeepsId, ids-update_toast, All-update_toast, All-dismiss_toast, Distinct-dismiss_toast,
  Distinct-append,
}
use ok_folio.Actions.{Outcome, resolved, rejected}
use ok_folio.Actions.Store.{
  Store, Call, Response, action, initial, pending_call, begin, settle, expire, dismiss,
}
use ok_folio.Actions.Lifecycle.{Step, start, answered, fired, clicked, Reach, here, next}
use ok_folio.Actions.Lifecycle.Reports.{on_success_status, on_failure_status}
use ok_folio.Actions.Lifecycle.Tracking.{
  Tracked, IsValid, elem_of_above, All-forget, pending_call-elem, pending_no_timer, untimed_forget,
  Tracked-begin, Tracked-resolved, Tracked-rejected, Tracked-expired, elem_le, resolved-Tracked,
  rejected-Tracked,
}

pub initial-IsValid : IsValid initial
initial-IsValid = record {
  fresh = tt;
  distinct = tt;
  pending_fresh = tt;
  timers_fresh = tt;
  pending_untimed = tt;
  tracked = tt;
}

pub begin-IsValid : (c : Call) (s : Store) → IsValid s → IsValid (begin c s)
unfolding begin add_toast
begin-IsValid c s v = record {
  fresh =
      All-append (λ t. t.id ≤ s.toast_seq + 1) s.toasts _
        (All-imp _ _ (λ t le. omega arith) s.toasts v.fresh) (omega arith, tt);
  distinct =
      Distinct-append _ s.toasts (All-imp _ _ (λ t le. omega arith) s.toasts v.fresh) v.distinct;
  pending_fresh = (omega arith, All-imp _ _ (λ p le. omega arith) s.pending v.pending_fresh);
  timers_fresh = All-imp _ _ (λ p le. omega arith) s.timers v.timers_fresh;
  pending_untimed =
      (elem_of_above s.toast_seq _ s.timers v.timers_fresh (omega arith), v.pending_untimed);
  tracked =
      All-append (Tracked ((s.toast_seq + 1, c) ∷ s.pending) s.timers) s.toasts _
        (All-zip _ _ _ (λ t le h. Tracked-begin s.toast_seq c s.pending s.timers t le h) s.toasts
          v.fresh v.tracked)
        ((ground arith, elem_of_above s.toast_seq _ s.timers v.timers_fresh (omega arith)), tt);
}

-- A handler of the request behind `id` keeps the ids, and so their order and bound.
settle_ids :
    (id : ℕ) (change : Toast → Toast) (s : Store)
    → KeepsId change
    → IsValid s
    → All (λ t. t.id ≤ s.toast_seq) (update_toast id change s.toasts)
      × Distinct (ids (update_toast id change s.toasts))
settle_ids id change s keeps v = (
  All-update_toast _ _ id change (λ t _ le. rw (keeps t) le) (λ t _ le. le) s.toasts v.fresh,
  rw (ids-update_toast id change keeps s.toasts) v.distinct,
)

pub settle-IsValid :
    (id : ℕ) (c : Call) (o : Outcome (Response c)) (s : Store)
    → pending_call id s.pending ≡ some c
    → IsValid s
    → IsValid (settle id c o s)
unfolding settle
settle-IsValid id c (resolved r) s e v =
    let flying = pending_call-elem id c s.pending e in
    let (fresh, distinct) =
      settle_ids id ((action c).on_success r) s (λ t. (on_success_status c r t).1) v in
    record {
      fresh = fresh;
      distinct = distinct;
      pending_fresh = All-forget _ _ id (λ p _ le. le) s.pending v.pending_fresh;
      timers_fresh = (elem_le s.toast_seq id s.pending v.pending_fresh flying, v.timers_fresh);
      pending_untimed = All-forget _ _ id (λ p ne h. ground arith) s.pending v.pending_untimed;
      tracked =
          All-update_toast _ _ id _
            (λ t same _. resolved-Tracked c r id (action c).delay s.pending s.timers t same)
            (λ t ne h. Tracked-resolved id (action c).delay s.pending s.timers t ne h) s.toasts
            v.tracked;
    }
settle-IsValid id c (rejected err) s e v =
    let flying = pending_call-elem id c s.pending e in
    let untimed = pending_no_timer id s.timers s.pending v.pending_untimed flying in
    let (fresh, distinct) =
      settle_ids id ((action c).on_failure err) s (λ t. (on_failure_status c err t).1) v in
    record {
      fresh = fresh;
      distinct = distinct;
      pending_fresh = All-forget _ _ id (λ p _ le. le) s.pending v.pending_fresh;
      timers_fresh = v.timers_fresh;
      pending_untimed = All-forget _ _ id (λ p _ h. h) s.pending v.pending_untimed;
      tracked =
          All-update_toast _ _ id _
            (λ t same _. rejected-Tracked c err id s.pending s.timers t same untimed)
            (λ t ne h. Tracked-rejected id s.pending s.timers t ne h) s.toasts v.tracked;
    }

pub expire-IsValid : (id : ℕ) (s : Store) → IsValid s → IsValid (expire id s)
unfolding expire
expire-IsValid id s v = record {
  fresh = All-dismiss_toast _ _ id (λ t _ le. le) s.toasts v.fresh;
  distinct = Distinct-dismiss_toast id s.toasts v.distinct;
  pending_fresh = v.pending_fresh;
  timers_fresh = All-forget _ _ id (λ p _ le. le) s.timers v.timers_fresh;
  pending_untimed =
      All-imp _ _ (λ p h. untimed_forget id p.0 s.timers h) s.pending v.pending_untimed;
  tracked =
      All-dismiss_toast _ _ id (λ t ne h. Tracked-expired id s.pending s.timers t ne h) s.toasts
        v.tracked;
}

pub dismiss-IsValid : (id : ℕ) (s : Store) → IsValid s → IsValid (dismiss id s)
unfolding dismiss
dismiss-IsValid id s v = record {
  fresh = All-dismiss_toast _ _ id (λ t _ le. le) s.toasts v.fresh;
  distinct = Distinct-dismiss_toast id s.toasts v.distinct;
  pending_fresh = v.pending_fresh;
  timers_fresh = v.timers_fresh;
  pending_untimed = v.pending_untimed;
  tracked = All-dismiss_toast _ _ id (λ t _ h. h) s.toasts v.tracked;
}

Step-IsValid : {s t : Store} → Step s t → IsValid s → IsValid t
Step-IsValid (start c s) v = begin-IsValid c s v
Step-IsValid (answered id c o s e) v = settle-IsValid id c o s e v
Step-IsValid (fired id s e) v = expire-IsValid id s v
Step-IsValid (clicked id s) v = dismiss-IsValid id s v

pub Reach-IsValid : {s t : Store} → Reach s t → IsValid s → IsValid t
Reach-IsValid here v = v
Reach-IsValid (next r st) v = Step-IsValid st (Reach-IsValid r v)

-- In every state that the actions reach from the initial one, whatever the order of calls, answers,
-- timers and clicks: toast ids are distinct and at most the counter; a loading toast has its request
-- in flight and no timer, a success toast has its timer and no request, an error toast has neither;
-- and no request in flight has a timer.
pub reached-IsValid : {t : Store} → Reach initial t → IsValid t
reached-IsValid r = Reach-IsValid r initial-IsValid

Tracked-error : (l : List Toast) → All (Tracked [] []) l → All (λ u. u.status ≡ error) l
Tracked-error [] h = tt
Tracked-error (u ∷ l) (p, h) = (ground arith, Tracked-error l h)

-- Once no request is in flight and no timer is running, only error toasts are left on the screen.
pub quiet_toasts_are_errors :
    {t : Store}
    → Reach initial t
    → t.pending ≡ []
    → t.timers ≡ []
    → All (λ u. u.status ≡ error) t.toasts
quiet_toasts_are_errors {t} r no_request no_timer =
    Tracked-error t.toasts
      (subst₂ (λ p q. All (Tracked p q) t.toasts) no_request no_timer (reached-IsValid r).tracked)
