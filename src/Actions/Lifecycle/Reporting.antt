-- ===== src/Actions/Lifecycle/Reporting.antt =====
-- dashboard/src/folio/context.tsx: what the user sees of one background action.
use ok_folio.Prelude.{
  ℕ, ◌+◌, ◌≤◌, List, [], ◌∷◌, ◌++◌, Option, some, ◌≡◌, ◌≢◌, ◌⊎◌, ap, sym, ◌∙◌, inl, inr, refl, All,
  true, false, ◌==◌, arith, find?, elem, Bool-cases,
}
use ok_folio.Toasts.{Toast, success, error, add_toast, update_toast, dismiss_toast}
use ok_folio.Toasts.Laws.{KeepsId}
use ok_folio.Actions.{Outcome, resolved, rejected}
use ok_folio.Actions.Store.{Store, Call, Response, action, keys, begin, settle, expire, dismiss}
use ok_folio.Actions.Lifecycle.{Step, start, answered, fired, clicked}
use ok_folio.Actions.Lifecycle.Reports.{on_success_status, on_failure_status}
use ok_folio.Actions.Lifecycle.Tracking.{IsValid, Tracked, pending_call-elem}

-- The toast with an id.
abbrev pub toast_at : ℕ → List Toast → Option Toast
toast_at id = find? (λ t. t.id == id)

toast_at-add :
    (id : ℕ) (u t : Toast) (ts : List Toast)
    → toast_at id ts ≡ some u
    → toast_at id (add_toast t ts) ≡ some u
unfolding add_toast
toast_at-add id u t [] h = ground arith
toast_at-add id u t (v ∷ ts) h = ground (arith, toast_at-add id u t ts)

toast_at-add_new :
    (t : Toast) (n : ℕ) (ts : List Toast)
    → All (λ u. u.id ≤ n) ts
    → n + 1 ≤ t.id
    → toast_at t.id (add_toast t ts) ≡ some t
unfolding add_toast
toast_at-add_new t n [] h lt = ground arith
toast_at-add_new t n (v ∷ ts) (le, h) lt = ground (arith, toast_at-add_new t n ts h lt)

toast_at-update_ne :
    (id j : ℕ) (change : Toast → Toast) (ts : List Toast)
    → KeepsId change
    → j ≢ id
    → toast_at j (update_toast id change ts) ≡ toast_at j ts
unfolding update_toast
toast_at-update_ne id j change [] keeps ne = refl
toast_at-update_ne id j change (t ∷ ts) keeps ne =
    ground (arith, keeps t, toast_at-update_ne id j change ts keeps)

toast_at-update_self :
    (id : ℕ) (u : Toast) (change : Toast → Toast) (ts : List Toast)
    → KeepsId change
    → toast_at id ts ≡ some u
    → toast_at id (update_toast id change ts) ≡ some (change u)
unfolding update_toast
toast_at-update_self id u change [] keeps h = ground arith
toast_at-update_self id u change (t ∷ ts) keeps h =
    ground (arith, keeps t, toast_at-update_self id u change ts keeps)

toast_at-dismiss_ne :
    (id j : ℕ) (ts : List Toast) → j ≢ id → toast_at j (dismiss_toast id ts) ≡ toast_at j ts
unfolding dismiss_toast
toast_at-dismiss_ne id j [] ne = refl
toast_at-dismiss_ne id j (t ∷ ts) ne = ground (arith, toast_at-dismiss_ne id j ts)

toast_at-All {κ} :
    (P : Toast → Type κ) (id : ℕ) (u : Toast) (ts : List Toast)
    → All P ts
    → toast_at id ts ≡ some u
    → P u × (u.id ≡ id)
toast_at-All P id u [] h e = absurd (ground arith)
toast_at-All P id u (t ∷ ts) (p, h) e = elim (Bool-cases (t.id == id)) [
  | inl same ↦ let eq : t ≡ u = ground arith in rw (← eq) (p, ground arith)
  | inr other ↦ toast_at-All P id u ts h (ground arith)
]

elem_ne : (a b : ℕ) (l : List ℕ) → elem a l ≡ false → elem b l ≡ true → a ≢ b
elem_ne a b l out in' same = cc

off_pending :
    {s : Store} (v : IsValid s) (id : ℕ) (u : Toast)
    → toast_at id s.toasts ≡ some u
    → u.status ≡ error
    → (elem id (keys s.pending) ≡ false) × (elem id (keys s.timers) ≡ false)
off_pending {s} v id u e bad =
    let (tracked, same) = toast_at-All (Tracked s.pending s.timers) id u s.toasts v.tracked e in
    off u same bad tracked
  where
    off :
        (u : Toast)
        → u.id ≡ id
        → u.status ≡ error
        → Tracked s.pending s.timers u
        → (elem id (keys s.pending) ≡ false) × (elem id (keys s.timers) ≡ false)
    off u same bad tracked = rw (bad, same) at tracked

-- In a valid state, an error toast is still there, unchanged, after any step of the system but a
-- click that dismisses it.
pub error_toast_stays :
    {s t : Store} (id : ℕ) (u : Toast)
    → IsValid s
    → toast_at id s.toasts ≡ some u
    → u.status ≡ error
    → Step s t
    → (toast_at id t.toasts ≡ some u) ⊎ (t ≡ dismiss id s)
unfolding begin settle expire dismiss
error_toast_stays id u v e bad (start c s) = inl (toast_at-add id u _ s.toasts e)
error_toast_stays id u v e bad (answered j c (resolved r) s p) =
    let (free, _) = off_pending v id u e bad in
    let other = elem_ne id j (keys s.pending) free (pending_call-elem j c s.pending p) in
    inl (
      toast_at-update_ne j id ((action c).on_success r) s.toasts (λ t. (on_success_status c r t).1)
        other
      ∙ e)
error_toast_stays id u v e bad (answered j c (rejected err) s p) =
    let (free, _) = off_pending v id u e bad in
    let other = elem_ne id j (keys s.pending) free (pending_call-elem j c s.pending p) in
    inl (
      toast_at-update_ne j id ((action c).on_failure err) s.toasts
        (λ t. (on_failure_status c err t).1) other
      ∙ e)
error_toast_stays id u v e bad (fired j s p) =
    let (_, free) = off_pending v id u e bad in
    inl (toast_at-dismiss_ne j id s.toasts (elem_ne id j (keys s.timers) free p) ∙ e)
error_toast_stays id u v e bad (clicked j s) = elim (Bool-cases (id == j)) [
  | inl same ↦ let eq : id ≡ j = ground arith in inr (ap (λ k. dismiss k s) (sym eq))
  | inr other ↦ inl (toast_at-dismiss_ne j id s.toasts (λ q. ground arith) ∙ e)
]

-- What the settled request `o` of the call `c`, reported by the toast `id`, has left in `t`.
abbrev pub Reported : (c : Call) → Outcome (Response c) → ℕ → Store → Store → Type 0
Reported c (resolved r) id s t =
    ((u : Toast) × (toast_at id t.toasts ≡ some u) × (u.status ≡ success))
    × (t.timers ≡ (id, (action c).delay) ∷ s.timers)
    × (t.invalidated ≡ s.invalidated ++ (action c).invalidates r)
Reported c (rejected err) id s t =
    ((u : Toast) × (toast_at id t.toasts ≡ some u) × (u.status ≡ error))
    × (t.timers ≡ s.timers)
    × (t.invalidated ≡ s.invalidated)

toast_at-begin :
    (c : Call) (s : Store)
    → IsValid s
    → (u : Toast) × (toast_at (s.toast_seq + 1) (begin c s).toasts ≡ some u)
unfolding begin
toast_at-begin c s v = (_, toast_at-add_new _ s.toast_seq s.toasts v.fresh (omega arith))

toast_at-add_ne :
    (j : ℕ) (t : Toast) (ts : List Toast) → j ≢ t.id → toast_at j (add_toast t ts) ≡ toast_at j ts
unfolding add_toast
toast_at-add_ne j t [] ne = ground arith
toast_at-add_ne j t (v ∷ ts) ne = ground (arith, toast_at-add_ne j t ts ne)

settle-Reported :
    (c : Call) (o : Outcome (Response c)) (s : Store)
    → IsValid s
    → Reported c o (s.toast_seq + 1) s (settle (s.toast_seq + 1) c o (begin c s))
unfolding settle
settle-Reported c (resolved r) s v =
    let (u, shown) = toast_at-begin c s v in
    (
      (
        (action c).on_success r u,
        toast_at-update_self _ u _ (begin c s).toasts (λ t. (on_success_status c r t).1) shown,
        (on_success_status c r u).0,
      ),
      unfold begin in refl,
      unfold begin in refl,
    )
settle-Reported c (rejected err) s v =
    let (u, shown) = toast_at-begin c s v in
    (
      (
        (action c).on_failure err u,
        toast_at-update_self _ u _ (begin c s).toasts (λ t. (on_failure_status c err t).1) shown,
        (on_failure_status c err u).0,
      ),
      unfold begin in refl,
      unfold begin in refl,
    )

others_kept :
    (c : Call) (o : Outcome (Response c)) (s : Store) (j : ℕ)
    → j ≢ s.toast_seq + 1
    → toast_at j (settle (s.toast_seq + 1) c o (begin c s)).toasts ≡ toast_at j s.toasts
unfolding settle begin
others_kept c (resolved r) s j ne =
    toast_at-update_ne _ j ((action c).on_success r) _ (λ t. (on_success_status c r t).1) ne
    ∙ toast_at-add_ne j _ s.toasts ne
others_kept c (rejected err) s j ne =
    toast_at-update_ne _ j ((action c).on_failure err) _ (λ t. (on_failure_status c err t).1) ne
    ∙ toast_at-add_ne j _ s.toasts ne

-- In a valid state, a call that is begun and then settled sends its one request and leaves each
-- toast `j` with another id as it was. A success leaves a success toast under the call's id, with a
-- timer to remove it, and invalidates the action's query keys; a failure leaves an error toast with
-- no timer, and invalidates nothing.
pub call-Reported :
    (c : Call) (o : Outcome (Response c)) (s : Store) (j : ℕ)
    → IsValid s
    → j ≢ s.toast_seq + 1
    → Reported c o (s.toast_seq + 1) s (settle (s.toast_seq + 1) c o (begin c s))
      × (toast_at j (settle (s.toast_seq + 1) c o (begin c s)).toasts ≡ toast_at j s.toasts)
      × ((settle (s.toast_seq + 1) c o (begin c s)).sent ≡ s.sent ++ (action c).request ∷ [])
unfolding settle begin
call-Reported c (resolved r) s j v ne =
    (settle-Reported c (resolved r) s v, others_kept c (resolved r) s j ne, refl)
call-Reported c (rejected err) s j v ne =
    (settle-Reported c (rejected err) s v, others_kept c (rejected err) s j ne, refl)
