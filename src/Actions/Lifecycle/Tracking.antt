-- ===== src/Actions/Lifecycle/Tracking.antt =====
-- dashboard/src/folio/context.tsx: where the id of a toast stands among the requests in
-- flight and the timers, and how a transition moves it.
use ok_folio.Prelude.{
  ℕ, suc, ◌+◌, ◌≤◌, List, [], ◌∷◌, some, ◌≡◌, ◌≢◌, refl, All, elem, Distinct, Bool, true, false,
  ◌==◌, arith, Bool-cases, inl, inr,
}
use ok_folio.Toasts.{Toast, ToastStatus, loading, success, error, ids}
use ok_folio.Actions.{Thrown}
use ok_folio.Actions.Store.{Store, Call, Response, action, keys, forget, pending_call}
use ok_folio.Actions.Lifecycle.Reports.{on_success_status, on_failure_status}

-- Where a toast's id stands: a loading toast among the requests in flight, a success toast among
-- the timers, an error toast in neither; no id is in both.
abbrev pub Places : ToastStatus → Bool → Bool → Type 0
Places loading p t = (p ≡ true) × (t ≡ false)
Places success p t = (p ≡ false) × (t ≡ true)
Places error p t = (p ≡ false) × (t ≡ false)

abbrev pub Tracked : List (ℕ × Call) → List (ℕ × ℕ) → Toast → Type 0
Tracked pending timers t = Places t.status (elem t.id (keys pending)) (elem t.id (keys timers))

pub record IsValid (s : Store) : Type 0 where
  pub fresh : All (λ t. t.id ≤ s.toast_seq) s.toasts
  pub distinct : Distinct (ids s.toasts)
  pub pending_fresh : All (λ p. p.0 ≤ s.toast_seq) s.pending
  pub timers_fresh : All (λ p. p.0 ≤ s.toast_seq) s.timers
  pub pending_untimed : All (λ p. elem p.0 (keys s.timers) ≡ false) s.pending
  pub tracked : All (Tracked s.pending s.timers) s.toasts

module _ {V : Type 0} where
  pub elem-forget_ne :
      (id a : ℕ) (l : List (ℕ × V)) → a ≢ id → elem a (keys (forget id l)) ≡ elem a (keys l)
  unfolding forget
  elem-forget_ne id a [] h = refl
  elem-forget_ne id a (p ∷ l) h = ground (arith, elem-forget_ne id a l)

  pub elem-forget_self : (id : ℕ) (l : List (ℕ × V)) → elem id (keys (forget id l)) ≡ false
  unfolding forget
  elem-forget_self id [] = refl
  elem-forget_self id (p ∷ l) = ground (arith, elem-forget_self id l)

  -- An id above all keys is not a key.
  pub elem_of_above :
      (n a : ℕ) (l : List (ℕ × V)) → All (λ p. p.0 ≤ n) l → suc n ≤ a → elem a (keys l) ≡ false
  elem_of_above n a [] h lt = refl
  elem_of_above n a (p ∷ l) (le, h) lt = ground (arith, elem_of_above n a l)

  pub All-forget {κ μ} :
      (P : ℕ × V → Type κ) (Q : ℕ × V → Type μ) (id : ℕ)
      → ((p : ℕ × V) → p.0 ≢ id → P p → Q p)
      → (l : List (ℕ × V)) → All P l
      → All Q (forget id l)
  unfolding forget
  All-forget P Q id f [] h = tt
  All-forget P Q id f (p ∷ l) (x, h) = elim (Bool-cases (p.0 == id)) [
    | inl same ↦ rw same (All-forget P Q id f l h)
    | inr other ↦ rw other (f p (ground arith) x, All-forget P Q id f l h)
  ]

pub pending_call-elem :
    (id : ℕ) (c : Call) (l : List (ℕ × Call)) → pending_call id l ≡ some c → elem id (keys l) ≡ true
unfolding pending_call
pending_call-elem id c [] h = ground arith
pending_call-elem id c (p ∷ l) h = ground (arith, pending_call-elem id c l)

-- A pending id is not among the timers.
pub pending_no_timer :
    (id : ℕ) (timers : List (ℕ × ℕ)) (l : List (ℕ × Call))
    → All (λ p. elem p.0 (keys timers) ≡ false) l
    → elem id (keys l) ≡ true
    → elem id (keys timers) ≡ false
pending_no_timer id timers [] h e = ground arith
pending_no_timer id timers (p ∷ l) (x, h) e = elim (Bool-cases (id == p.0)) [
  | inl same ↦ let eq : id ≡ p.0 = ground arith in rw eq x
  | inr other ↦ pending_no_timer id timers l h (ground arith)
]

pub untimed_forget :
    (id a : ℕ) (l : List (ℕ × ℕ)) → elem a (keys l) ≡ false → elem a (keys (forget id l)) ≡ false
unfolding forget
untimed_forget id a [] h = refl
untimed_forget id a (p ∷ l) h = ground (arith, untimed_forget id a l)

-- A new id in flight and a new timer leave the place of the other ids alone.
pub Tracked-begin :
    (n : ℕ) (c : Call) (pending : List (ℕ × Call)) (timers : List (ℕ × ℕ)) (t : Toast)
    → t.id ≤ n
    → Tracked pending timers t
    → Tracked ((n + 1, c) ∷ pending) timers t
Tracked-begin n c pending timers t le h =
    let same : elem t.id (keys ((n + 1, c) ∷ pending)) ≡ elem t.id (keys pending) = ground arith in
    rw same h

-- The request behind `id` has settled well: its toast moves from the requests to the timers.
pub Tracked-resolved :
    (id d : ℕ) (pending : List (ℕ × Call)) (timers : List (ℕ × ℕ)) (t : Toast)
    → t.id ≢ id
    → Tracked pending timers t
    → Tracked (forget id pending) ((id, d) ∷ timers) t
Tracked-resolved id d pending timers t ne h =
    let same : elem t.id (keys ((id, d) ∷ timers)) ≡ elem t.id (keys timers) = ground arith in
    rw (elem-forget_ne id t.id pending ne, same) h

pub Tracked-rejected :
    (id : ℕ) (pending : List (ℕ × Call)) (timers : List (ℕ × ℕ)) (t : Toast)
    → t.id ≢ id
    → Tracked pending timers t
    → Tracked (forget id pending) timers t
Tracked-rejected id pending timers t ne h = rw (elem-forget_ne id t.id pending ne) h

pub Tracked-expired :
    (id : ℕ) (pending : List (ℕ × Call)) (timers : List (ℕ × ℕ)) (t : Toast)
    → t.id ≢ id
    → Tracked pending timers t
    → Tracked pending (forget id timers) t
Tracked-expired id pending timers t ne h = rw (elem-forget_ne id t.id timers ne) h

pub elem_le :
    {V : Type 0} (n id : ℕ) (l : List (ℕ × V))
    → All (λ p. p.0 ≤ n) l
    → elem id (keys l) ≡ true
    → id ≤ n
elem_le n id [] h e = absurd (ground arith)
elem_le n id (p ∷ l) (le, h) e = elim (Bool-cases (id == p.0)) [
  | inl same ↦ ground arith
  | inr other ↦ elem_le n id l h (ground arith)
]

pub resolved-Tracked :
    (c : Call) (r : Response c) (id d : ℕ) (pending : List (ℕ × Call)) (timers : List (ℕ × ℕ))
    (t : Toast)
    → t.id ≡ id
    → Tracked (forget id pending) ((id, d) ∷ timers) ((action c).on_success r t)
resolved-Tracked c r id d pending timers t same =
    let (status, kept) = on_success_status c r t in
    rw (status, kept, same) (elem-forget_self id pending, ground arith)

pub rejected-Tracked :
    (c : Call) (err : Thrown) (id : ℕ) (pending : List (ℕ × Call)) (timers : List (ℕ × ℕ))
    (t : Toast)
    → t.id ≡ id
    → elem id (keys timers) ≡ false
    → Tracked (forget id pending) timers ((action c).on_failure err t)
rejected-Tracked c err id pending timers t same untimed =
    let (status, kept) = on_failure_status c err t in
    rw (status, kept, same) (elem-forget_self id pending, untimed)
