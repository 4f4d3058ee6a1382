-- ===== src/Toasts/Laws.antt =====
-- What the three updates of the toast list (dashboard/src/folio/context.tsx) keep and change.
use ok_folio.Prelude.{
  ℕ, List, [], ◌∷◌, ◌++◌, false, ◌==◌, ◌≡◌, refl, All, elem, Distinct, arith, ◌≢◌, Bool-cases, inl,
  inr, ==_iff,
}
use ok_folio.Toasts.{Toast, ids, update_toast, dismiss_toast}

-- `change` does not touch the id, as no update in the code does.
abbrev pub KeepsId : (Toast → Toast) → Type 0
KeepsId change = (t : Toast) → (change t).id ≡ t.id

pub ids-update_toast :
    (id : ℕ) (change : Toast → Toast)
    → KeepsId change
    → (ts : List Toast) → ids (update_toast id change ts) ≡ ids ts
unfolding update_toast
ids-update_toast id change keeps [] = refl
ids-update_toast id change keeps (t ∷ ts) =
    ground (arith, keeps t, ids-update_toast id change keeps ts)

module _ {κ μ} (P : Toast → Type κ) (Q : Toast → Type μ) where
  -- A property of all entries, turned into another by an update.
  pub All-update_toast :
      (id : ℕ) (change : Toast → Toast)
      → ((t : Toast) → t.id ≡ id → P t → Q (change t))
      → ((t : Toast) → t.id ≢ id → P t → Q t)
      → (ts : List Toast) → All P ts
      → All Q (update_toast id change ts)
  unfolding update_toast
  All-update_toast id change at_id off_id [] h = tt
  All-update_toast id change at_id off_id (t ∷ ts) (p, h) = elim (Bool-cases (t.id == id)) [
    | inl same ↦
        rw same (at_id t ((==_iff t.id id).0 same) p, All-update_toast id change at_id off_id ts h)
    | inr other ↦ rw other (off_id t (ground arith) p, All-update_toast id change at_id off_id ts h)
  ]

  pub All-dismiss_toast :
      (id : ℕ)
      → ((t : Toast) → t.id ≢ id → P t → Q t)
      → (ts : List Toast) → All P ts
      → All Q (dismiss_toast id ts)
  unfolding dismiss_toast
  All-dismiss_toast id off_id [] h = tt
  All-dismiss_toast id off_id (t ∷ ts) (p, h) = elim (Bool-cases (t.id == id)) [
    | inl same ↦ rw same (All-dismiss_toast id off_id ts h)
    | inr other ↦ rw other (off_id t (ground arith) p, All-dismiss_toast id off_id ts h)
  ]

elem-dismiss_toast :
    (id a : ℕ) (ts : List Toast)
    → elem a (ids ts) ≡ false
    → elem a (ids (dismiss_toast id ts)) ≡ false
unfolding dismiss_toast
elem-dismiss_toast id a [] h = refl
elem-dismiss_toast id a (t ∷ ts) h = ground (arith, elem-dismiss_toast id a ts)

pub Distinct-dismiss_toast :
    (id : ℕ) (ts : List Toast) → Distinct (ids ts) → Distinct (ids (dismiss_toast id ts))
unfolding dismiss_toast
Distinct-dismiss_toast id [] h = tt
Distinct-dismiss_toast id (t ∷ ts) (new, h) = elim (Bool-cases (t.id == id)) [
  | inl same ↦ rw same (Distinct-dismiss_toast id ts h)
  | inr other ↦ rw other (elem-dismiss_toast id t.id ts new, Distinct-dismiss_toast id ts h)
]

pub Distinct-append :
    (t : Toast) (ts : List Toast)
    → All (λ u. u.id ≢ t.id) ts
    → Distinct (ids ts)
    → Distinct (ids (ts ++ t ∷ []))
Distinct-append t [] h d = (refl, tt)
Distinct-append t (u ∷ ts) (p, h) (new, d) = (elem_last u ts p new, Distinct-append t ts h d)
  where
    elem_last :
        (u : Toast) (ts : List Toast)
        → u.id ≢ t.id
        → elem u.id (ids ts) ≡ false
        → elem u.id (ids (ts ++ t ∷ [])) ≡ false
    elem_last u [] p new = ground arith
    elem_last u (v ∷ ts) p new = ground (arith, elem_last u ts p)
