-- ===== src/Folios/Named.antt =====
-- dashboard/src/folio/Folios.tsx, `FolioNameModal`: every run of the dialog.
use ok_folio.Prelude.{
  ℕ, ◌<◌, List, [], Option, none, some, Bool, true, false, ◌==◌, ◌||◌, not, is_nil, filter, elem,
  Distinct, Distinct-filter, elem-without, All, All-append, ◌≡◌, refl, arith, Bool-cases, inl, inr,
  subst,
}
use ok_folio.Prelude.Text.{Text, trim, trim_idem}
use ok_folio.Actions.{Outcome}
use ok_folio.Folios.NameModal.{
  create, rename, NameMode, NameModal, NameSlot, NameScreen, open_create, open_rename, opened,
  unchanged, submit, refuse, saved, open_modal, close_modal, with_name, type_name, after_submit,
  submit_open, submit_modal, refuse_at, answer_modal,
}

-- What happens to a dialog after its opening.
pub data SlotStep : NameSlot → NameSlot → Type 0 where
  escaped : (s : NameSlot) → SlotStep s (close_modal s)
  typed : (name : Text) (s : NameSlot) → SlotStep s (type_name name s)
  submitted : (s : NameSlot) → SlotStep s (submit_modal s)
  answered :
      (i : ℕ) (answer : Outcome Bool) (s : NameSlot)
      → elem i s.waiting ≡ true
      → SlotStep s (answer_modal i answer s)

pub data Step : NameScreen → NameScreen → Type 0 where
  create_clicked : (s : NameScreen) → s.creation.modal ≡ none → Step s (open_create s)
  rename_clicked :
      (name : Text) (s : NameScreen) → s.renaming.modal ≡ none → Step s (open_rename name s)
  at_creation :
      (s : NameScreen) {t : NameSlot} → SlotStep s.creation t → Step s (record s { creation = t })
  at_renaming :
      (s : NameScreen) {t : NameSlot} → SlotStep s.renaming t → Step s (record s { renaming = t })

abbrev pub closed : NameSlot
closed = record { modal = none; openings = 0; waiting = []; sent = [] }

abbrev pub all_closed : NameScreen
all_closed = record { creation = closed; renaming = closed }

pub data Reach : NameScreen → Type 0 where
  here : Reach all_closed
  next : {s t : NameScreen} → Reach s → Step s t → Reach t

-- A name as a dialog may send it.
pub IsProper : NameMode × Text → Type 0
IsProper (mode, name) = (trim name ≡ name) × (is_nil name ≡ false) × (unchanged mode name ≡ false)

-- The open dialog is submitting exactly while its request has no answer.
abbrev pub IsBusyRight : ℕ → List ℕ → Option (ℕ × NameModal) → Type 0
IsBusyRight openings waiting none = Unit
IsBusyRight openings waiting (some (i, m)) = (i < openings) × (m.is_submitting ≡ elem i waiting)

pub IsNamed : NameSlot → Type 0
IsNamed s =
    ((i : ℕ) → elem i s.waiting ≡ true → i < s.openings)
    × Distinct s.waiting
    × IsBusyRight s.openings s.waiting s.modal
    × All IsProper s.sent

submit-IsNamed :
    (i : ℕ) (m : NameModal) (s : NameSlot)
    → s.modal ≡ some (i, m)
    → IsNamed s
    → IsNamed (after_submit i (submit m) s)
unfolding IsNamed IsProper after_submit submit close_modal unchanged
submit-IsNamed i m s shown (fresh, distinct, busy, proper) =
    let busy_m : IsBusyRight s.openings s.waiting (some (i, m)) =
      subst (IsBusyRight s.openings s.waiting) shown busy in
    elim (Bool-cases (is_nil (trim m.name) || m.is_submitting)) [
      | inl stopped ↦ rw stopped (fresh, distinct, busy_m, proper)
      | inr going ↦ elim (Bool-cases (unchanged m.mode (trim m.name))) [
        | inl same ↦ rw (going, same) (fresh, distinct, tt, proper)
        | inr other ↦
            rw (going, other)
              (
                λ j listed. ground (arith, fresh j, busy_m.0),
                (ground (arith, busy_m.1), distinct),
                (busy_m.0, ground arith),
                All-append IsProper s.sent _ proper ((trim_idem m.name, ground arith, other), tt),
              )
      ]
    ]

refuse_at-IsBusyRight :
    (i openings : ℕ) (waiting : List ℕ) (modal : Option (ℕ × NameModal))
    → IsBusyRight openings waiting modal
    → IsBusyRight openings (filter (λ k. not (k == i)) waiting) (refuse_at i modal)
unfolding refuse_at refuse
refuse_at-IsBusyRight i openings waiting none h = tt
refuse_at-IsBusyRight i openings waiting (some (j, m)) (below, busy) = elim (Bool-cases (j == i)) [
  | inl same ↦ rw same (below, ground (arith, elem-without i j waiting))
  | inr apart ↦ rw apart (below, ground (arith, elem-without i j waiting))
]

answer-IsNamed :
    (i : ℕ) (answer : Outcome Bool) (s : NameSlot) → IsNamed s → IsNamed (answer_modal i answer s)
unfolding IsNamed answer_modal close_modal
answer-IsNamed i answer s (fresh, distinct, busy, proper) = elim (Bool-cases (saved answer)) [
  | inl ok ↦ rw ok (
    λ j listed. ground (arith, elem-without i j s.waiting, fresh j),
    Distinct-filter _ s.waiting distinct,
    tt,
    proper,
  )
  | inr refused ↦ rw refused (
    λ j listed. ground (arith, elem-without i j s.waiting, fresh j),
    Distinct-filter _ s.waiting distinct,
    refuse_at-IsBusyRight i s.openings s.waiting s.modal busy,
    proper,
  )
]

typed-IsBusyRight :
    (name : Text) (openings : ℕ) (waiting : List ℕ) (modal : Option (ℕ × NameModal))
    → IsBusyRight openings waiting modal
    → IsBusyRight openings waiting (with_name name modal)
typed-IsBusyRight name openings waiting none h = h
typed-IsBusyRight name openings waiting (some (i, m)) h = h

submit_open-IsNamed :
    (modal : Option (ℕ × NameModal)) (s : NameSlot)
    → s.modal ≡ modal
    → IsNamed s
    → IsNamed (submit_open modal s)
submit_open-IsNamed none s shown h = h
submit_open-IsNamed (some (i, m)) s shown h = submit-IsNamed i m s shown h

SlotStep-IsNamed : {s t : NameSlot} → SlotStep s t → IsNamed s → IsNamed t
unfolding IsNamed close_modal type_name submit_modal
SlotStep-IsNamed (escaped s) (fresh, distinct, busy, proper) = (fresh, distinct, tt, proper)
SlotStep-IsNamed (typed name s) (fresh, distinct, busy, proper) =
    (fresh, distinct, typed-IsBusyRight name _ _ s.modal busy, proper)
SlotStep-IsNamed (submitted s) h = submit_open-IsNamed s.modal s refl h
SlotStep-IsNamed (answered i answer s waits) h = answer-IsNamed i answer s h

open_modal-IsNamed : (mode : NameMode) (s : NameSlot) → IsNamed s → IsNamed (open_modal mode s)
unfolding IsNamed open_modal opened
open_modal-IsNamed mode s (fresh, distinct, busy, proper) = (
  λ j listed. omega (arith, fresh j listed),
  distinct,
  (omega arith, ground (arith, Bool-cases (elem s.openings s.waiting), fresh s.openings)),
  proper,
)

-- Both dialogs of the screen.
abbrev pub AreNamed : NameScreen → Type 0
AreNamed s = IsNamed s.creation × IsNamed s.renaming

Step-AreNamed : {s t : NameScreen} → Step s t → AreNamed s → AreNamed t
unfolding open_create open_rename
Step-AreNamed (create_clicked s shut) (c, r) = (open_modal-IsNamed create s.creation c, r)
Step-AreNamed (rename_clicked name s shut) (c, r) =
    (c, open_modal-IsNamed (rename name) s.renaming r)
Step-AreNamed (at_creation s step) (c, r) = (SlotStep-IsNamed step c, r)
Step-AreNamed (at_renaming s step) (c, r) = (c, SlotStep-IsNamed step r)

closed-IsNamed : IsNamed closed
unfolding IsNamed
closed-IsNamed = (λ i listed. ground arith, tt, tt, tt)

-- In every run of the screen, for its dialog of a new folio and for its dialog of a rename, across
-- their openings: no opening has two requests in flight, the dialog, while open, is submitting
-- exactly while its own request has no answer, and each name sent is trimmed, not empty and, for a
-- rename, not the trimmed name that the folio had.
pub Reach-IsNamed : {s : NameScreen} → Reach s → AreNamed s
Reach-IsNamed here = (closed-IsNamed, closed-IsNamed)
Reach-IsNamed (next r step) = Step-AreNamed step (Reach-IsNamed r)
