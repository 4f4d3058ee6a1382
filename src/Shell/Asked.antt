-- ===== src/Shell/Asked.antt =====
-- dashboard/src/folio/ui.tsx, `ConfirmationDialog`: every run of a dialog.
use ok_folio.Prelude.{ℕ, suc, ◌≤◌, ◌≡◌, refl, arith, true, false, Bool-cases, if◌then◌else◌}
use ok_folio.Shell.{Confirmation, Call, confirm, submit, end_submit}

-- A dialog, with the number of its calls of `onConfirm` that have not settled.
pub record Session : Type 0 where
  pub dialog : Confirmation
  pub running : ℕ

abbrev pub count_call : Call → ℕ → ℕ
count_call confirm n = suc n
count_call _ n = n

pub data Step : Session → Session → Type 0 where
  submitted :
      (s : Session)
      → s.dialog.mounted ≡ true
      → Step s (record {
        dialog = (submit s.dialog).0;
        running = count_call (submit s.dialog).1 s.running;
      })
  settled :
      (s : Session) (n : ℕ)
      → s.running ≡ suc n
      → Step s (record { dialog = end_submit s.dialog; running = n })
  unmounted : (s : Session) → Step s (record s { dialog = record s.dialog { mounted = false } })

abbrev pub shown : Session
shown = record { dialog = record { mounted = true; is_submitting = false }; running = 0 }

pub data Reach : Session → Type 0 where
  here : Reach shown
  next : {s t : Session} → Reach s → Step s t → Reach t

abbrev pub busy_count : Confirmation → ℕ
busy_count d = if d.is_submitting then 1 else 0

-- The confirmed action runs once at a time, and exactly while the dialog on screen is submitting.
pub IsOnce : Session → Type 0
IsOnce s = (s.running ≤ 1) × (s.dialog.mounted ≡ true → s.running ≡ busy_count s.dialog)

submitted-IsOnce :
    (s : Session)
    → s.dialog.mounted ≡ true
    → IsOnce s
    → IsOnce (record {
      dialog = (submit s.dialog).0;
      running = count_call (submit s.dialog).1 s.running;
    })
unfolding IsOnce submit
submitted-IsOnce s up (few, same) = ground (arith, same up, Bool-cases s.dialog.is_submitting)

settled-IsOnce :
    (s : Session) (n : ℕ)
    → s.running ≡ suc n
    → IsOnce s
    → IsOnce (record { dialog = end_submit s.dialog; running = n })
unfolding IsOnce end_submit
settled-IsOnce s n one (few, same) = ground (arith, Bool-cases s.dialog.mounted)

Step-IsOnce : {s t : Session} → Step s t → IsOnce s → IsOnce t
unfolding IsOnce
Step-IsOnce (submitted s up) h = submitted-IsOnce s up h
Step-IsOnce (settled s n one) h = settled-IsOnce s n one h
Step-IsOnce (unmounted s) (few, same) = (few, λ up. ground arith)

-- In every run of the dialog, at most one call of the action asked about has not settled, and while
-- the dialog is on screen there is one exactly if it is submitting.
pub Reach-IsOnce : {s : Session} → Reach s → IsOnce s
unfolding IsOnce
Reach-IsOnce here = (omega arith, λ up. refl)
Reach-IsOnce (next r step) = Step-IsOnce step (Reach-IsOnce r)
