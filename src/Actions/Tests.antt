-- ===== src/Actions/Tests.antt =====
-- Tests of the background actions of dashboard/src/folio/context.tsx.
use ok_folio.Prelude.{arith, [], ◌∷◌, none, some, true, ◌≡◌, refl, ◌⊎◌, ◌++◌}
use ok_folio.Prelude.Text.{codes, trim}
use ok_folio.Toasts.{Toast, error, add_toast, update_toast, dismiss_toast}
use ok_folio.Actions.{resolved, rejected}
use ok_folio.Actions.Store.{
  Store, add_call, rename_call, initial, begin, settle, expire, dismiss, action, forget,
  pending_call,
}
use ok_folio.Actions.Lifecycle.{Reach, start, answered, fired, here, next}
use ok_folio.Actions.Lifecycle.Tracking.{IsValid}
use ok_folio.Actions.Lifecycle.Invariant.{reached-IsValid}
use ok_folio.Actions.Lifecycle.Reporting.{toast_at, Reported, error_toast_stays, call-Reported}

-- Two calls; the first is rejected, the second succeeds.
abbrev both_sent : Store
both_sent = begin (add_call 4 9) (begin (rename_call 4 (codes " Prints ")) initial)

abbrev first_failed : Store
first_failed = settle 1 (rename_call 4 (codes " Prints ")) (rejected none) both_sent

abbrev second_done : Store
second_done = settle 2 (add_call 4 9) (resolved true) first_failed

run : Reach initial second_done
unfolding begin settle add_toast update_toast forget pending_call action
run =
    next
      (next (next (next here (start _ _)) (start _ _))
        (answered 1 (rename_call 4 (codes " Prints ")) (rejected none) both_sent refl))
      (answered 2 (add_call 4 9) (resolved true) first_failed refl)

reached-IsValid_example : IsValid second_done
reached-IsValid_example = reached-IsValid run

quiet_run : Reach initial (expire 2 second_done)
unfolding begin settle add_toast update_toast forget pending_call action
quiet_run = next run (fired 2 second_done refl)

abbrev error_toast : Toast
error_toast = record {
  id = 1;
  status = error;
  title = codes "Couldn’t rename folio";
  detail = some (codes "Prints");
}

-- One toast is left, the error of the first call.
left_toasts : (expire 2 second_done).toasts ≡ error_toast ∷ []
unfolding begin settle expire add_toast update_toast dismiss_toast forget pending_call action trim
left_toasts = refl

first_failed-IsValid : IsValid first_failed
unfolding begin settle add_toast update_toast forget pending_call action
first_failed-IsValid = reached-IsValid (
    next (next (next here (start _ _)) (start _ _))
      (answered 1 (rename_call 4 (codes " Prints ")) (rejected none) both_sent refl))

error_toast_stays_example :
    (toast_at 1 second_done.toasts ≡ some error_toast) ⊎ (second_done ≡ dismiss 1 first_failed)
unfolding begin settle add_toast update_toast forget pending_call action trim
error_toast_stays_example =
    error_toast_stays 1 error_toast first_failed-IsValid refl refl
      (answered 2 (add_call 4 9) (resolved true) first_failed refl)

-- The add call, settled in the state where the rename has failed.
abbrev settled : Store
settled = settle 3 (add_call 4 9) (resolved true) (begin (add_call 4 9) first_failed)

call-Reported_example :
    Reported (add_call 4 9) (resolved true) 3 first_failed settled
    × (toast_at 1 settled.toasts ≡ toast_at 1 first_failed.toasts)
    × (settled.sent ≡ first_failed.sent ++ (action (add_call 4 9)).request ∷ [])
unfolding begin settle add_toast update_toast forget pending_call action
call-Reported_example =
    call-Reported (add_call 4 9) (resolved true) first_failed 1 first_failed-IsValid
      (λ e. ground arith)
