-- ===== src/Actions/Lifecycle/Reports.antt =====
-- dashboard/src/folio/context.tsx: what the handlers of each background action make of its toast.
use ok_folio.Prelude.{◌≡◌, refl}
use ok_folio.Toasts.{Toast, success, error}
use ok_folio.Actions.{Thrown}
use ok_folio.Actions.Store.{Call, Response, action, import_call}

-- A success handler turns the toast into a success and keeps its id.
pub on_success_status :
    (c : Call) (r : Response c) (t : Toast)
    → (((action c).on_success r t).status ≡ success) × (((action c).on_success r t).id ≡ t.id)
unfolding action
on_success_status (import_call input) r t = (refl, refl)
on_success_status _ r t = (refl, refl)

pub on_failure_status :
    (c : Call) (e : Thrown) (t : Toast)
    → (((action c).on_failure e t).status ≡ error) × (((action c).on_failure e t).id ≡ t.id)
unfolding action
on_failure_status (import_call input) e t = (refl, refl)
on_failure_status _ e t = (refl, refl)
