-- ===== src/Toasts.antt =====
-- dashboard/src/folio/context.tsx, the toast list: `ToastStatus`, `Toast`, and the three updates
-- that every action makes on it (append, map one entry, filter one entry out).
pub mod Laws
use ok_folio.Prelude.{
  ℕ, List, [], ◌∷◌, ◌++◌, Option, map, Bool, true, false, ◌==◌, not, filter, if◌then◌else◌,
}
use ok_folio.Prelude.Text.{Text}

pub data ToastStatus : Type 0 where
  loading success error : ToastStatus

pub record Toast : Type 0 where
  pub id : ℕ
  pub status : ToastStatus
  pub title : Text
  pub detail : Option Text

abbrev pub ids : List Toast → List ℕ
ids = map (λ t. t.id)

-- `[...prev, t]`
unfoldable pub add_toast : Toast → List Toast → List Toast
add_toast t prev = prev ++ t ∷ []

-- `prev.map((t) => (t.id === id ? change(t) : t))`
unfoldable pub update_toast : ℕ → (Toast → Toast) → List Toast → List Toast
update_toast id change = map (λ t. if t.id == id then change t else t)

-- `prev.filter((t) => t.id !== id)`
unfoldable pub dismiss_toast : ℕ → List Toast → List Toast
dismiss_toast id = filter (λ t. not (t.id == id))
