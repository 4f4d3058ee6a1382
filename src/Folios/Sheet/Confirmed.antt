-- ===== src/Folios/Sheet/Confirmed.antt =====
-- dashboard/src/folio/Folios.tsx, `MobileFolioSheet`: the runs of a sheet, and its deletions.
use ok_folio.Prelude.{
  ℕ, ◌+◌, ◌≤◌, List, [], ◌∷◌, Option, none, some, Bool, true, false, ◌||◌, is_nil, if◌then◌else◌,
  ◌≡◌, refl, arith, All, Bool-cases, inl, inr,
}
use ok_folio.Prelude.Text.{Text, trim, text_eq}
use ok_folio.Actions.{Request}
use ok_folio.Actions.Folios.{create_folio, rename_folio, change_folio_cover}
use ok_folio.Folios.Sheet.{
  name_effect, create, actions, rename, cover, delete_from, cover_from, SheetState, FolioSheet,
  Effect, switch, submit_name, end_submit_name, click_delete, choose_cover,
}

pub data SheetEvent : Type 0 where
  switched : SheetState → SheetEvent
  typed : Text → SheetEvent
  submitted delete_clicked : SheetEvent
  answered : Bool → SheetEvent
  cover_chosen : ℕ → SheetEvent

unfoldable pub step : SheetEvent → FolioSheet → FolioSheet × Effect
step (switched state) s = (switch state, record { request = none; closes = false })
step (typed name) s = (record s { name = name }, record { request = none; closes = false })
step submitted s = submit_name s
step delete_clicked s = click_delete s
step (answered ok) s = end_submit_name ok s
step (cover_chosen id) s = choose_cover id s

abbrev with_request : Option Request → List Request → List Request
with_request none l = l
with_request (some r) l = r ∷ l

-- The requests of a run, in their order.
unfoldable pub run : List SheetEvent → FolioSheet → List Request
run [] s = []
run (e ∷ events) s = with_request (step e s).1.request (run events (step e s).0)

abbrev click_of : SheetEvent → ℕ
click_of delete_clicked = 1
click_of _ = 0

unfoldable pub delete_clicks : List SheetEvent → ℕ
delete_clicks [] = 0
delete_clicks (e ∷ events) = click_of e + delete_clicks events

abbrev pub is_delete : Request → Bool
is_delete (Request.delete_folio id) = true
is_delete _ = false

abbrev IsSparing : Option Request → Type 0
IsSparing none = Unit
IsSparing (some r) = is_delete r ≡ false

abbrev confirmed : FolioSheet → ℕ
confirmed s = if s.confirm_delete then 1 else 0

-- What a step does to the clicks made so far, where they are too few to delete.
abbrev IsCounted : SheetEvent → FolioSheet → FolioSheet × Effect → Type 0
IsCounted e s (t, effect) = (confirmed t ≤ confirmed s + click_of e) × IsSparing effect.request

name_effect-IsSparing :
    (state : SheetState) (trimmed : Text) → IsSparing (name_effect state trimmed).request
unfolding name_effect create_folio rename_folio
name_effect-IsSparing create trimmed = refl
name_effect-IsSparing (actions folio) trimmed = tt
name_effect-IsSparing (cover folio) trimmed = tt
name_effect-IsSparing (rename folio) trimmed = elim (Bool-cases (text_eq trimmed folio.name)) [
  | inl same ↦ rw same tt
  | inr other ↦ rw other refl
]

submitted-IsCounted : (s : FolioSheet) → IsCounted submitted s (submit_name s)
unfolding submit_name
submitted-IsCounted s = elim (Bool-cases (is_nil (trim s.name) || s.is_submitting_name)) [
  | inl stopped ↦ rw stopped (omega arith, tt)
  | inr going ↦ rw going (omega arith, name_effect-IsSparing s.state (trim s.name))
]

delete_from-IsCounted :
    (state : SheetState) (s : FolioSheet)
    → confirmed s + 1 ≤ 1
    → IsCounted delete_clicked s (delete_from state s)
delete_from-IsCounted (actions folio) s few = elim (Bool-cases s.confirm_delete) [
  | inl sure ↦ ground arith
  | inr unsure ↦ rw unsure (omega arith, tt)
]
delete_from-IsCounted create s few = (omega arith, tt)
delete_from-IsCounted (rename folio) s few = (omega arith, tt)
delete_from-IsCounted (cover folio) s few = (omega arith, tt)

cover_from-IsSparing : (id : ℕ) (state : SheetState) → IsSparing (cover_from id state).request
unfolding change_folio_cover
cover_from-IsSparing id create = tt
cover_from-IsSparing id (actions folio) = tt
cover_from-IsSparing id (rename folio) = tt
cover_from-IsSparing id (cover folio) = refl

step-IsCounted :
    (e : SheetEvent) (s : FolioSheet) → confirmed s + click_of e ≤ 1 → IsCounted e s (step e s)
unfolding step switch click_delete choose_cover end_submit_name
step-IsCounted (switched state) s few = (omega arith, tt)
step-IsCounted (typed name) s few = (omega arith, tt)
step-IsCounted submitted s few = submitted-IsCounted s
step-IsCounted delete_clicked s few = delete_from-IsCounted s.state s few
step-IsCounted (answered true) s few = (omega arith, tt)
step-IsCounted (answered false) s few = (omega arith, tt)
step-IsCounted (cover_chosen id) s few = (omega arith, cover_from-IsSparing id s.state)

with_request-All :
    (o : Option Request) (l : List Request)
    → IsSparing o
    → All (λ r. is_delete r ≡ false) l
    → All (λ r. is_delete r ≡ false) (with_request o l)
with_request-All none l h k = k
with_request-All (some r) l h k = (h, k)

few_clicks_spare :
    (events : List SheetEvent) (s : FolioSheet)
    → confirmed s + delete_clicks events ≤ 1
    → All (λ r. is_delete r ≡ false) (run events s)
unfolding run delete_clicks
few_clicks_spare [] s few = tt
few_clicks_spare (e ∷ events) s few =
    let (counted, sparing) = step-IsCounted e s (omega arith) in
    with_request-All (step e s).1.request _ sparing
      (few_clicks_spare events (step e s).0 (omega arith))

-- A sheet on which the button that deletes the folio is clicked once at most, whatever else is done
-- on it, asks for no deletion.
pub one_click_spares :
    (state : SheetState) (events : List SheetEvent)
    → delete_clicks events ≤ 1
    → All (λ r. is_delete r ≡ false) (run events (switch state))
unfolding switch
one_click_spares state events few = few_clicks_spare events (switch state) (omega arith)
