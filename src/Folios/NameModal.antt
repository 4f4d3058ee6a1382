-- ===== src/Folios/NameModal.antt =====
-- dashboard/src/folio/Folios.tsx: `FolioNameModal`, and the screen that opens it from two states,
-- `createOpen` and `renameTarget`. The answer to a request reaches the dialog that sent it by
-- `setError`, so an opening has a number; but `onClose` resets the state, whichever of its dialogs
-- is open. A slot is one of the two states.
use ok_folio.Prelude.{
  ℕ, suc, List, [], ◌∷◌, ◌++◌, Option, none, some, Bool, true, false, ◌==◌, ◌||◌, not, is_nil,
  filter, if◌then◌else◌,
}
use ok_folio.Prelude.Text.{Text, codes, trim, text_eq}
use ok_folio.Actions.{Outcome, resolved, rejected}

-- `mode`, with `initialName`.
pub data NameMode : Type 0 where
  create : NameMode
  rename : Text → NameMode

abbrev pub initial_name : NameMode → Text
initial_name create = []
initial_name (rename initial) = initial

pub record NameModal : Type 0 where
  pub mode : NameMode
  pub name : Text
  pub error : Text
  pub is_submitting : Bool

unfoldable pub opened : NameMode → NameModal
opened mode = record { mode = mode; name = initial_name mode; error = []; is_submitting = false }

unfoldable pub unchanged : NameMode → Text → Bool
unchanged create trimmed = false
unchanged (rename initial) trimmed = text_eq trimmed (trim initial)

-- What `submit` does besides: nothing, `onClose`, or the request for a name.
pub data Submission : Type 0 where
  stay close : Submission
  send : Text → Submission

-- The synchronous part of `submit`.
unfoldable pub submit : NameModal → NameModal × Submission
unfolding unchanged
submit m =
    let trimmed = trim m.name in
    if is_nil trimmed || m.is_submitting
    then (m, stay)
    else if unchanged m.mode trimmed
    then (m, close)
    else (record m { error = []; is_submitting = true }, send trimmed)

abbrev refusal : NameMode → Text
refusal create = codes "Folio could not be created. Try again."
refusal (rename initial) = codes "Folio could not be renamed. Try again."

-- The end of `submit`, where the name was not saved.
unfoldable pub refuse : NameModal → NameModal
refuse m = record m { error = refusal m.mode; is_submitting = false }

-- `await onSubmitName(trimmed).catch(() => false)`
abbrev pub saved : Outcome Bool → Bool
saved (resolved ok) = ok
saved (rejected err) = false

-- The dialog of the state, if it is open, with its number; its openings so far; those whose request has no answer
-- yet; and the names sent.
pub record NameSlot : Type 0 where
  pub modal : Option (ℕ × NameModal)
  pub openings : ℕ
  pub waiting : List ℕ
  pub sent : List (NameMode × Text)

unfoldable pub open_modal : NameMode → NameSlot → NameSlot
unfolding opened
open_modal mode s = record s { modal = some (s.openings, opened mode); openings = suc s.openings }

unfoldable pub close_modal : NameSlot → NameSlot
close_modal s = record s { modal = none }

abbrev pub with_name : Text → Option (ℕ × NameModal) → Option (ℕ × NameModal)
with_name name none = none
with_name name (some (i, m)) = some (i, record m { name = name })

unfoldable pub type_name : Text → NameSlot → NameSlot
type_name name s = record s { modal = with_name name s.modal }

unfoldable pub after_submit : ℕ → NameModal × Submission → NameSlot → NameSlot
unfolding close_modal
after_submit i (m, stay) s = record s { modal = some (i, m) }
after_submit i (m, close) s = close_modal s
after_submit i (m, send name) s = record s {
  modal = some (i, m);
  waiting = i ∷ s.waiting;
  sent = s.sent ++ (m.mode, name) ∷ [];
}

abbrev pub submit_open : Option (ℕ × NameModal) → NameSlot → NameSlot
submit_open none s = s
submit_open (some (i, m)) s = after_submit i (submit m) s

unfoldable pub submit_modal : NameSlot → NameSlot
unfolding submit after_submit
submit_modal s = submit_open s.modal s

-- The dialog of opening `i`, if it is still open, shows the refusal.
unfoldable pub refuse_at : ℕ → Option (ℕ × NameModal) → Option (ℕ × NameModal)
unfolding refuse
refuse_at i none = none
refuse_at i (some (j, m)) = if j == i then some (j, refuse m) else some (j, m)

-- What follows the answer to the request of opening `i`.
unfoldable pub answer_modal : ℕ → Outcome Bool → NameSlot → NameSlot
unfolding close_modal refuse_at
answer_modal i answer s =
    let rest = record s { waiting = filter (λ j. not (j == i)) s.waiting } in
    if saved answer then close_modal rest else record rest { modal = refuse_at i s.modal }

-- The states of `Folios`.
pub record NameScreen : Type 0 where
  pub creation : NameSlot
  pub renaming : NameSlot

-- `setCreateOpen(true)`, by the button of the page.
unfoldable pub open_create : NameScreen → NameScreen
unfolding open_modal
open_create s = record s { creation = open_modal create s.creation }

-- `setRenameTarget(folio)`, by the menu of a tile.
unfoldable pub open_rename : Text → NameScreen → NameScreen
unfolding open_modal
open_rename name s = record s { renaming = open_modal (rename name) s.renaming }
