-- ===== src/Folios/Picked.antt =====
-- dashboard/src/folio/FolioDetail.tsx, `AddPiecesPicker`: every run of the picker.
use ok_folio.Prelude.{
  ℕ, List, [], ◌∷◌, ◌++◌, Option, none, some, Bool, true, false, ◌||◌, is_nil, length,
  length-append, or_else, if◌then◌else◌, ◌≡◌, refl, sym, ◌∙◌, ap, arith, Distinct, Bool-cases, inl,
  inr, subst,
}
use ok_folio.Prelude.Text.{Text, trim}
use ok_folio.Actions.{Outcome}
use ok_folio.Folios.Selection.{Distinct-toggle_id}
use ok_folio.Folios.Picker.{
  Picker, open_picker, set_search, fire_search, toggle, begin_add, end_add,
}

-- A picker, with the lists handed over whose answer has not come.
pub record Session : Type 0 where
  pub picker : Picker
  pub asked : List (List ℕ)

abbrev pub with_asked : Option (List ℕ) → List (List ℕ) → List (List ℕ)
with_asked none asked = asked
with_asked (some ids) asked = asked ++ ids ∷ []

pub data Step : Session → Session → Type 0 where
  sought : (search : Text) (s : Session) → Step s (record s { picker = set_search search s.picker })
  waited : (s : Session) → Step s (record s { picker = fire_search s.picker })
  toggled : (id : ℕ) (s : Session) → Step s (record s { picker = toggle id s.picker })
  added :
      (s : Session)
      → Step s (record {
        picker = (begin_add s.picker).0;
        asked = with_asked (begin_add s.picker).1 s.asked;
      })
  answered :
      (before after : List (List ℕ)) (ids : List ℕ) (answer : Outcome Bool) (s : Session)
      → s.asked ≡ before ++ ids ∷ after
      → Step s (record { picker = end_add answer s.picker; asked = before ++ after })

pub data Reach : Session → Type 0 where
  here : Reach (record { picker = open_picker; asked = [] })
  next : {s t : Session} → Reach s → Step s t → Reach t

-- The query is the trimmed search, or becomes it when the timeout fires.
pub IsSearched : Picker → Type 0
IsSearched p = or_else p.timer p.query ≡ trim p.search

-- What is handed over and not answered is the selection, once, exactly while the picker is adding.
unfoldable pub IsSteady : Session → Type 0
IsSteady s =
    Distinct s.picker.selected
    × IsSearched s.picker
    × (s.asked ≡ (if s.picker.adding then s.picker.selected ∷ [] else []))

-- What an added list leaves handed over.
asked_once :
    (adding : Bool) (selected : List ℕ) (asked : List (List ℕ))
    → asked ≡ (if adding then selected ∷ [] else [])
    → (adding || is_nil selected) ≡ false
    → asked ++ selected ∷ [] ≡ selected ∷ []
asked_once true selected asked once going = ground arith
asked_once false selected asked once going = ap (λ l. l ++ selected ∷ []) once

begin_add-IsSteady :
    (s : Session)
    → IsSteady s
    → IsSteady (record {
      picker = (begin_add s.picker).0;
      asked = with_asked (begin_add s.picker).1 s.asked;
    })
unfolding IsSteady IsSearched begin_add
begin_add-IsSteady s (distinct, same, once) =
    elim (Bool-cases (s.picker.adding || is_nil s.picker.selected)) [
      | inl stopped ↦ rw stopped (distinct, same, once)
      | inr going ↦
          rw going (distinct, same, asked_once s.picker.adding s.picker.selected s.asked once going)
    ]

toggle-IsSteady :
    (id : ℕ) (p : Picker) (asked : List (List ℕ))
    → IsSteady (record { picker = p; asked = asked })
    → IsSteady (record { picker = toggle id p; asked = asked })
unfolding IsSteady IsSearched toggle
toggle-IsSteady id p asked (distinct, same, once) = elim (Bool-cases p.adding) [
  | inl busy ↦
      rw busy (distinct, same, subst (λ b. asked ≡ (if b then p.selected ∷ [] else [])) busy once)
  | inr idle ↦ rw idle (
    Distinct-toggle_id id p.selected distinct,
    same,
    subst (λ b. asked ≡ (if b then p.selected ∷ [] else [])) idle once,
  )
]

-- An answer is to the only list handed over.
left_over :
    (before after : List (List ℕ)) (ids selected : List ℕ) (adding : Bool) (asked : List (List ℕ))
    → asked ≡ before ++ ids ∷ after
    → asked ≡ (if adding then selected ∷ [] else [])
    → before ++ after ≡ []
left_over [] after ids selected true asked split once = ground arith
left_over [] after ids selected false asked split once = ground arith
left_over (b ∷ before) after ids selected true asked split once =
    ground (arith, ap length (sym split ∙ once), length-append before (ids ∷ after))
left_over (b ∷ before) after ids selected false asked split once = ground arith

Step-IsSteady : {s t : Session} → Step s t → IsSteady s → IsSteady t
unfolding IsSteady IsSearched set_search fire_search end_add
Step-IsSteady (sought search s) (distinct, same, once) = (distinct, refl, once)
Step-IsSteady (waited s) (distinct, same, once) = (distinct, same, once)
Step-IsSteady (toggled id s) h = toggle-IsSteady id s.picker s.asked h
Step-IsSteady (added s) h = begin_add-IsSteady s h
Step-IsSteady (answered before after ids answer s split) (distinct, same, once) = (
  distinct,
  same,
  left_over before after ids s.picker.selected s.picker.adding s.asked split once,
)

-- In every run of the picker: no piece is chosen twice; the query is the trimmed search, or becomes
-- it when the pending timeout fires; and while it is adding, and only then, exactly one list is
-- handed over and not answered, which is the selection still shown.
pub Reach-IsSteady : {s : Session} → Reach s → IsSteady s
unfolding IsSteady IsSearched open_picker
Reach-IsSteady here = (tt, refl, refl)
Reach-IsSteady (next r step) = Step-IsSteady step (Reach-IsSteady r)
