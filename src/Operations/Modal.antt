-- ===== src/Operations/Modal.antt =====
-- dashboard/src/components/ImageModal.tsx: the arrows of the modal, which has no piece before the
-- first or after the last one.
use ok_folio.Prelude.{
  ℕ, suc, ◌-◌, List, Option, none, some, Bool, false, ◌==◌, ltb, find_index?, get_elem?, length,
  if◌then◌else◌,
}

-- `photoIds.indexOf(photoId)`
abbrev pub index_in : List ℕ → ℕ → Option ℕ
index_in photo_ids photo_id = find_index? (λ id. id == photo_id) photo_ids

unfoldable pub has_prev : List ℕ → ℕ → Bool
has_prev photo_ids photo_id = elim (index_in photo_ids photo_id) [ none ↦ false | some i ↦ ltb 0 i ]

unfoldable pub has_next : List ℕ → ℕ → Bool
has_next photo_ids photo_id = elim (index_in photo_ids photo_id) [
  | none ↦ false
  | some i ↦ ltb i (length photo_ids - 1)
]

-- What `onNavigate` is called with, if it is.
unfoldable pub go_to_prev : List ℕ → ℕ → Option ℕ
unfolding has_prev
go_to_prev photo_ids photo_id =
    if has_prev photo_ids photo_id
    then elim (index_in photo_ids photo_id) [ none ↦ none | some i ↦ get_elem? photo_ids (i - 1) ]
    else none

unfoldable pub go_to_next : List ℕ → ℕ → Option ℕ
unfolding has_next
go_to_next photo_ids photo_id =
    if has_next photo_ids photo_id
    then elim (index_in photo_ids photo_id) [ none ↦ none | some i ↦ get_elem? photo_ids (suc i) ]
    else none

pub data Key : Type 0 where
  escape arrow_left arrow_right other_key : Key

pub data Navigation : Type 0 where
  stay close : Navigation
  show : ℕ → Navigation

abbrev shown : Option ℕ → Navigation
shown none = stay
shown (some id) = show id

-- The effect of a key.
unfoldable pub handle_key : List ℕ → ℕ → Key → Navigation
unfolding go_to_prev go_to_next
handle_key photo_ids photo_id escape = close
handle_key photo_ids photo_id arrow_left = shown (go_to_prev photo_ids photo_id)
handle_key photo_ids photo_id arrow_right = shown (go_to_next photo_ids photo_id)
handle_key photo_ids photo_id other_key = stay
