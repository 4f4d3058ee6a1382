-- ===== src/Editing/BulkBar.antt =====
-- dashboard/src/folio/BulkEditBar.tsx: the bar that edits the selected pieces at once.
use ok_folio.Prelude.{
  ℕ, List, [], ◌∷◌, Option, none, some, Bool, true, false, ◌||◌, ◌&&◌, not, is_nil, ◌≡◌, refl,
  arith, if◌then◌else◌, is_some, ==_refl, Bool-cases, inl, inr, subst,
}
use ok_folio.Prelude.Text.{Text, trim}
use ok_folio.Keywords.{split_keywords}
use ok_folio.Metadata.{BulkMetadataEdit}
use ok_folio.Metadata.Bulk.{bulk_unsent_answer, bulk_fields, first_occurrences, index_of}

pub record BarState : Type 0 where
  pub artist : Text
  pub date : Text
  pub add_keywords : Text
  pub remove_keywords : Text
  pub busy : Bool

unfoldable pub can_apply : List ℕ → BarState → Bool
can_apply selected_ids s =
    not (is_nil selected_ids)
    && (not (is_nil (trim s.artist))
        || not (is_nil (trim s.date))
        || not (is_nil (trim s.add_keywords))
        || not (is_nil (trim s.remove_keywords)))

-- `...(text.trim() ? { key: value } : {})`
abbrev pub where_given {ℓ} : {A : Type ℓ} → Text → A → Option A
where_given text value = if is_nil (trim text) then none else some value

unfoldable pub bulk_input : List ℕ → BarState → BulkMetadataEdit
bulk_input selected_ids s = record {
  ids = selected_ids;
  set_artist = where_given s.artist (trim s.artist);
  set_date = where_given s.date (trim s.date);
  add_keywords = where_given s.add_keywords (split_keywords s.add_keywords);
  remove_keywords = where_given s.remove_keywords (split_keywords s.remove_keywords);
}

-- `apply`, with what it hands to `bulkEditPieces`, if it calls it.
unfoldable pub apply : List ℕ → BarState → BarState × Option BulkMetadataEdit
unfolding can_apply bulk_input
apply selected_ids s =
    if not (can_apply selected_ids s) || s.busy
    then (s, none)
    else (record s { busy = true }, some (bulk_input selected_ids s))

-- What runs when the promise answers `ok`; the selection is cleared exactly where it is true.
unfoldable pub end_apply : Bool → BarState → BarState
end_apply false s = record s { busy = false }
end_apply true s = record {
  artist = [];
  date = [];
  add_keywords = [];
  remove_keywords = [];
  busy = false;
}

-- The synchronous part of `removePieces`, by the state `removing`, with whether it calls
-- `onRemoveFromFolio`; `offered` tells whether that is given.
unfoldable pub remove_pieces : Bool → List ℕ → Bool → Bool × Bool
remove_pieces offered selected_ids removing =
    if removing || is_nil selected_ids || not offered then (removing, false) else (true, true)

first_kept : (id : ℕ) (ids : List ℕ) → is_nil (first_occurrences (id ∷ ids) 0 (id ∷ ids)) ≡ false
unfolding first_occurrences index_of
first_kept id ids = ground (arith, ==_refl id)

bulk_input_sent :
    (selected_ids : List ℕ) (s : BarState)
    → can_apply selected_ids s ≡ true
    → bulk_unsent_answer (bulk_input selected_ids s) ≡ none
unfolding can_apply bulk_input bulk_unsent_answer bulk_fields
bulk_input_sent [] s able = ground arith
bulk_input_sent (id ∷ selected_ids) s able = rw (first_kept id selected_ids) (ground arith)

-- The edit that is handed over, if any, is sent.
abbrev SentIfAny : Option BulkMetadataEdit → Type 0
SentIfAny none = Unit
SentIfAny (some input) = bulk_unsent_answer input ≡ none

-- The bar hands an edit over exactly where it is idle, something is selected and some field is not
-- blank; that edit is then sent to the server, never answered without a request.
pub apply_sends :
    (selected_ids : List ℕ) (s : BarState)
    → (is_some (apply selected_ids s).1 ≡ (can_apply selected_ids s && not s.busy))
      × ((input : BulkMetadataEdit)
          → (apply selected_ids s).1 ≡ some input
          → bulk_unsent_answer input ≡ none)
unfolding apply
apply_sends selected_ids s = elim (Bool-cases (can_apply selected_ids s)) [
  | inl able ↦ elim (Bool-cases s.busy) [
    | inl busy ↦ rw (able, busy) (refl, λ input given. ground arith)
    | inr idle ↦
        rw (able, idle)
          (
            refl,
            λ input given. subst (λ o. SentIfAny o) given (bulk_input_sent selected_ids s able),
          )
  ]
  | inr idle ↦ rw idle (refl, λ input given. ground arith)
]
