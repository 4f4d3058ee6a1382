-- ===== src/Keywords.antt =====
-- Keyword and id lists: `normalizeKeywords`, `mergeEditedFields` and `uniquePositiveIds` of
-- dashboard/src/folio/context.tsx, `normalizeDraftKeywords` and `sameKeywords` of
-- dashboard/src/folio/PieceViewer.tsx, `splitKeywords` of dashboard/src/folio/BulkEditBar.tsx.
-- `toLowerCase` follows the Unicode tables of the runtime: it is the parameter `lower`.
pub mod Normal
pub mod Unique
mod Tests
use ok_folio.Prelude.{
  ℕ, List, [], ◌∷◌, ◌++◌, map, Bool, true, false, ◌==◌, ◌||◌, ◌&&◌, not, filter, is_nil, elem, ltb,
  length, if◌then◌else◌,
}
use ok_folio.Prelude.Text.{Text, text_eq, trim}

-- `seen.has(key)`
abbrev pub has_text : Text → List Text → Bool
has_text key [] = false
has_text key (k ∷ seen) = text_eq key k || has_text key seen

module _ (lower : Text → Text) where
  -- The loop, with the set of keys seen; the values are returned in the order of `out.push`.
  unfoldable pub normalize_from : List Text → List Text → List Text
  normalize_from seen [] = []
  normalize_from seen (raw ∷ keywords) =
      let value = trim raw in
      let key = lower value in
      let skipped = normalize_from seen keywords in
      let kept = value ∷ normalize_from (key ∷ seen) keywords in
      if is_nil value || has_text key seen then skipped else kept

  unfoldable pub normalize_keywords : List Text → List Text
  normalize_keywords keywords = normalize_from [] keywords

  unfoldable pub merge_edited_fields : List Text → List Text → List Text
  merge_edited_fields existing fields = normalize_keywords (existing ++ fields)

  -- The viewer's own copy of the loop.
  unfoldable pub normalize_draft_keywords : List Text → List Text
  normalize_draft_keywords keywords = normalize_from [] keywords

-- `a.every((keyword, index) => keyword === b[index])`; past the end of `b` stands undefined.
unfoldable pub every_same : List Text → List Text → Bool
every_same [] b = true
every_same (keyword ∷ a) [] = false
every_same (keyword ∷ a) (k ∷ b) = text_eq keyword k && every_same a b

unfoldable pub same_keywords : List Text → List Text → Bool
unfolding every_same
same_keywords a b = if not (length a == length b) then false else every_same a b

-- `value.split(",")`
unfoldable pub split_comma : Text → List Text
split_comma [] = [] ∷ []
split_comma (c ∷ s) = elim (split_comma s) [
  | [] ↦ (c ∷ []) ∷ []
  | part ∷ parts ↦ if c == b',' then [] ∷ part ∷ parts else (c ∷ part) ∷ parts
]

unfoldable pub split_keywords : Text → List Text
unfolding split_comma
split_keywords value = filter (λ k. not (is_nil k)) (map trim (split_comma value))

-- `Array.from(new Set(ids))`: the first occurrence of each id, in order.
unfoldable pub unique_from : List ℕ → List ℕ → List ℕ
unique_from seen [] = []
unique_from seen (id ∷ ids) =
    let old = unique_from seen ids in
    let new = id ∷ unique_from (id ∷ seen) ids in if elem id seen then old else new

-- `uniquePositiveIds`; an id is a natural number, hence finite.
unfoldable pub unique_positive_ids : List ℕ → List ℕ
unfolding unique_from
unique_positive_ids ids = unique_from [] (filter (λ id. ltb 0 id) ids)
