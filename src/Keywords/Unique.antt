-- ===== src/Keywords/Unique.antt =====
-- dashboard/src/folio/context.tsx, `uniquePositiveIds`.
use ok_folio.Prelude.{
  ℕ, List, [], ◌∷◌, ◌&&◌, not, filter, elem, ltb, ◌≡◌, refl, arith, Distinct, length, ◌≤◌,
}
use ok_folio.Keywords.{unique_from, unique_positive_ids}

-- A number is kept exactly if it is listed and not seen before.
pub elem-unique_from :
    (a : ℕ) (seen ids : List ℕ) → elem a (unique_from seen ids) ≡ (elem a ids && not (elem a seen))
unfolding unique_from
elem-unique_from a seen [] = refl
elem-unique_from a seen (id ∷ ids) =
    ground (arith, elem-unique_from a seen ids, elem-unique_from a (id ∷ seen) ids)

Distinct-unique_from : (seen ids : List ℕ) → Distinct (unique_from seen ids)
unfolding unique_from
Distinct-unique_from seen [] = tt
Distinct-unique_from seen (id ∷ ids) = ground (
  arith,
  Distinct-unique_from seen ids,
  Distinct-unique_from (id ∷ seen) ids,
  elem-unique_from id (id ∷ seen) ids,
)

elem-filter_pos :
    (a : ℕ) (ids : List ℕ) → elem a (filter (λ id. ltb 0 id) ids) ≡ (ltb 0 a && elem a ids)
elem-filter_pos a [] = ground arith
elem-filter_pos a (id ∷ ids) = ground (arith, elem-filter_pos a ids)

-- The result has no id twice, and has an id exactly if the list has it and it is positive.
pub unique_positive_ids_lem :
    (ids : List ℕ)
    → Distinct (unique_positive_ids ids)
      × ((a : ℕ) → elem a (unique_positive_ids ids) ≡ (ltb 0 a && elem a ids))
unfolding unique_positive_ids
unique_positive_ids_lem ids = (
  Distinct-unique_from [] _,
  λ a. ground (arith, elem-unique_from a [] (filter (λ id. ltb 0 id) ids), elem-filter_pos a ids),
)

pub length-unique_from-le : (seen ids : List ℕ) → length (unique_from seen ids) ≤ length ids
unfolding unique_from
length-unique_from-le seen [] = omega arith
length-unique_from-le seen (id ∷ ids) =
    ground (arith, length-unique_from-le seen ids, length-unique_from-le (id ∷ seen) ids)
