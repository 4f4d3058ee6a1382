-- ===== src/BulkAdd/Counts.antt =====
-- dashboard/src/folio/context.tsx, `addPiecesToFolioAction`: the loop over the pending ids.
use ok_folio.Prelude.{
  ℕ, suc, ◌+◌, ◌-◌, ◌≤◌, List, [], ◌∷◌, ◌++◌, append-nil, append_assoc, Option, none, some, Bool,
  true, false, not, ◌||◌, length, length-filter-le, if◌then◌else◌, IdSet, ◌≡◌, refl, sym, arith,
  is_some,
}
use ok_folio.BulkAdd.{
  Reply, new_piece, present, thrown, Progress, pending_ids, count_reply, pause, post_all,
  final_result, initial_progress,
}

-- The replies that end the loop, and those that count as added.
abbrev pub throws : Reply → Bool
throws (thrown err) = true
throws _ = false

abbrev pub is_new : Reply → Bool
is_new new_piece = true
is_new _ = false

module _ (reply : ℕ → Reply) where
  -- The ids up to and including the first whose request fails.
  abbrev pub attempted : List ℕ → List ℕ
  attempted [] = []
  attempted (id ∷ rest) = if throws (reply id) then id ∷ [] else id ∷ attempted rest

  abbrev pub any_throws : List ℕ → Bool
  any_throws [] = false
  any_throws (id ∷ rest) = throws (reply id) || any_throws rest

  -- How many of the attempted ids the server reports as new, and as present.
  abbrev pub count_new : List ℕ → ℕ
  count_new [] = 0
  count_new (id ∷ rest) = elim (reply id) [
    | new_piece ↦ suc (count_new rest)
    | present ↦ count_new rest
    | thrown err ↦ 0
  ]

  abbrev pub count_present : List ℕ → ℕ
  count_present [] = 0
  count_present (id ∷ rest) = elim (reply id) [
    | new_piece ↦ count_present rest
    | present ↦ suc (count_present rest)
    | thrown err ↦ 0
  ]

  pub post_all-added :
      (ids : List ℕ) (p : Progress) → (post_all reply ids p).added ≡ p.added + count_new ids
  unfolding post_all
  post_all-added [] p = omega arith
  post_all-added (id ∷ rest) p = ground (
    arith,
    post_all-added rest (pause rest (count_reply true id p)),
    post_all-added rest (pause rest (count_reply false id p)),
  )

  pub post_all-duplicate :
      (ids : List ℕ) (p : Progress)
      → (post_all reply ids p).duplicate ≡ p.duplicate + count_present ids
  unfolding post_all
  post_all-duplicate [] p = omega arith
  post_all-duplicate (id ∷ rest) p = ground (
    arith,
    post_all-duplicate rest (pause rest (count_reply true id p)),
    post_all-duplicate rest (pause rest (count_reply false id p)),
  )

  pub post_all-posted :
      (ids : List ℕ) (p : Progress) → (post_all reply ids p).posted ≡ p.posted ++ attempted ids
  unfolding post_all
  post_all-posted [] p = sym (append-nil p.posted)
  post_all-posted (id ∷ rest) p = ground (
    arith,
    post_all-posted rest (pause rest (count_reply true id p)),
    post_all-posted rest (pause rest (count_reply false id p)),
    append_assoc p.posted (id ∷ []) (attempted rest),
  )

  pub post_all-error :
      (ids : List ℕ) (p : Progress)
      → p.error ≡ none
      → is_some (post_all reply ids p).error ≡ any_throws ids
  unfolding post_all
  post_all-error [] p h = ground arith
  post_all-error (id ∷ rest) p h = ground (
    arith,
    post_all-error rest (pause rest (count_reply true id p)),
    post_all-error rest (pause rest (count_reply false id p)),
  )

  -- Without a failure every id is counted.
  counted : (ids : List ℕ) → any_throws ids ≡ false → count_new ids + count_present ids ≡ length ids
  counted [] h = omega arith
  counted (id ∷ rest) h = ground (arith, counted rest)

  counted_le : (ids : List ℕ) → count_new ids + count_present ids ≤ length ids
  counted_le [] = omega arith
  counted_le (id ∷ rest) = ground (arith, counted_le rest)

length-pending_ids-le :
    (existing : Option IdSet) (ids : List ℕ) → length (pending_ids existing ids) ≤ length ids
unfolding pending_ids
length-pending_ids-le none ids = omega arith
length-pending_ids-le (some existing) ids = length-filter-le (λ id. not (existing id)) ids

-- The counts of the report: when the loop over `pending` of the `requested` ids is over, every
-- requested id is counted once, as added, as already in the folio, or as failed.
pub counts_add_up :
    (reply : ℕ → Reply) (existing : Option IdSet) (unique_ids : List ℕ)
    → let pending = pending_ids existing unique_ids in
      let initial = length unique_ids - length pending in
      let result =
        final_result
          (length unique_ids)
          (length pending)
          initial
          (post_all reply pending (initial_progress initial)) in
      result.added + result.duplicate + result.failed ≡ result.requested
unfolding final_result initial_progress
counts_add_up reply existing unique_ids =
    let pending = pending_ids existing unique_ids in
    let initial = length unique_ids - length pending in
    let start = initial_progress initial in
    ground (
      arith,
      post_all-added reply pending start,
      post_all-duplicate reply pending start,
      post_all-error reply pending start refl,
      counted reply pending,
      counted_le reply pending,
      length-pending_ids-le existing unique_ids,
    )
