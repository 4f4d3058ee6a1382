-- ===== src/BulkAdd/Tests.antt =====
-- Tests of `addPiecesToFolioAction` of dashboard/src/folio/context.tsx.
use ok_folio.Prelude.{
  All, ℕ, ◌+◌, ◌-◌, List, [], ◌∷◌, ◌++◌, Option, some, true, not, ◌&&◌, ◌==◌, if◌then◌else◌, map,
  elem, ltb, length, Distinct, ◌≡◌, refl, IdSet,
}
use ok_folio.Prelude.Text.{codes}
use ok_folio.Prelude.Decimal.{decimal}
use ok_folio.Actions.{Request}
use ok_folio.Actions.Store.{initial}
use ok_folio.Keywords.{unique_positive_ids, unique_from}
use ok_folio.BulkAdd.{
  AddPiecesToFolioResult, Reply, new_piece, present, thrown, pending_ids, post_all, final_result,
  initial_progress,
}
use ok_folio.BulkAdd.Run.{add_pieces_to_folio, begin_adding, finish_adding}
use ok_folio.BulkAdd.Counts.{attempted, counts_add_up}
use ok_folio.BulkAdd.Outcome.{to_post, known, requests_sent}

-- Piece 5 is new, piece 6 is there, and the request for piece 8 fails.
abbrev reply : ℕ → Reply
reply id =
    if id == 5 then new_piece else if id == 8 then thrown (some (codes "Offline")) else present

abbrev existing : Option IdSet
existing = some (λ id. id == 3)

abbrev chosen : List ℕ
chosen = 5 ∷ 3 ∷ 0 ∷ 5 ∷ 6 ∷ 8 ∷ 9 ∷ []

abbrev result : AddPiecesToFolioResult
result =
    let ids = 5 ∷ 3 ∷ 6 ∷ 8 ∷ 9 ∷ [] in
    let pending = pending_ids existing ids in
    let first = length ids - length pending in
    final_result (length ids) (length pending) first
      (post_all reply pending (initial_progress first))

counts_add_up_example : result.added + result.duplicate + result.failed ≡ result.requested
counts_add_up_example = counts_add_up reply existing (5 ∷ 3 ∷ 6 ∷ 8 ∷ 9 ∷ [])

counted : result ≡ record { requested = 5; added = 1; duplicate = 2; failed = 2 }
unfolding final_result post_all pending_ids initial_progress
counted = refl

requests_sent_example :
    ((add_pieces_to_folio decimal 4 reply chosen existing initial).0.sent
      ≡ []
        ++ map
            (λ photo. Request.add_piece_to_folio 4 photo)
            (attempted reply (to_post chosen existing)))
    × Distinct (attempted reply (to_post chosen existing))
    × All
        (λ a. (not (known existing a) && (ltb 0 a && elem a chosen)) ≡ true)
        (attempted reply (to_post chosen existing))
requests_sent_example = requests_sent decimal 4 reply chosen existing initial

sent :
    (add_pieces_to_folio decimal 4 reply chosen existing initial).0.sent
    ≡ map (λ photo. Request.add_piece_to_folio 4 photo) (5 ∷ 6 ∷ 8 ∷ [])
unfolding add_pieces_to_folio begin_adding finish_adding unique_positive_ids unique_from pending_ids
    post_all initial_progress
sent = refl
