-- ===== src/Folios/Added.antt =====
-- dashboard/src/folio/FolioDetail.tsx, `AddPiecesPicker`, with the action that it calls,
-- `addPiecesToFolioAction` of dashboard/src/folio/context.tsx.
use ok_folio.Prelude.{
  ℕ, List, [], ◌∷◌, ◌++◌, some, true, false, ltb, not, filter, map, elem, Distinct, All, IdSet, ◌≡◌,
  refl, ap, ◌∙◌, arith,
}
use ok_folio.Prelude.Text.{Text}
use ok_folio.Actions.{Request}
use ok_folio.Actions.Store.{Store}
use ok_folio.Keywords.{unique_from, unique_positive_ids}
use ok_folio.BulkAdd.{Reply, pending_ids}
use ok_folio.BulkAdd.Run.{add_pieces_to_folio}
use ok_folio.BulkAdd.Counts.{attempted, any_throws}
use ok_folio.BulkAdd.Outcome.{to_post, attempted_all, requests_sent}
use ok_folio.Folios.Picked.{Session, Reach, IsSteady, Reach-IsSteady}

abbrev IsPositive : ℕ → Type 0
IsPositive id = ltb 0 id ≡ true

abbrev IsUnseen : List ℕ → ℕ → Type 0
IsUnseen seen id = elem id seen ≡ false

positive_all : (ids : List ℕ) → All IsPositive ids → filter (λ id. ltb 0 id) ids ≡ ids
positive_all [] h = refl
positive_all (id ∷ ids) (p, h) = rw p (ap (λ l. id ∷ l) (positive_all ids h))

All-IsUnseen :
    (id : ℕ) (seen ids : List ℕ)
    → elem id ids ≡ false
    → All (IsUnseen seen) ids
    → All (IsUnseen (id ∷ seen)) ids
All-IsUnseen id seen [] new h = tt
All-IsUnseen id seen (i ∷ ids) new (p, h) =
    (ground arith, All-IsUnseen id seen ids (ground arith) h)

unique_from_id :
    (seen ids : List ℕ) → Distinct ids → All (IsUnseen seen) ids → unique_from seen ids ≡ ids
unfolding unique_from
unique_from_id seen [] d h = refl
unique_from_id seen (id ∷ ids) (new, d) (p, h) =
    rw p (ap (λ l. id ∷ l) (unique_from_id (id ∷ seen) ids d (All-IsUnseen id seen ids new h)))

none_seen : (ids : List ℕ) → All (IsUnseen []) ids
none_seen [] = tt
none_seen (id ∷ ids) = (refl, none_seen ids)

unique_positive_all :
    (ids : List ℕ) → Distinct ids → All IsPositive ids → unique_positive_ids ids ≡ ids
unfolding unique_positive_ids
unique_positive_all ids d h =
    ap (unique_from []) (positive_all ids h) ∙ unique_from_id [] ids d (none_seen ids)

to_post_lem :
    (ids : List ℕ) (existing : IdSet)
    → Distinct ids
    → All IsPositive ids
    → to_post ids (some existing) ≡ filter (λ id. not (existing id)) ids
unfolding pending_ids
to_post_lem ids existing d h = ap (filter (λ id. not (existing id))) (unique_positive_all ids d h)

-- For a selection that a run of the picker has come to, of positive ids: if no request fails, the
-- action that adds it asks for exactly the pieces selected and not known to be in the folio, each
-- once and in the order of the selection.
pub picked_added :
    (locale : ℕ → Text) (folio_id : ℕ) (reply : ℕ → Reply) (existing : IdSet) (s : Session)
    (store : Store)
    → Reach s
    → All IsPositive s.picker.selected
    → any_throws reply (filter (λ id. not (existing id)) s.picker.selected) ≡ false
    → (add_pieces_to_folio locale folio_id reply s.picker.selected (some existing) store).0.sent
      ≡ store.sent
        ++ map
            (λ photo. Request.add_piece_to_folio folio_id photo)
            (filter (λ id. not (existing id)) s.picker.selected)
unfolding IsSteady
picked_added locale folio_id reply existing s store r positive kept =
    let distinct : Distinct s.picker.selected = (Reach-IsSteady r).0 in
    let posted : attempted reply (to_post s.picker.selected (some existing))
        ≡ filter (λ id. not (existing id)) s.picker.selected =
      ap (attempted reply) (to_post_lem s.picker.selected existing distinct positive)
      ∙ attempted_all reply _ kept in
    (requests_sent locale folio_id reply s.picker.selected (some existing) store).0
    ∙ ap (λ l. store.sent ++ map (λ photo. Request.add_piece_to_folio folio_id photo) l) posted
