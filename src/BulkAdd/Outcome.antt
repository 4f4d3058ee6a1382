-- ===== src/BulkAdd/Outcome.antt =====
-- dashboard/src/folio/context.tsx, `addPiecesToFolioAction`: its requests, its answer, its toast.
use ok_folio.Prelude.{
  All, ℕ, List, [], ◌∷◌, ◌++◌, append-nil, Option, none, some, Bool, true, false, ltb, not, ◌&&◌,
  is_nil, IdSet, ◌≡◌, refl, sym, ap, ◌∙◌, ◌⊎◌, inl, inr, arith, is_some, elem, map, Distinct,
  elem-filter, Distinct-filter, Option-cases,
}
use ok_folio.Prelude.Text.{Text}
use ok_folio.Actions.{Request}
use ok_folio.Actions.Store.{Store}
use ok_folio.Keywords.{unique_positive_ids}
use ok_folio.Keywords.Unique.{unique_positive_ids_lem}
use ok_folio.BulkAdd.{
  Reply, AddPiecesToFolioResult, Progress, pending_ids, post_all, initial_progress,
}
use ok_folio.BulkAdd.Run.{add_pieces_to_folio, finish_adding, report_present, begin_adding}
use ok_folio.BulkAdd.Counts.{attempted, any_throws, post_all-posted, post_all-error}

-- The ids that the action has to post.
abbrev pub to_post : List ℕ → Option IdSet → List ℕ
to_post photo_ids existing = pending_ids existing (unique_positive_ids photo_ids)

-- `existingIds.has(id)`, false where no set is given
abbrev pub known : Option IdSet → ℕ → Bool
known none id = false
known (some existing) id = existing id

list_cases {ℓ} : {A : Type ℓ} (l : List A) → (l ≡ []) ⊎ (is_nil l ≡ false)
list_cases [] = inl refl
list_cases (x ∷ l) = inr refl

pending_nil : (existing : Option IdSet) → pending_ids existing [] ≡ []
unfolding pending_ids
pending_nil none = refl
pending_nil (some existing) = refl

elem-to_post :
    (photo_ids : List ℕ) (existing : Option IdSet) (a : ℕ)
    → elem a (to_post photo_ids existing)
      ≡ (not (known existing a) && (ltb 0 a && elem a photo_ids))
unfolding pending_ids
elem-to_post photo_ids none a = (unique_positive_ids_lem photo_ids).1 a
elem-to_post photo_ids (some existing) a =
    elem-filter (λ id. not (existing id)) a (unique_positive_ids photo_ids)
    ∙ ap (λ b. not (existing a) && b) ((unique_positive_ids_lem photo_ids).1 a)

Distinct-to_post :
    (photo_ids : List ℕ) (existing : Option IdSet) → Distinct (to_post photo_ids existing)
unfolding pending_ids
Distinct-to_post photo_ids none = (unique_positive_ids_lem photo_ids).0
Distinct-to_post photo_ids (some existing) =
    Distinct-filter (λ id. not (existing id)) _ (unique_positive_ids_lem photo_ids).0

All-elem :
    (p : ℕ → Bool) (ids : List ℕ)
    → ((a : ℕ) → elem a ids ≡ true → p a ≡ true)
    → All (λ a. p a ≡ true) ids
All-elem p [] h = tt
All-elem p (id ∷ ids) h = (h id (ground arith), All-elem p ids (λ a e. h a (ground arith)))

module _ (reply : ℕ → Reply) where
  elem-attempted : (a : ℕ) (ids : List ℕ) → elem a (attempted reply ids) ≡ true → elem a ids ≡ true
  elem-attempted a [] h = h
  elem-attempted a (id ∷ rest) h = ground (arith, elem-attempted a rest)

  elem-attempted_out :
      (a : ℕ) (ids : List ℕ) → elem a ids ≡ false → elem a (attempted reply ids) ≡ false
  elem-attempted_out a [] h = refl
  elem-attempted_out a (id ∷ rest) h = ground (arith, elem-attempted_out a rest)

  Distinct-attempted : (ids : List ℕ) → Distinct ids → Distinct (attempted reply ids)
  Distinct-attempted [] d = tt
  Distinct-attempted (id ∷ rest) (new, d) =
      ground (arith, Distinct-attempted rest, elem-attempted_out id rest)

  pub attempted_all : (ids : List ℕ) → any_throws reply ids ≡ false → attempted reply ids ≡ ids
  attempted_all [] h = refl
  attempted_all (id ∷ rest) h = ground (arith, attempted_all rest)

module _ (locale : ℕ → Text) (folio_id : ℕ) (reply : ℕ → Reply) where
  finish_answer :
      (id : ℕ) (result : AddPiecesToFolioResult) (p : Progress) (s : Store)
      → (finish_adding locale folio_id id result p s).1 ≡ not (is_some p.error)
  unfolding finish_adding
  finish_answer id result p s = ground arith

  finish_sent :
      (id n : ℕ) (start result : AddPiecesToFolioResult) (p : Progress) (s : Store)
      → (finish_adding locale folio_id id result p
          (begin_adding locale folio_id id n start s)).0.sent
        ≡ s.sent ++ map (λ photo. Request.add_piece_to_folio folio_id photo) p.posted
  unfolding finish_adding begin_adding
  finish_sent id n start result p s = elim (Option-cases p.error) [
    | inl e ↦ rw (e, finish_adding)
    | inr (err, e) ↦ rw (e, finish_adding)
  ]

  posted_ids :
      (pending : List ℕ) (n : ℕ)
      → (post_all reply pending (initial_progress n)).posted ≡ attempted reply pending
  unfolding initial_progress
  posted_ids pending n = post_all-posted reply pending _

  sent_lem :
      (photo_ids : List ℕ) (existing : Option IdSet) (s : Store)
      → (add_pieces_to_folio locale folio_id reply photo_ids existing s).0.sent
        ≡ s.sent
          ++ map
              (λ photo. Request.add_piece_to_folio folio_id photo)
              (attempted reply (to_post photo_ids existing))
  unfolding add_pieces_to_folio report_present
  sent_lem photo_ids existing s = elim (list_cases (unique_positive_ids photo_ids)) [
    | inl e ↦ rw (e, pending_nil existing) (sym (append-nil s.sent))
    | inr e ↦ elim (list_cases (to_post photo_ids existing)) [
      | inl e' ↦ rw (e, e') (sym (append-nil s.sent))
      | inr e' ↦
          rw (e, e')
            (finish_sent _ _ _ _ _ s
              ∙ ap (λ l. s.sent ++ map (λ photo. Request.add_piece_to_folio folio_id photo) l)
                  (posted_ids _ _))
    ]
  ]

  -- The requests of the action: an addition for each id of `to_post` in order, up to and including
  -- the first that fails. Those ids are distinct, positive, selected, and not known to be in the
  -- folio.
  pub requests_sent :
      (photo_ids : List ℕ) (existing : Option IdSet) (s : Store)
      → let posted = attempted reply (to_post photo_ids existing) in
        ((add_pieces_to_folio locale folio_id reply photo_ids existing s).0.sent
          ≡ s.sent ++ map (λ photo. Request.add_piece_to_folio folio_id photo) posted)
        × Distinct posted
        × All (λ a. (not (known existing a) && (ltb 0 a && elem a photo_ids)) ≡ true) posted
  requests_sent photo_ids existing s = (
    sent_lem photo_ids existing s,
    Distinct-attempted reply _ (Distinct-to_post photo_ids existing),
    All-elem (λ a. not (known existing a) && (ltb 0 a && elem a photo_ids)) _
        (λ a h. sym (elem-to_post photo_ids existing a) ∙ elem-attempted reply a _ h),
  )

  -- The action answers true exactly if some positive id is selected and no request fails.
  pub answers_true_iff :
      (photo_ids : List ℕ) (existing : Option IdSet) (s : Store)
      → (add_pieces_to_folio locale folio_id reply photo_ids existing s).1 ≡ (
          not (is_nil (unique_positive_ids photo_ids))
          && not (any_throws reply (to_post photo_ids existing)))
  unfolding add_pieces_to_folio initial_progress
  answers_true_iff photo_ids existing s = elim (list_cases (unique_positive_ids photo_ids)) [
    | inl e ↦ rw e
    | inr e ↦ elim (list_cases (to_post photo_ids existing)) [
      | inl e' ↦ rw (e, e')
      | inr e' ↦
          rw (e, e')
            (finish_answer _ _ _ _
              ∙ ap not (post_all-error reply (to_post photo_ids existing) _ refl))
    ]
  ]
