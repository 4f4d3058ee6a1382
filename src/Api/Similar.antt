-- ===== src/Api/Similar.antt =====
-- dashboard/src/api.ts, `fetchGallerySimilar`: the pieces that the server does not know are
-- remembered in a set of the module, and not asked for again.
use ok_folio.Prelude.{
  ℕ, List, [], ◌∷◌, Option, none, some, true, false, ◌==◌, elem, if◌then◌else◌, ◌≡◌, refl, arith,
  IdSet, add_id, Bool-cases, inl, inr,
}
use ok_folio.Prelude.Text.{codes}
use ok_folio.Prelude.Decimal.{decimal}
use ok_folio.Actions.{Outcome, resolved, rejected}
use ok_folio.Api.{
  HttpRequest, get_with, under_base, Payload, unreadable, readable, Response, unreachable, answered,
  is_ok,
}

abbrev pub similar_request : ℕ → ℕ → HttpRequest
similar_request id limit =
    get_with (under_base (codes "/gallery/" ∷ decimal id ∷ codes "/similar" ∷ []))
      ((codes "limit", decimal limit) ∷ [])

module _ {A : Type 0} (no_pieces : A) where
  abbrev settle_payload : Payload A → Outcome A
  settle_payload (unreadable s) = rejected (some s)
  settle_payload (readable e a) = resolved a

  -- After the request: the promise, and the set.
  unfoldable pub settle_similar : ℕ → Response A → IdSet → Outcome A × IdSet
  settle_similar id (unreachable s) not_found = (rejected (some s), not_found)
  settle_similar id (answered status p) not_found =
      if status == 404
      then (resolved no_pieces, add_id not_found id)
      else if is_ok status
      then (settle_payload p, not_found)
      else (rejected (some (codes "Failed to fetch similar pieces")), not_found)

  -- The request, if one is made, the promise, and the set.
  unfoldable pub fetch_gallery_similar :
      ℕ → ℕ → Response A → IdSet → Option HttpRequest × Outcome A × IdSet
  unfolding settle_similar
  fetch_gallery_similar id limit r not_found =
      let (settled, not_found') = settle_similar id r not_found in
      if not_found id
      then (none, resolved no_pieces, not_found)
      else (some (similar_request id limit), settled, not_found')

  -- A sequence of calls, each with the response that it gets if it asks: the ids asked for, and the
  -- set at the end.
  unfoldable pub asked_similar : List (ℕ × ℕ × Response A) → IdSet → List ℕ
  unfolding fetch_gallery_similar
  asked_similar [] not_found = []
  asked_similar ((id, limit, r) ∷ calls) not_found =
      let (request, settled, not_found') = fetch_gallery_similar id limit r not_found in
      let rest = asked_similar calls not_found' in elim request [ none ↦ rest | some q ↦ id ∷ rest ]

  grown :
      (id j limit : ℕ) (r : Response A) (not_found : IdSet)
      → not_found j ≡ true
      → (fetch_gallery_similar id limit r not_found).2 j ≡ true
  unfolding fetch_gallery_similar settle_similar
  grown id j limit (unreachable s) not_found h = ground arith
  grown id j limit (answered status p) not_found h = ground arith

  known_not_asked :
      (j : ℕ) (calls : List (ℕ × ℕ × Response A)) (not_found : IdSet)
      → not_found j ≡ true
      → elem j (asked_similar calls not_found) ≡ false
  unfolding asked_similar fetch_gallery_similar
  known_not_asked j [] not_found h = refl
  known_not_asked j ((id, limit, r) ∷ calls) not_found h =
      let rest =
        known_not_asked j calls (fetch_gallery_similar id limit r not_found).2
          (grown id j limit r not_found h) in
      elim (Bool-cases (not_found id)) [ inl known ↦ ground arith | inr new ↦ ground arith ]

  -- Once the server has answered 404 for a piece, no later call asks for that piece, whatever calls
  -- and responses come between.
  pub not_found_not_asked :
      (id limit : ℕ) (p : Payload A) (not_found : IdSet) (later : List (ℕ × ℕ × Response A))
      → elem id (asked_similar later (fetch_gallery_similar id limit (answered 404 p) not_found).2)
        ≡ false
  unfolding fetch_gallery_similar settle_similar
  not_found_not_asked id limit p not_found later =
      known_not_asked id later _ (elim (Bool-cases (not_found id)) [
        | inl known ↦ rw (known, fetch_gallery_similar) known
        | inr new ↦ rw (new, fetch_gallery_similar) (ground arith)
      ])
