-- ===== src/Favorites/Agreement.antt =====
-- dashboard/src/folio/context.tsx, `toggleFav`: where the heart that is shown and the server agree.
use ok_folio.Prelude.{
  ℕ, List, [], ◌∷◌, ◌++◌, Option, none, some, Bool, false, ◌==◌, not, subst, ◌≡◌, ◌≢◌, ◌⊎◌, refl,
  sym, ◌∙◌, arith, IdSet, Bool-cases, Option-cases, inl, inr, if◌then◌else◌, elem, ap, true, ◌&&◌,
}
use ok_folio.Pieces.{PieceVm}
use ok_folio.Favorites.{
  catalog_fav, is_fav, toggle_fav, confirm_fav, reject_fav, settled_pending, asked,
}
use ok_folio.Favorites.InFlight.{IsGuarded, asked_ids}
use ok_folio.Favorites.World.{
  World, store, served, unloaded, is_listed, is_known, Step, toggled, confirmed, failed, refetched,
  Step-IsGuarded,
}

module _ (id : ℕ) where
  -- The user toggles `id` only where its value is known and no request for it is in flight.
  abbrev pub IsCalm : {w v : World} → Step w v → Type 0
  IsCalm (toggled j w) = (j ≢ id) ⊎ ((w.client.in_flight id ≡ false) × (is_known w id ≡ true))
  IsCalm (confirmed j next w e) = Unit
  IsCalm (failed j next w e) = Unit
  IsCalm (refetched rows w) = Unit

  pub data CalmReach (w : World) : World → Type 0 where
    here : CalmReach w w
    more : {u v : World} → CalmReach w u → (st : Step u v) → IsCalm st → CalmReach w v

  -- With no request in flight the view is the server's value, or false where none is known; with
  -- one in flight, the view is the value asked for and the server still has the opposite.
  abbrev pub AgreesAt : Bool → Option Bool → Bool → Bool → Option Bool → Type 0
  AgreesAt view override seen server none = view ≡ seen
  AgreesAt view override seen server (some next) = (override ≡ some next) × (server ≡ not next)

  abbrev pub Agrees : World → Type 0
  Agrees w =
      AgreesAt (is_fav w.client w.pieces id) (w.client.fav_override id)
        (is_known w id && w.server id) (w.server id) (asked id w.client.pending)

  pub asked_of_free : (l : List (ℕ × Bool)) → elem id (asked_ids l) ≡ false → asked id l ≡ none
  unfolding asked
  asked_of_free [] h = refl
  asked_of_free (r ∷ l) h = ground (arith, asked_of_free l)

  pub asked-append_self :
      (next : Bool) (l : List (ℕ × Bool))
      → asked id l ≡ none
      → asked id (l ++ (id, next) ∷ []) ≡ some next
  unfolding asked
  asked-append_self next [] h = ground arith
  asked-append_self next (r ∷ l) h = ground (arith, asked-append_self next l)

  asked-append_ne :
      (j : ℕ) (next : Bool) (l : List (ℕ × Bool))
      → j ≢ id
      → asked id (l ++ (j, next) ∷ []) ≡ asked id l
  unfolding asked
  asked-append_ne j next [] h = ground arith
  asked-append_ne j next (r ∷ l) h = ground (arith, asked-append_ne j next l)

  pub asked-settled :
      (j : ℕ) (l : List (ℕ × Bool))
      → asked id (settled_pending j l) ≡ (if j == id then none else asked id l)
  unfolding asked
  asked-settled j [] = ground arith
  asked-settled j (r ∷ l) = ground (arith, asked-settled j l)

  toggled_self :
      (w : World)
      → IsGuarded w.client
      → w.client.in_flight id ≡ false
      → is_known w id ≡ true
      → Agrees w
      → Agrees (record w { client = toggle_fav w.pieces id w.client })
  unfolding toggle_fav
  toggled_self w g free known h =
      let next = not (is_fav w.client w.pieces id) in
      let idle = asked_of_free w.client.pending (sym (g.flying id) ∙ free) in
      let agreed : is_fav w.client w.pieces id ≡ w.server id = rw (idle, known) at h in
      rw (free, asked-append_self next w.client.pending idle) (ground arith, ground arith)

  AgreesAt-same :
      {v v' s s' k k' : Bool} {o o' a a' : Option Bool}
      → v' ≡ v
      → o' ≡ o
      → k' ≡ k
      → s' ≡ s
      → a' ≡ a
      → AgreesAt v o k s a
      → AgreesAt v' o' k' s' a'
  AgreesAt-same p q m r t h = rw (p, q, m, r, t) h

  AgreesAt-idle :
      (o : Option Bool) (s : Bool) {v k : Bool} {a : Option Bool}
      → a ≡ none
      → v ≡ k
      → AgreesAt v o k s a
  AgreesAt-idle o s e h = rw e h

  toggled_other :
      (j : ℕ) (w : World)
      → j ≢ id
      → Agrees w
      → Agrees (record w { client = toggle_fav w.pieces j w.client })
  unfolding toggle_fav is_known
  toggled_other j w ne h =
      AgreesAt-same (ground arith) (ground arith) (ground arith) refl
        (ground (arith, asked-append_ne j (not (is_fav w.client w.pieces j)) w.client.pending)) h

  confirmed-Agrees :
      (j : ℕ) (next : Bool) (w : World)
      → asked j w.client.pending ≡ some next
      → Agrees w
      → Agrees (record w { client = confirm_fav j w.client; server = store w.server j next })
  unfolding confirm_fav is_fav is_known
  confirmed-Agrees j next w e h = elim (Bool-cases (j == id)) [
    | inl same ↦
        let eq : j ≡ id = ground arith in
        let (shown, _) : (w.client.fav_override id ≡ some next) × (w.server id ≡ not next) =
          rw (rw eq at e) at h in
        AgreesAt-idle _ _ (ground (arith, asked-settled j w.client.pending)) (ground arith)
    | inr other ↦
        AgreesAt-same refl refl (ground arith) (ground arith)
          (ground (arith, asked-settled j w.client.pending)) h
  ]

  failed-Agrees :
      (j : ℕ) (next : Bool) (w : World)
      → asked j w.client.pending ≡ some next
      → Agrees w
      → Agrees (record w { client = reject_fav j next w.client })
  unfolding reject_fav is_fav is_known
  failed-Agrees j next w e h = elim (Bool-cases (j == id)) [
    | inl same ↦
        let eq : j ≡ id = ground arith in
        let (shown, _) : (w.client.fav_override id ≡ some next) × (w.server id ≡ not next) =
          rw (rw eq at e) at h in
        AgreesAt-idle _ _ (ground (arith, asked-settled j w.client.pending)) (ground arith)
    | inr other ↦
        AgreesAt-same (ground arith) (ground arith) (ground arith) refl
          (ground (arith, asked-settled j w.client.pending)) h
  ]

  -- A row that arrives shows the server's value, and a missing one shows false.
  catalog_fav-served :
      (server : IdSet) (rows : List PieceVm)
      → catalog_fav (served server rows) id ≡ is_listed (served server rows) id && server id
  unfolding catalog_fav served is_listed
  catalog_fav-served server [] = refl
  catalog_fav-served server (p ∷ rows) = elim (Bool-cases (p.id == id)) [
    | inl same ↦ let eq : p.id ≡ id = ground arith in ground (arith, ap server eq)
    | inr other ↦ ground (arith, catalog_fav-served server rows)
  ]

  -- A catalog that arrives while no request for `id` is in flight.
  refetched_idle :
      (rows : List PieceVm) (w : World)
      → is_fav w.client w.pieces id ≡ is_known w id && w.server id
      → is_fav w.client (served w.server rows) id
        ≡ is_known (record w { pieces = served w.server rows }) id && w.server id
  unfolding is_fav is_known
  refetched_idle rows w h = elim (Option-cases (w.client.fav_override id)) [
    | inl free ↦ rw free (catalog_fav-served w.server rows)
    | inr (shown, over) ↦ let eq : shown ≡ w.server id = rw over at h in rw over eq
  ]

  Step-Agrees : {w v : World} (st : Step w v) → IsCalm st → IsGuarded w.client → Agrees w → Agrees v
  Step-Agrees (toggled j w) (inl ne) g h = toggled_other j w ne h
  Step-Agrees (toggled j w) (inr (free, known)) g h = elim (Bool-cases (j == id)) [
    | inl same ↦
        let eq : id ≡ j = ground arith in
        subst (λ k. Agrees (record w { client = toggle_fav w.pieces k w.client })) eq
          (toggled_self w g free known h)
    | inr other ↦ toggled_other j w (λ q. ground arith) h
  ]
  Step-Agrees (confirmed j next w e) calm g h = confirmed-Agrees j next w e h
  Step-Agrees (failed j next w e) calm g h = failed-Agrees j next w e h
  Step-Agrees (refetched rows w) calm g h = elim (Option-cases (asked id w.client.pending)) [
    | inl idle ↦ AgreesAt-idle _ _ idle (refetched_idle rows w (rw idle at h))
    | inr (next, busy) ↦
        let busy_h : (w.client.fav_override id ≡ some next) × (w.server id ≡ not next) =
          rw busy at h in
        rw busy busy_h
  ]

  calm-IsGuarded :
      {w v : World} → CalmReach w v → IsGuarded w.client → Agrees w → IsGuarded v.client × Agrees v
  calm-IsGuarded here g h = (g, h)
  calm-IsGuarded (more r st calm) g h =
      let (g', h') = calm-IsGuarded r g h in (Step-IsGuarded st g', Step-Agrees st calm g' h')

  unloaded-IsGuarded : (server : IdSet) → IsGuarded (unloaded server).client
  unloaded-IsGuarded server = record { flying = λ j. refl; once = tt }

  unloaded-Agrees : (server : IdSet) → Agrees (unloaded server)
  unfolding is_fav is_known catalog_fav is_listed asked
  unloaded-Agrees server = refl

  -- In every run of toggles, answers and arriving catalogs, with no edit of metadata, from a screen
  -- that has loaded nothing, in which `id` is toggled only where its value is known and no request
  -- for it is in flight: the guard holds, and with no request for `id` in flight the user sees the
  -- server's value where an override or a row of the catalog gives one, and else false; with one in
  -- flight the override is the value asked for, and the server has the opposite.
  pub calm-Agrees :
      (server : IdSet) {v : World} → CalmReach (unloaded server) v → IsGuarded v.client × Agrees v
  calm-Agrees server r = calm-IsGuarded r (unloaded-IsGuarded server) (unloaded-Agrees server)
