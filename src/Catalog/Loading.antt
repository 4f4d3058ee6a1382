-- ===== src/Catalog/Loading.antt =====
-- dashboard/src/folio/context.tsx: loading the catalog page by page from a server that cuts the
-- pages from one list.
use ok_folio.Prelude.{
  ℕ, zero, suc, ◌+◌, ◌≤◌, ◌<◌, List, [], ◌∷◌, ◌++◌, append_assoc, append-nil, none, some, true,
  false, ltb, length, length-append, length-drop, take, drop, take-append-drop, ◌≡◌, refl, sym, ap,
  ◌∙◌, ◌⊎◌, subst, ltb→lt, ltb→le, arith, Bool-cases, inl, inr, if◌then◌else◌,
}
use ok_folio.Catalog.{Page, loaded_from, get_next_page_param, last_page, all_items, load_more}

module _ {ℓ} {A : Type ℓ} where
  loaded_from_lem :
      (n : ℕ) (pages : List (Page A)) → loaded_from n pages ≡ n + length (all_items pages)
  unfolding loaded_from
  loaded_from_lem n [] = omega arith
  loaded_from_lem n (pg ∷ pages) =
      omega (
        arith,
        loaded_from_lem (n + length pg.items) pages,
        length-append pg.items (all_items pages),
      )

  all_items-append :
      (pages : List (Page A)) (pg : Page A)
      → all_items (pages ++ pg ∷ []) ≡ all_items pages ++ pg.items
  all_items-append [] pg = append-nil pg.items
  all_items-append (q ∷ pages) pg =
      ap (◌++◌ q.items) (all_items-append pages pg)
      ∙ sym (append_assoc q.items (all_items pages) pg.items)

  last_page-append :
      (first pg : Page A) (pages : List (Page A)) → last_page first (pages ++ pg ∷ []) ≡ pg
  last_page-append first pg [] = refl
  last_page-append first pg (q ∷ pages) = last_page-append q pg pages

  drop_nil : (n : ℕ) → drop {A = A} n [] ≡ []
  drop_nil zero = refl
  drop_nil (suc n) = refl

  drop_add : (m t : ℕ) (l : List A) → drop (m + t) l ≡ drop t (drop m l)
  drop_add zero t l = ap (λ k. drop k l) (omega arith)
  drop_add (suc m) t [] = drop_nil (suc m + t) ∙ sym (drop_nil t)
  drop_add (suc m) t (x ∷ l) = ap (λ k. drop k (x ∷ l)) shift ∙ drop_add m t l
    where
      shift : suc m + t ≡ suc (m + t)
      shift = omega arith

  drop-length-take : (n : ℕ) (l : List A) → drop (length (take n l)) l ≡ drop n l
  drop-length-take zero l = refl
  drop-length-take (suc n) [] = refl
  drop-length-take (suc n) (x ∷ l) = drop-length-take n l

  drop_all : (n : ℕ) (l : List A) → length l ≤ n → drop n l ≡ []
  drop_all zero [] h = refl
  drop_all zero (x ∷ l) h = absurd (omega arith)
  drop_all (suc n) [] h = refl
  drop_all (suc n) (x ∷ l) h = drop_all n l (omega arith)

  length-take_pos : (n : ℕ) (l : List A) → 0 < n → 0 < length l → 0 < length (take n l)
  length-take_pos (suc n) (x ∷ l) h k = omega arith
  length-take_pos (suc n) [] h k = k
  length-take_pos zero l h k = absurd (omega arith)

module _ {ℓ} {A : Type ℓ} (limit : ℕ) (catalog : List A) where
  -- The server's answer to a request for `limit` items from `offset` on.
  abbrev pub serve : ℕ → Page A
  serve offset = record { items = take limit (drop offset catalog); total = length catalog }

  -- The pages after the first, when `loadMore` has run `n` times.
  pub load_times : ℕ → List (Page A)
  load_times zero = []
  load_times (suc n) = load_more serve false (serve 0) (load_times n)

  abbrev pub loaded : List (Page A) → List A
  loaded pages = all_items (serve 0 ∷ pages)

  -- What is loaded is the beginning of the catalog, and the last page tells its length.
  record IsPrefix (pages : List (Page A)) : Type ℓ where
    begins : loaded pages ++ drop (length (loaded pages)) catalog ≡ catalog
    told : (last_page (serve 0) pages).total ≡ length catalog

  next_param :
      (pages : List (Page A))
      → IsPrefix pages
      → get_next_page_param (last_page (serve 0) pages) (serve 0 ∷ pages) ≡ (
          if ltb (length (loaded pages)) (length catalog)
          then some (length (loaded pages))
          else none)
  unfolding get_next_page_param
  next_param pages h =
      let count : loaded_from 0 (serve 0 ∷ pages) ≡ length (loaded pages) =
        loaded_from_lem 0 (serve 0 ∷ pages) ∙ omega arith in
      rw (count, h.told)

  -- One more page, cut from where the loaded part ends.
  extended :
      (pages : List (Page A))
      → IsPrefix pages
      → IsPrefix (pages ++ serve (length (loaded pages)) ∷ [])
  extended pages h =
      let m = length (loaded pages) in
      let rest = drop m catalog in
      let grown : loaded (pages ++ serve m ∷ []) ≡ loaded pages ++ take limit rest =
        all_items-append (serve 0 ∷ pages) (serve m) in
      record {
        begins =
            ap (λ l. l ++ drop (length l) catalog) grown
            ∙ (append_assoc (loaded pages) (take limit rest) _
                ∙ (ap (λ l. loaded pages ++ (take limit rest ++ l))
                      (ap (λ k. drop k catalog) (length-append (loaded pages) (take limit rest))
                        ∙ (drop_add m (length (take limit rest)) catalog
                            ∙ drop-length-take limit rest))
                    ∙ (ap (λ l. loaded pages ++ l) (take-append-drop limit rest) ∙ h.begins)));
        told = ap (λ (pg : Page A). pg.total) (last_page-append (serve 0) (serve m) pages);
      }

  load_step :
      (n : ℕ)
      → IsPrefix (load_times n)
      → ltb (length (loaded (load_times n))) (length catalog) ≡ true
      → load_times (suc n) ≡ load_times n ++ serve (length (loaded (load_times n))) ∷ []
  unfolding load_times load_more
  load_step n h more = rw (next_param (load_times n) h, more)

  load_stop :
      (n : ℕ)
      → IsPrefix (load_times n)
      → ltb (length (loaded (load_times n))) (length catalog) ≡ false
      → load_times (suc n) ≡ load_times n
  unfolding load_times load_more
  load_stop n h done = rw (next_param (load_times n) h, done)

  load_times-IsPrefix : (n : ℕ) → IsPrefix (load_times n)
  unfolding load_times
  load_times-IsPrefix zero = record {
    begins =
        ap (λ l. l ++ drop (length l) catalog) (append-nil (take limit catalog))
        ∙ (ap (λ l. take limit catalog ++ l) (drop-length-take limit catalog)
            ∙ take-append-drop limit catalog);
    told = refl;
  }
  load_times-IsPrefix (suc n) =
      let h = load_times-IsPrefix n in
      elim (Bool-cases (ltb (length (loaded (load_times n))) (length catalog))) [
        | inl more ↦ subst IsPrefix (sym (load_step n h more)) (extended (load_times n) h)
        | inr done ↦ subst IsPrefix (sym (load_stop n h done)) h
      ]

  length-extended :
      (pages : List (Page A))
      → let m = length (loaded pages) in
        length (loaded (pages ++ serve m ∷ [])) ≡ m + length (take limit (drop m catalog))
  length-extended pages =
      let m = length (loaded pages) in
      ap length (all_items-append (serve 0 ∷ pages) (serve m))
      ∙ length-append (loaded pages) (take limit (drop m catalog))

  -- Each run of `loadMore` loads more, until everything is loaded.
  load_times_grow :
      (n : ℕ)
      → 0 < limit
      → (length catalog ≤ length (loaded (load_times n))) ⊎ (n < length (loaded (load_times n)))
  unfolding load_times
  load_times_grow zero pos = elim (Bool-cases (ltb 0 (length catalog))) [
    | inl some' ↦
        let first = length-take_pos limit catalog pos (ground arith) in
        inr (omega (arith, length-append (take limit catalog) []))
    | inr none' ↦ inl (ground arith)
  ]
  load_times_grow (suc n) pos =
      let h = load_times-IsPrefix n in
      let m = length (loaded (load_times n)) in
      elim (Bool-cases (ltb m (length catalog))) [
        | inl more ↦
            let lt = ltb→lt m (length catalog) more in
            let grown =
              ap (λ p. length (loaded p)) (load_step n h more) ∙ length-extended (load_times n) in
            let new =
              length-take_pos limit (drop m catalog) pos (omega (arith, length-drop m catalog)) in
            elim (load_times_grow n pos) [
              | inl all ↦ absurd (omega arith)
              | inr many ↦ inr (omega arith)
            ]
        | inr done ↦
            let stop = ap (λ p. length (loaded p)) (load_stop n h done) in
            let le = ltb→le m (length catalog) done in inl (omega arith)
      ]

  -- After any number of runs of `loadMore` the photos loaded are the beginning of the catalog, in
  -- order, none skipped or repeated.
  pub loaded-load_times :
      (n : ℕ) → loaded (load_times n) ++ drop (length (loaded (load_times n))) catalog ≡ catalog
  loaded-load_times n = (load_times-IsPrefix n).begins

  -- With pages of a positive size, after as many runs of `loadMore` as the catalog has photos they
  -- are all loaded, in the order of the catalog, and no further page is asked for.
  pub load_times_lem :
      (n : ℕ)
      → 0 < limit
      → length catalog ≤ n
      → (loaded (load_times n) ≡ catalog)
        × (get_next_page_param (last_page (serve 0) (load_times n)) (serve 0 ∷ load_times n) ≡ none)
  load_times_lem n pos enough =
      let pages = load_times n in
      let h = load_times-IsPrefix n in
      let le : length catalog ≤ length (loaded pages) = elim (load_times_grow n pos) [
        | inl all ↦ all
        | inr many ↦ omega arith
      ] in
      (
        sym (append-nil (loaded pages))
            ∙ (ap (λ l. loaded pages ++ l) (sym (drop_all _ catalog le)) ∙ h.begins),
        next_param pages h ∙ ground arith,
      )
