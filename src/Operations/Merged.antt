-- ===== src/Operations/Merged.antt =====
-- dashboard/src/pages/ExtractorOperations.tsx, `RecentMedia`: what the merged list holds.
use ok_folio.Prelude.{
  ℕ, zero, suc, ◌≤◌, List, [], ◌∷◌, ◌++◌, true, false, ◌==◌, ◌||◌, ltb, take, elem, Distinct,
  length, length-take-le, ◌≡◌, refl, ◌∙◌, arith, Bool-cases, inl, inr,
}
use ok_folio.Prelude.Text.{Text}
use ok_folio.Types.{Photo}
use ok_folio.Folios.{photo_ids}
use ok_folio.Operations.Recent.{set_by_id, by_id, insert, sort_onto, latest_first, recent_media}

elem-set_by_id :
    (a : ℕ) (photo : Photo) (l : List Photo)
    → elem a (photo_ids (set_by_id photo l)) ≡ (a == photo.id || elem a (photo_ids l))
unfolding set_by_id
elem-set_by_id a photo [] = refl
elem-set_by_id a photo (other ∷ l) = elim (Bool-cases (other.id == photo.id)) [
  | inl same ↦ rw same (ground arith)
  | inr apart ↦ rw apart (ground (arith, elem-set_by_id a photo l))
]

Distinct-set_by_id :
    (photo : Photo) (l : List Photo)
    → Distinct (photo_ids l)
    → Distinct (photo_ids (set_by_id photo l))
unfolding set_by_id
Distinct-set_by_id photo [] h = (refl, tt)
Distinct-set_by_id photo (other ∷ l) (fresh, h) = elim (Bool-cases (other.id == photo.id)) [
  | inl same ↦ rw same (ground (arith, fresh), h)
  | inr apart ↦
      rw apart
        (ground (arith, elem-set_by_id other.id photo l, fresh), Distinct-set_by_id photo l h)
]

elem-by_id :
    (a : ℕ) (l photos : List Photo)
    → elem a (photo_ids (by_id l photos)) ≡ (elem a (photo_ids l) || elem a (photo_ids photos))
unfolding by_id
elem-by_id a l [] = ground arith
elem-by_id a l (photo ∷ photos) =
    ground (arith, elem-by_id a (set_by_id photo l) photos, elem-set_by_id a photo l)

Distinct-by_id :
    (l photos : List Photo) → Distinct (photo_ids l) → Distinct (photo_ids (by_id l photos))
unfolding by_id
Distinct-by_id l [] h = h
Distinct-by_id l (photo ∷ photos) h =
    Distinct-by_id (set_by_id photo l) photos (Distinct-set_by_id photo l h)

module _ (time : Text → ℕ) where
  elem-insert :
      (a : ℕ) (photo : Photo) (l : List Photo)
      → elem a (photo_ids (insert time photo l)) ≡ (a == photo.id || elem a (photo_ids l))
  unfolding insert
  elem-insert a photo [] = refl
  elem-insert a photo (other ∷ l) =
      elim (Bool-cases (ltb (time other.downloaded_at) (time photo.downloaded_at))) [
        | inl later ↦ rw later refl
        | inr behind ↦ rw behind (ground (arith, elem-insert a photo l))
      ]

  Distinct-insert :
      (photo : Photo) (l : List Photo)
      → elem photo.id (photo_ids l) ≡ false
      → Distinct (photo_ids l)
      → Distinct (photo_ids (insert time photo l))
  unfolding insert
  Distinct-insert photo [] new h = (refl, tt)
  Distinct-insert photo (other ∷ l) new (fresh, h) =
      elim (Bool-cases (ltb (time other.downloaded_at) (time photo.downloaded_at))) [
        | inl later ↦ rw later (new, (fresh, h))
        | inr behind ↦ rw behind (
          ground (arith, elem-insert other.id photo l, fresh, new),
          Distinct-insert photo l (ground (arith, new)) h,
        )
      ]

  abbrev IsBefore : ℕ → List Photo → Type 0
  IsBefore t [] = Unit
  IsBefore t (photo ∷ l) = time photo.downloaded_at ≤ t

  -- The latest first.
  abbrev pub IsLatestFirst : List Photo → Type 0
  IsLatestFirst [] = Unit
  IsLatestFirst (photo ∷ l) = IsBefore (time photo.downloaded_at) l × IsLatestFirst l

  insert-IsBefore :
      (t : ℕ) (photo : Photo) (l : List Photo)
      → time photo.downloaded_at ≤ t
      → IsBefore t l
      → IsBefore t (insert time photo l)
  unfolding insert
  insert-IsBefore t photo [] earlier h = earlier
  insert-IsBefore t photo (other ∷ l) earlier h =
      elim (Bool-cases (ltb (time other.downloaded_at) (time photo.downloaded_at))) [
        | inl later ↦ rw later earlier
        | inr behind ↦ rw behind h
      ]

  insert-IsLatestFirst :
      (photo : Photo) (l : List Photo) → IsLatestFirst l → IsLatestFirst (insert time photo l)
  unfolding insert
  insert-IsLatestFirst photo [] h = (tt, tt)
  insert-IsLatestFirst photo (other ∷ l) (first, h) =
      elim (Bool-cases (ltb (time other.downloaded_at) (time photo.downloaded_at))) [
        | inl later ↦ rw later (ground (arith, later), (first, h))
        | inr behind ↦ rw behind (
          insert-IsBefore _ photo l (ground (arith, behind)) first,
          insert-IsLatestFirst photo l h,
        )
      ]

  sort_onto-IsLatestFirst :
      (l photos : List Photo) → IsLatestFirst l → IsLatestFirst (sort_onto time l photos)
  unfolding sort_onto
  sort_onto-IsLatestFirst l [] h = h
  sort_onto-IsLatestFirst l (photo ∷ photos) h =
      sort_onto-IsLatestFirst (insert time photo l) photos (insert-IsLatestFirst photo l h)

  elem-sort_onto :
      (a : ℕ) (l photos : List Photo)
      → elem a (photo_ids (sort_onto time l photos))
        ≡ (elem a (photo_ids l) || elem a (photo_ids photos))
  unfolding sort_onto
  elem-sort_onto a l [] = ground arith
  elem-sort_onto a l (photo ∷ photos) =
      ground (arith, elem-sort_onto a (insert time photo l) photos, elem-insert a photo l)

  Distinct-sort_onto :
      (l photos : List Photo)
      → Distinct (photo_ids l)
      → Distinct (photo_ids photos)
      → ((a : ℕ) → elem a (photo_ids photos) ≡ true → elem a (photo_ids l) ≡ false)
      → Distinct (photo_ids (sort_onto time l photos))
  unfolding sort_onto
  Distinct-sort_onto l [] h k apart = h
  Distinct-sort_onto l (photo ∷ photos) h (fresh, k) apart =
      Distinct-sort_onto (insert time photo l) photos
        (Distinct-insert photo l (apart photo.id (ground arith)) h) k
        (λ a listed. ground (arith, elem-insert a photo l, apart a, fresh))

  take-IsLatestFirst : (n : ℕ) (l : List Photo) → IsLatestFirst l → IsLatestFirst (take n l)
  take-IsLatestFirst zero l h = tt
  take-IsLatestFirst (suc n) [] h = tt
  take-IsLatestFirst (suc zero) (photo ∷ l) (first, h) = (tt, tt)
  take-IsLatestFirst (suc (suc n)) (photo ∷ []) (first, h) = (tt, tt)
  take-IsLatestFirst (suc (suc n)) (photo ∷ other ∷ l) (first, h) =
      (first, take-IsLatestFirst (suc n) (other ∷ l) h)

  -- The media of today and of the week, from which the first eight are shown, have each id once,
  -- exactly the ids of the two lists, and the latest first.
  pub latest_first_lem :
      (today week : List Photo)
      → Distinct (photo_ids (latest_first time today week))
        × ((a : ℕ)
            → elem a (photo_ids (latest_first time today week))
              ≡ elem a (photo_ids (today ++ week)))
        × IsLatestFirst (latest_first time today week)
        × IsLatestFirst (recent_media time today week)
        × (length (recent_media time today week) ≤ 8)
  unfolding latest_first recent_media
  latest_first_lem today week = (
    Distinct-sort_onto [] (by_id [] (today ++ week)) tt (Distinct-by_id [] (today ++ week) tt)
        (λ a listed. refl),
    λ a. elem-sort_onto a [] (by_id [] (today ++ week)) ∙ elem-by_id a [] (today ++ week),
    sort_onto-IsLatestFirst [] (by_id [] (today ++ week)) tt,
    take-IsLatestFirst 8 _ (sort_onto-IsLatestFirst [] (by_id [] (today ++ week)) tt),
    length-take-le 8 (latest_first time today week),
  )
