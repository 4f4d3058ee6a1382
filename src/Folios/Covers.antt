-- ===== src/Folios/Covers.antt =====
-- dashboard/src/folio/Folios.tsx: what the covers of a folio show. The window is the beginning of
-- the folio's pieces, which is what `fetchFolioPieces(folio.id, n, 0)` asks for.
use ok_folio.Prelude.{
  ℕ, suc, zero, ◌≤◌, List, [], ◌∷◌, Option, none, some, true, false, ◌==◌, ◌||◌, not, ltb, leb,
  filter, take, elem, Distinct-filter, length, length-take-le, get_elem?, first_some, ◌∙◌,
  if◌then◌else◌, ◌≡◌, refl, arith, Distinct, Bool-cases, inl, inr,
}
use ok_folio.Types.{Photo, Folio}
use ok_folio.Folios.{
  truthy_id, photo_ids, is_cover, other_ids, cover_first, cover_ids, first_id, hero_cover_id,
}

first_id-take : (n : ℕ) (pieces : List Photo) → first_id (take (suc n) pieces) ≡ first_id pieces
first_id-take n [] = refl
first_id-take n (piece ∷ pieces) = refl

length-take :
    (n : ℕ) (pieces : List Photo)
    → leb (length pieces) (length (take n pieces)) ≡ leb (length pieces) n
length-take zero [] = refl
length-take (suc n) [] = ground arith
length-take zero (piece ∷ pieces) = ground arith
length-take (suc n) (piece ∷ pieces) = ground (arith, length-take n pieces)

take_all : (n : ℕ) (pieces : List Photo) → leb (length pieces) n ≡ true → take n pieces ≡ pieces
take_all zero [] h = refl
take_all (suc n) [] h = refl
take_all zero (piece ∷ pieces) h = ground arith
take_all (suc n) (piece ∷ pieces) h = ground (arith, take_all n pieces)

-- Which piece the tile is to show: the chosen cover if it is one of the folio's pieces, or if there
-- are more than the window can hold; else the first piece.
abbrev pub shown_cover : Option ℕ → ℕ → List Photo → Option ℕ
shown_cover none n pieces = first_id pieces
shown_cover (some chosen) n pieces =
    if elem chosen (photo_ids pieces) || ltb n (length pieces) then some chosen else first_id pieces

hero_cover_chosen :
    (n : ℕ) (folio : Folio) (pieces : List Photo) (cover : Option ℕ)
    → truthy_id folio.cover_photo_id ≡ cover
    → folio.piece_count ≡ length pieces
    → hero_cover_id folio (some (take (suc n) pieces)) ≡ shown_cover cover (suc n) pieces
unfolding hero_cover_id
hero_cover_chosen n folio pieces none chosen count =
    rw (hero_cover_id, chosen) (first_id-take n pieces)
hero_cover_chosen n folio pieces (some cover) chosen count =
    rw (hero_cover_id, chosen, count, length-take (suc n) pieces, first_id-take n pieces)
      (elim (Bool-cases (leb (length pieces) (suc n))) [
        | inl whole ↦ rw (take_all (suc n) pieces whole) (ground arith)
        | inr more ↦ ground arith
      ])

-- With the first pieces of the folio as its window, one at least, and their full count as the
-- folio's, the tile shows the chosen cover if it is a piece of the folio or the window does not
-- hold every piece, and else the first piece, if there is one.
pub hero_cover_lem :
    (n : ℕ) (folio : Folio) (pieces : List Photo)
    → folio.piece_count ≡ length pieces
    → hero_cover_id folio (some (take (suc n) pieces))
      ≡ shown_cover (truthy_id folio.cover_photo_id) (suc n) pieces
hero_cover_lem n folio pieces count = hero_cover_chosen n folio pieces _ refl count

elem-take : (n a : ℕ) (ids : List ℕ) → elem a ids ≡ false → elem a (take n ids) ≡ false
elem-take zero a ids h = refl
elem-take (suc n) a [] h = refl
elem-take (suc n) a (id ∷ ids) h = ground (arith, elem-take n a ids)

Distinct-take : (n : ℕ) (ids : List ℕ) → Distinct ids → Distinct (take n ids)
Distinct-take zero ids h = tt
Distinct-take (suc n) [] h = tt
Distinct-take (suc n) (id ∷ ids) (fresh, h) = (elem-take n id ids fresh, Distinct-take n ids h)

cover_filtered :
    (cover : ℕ) (ids : List ℕ) → elem cover (filter (λ id. not (id == cover)) ids) ≡ false
cover_filtered cover [] = refl
cover_filtered cover (id ∷ ids) = ground (arith, cover_filtered cover ids)

cover_first-Distinct :
    (cover : Option ℕ) (ids : List ℕ)
    → Distinct ids
    → Distinct (cover_first (truthy_id cover) (filter (λ id. not (is_cover cover id)) ids))
unfolding truthy_id
cover_first-Distinct none ids h = Distinct-filter (λ id. true) ids h
cover_first-Distinct (some zero) ids h = Distinct-filter (λ id. not (id == 0)) ids h
cover_first-Distinct (some (suc n)) ids h = (cover_filtered (suc n) ids, Distinct-filter _ ids h)

first-take : (n : ℕ) (ids : List ℕ) → get_elem? (take (suc n) ids) 0 ≡ get_elem? ids 0
first-take n [] = refl
first-take n (id ∷ ids) = refl

first-cover_first :
    (cover : Option ℕ) (ids : List ℕ)
    → get_elem? (cover_first cover ids) 0 ≡ first_some cover (get_elem? ids 0)
first-cover_first none ids = refl
first-cover_first (some cover) ids = refl

-- The stack of covers has no piece twice, if the window has none twice; it holds three at most, and
-- has the chosen cover in front, if there is one, and else the first piece of the window other than
-- the cover.
pub cover_ids_lem :
    (folio : Folio) (photos : List Photo)
    → Distinct (photo_ids photos)
    → Distinct (cover_ids folio (some photos))
      × (length (cover_ids folio (some photos)) ≤ 3)
      × (get_elem? (cover_ids folio (some photos)) 0
          ≡ first_some
              (truthy_id folio.cover_photo_id)
              (get_elem? (other_ids folio.cover_photo_id (some photos)) 0))
unfolding cover_ids
cover_ids_lem folio photos distinct = (
  Distinct-take 3 _ (cover_first-Distinct folio.cover_photo_id (photo_ids photos) distinct),
  length-take-le 3
      (cover_first (truthy_id folio.cover_photo_id) (other_ids folio.cover_photo_id (some photos))),
  first-take 2 _ ∙ first-cover_first (truthy_id folio.cover_photo_id) _,
)
