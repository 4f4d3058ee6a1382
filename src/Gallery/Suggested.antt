-- ===== src/Gallery/Suggested.antt =====
-- dashboard/src/folio/Gallery.tsx: the artist that a submitted draft stands for.
use ok_folio.Prelude.{
  ℕ, zero, suc, List, [], ◌∷◌, Option, none, some, Bool, true, ◌||◌, is_nil, filter, find?, take,
  All, ◌≡◌, refl, arith, Bool-cases, inl, inr, ==_refl,
}
use ok_folio.Prelude.Text.{Text, trim, text_eq, text_eq_sound}
use ok_folio.Format.{includes, starts_with}
use ok_folio.Gallery.{ArtistCount, first_of, normalized, suggestions, artist_of, submitted_name}

starts_with_refl : (s : Text) → starts_with s s ≡ true
unfolding starts_with
starts_with_refl [] = refl
starts_with_refl (c ∷ s) = ground (arith, ==_refl c, starts_with_refl s)

includes_refl : (s : Text) → includes s s ≡ true
unfolding includes starts_with
includes_refl [] = refl
includes_refl (c ∷ s) = ground (arith, starts_with_refl (c ∷ s))

includes_nil : (s : Text) → includes s [] ≡ true
unfolding includes starts_with
includes_nil [] = refl
includes_nil (c ∷ s) = refl

-- Where a text is blank, it is in any other.
includes_either : (s part : Text) → (is_nil part || includes s part) ≡ true → includes s part ≡ true
includes_either s [] h = includes_nil s
includes_either s (c ∷ part) h = h

module _ (lower : Text → Text) (draft : Text) where
  -- The name has the draft in it, trimmed, in lower case.
  abbrev pub IsMeant : Text → Type 0
  IsMeant name = includes (lower name) (normalized lower draft) ≡ true

  abbrev IsShown : ArtistCount → Type 0
  IsShown item = IsMeant item.artist

  abbrev MeantIfAny : Option ArtistCount → Type 0
  MeantIfAny none = Unit
  MeantIfAny (some item) = IsShown item

  take-All : (n : ℕ) (l : List ArtistCount) → All IsShown l → All IsShown (take n l)
  take-All zero l h = tt
  take-All (suc n) [] h = tt
  take-All (suc n) (item ∷ l) (p, h) = (p, take-All n l h)

  abbrev fits : ArtistCount → Bool
  fits item =
      is_nil (normalized lower draft) || includes (lower item.artist) (normalized lower draft)

  fits-IsShown : (item : ArtistCount) → fits item ≡ true → IsShown item
  fits-IsShown item fit = includes_either (lower item.artist) (normalized lower draft) fit

  filter-IsShown : (l : List ArtistCount) → All IsShown (filter fits l)
  filter-IsShown [] = tt
  filter-IsShown (item ∷ l) = elim (Bool-cases (fits item)) [
    | inl fit ↦ rw fit (fits-IsShown item fit, filter-IsShown l)
    | inr other ↦ rw other (filter-IsShown l)
  ]

  pub suggestions-IsShown :
      (artists : List ArtistCount) → All IsShown (suggestions lower draft artists)
  unfolding suggestions
  suggestions-IsShown artists = take-All 8 _ (filter-IsShown artists)

  find-All :
      (p : ArtistCount → Bool) (l : List ArtistCount)
      → ((item : ArtistCount) → p item ≡ true → IsShown item)
      → MeantIfAny (find? p l)
  find-All p [] h = tt
  find-All p (item ∷ l) h = elim (Bool-cases (p item)) [
    | inl found ↦ rw found (h item found)
    | inr other ↦ rw other (find-All p l h)
  ]

  first-All : (l : List ArtistCount) → All IsShown l → MeantIfAny (first_of l)
  first-All [] h = tt
  first-All (item ∷ l) (p, h) = p

  artist_of-IsMeant :
      (o : Option ArtistCount) (other : Text)
      → MeantIfAny o
      → IsMeant other
      → IsMeant (artist_of o other)
  artist_of-IsMeant none other h k = k
  artist_of-IsMeant (some item) other h k = h

  exact-IsShown :
      (item : ArtistCount)
      → text_eq (lower item.artist) (normalized lower draft) ≡ true
      → IsShown item
  exact-IsShown item same =
      rw (text_eq_sound (lower item.artist) (normalized lower draft) same)
        (includes_refl (normalized lower draft))

  -- The name that a submitted draft stands for, among the suggestions shown for it, has the draft in
  -- it, trimmed and in lower case.
  pub submitted_name-IsMeant :
      (artists : List ArtistCount)
      → IsMeant (submitted_name lower draft (suggestions lower draft artists))
  unfolding submitted_name
  submitted_name-IsMeant artists =
      artist_of-IsMeant
        (find? (λ item. text_eq (lower item.artist) (normalized lower draft))
          (suggestions lower draft artists))
        _ (find-All _ (suggestions lower draft artists) exact-IsShown)
        (artist_of-IsMeant (first_of (suggestions lower draft artists)) (trim draft)
          (first-All (suggestions lower draft artists) (suggestions-IsShown artists))
          (includes_refl (normalized lower draft)))
