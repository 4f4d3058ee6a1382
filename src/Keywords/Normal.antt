-- ===== src/Keywords/Normal.antt =====
-- dashboard/src/folio/context.tsx, `normalizeKeywords`.
use ok_folio.Prelude.{
  List, [], ◌∷◌, map, true, false, ◌||◌, is_nil, ◌≡◌, ◌↔◌, ap₂, subst, length, ◌==◌, ==_refl, refl,
  ap, arith, if◌then◌else◌, Bool-cases, inl, inr,
}
use ok_folio.Prelude.Text.{Text, text_eq, text_eq_sound, text_eq_refl, trim, trim_idem}
use ok_folio.Keywords.{has_text, normalize_from, normalize_keywords, every_same, same_keywords}

every_same_sound : (a b : List Text) → length a ≡ length b → every_same a b ≡ true → a ≡ b
unfolding every_same
every_same_sound [] [] e h = refl
every_same_sound [] (y ∷ b) e h = absurd (omega arith)
every_same_sound (x ∷ a) [] e h = absurd (omega arith)
every_same_sound (x ∷ a) (y ∷ b) e h =
    ap₂ ◌∷◌ (text_eq_sound x y (ground arith)) (every_same_sound a b (omega arith) (ground arith))

every_same_refl : (a : List Text) → every_same a a ≡ true
unfolding every_same
every_same_refl [] = refl
every_same_refl (x ∷ a) = rw (text_eq_refl x) (every_same_refl a)

same_keywords_refl : (a : List Text) → same_keywords a a ≡ true
unfolding same_keywords
same_keywords_refl a = rw (==_refl (length a)) (every_same_refl a)

same_keywords_sound : (a b : List Text) → same_keywords a b ≡ true → a ≡ b
unfolding same_keywords
same_keywords_sound a b h = elim (Bool-cases (length a == length b)) [
  | inl same ↦ every_same_sound a b (ground arith) (rw same at h)
  | inr other ↦ absurd (ground arith)
]

-- The viewer's comparison of two keyword lists holds exactly if they are equal.
pub same_keywords_iff : (a b : List Text) → (same_keywords a b ≡ true) ↔ (a ≡ b)
same_keywords_iff a b =
    (same_keywords_sound a b, λ e. subst (λ c. same_keywords a c ≡ true) e (same_keywords_refl a))

module _ (lower : Text → Text) where
  -- In normal form, after the keys in `seen`: each keyword is trimmed and not blank, and no two agree
  -- in lower case.
  abbrev pub IsNormal : List Text → List Text → Type 0
  IsNormal seen [] = Unit
  IsNormal seen (k ∷ ks) =
      (is_nil k ≡ false)
      × (trim k ≡ k)
      × (has_text (lower k) seen ≡ false)
      × IsNormal (lower k ∷ seen) ks

  normalize_from-IsNormal :
      (seen keywords : List Text) → IsNormal seen (normalize_from lower seen keywords)
  unfolding normalize_from
  normalize_from-IsNormal seen [] = tt
  normalize_from-IsNormal seen (raw ∷ keywords) =
      elim (Bool-cases (is_nil (trim raw) || has_text (lower (trim raw)) seen)) [
        | inl skip ↦ rw skip (normalize_from-IsNormal seen keywords)
        | inr keep ↦ rw keep (
          ground arith,
          trim_idem raw,
          ground arith,
          normalize_from-IsNormal (lower (trim raw) ∷ seen) keywords,
        )
      ]

  normalize_from_id :
      (seen keywords : List Text)
      → IsNormal seen keywords
      → normalize_from lower seen keywords ≡ keywords
  unfolding normalize_from
  normalize_from_id seen [] h = refl
  normalize_from_id seen (k ∷ keywords) (solid, trimmed, new, h) =
      rw (trimmed, solid, new, normalize_from_id (lower k ∷ seen) keywords h)

  -- The lower-case keys of the keywords that are not blank.
  abbrev pub lower_keys : List Text → List Text
  lower_keys [] = []
  lower_keys (raw ∷ keywords) =
      if is_nil (trim raw) then lower_keys keywords else lower (trim raw) ∷ lower_keys keywords

  has_text_eq :
      (key k : Text) (seen : List Text) → text_eq key k ≡ true → has_text key seen ≡ has_text k seen
  has_text_eq key k seen e = ap (λ t. has_text t seen) (text_eq_sound key k e)

  keys_kept :
      (key : Text) (seen keywords : List Text)
      → (has_text key seen || has_text key (map lower (normalize_from lower seen keywords)))
        ≡ (has_text key seen || has_text key (lower_keys keywords))
  unfolding normalize_from
  keys_kept key seen [] = refl
  keys_kept key seen (raw ∷ keywords) = ground (
    arith,
    has_text_eq key (lower (trim raw)) seen,
    keys_kept key seen keywords,
    keys_kept key (lower (trim raw) ∷ seen) keywords,
  )

  -- Normalizing keywords leaves them trimmed, not blank and without two that agree in lower case;
  -- normalizing again changes nothing; and exactly the lower-case keys of the trimmed keywords that
  -- are not blank are kept.
  pub normalize_keywords_lem :
      (keywords : List Text)
      → IsNormal [] (normalize_keywords lower keywords)
        × (normalize_keywords lower (normalize_keywords lower keywords)
            ≡ normalize_keywords lower keywords)
        × ((key : Text)
            → has_text key (map lower (normalize_keywords lower keywords))
              ≡ has_text key (lower_keys keywords))
  unfolding normalize_keywords
  normalize_keywords_lem keywords = (
    normalize_from-IsNormal [] keywords,
    normalize_from_id [] _ (normalize_from-IsNormal [] keywords),
    λ key. keys_kept key [] keywords,
  )
