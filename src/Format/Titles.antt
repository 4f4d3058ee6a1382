-- ===== src/Format/Titles.antt =====
-- dashboard/src/folio/context.tsx, `cleanTitle`.
use ok_folio.Prelude.{[], false, is_nil, ◌≡◌, ◌⊎◌, inl, inr, refl, sym, ap, ◌∙◌, Bool-cases}
use ok_folio.Prelude.Text.{Text, trim, trim_idem}
use ok_folio.Format.{all_filler, starts_uuid, clean_title}

-- What a kept title looks like: trimmed, and none of the junk that the catalog stores.
abbrev pub IsTitle : Text → Type 0
IsTitle t = (trim t ≡ t) × (is_nil t ≡ false) × (all_filler t ≡ false) × (starts_uuid t ≡ false)

-- A cleaned title is empty, or the title trimmed, which is then not blank, not all filler, and does
-- not start like a UUID.
pub clean_title_lem :
    (raw : Text) → (clean_title raw ≡ []) ⊎ ((clean_title raw ≡ trim raw) × IsTitle (trim raw))
unfolding clean_title
clean_title_lem raw = elim (Bool-cases (is_nil (trim raw))) [
  | inl blank ↦ inl (rw blank)
  | inr solid ↦ elim (Bool-cases (all_filler (trim raw))) [
    | inl filler ↦ inl (rw (solid, filler))
    | inr plain ↦ elim (Bool-cases (starts_uuid (trim raw))) [
      | inl uuid ↦ inl (rw (solid, plain, uuid))
      | inr named ↦ inr (rw (solid, plain, named), (trim_idem raw, solid, plain, named))
    ]
  ]
]

-- A title that is kept is left as it is.
kept : (t : Text) → IsTitle t → clean_title t ≡ t
unfolding clean_title
kept t (trimmed, solid, plain, named) = rw (trimmed, solid, plain, named)

clean_nil : clean_title [] ≡ []
unfolding clean_title trim
clean_nil = refl

-- Cleaning a title twice is cleaning it once.
pub clean_title_idem : (raw : Text) → clean_title (clean_title raw) ≡ clean_title raw
clean_title_idem raw = elim (clean_title_lem raw) [
  | inl none_left ↦ ap clean_title none_left ∙ (clean_nil ∙ sym none_left)
  | inr (e, title) ↦ ap clean_title e ∙ (kept (trim raw) title ∙ sym e)
]
