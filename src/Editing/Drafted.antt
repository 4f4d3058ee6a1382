-- ===== src/Editing/Drafted.antt =====
-- dashboard/src/folio/PieceViewer.tsx, `saveEdit`: what the patch of a draft makes of a piece.
use ok_folio.Prelude.{
  subst, List, [], ◌∷◌, none, true, false, not, is_nil, ◌≡◌, refl, sym, ◌∙◌, ap, arith, inl, inr,
  Bool-cases, Option-cases, or_else, if◌then◌else◌,
}
use ok_folio.Prelude.Text.{Text, trim, text_eq, text_eq_sound, trim_idem}
use ok_folio.Actions.{or_text}
use ok_folio.Format.{Runtime}
use ok_folio.Format.Titles.{clean_title_lem}
use ok_folio.Types.{Photo}
use ok_folio.Keywords.{normalize_keywords, normalize_draft_keywords, same_keywords}
use ok_folio.Keywords.Normal.{normalize_keywords_lem}
use ok_folio.Pieces.{PieceVm, unknown, map_photo}
use ok_folio.Metadata.{if_given, PieceMetadataPatch, patch_fields, patched}
use ok_folio.Editing.{EditDraft, draft_patch, given}

-- The texts of a piece are trimmed, and its artist is not blank.
pub record IsClean (p : PieceVm) : Type 0 where
  pub title : trim p.t ≡ p.t
  pub artist : trim p.a ≡ p.a
  pub named : is_nil p.a ≡ false
  pub note : trim p.note ≡ p.note

-- The keywords of the draft in normal form; or, where the piece has the same in normal form, those
-- of the piece as they stand.
abbrev pub saved_keywords : Runtime → EditDraft → PieceVm → List Text
saved_keywords rt draft before =
    if same_keywords (normalize_draft_keywords rt.lower draft.keywords)
      (normalize_draft_keywords rt.lower before.keywords)
    then before.keywords
    else normalize_draft_keywords rt.lower draft.keywords

-- The piece `p` shows the draft as it was meant, saved while `before` was shown.
pub record Shows (rt : Runtime) (draft : EditDraft) (before p : PieceVm) : Type 0 where
  pub title : p.t ≡ trim draft.title
  pub artist : p.a ≡ or_text (trim draft.artist) unknown
  pub date : p.edit_date ≡ trim draft.date
  pub keywords : p.keywords ≡ saved_keywords rt draft before
  pub note : p.note ≡ trim draft.note

-- An empty date is sent as null, and shown as empty.
date_sent : (d : Text) → or_else (given (not (is_nil d)) d) [] ≡ d
date_sent [] = refl
date_sent (c ∷ d) = refl

empty_trimmed : trim [] ≡ []
unfolding trim
empty_trimmed = refl

unknown_trimmed : trim unknown ≡ unknown
unfolding trim
unknown_trimmed = refl

module _ (p : PieceVm) where
  -- The artist that an unchanged field stands for.
  artist_kept : IsClean p → or_text (if text_eq p.a unknown then [] else trim p.a) unknown ≡ p.a
  artist_kept c = elim (Bool-cases (text_eq p.a unknown)) [
    | inl nameless ↦ rw nameless (sym (text_eq_sound p.a unknown nameless))
    | inr other ↦ rw (other, c.artist, c.named) refl
  ]

module _ (rt : Runtime) (draft : EditDraft) (p : PieceVm) where
  twice_normal :
      normalize_keywords rt.lower (normalize_draft_keywords rt.lower draft.keywords)
      ≡ normalize_draft_keywords rt.lower draft.keywords
  unfolding normalize_draft_keywords normalize_keywords
  twice_normal = let (normal, again, kept) = normalize_keywords_lem rt.lower draft.keywords in again

  pub patched-Shows :
      (fields : List Text)
      → IsClean p
      → Shows rt draft p (patched rt (draft_patch rt.lower p draft) fields p)
  unfolding patched draft_patch
  patched-Shows fields c = record {
    title = elim (Bool-cases (text_eq (trim draft.title) (trim p.t))) [
      | inl same ↦ rw same (sym c.title ∙ sym (text_eq_sound _ _ same))
      | inr changed ↦ rw changed (trim_idem draft.title)
    ];
    artist =
        elim (Bool-cases
          (text_eq (trim draft.artist) (if text_eq p.a unknown then [] else trim p.a))) [
            | inl same ↦
                rw same (
                  sym (artist_kept p c)
                  ∙ sym (ap (λ a. or_text a unknown) (text_eq_sound _ _ same)))
            | inr changed ↦ rw changed (ap (λ a. or_text a unknown) (trim_idem draft.artist))
          ];
    date = elim (Bool-cases (text_eq (trim draft.date) p.edit_date)) [
      | inl same ↦ rw same (sym (text_eq_sound _ _ same))
      | inr changed ↦ rw changed (date_sent (trim draft.date))
    ];
    keywords =
        elim (Bool-cases (
          same_keywords (normalize_draft_keywords rt.lower draft.keywords)
            (normalize_draft_keywords rt.lower p.keywords))) [
              | inl same ↦ rw same refl
              | inr changed ↦ rw changed twice_normal
            ];
    note = elim (Bool-cases (text_eq (trim draft.note) (trim p.note))) [
      | inl same ↦ rw same (sym c.note ∙ sym (text_eq_sound _ _ same))
      | inr changed ↦ rw changed (trim_idem draft.note)
    ];
  }

pub map_photo-IsClean : (rt : Runtime) (photo : Photo) → IsClean (map_photo rt photo)
unfolding map_photo
map_photo-IsClean rt photo = record {
  title = elim (clean_title_lem photo.title) [
    | inl junk ↦ rw junk (empty_trimmed)
    | inr (kept, title) ↦ rw kept (trim_idem photo.title)
  ];
  artist = elim (Bool-cases (is_nil (trim photo.artist))) [
    | inl blank ↦ rw blank unknown_trimmed
    | inr named ↦ rw named (trim_idem photo.artist)
  ];
  named = elim (Bool-cases (is_nil (trim photo.artist))) [
    | inl blank ↦ rw blank refl
    | inr named ↦ rw named named
  ];
  note = trim_idem photo.notes;
}

-- A patch with no field sets nothing.
nothing_patched :
    (patch : PieceMetadataPatch)
    → is_nil (patch_fields patch) ≡ true
    → (patch.title ≡ none)
      × (patch.artist ≡ none)
      × (patch.date ≡ none)
      × (patch.keywords ≡ none)
      × (patch.note ≡ none)
unfolding patch_fields
nothing_patched patch h = ground arith

pub unpatched-Shows :
    (rt : Runtime) (draft : EditDraft) (p : PieceVm)
    → IsClean p
    → is_nil (patch_fields (draft_patch rt.lower p draft)) ≡ true
    → Shows rt draft p p
unfolding patched
unpatched-Shows rt draft p c h =
    let (no_title, no_artist, no_date, no_keywords, no_note) =
      nothing_patched (draft_patch rt.lower p draft) h in
    let shows = patched-Shows rt draft p [] c in
    record {
      title = subst (λ o. if_given o trim p.t ≡ trim draft.title) no_title shows.title;
      artist =
          subst
            (λ o.
              if_given o (λ a. or_text (trim a) unknown) p.a ≡ or_text (trim draft.artist) unknown)
            no_artist shows.artist;
      date =
          subst (λ o. if_given o (λ d. or_else d []) p.edit_date ≡ trim draft.date) no_date
            shows.date;
      keywords =
          subst
            (λ o. if_given o (normalize_keywords rt.lower) p.keywords ≡ saved_keywords rt draft p)
            no_keywords shows.keywords;
      note =
          subst (λ o. if_given o (λ n. trim (or_else n [])) p.note ≡ trim draft.note) no_note
            shows.note;
    }

artist-IsClean :
    (a : Text)
    → (trim (or_text (trim a) unknown) ≡ or_text (trim a) unknown)
      × (is_nil (or_text (trim a) unknown) ≡ false)
artist-IsClean a = elim (Bool-cases (is_nil (trim a))) [
  | inl blank ↦ rw blank (unknown_trimmed, refl)
  | inr named ↦ rw named (trim_idem a, named)
]

-- An edit of any fields leaves a clean piece.
pub patched-IsClean :
    (rt : Runtime) (patch : PieceMetadataPatch) (fields : List Text) (p : PieceVm)
    → IsClean p
    → IsClean (patched rt patch fields p)
unfolding patched
patched-IsClean rt patch fields p c = record {
  title = elim (Option-cases patch.title) [
    | inl kept ↦ rw kept c.title
    | inr (title, set) ↦ rw set (trim_idem title)
  ];
  artist = elim (Option-cases patch.artist) [
    | inl kept ↦ rw kept c.artist
    | inr (artist, set) ↦ rw set (artist-IsClean artist).0
  ];
  named = elim (Option-cases patch.artist) [
    | inl kept ↦ rw kept c.named
    | inr (artist, set) ↦ rw set (artist-IsClean artist).1
  ];
  note = elim (Option-cases patch.note) [
    | inl kept ↦ rw kept c.note
    | inr (note, set) ↦ rw set (trim_idem (or_else note []))
  ];
}
