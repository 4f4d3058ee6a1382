-- ===== src/Streams/Reopened.antt =====
-- dashboard/src/folio/Streams.tsx: the form of a web gallery, saved by `formConfig` and opened again
-- by `initialForm`.
use ok_folio.Prelude.{
  ℕ, List, [], ◌∷◌, ◌++◌, some, false, ◌==◌, ◌≡◌, refl, ◌∙◌, ap, arith, inl, inr, Bool-cases, not,
  is_nil, All, or_else, map, filter, ◌||◌, ◌&&◌,
}
use ok_folio.Prelude.Text.{
  Text, codes, trim, trim_nil, trim_idem, trim-All, Ends, trim-Ends, is_space,
}
use ok_folio.Prelude.Int.{pos}
use ok_folio.Actions.{or_text}
use ok_folio.Streams.{
  SourceSetting, WebGalleryConfig, WebGalleryForm, Strategy, page_param, next_link, no_pages,
  attr_of, selector_of, join_lines, nonblank, optional_field, split_filter, in_front,
  starts_newline, pagination_of, form_config, initial_form,
}
use ok_folio.Streams.Numbers.{string_of, parse_int, parse_int-string_of}

-- No character at which the filter is split.
abbrev IsPlain : ℕ → Type 0
IsPlain c = (c == 10 || c == b',') ≡ false

-- A line of the filter as it is saved.
record IsLine (line : Text) : Type 0 where
  plain : All IsPlain line
  ends : Ends line
  trimmed : trim line ≡ line
  solid : is_nil line ≡ false

split_plain : (s : Text) → All IsPlain s → split_filter s ≡ s ∷ []
unfolding split_filter
split_plain [] h = refl
split_plain (c ∷ []) (p, h) = ground arith
split_plain (c ∷ d ∷ s) (p, h) = rw (split_plain (d ∷ s) h, p) (ground arith)

not_return : (c : ℕ) → is_space c ≡ false → (c == 13) ≡ false
unfolding is_space
not_return c solid = ground arith

-- A line and a line feed in front of a text are its first piece.
split_line :
    (line rest : Text)
    → All IsPlain line
    → Ends line
    → split_filter (line ++ (10 ∷ rest)) ≡ line ∷ split_filter rest
unfolding split_filter
split_line [] rest h e = refl
split_line (c ∷ []) rest (p, h) e = ground (arith, not_return c e)
split_line (c ∷ d ∷ line) rest (p, h) e = rw (split_line (d ∷ line) rest h e) (ground arith)

split-join_lines :
    (lines : List Text)
    → is_nil lines ≡ false
    → All IsLine lines
    → split_filter (join_lines lines) ≡ lines
unfolding join_lines
split-join_lines [] some_line h = ground arith
split-join_lines (line ∷ []) some_line (l, h) = split_plain line l.plain
split-join_lines (line ∷ next ∷ lines) some_line (l, h) =
    split_line line (join_lines (next ∷ lines)) l.plain l.ends
    ∙ ap (◌∷◌ line) (split-join_lines (next ∷ lines) refl h)

kept : List Text → List Text
kept l = filter (λ s. not (is_nil s)) (map trim l)

kept_lines : (lines : List Text) → All IsLine lines → kept lines ≡ lines
unfolding kept
kept_lines [] h = refl
kept_lines (line ∷ lines) (l, h) = rw (l.trimmed, l.solid) (ap (◌∷◌ line) (kept_lines lines h))

in_front-All :
    (c : ℕ) (l : List Text) → IsPlain c → All (All IsPlain) l → All (All IsPlain) (in_front c l)
in_front-All c [] p h = ((p, tt), tt)
in_front-All c (piece ∷ more) p (q, h) = ((p, q), h)

split-All : (s : Text) → All (All IsPlain) (split_filter s)
unfolding split_filter
split-All [] = (tt, tt)
split-All (c ∷ s) = elim (Bool-cases (c == 10 || c == b',')) [
  | inl cut ↦ rw cut (tt, split-All s)
  | inr plain ↦ elim (Bool-cases (c == 13 && starts_newline s)) [
    | inl return ↦ rw (plain, return) (split-All s)
    | inr other ↦ rw (plain, other) (in_front-All c (split_filter s) plain (split-All s))
  ]
]

kept-IsLine : (l : List Text) → All (All IsPlain) l → All IsLine (kept l)
unfolding kept
kept-IsLine [] h = tt
kept-IsLine (s ∷ l) (p, h) = elim (Bool-cases (is_nil (trim s))) [
  | inl blank ↦ rw blank (kept-IsLine l h)
  | inr solid ↦ rw solid (
    record {
      plain = trim-All IsPlain s p;
      ends = trim-Ends s;
      trimmed = trim_idem s;
      solid = solid;
    },
    kept-IsLine l h,
  )
]

-- The lines that a filter keeps are kept again.
filter_again :
    (lines : List Text) → All IsLine lines → kept (split_filter (join_lines lines)) ≡ lines
unfolding kept join_lines split_filter trim
filter_again [] h = refl
filter_again (line ∷ lines) h =
    rw (split-join_lines (line ∷ lines) refl h) (kept_lines (line ∷ lines) h)

nonblank_again : (s : Text) → nonblank (trim (or_else (nonblank (trim s)) [])) ≡ nonblank (trim s)
nonblank_again s = go (trim s) (trim_idem s)
  where
    go : (t : Text) → trim t ≡ t → nonblank (trim (or_else (nonblank t) [])) ≡ nonblank t
    go [] same = ap nonblank same
    go (c ∷ t) same = ap nonblank same

field_again :
    (selector attr : Text)
    → optional_field
        (selector_of (optional_field selector attr))
        (attr_of (optional_field selector attr))
      ≡ optional_field selector attr
unfolding optional_field
field_again selector attr = elim (Bool-cases (is_nil (trim selector))) [
  | inl blank ↦ rw blank (rw trim_nil refl)
  | inr solid ↦ rw (solid, trim_idem selector, solid) (rw (nonblank_again attr) refl)
]

src_trimmed : trim (codes "src") ≡ codes "src"
unfolding trim
src_trimmed = refl

pager_trimmed : trim (codes "pager") ≡ codes "pager"
unfolding trim
pager_trimmed = refl

param_again :
    (s : Text)
    → or_text (trim (or_text (trim s) (codes "pager"))) (codes "pager")
      ≡ or_text (trim s) (codes "pager")
param_again s = go (trim s) (trim_idem s)
  where
    go :
        (t : Text)
        → trim t ≡ t
        → or_text (trim (or_text t (codes "pager"))) (codes "pager") ≡ or_text t (codes "pager")
    go [] same = rw pager_trimmed refl
    go (c ∷ t) same = rw same refl

pagination_again :
    (strategy : Strategy) (param start link : Text)
    → pagination_of
        (pagination_of strategy param start link).strategy
        (or_else (pagination_of strategy param start link).param_name (codes "pager"))
        (string_of (or_else (pagination_of strategy param start link).start_index (pos 1)))
        (or_else (pagination_of strategy param start link).next_link_selector [])
      ≡ pagination_of strategy param start link
pagination_again page_param param start link =
    rw (param_again param, parse_int-string_of (or_else (parse_int start) (pos 1)))
pagination_again next_link param start link = rw (trim_idem link)
pagination_again no_pages param start link = refl

-- The configuration with `src` where the image names no attribute.
abbrev pub with_src : WebGalleryConfig → WebGalleryConfig
with_src config = record config {
  selectors = record config.selectors {
    image = record config.selectors.image {
      attr = some (or_else config.selectors.image.attr (codes "src"));
    };
  };
}

src_again :
    (attr : Text)
    → nonblank (trim (or_else (nonblank (trim attr)) (codes "src")))
      ≡ some (or_else (nonblank (trim attr)) (codes "src"))
src_again attr = go (trim attr) (trim_idem attr)
  where
    go :
        (t : Text)
        → trim t ≡ t
        → nonblank (trim (or_else (nonblank t) (codes "src")))
          ≡ some (or_else (nonblank t) (codes "src"))
    go [] same = ap nonblank src_trimmed
    go (c ∷ t) same = ap nonblank same

-- A source saved with the configuration of a form and opened again shows a form of the same
-- configuration, but for an image without an attribute, which comes back with `src`.
pub reopened_config :
    (form : WebGalleryForm) (source : SourceSetting)
    → source.config ≡ some (form_config form)
    → form_config (initial_form (some source)) ≡ with_src (form_config form)
unfolding form_config initial_form kept
reopened_config form source saved = rw saved λ i. record {
  list_url = trim_idem form.list_url i;
  schedule = nonblank_again form.schedule i;
  pagination =
      pagination_again form.pagination_strategy form.page_param form.start_index
        form.next_link_selector i;
  selectors = record {
    item_link = trim_idem form.item_link_selector i;
    image = record {
      selector = trim_idem form.image_selector i;
      attr = src_again form.image_attr i;
    };
    artist = field_again form.artist_selector form.artist_attr i;
    title = field_again form.title_selector form.title_attr i;
    date = field_again form.date_selector form.date_attr i;
  };
  item_link_filter =
      filter_again (kept (split_filter form.item_link_filter))
        (kept-IsLine (split_filter form.item_link_filter) (split-All form.item_link_filter)) i;
  extra = [];
}
