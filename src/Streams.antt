-- ===== src/Streams.antt =====
-- dashboard/src/folio/Streams.tsx: the sources of a stream, and the form of a web gallery's
-- configuration; dashboard/src/types.ts: their types. An absent or null field is `none`.
pub mod Numbers
pub mod Labels
pub mod Editor
pub mod Tested
pub mod Toggles
pub mod Reopened
mod Tests
use ok_folio.Prelude.{
  ℕ, List, [], ◌∷◌, ◌++◌, Option, none, some, Bool, true, false, ◌==◌, ◌||◌, ◌&&◌, not, filter, map,
  is_nil, or_else, if◌then◌else◌,
}
use ok_folio.Prelude.Text.{Text, codes, trim}
use ok_folio.Prelude.Int.{ℤ, pos}
use ok_folio.Actions.{or_text}
use ok_folio.Streams.Numbers.{string_of, parse_int}

pub data Strategy : Type 0 where
  page_param next_link no_pages : Strategy

pub record PaginationConfig : Type 0 where
  pub strategy : Strategy
  pub param_name : Option Text
  pub start_index : Option ℤ
  pub next_link_selector : Option Text

pub record FieldSelector : Type 0 where
  pub selector : Text
  pub attr : Option Text

pub record SelectorConfig : Type 0 where
  pub item_link : Text
  pub image : FieldSelector
  pub artist : Option FieldSelector
  pub title : Option FieldSelector
  pub date : Option FieldSelector

-- `extra` holds the fields that a stored configuration has besides those of the type, with their
-- values in JSON: the server keeps `user_agent`, `retry` and `rate_limit`.
pub record WebGalleryConfig : Type 0 where
  pub list_url : Text
  pub schedule : Option Text
  pub pagination : PaginationConfig
  pub selectors : SelectorConfig
  pub item_link_filter : List Text
  pub extra : List (Text × Text)

pub data SourceKind : Type 0 where
  webgallery telegram : SourceKind
  other_kind : Text → SourceKind

-- `ConnectorSourceSetting`, with its type as a `SourceKind`.
pub record SourceSetting : Type 0 where
  pub id : ℕ
  pub type : SourceKind
  pub chat_id : Text
  pub label : Text
  pub config : Option WebGalleryConfig
  pub enabled : Bool
  pub target_folio_id : Option ℕ
  pub show_in_library : Bool

pub record WebGalleryForm : Type 0 where
  pub label : Text
  pub list_url : Text
  pub schedule : Text
  pub enabled : Bool
  pub pagination_strategy : Strategy
  pub page_param : Text
  pub start_index : Text
  pub next_link_selector : Text
  pub item_link_selector : Text
  pub image_selector : Text
  pub image_attr : Text
  pub artist_selector : Text
  pub artist_attr : Text
  pub title_selector : Text
  pub title_attr : Text
  pub date_selector : Text
  pub date_attr : Text
  pub item_link_filter : Text
  pub target_folio_id : Option ℕ
  pub show_in_library : Bool

unfoldable pub default_config : Text → WebGalleryConfig
default_config list_url = record {
  list_url = list_url;
  schedule = none;
  pagination = record {
    strategy = page_param;
    param_name = some (codes "pager");
    start_index = some (pos 1);
    next_link_selector = none;
  };
  selectors = record {
    item_link = codes "div.photo-item a";
    image = record { selector = codes "img#big_photo"; attr = some (codes "src") };
    artist = some (record { selector = codes "span[itemprop='name']"; attr = none });
    title = some (record { selector = codes "h1[itemprop='name']"; attr = none });
    date = some (record {
      selector = codes "meta[itemprop='datePublished']";
      attr = some (codes "content");
    });
  };
  item_link_filter = codes "javascript" ∷ codes "users" ∷ [];
  extra = [];
}

-- Spreading a configuration over the defaults replaces all of them: the defaults set no
-- `schedule`, and its other fields are never left out.
unfoldable pub source_config : Option SourceSetting → WebGalleryConfig
unfolding default_config
source_config none = default_config []
source_config (some source) = or_else source.config (default_config [])

-- `lines.join("\n")`
unfoldable pub join_lines : List Text → Text
join_lines [] = []
join_lines (line ∷ []) = line
join_lines (line ∷ next ∷ lines) = line ++ (10 ∷ join_lines (next ∷ lines))

abbrev pub attr_of : Option FieldSelector → Text
attr_of none = []
attr_of (some field) = or_else field.attr []

abbrev pub selector_of : Option FieldSelector → Text
selector_of none = []
selector_of (some field) = field.selector

abbrev setting_or {ℓ} : {A : Type ℓ} → Option SourceSetting → (SourceSetting → A) → A → A
setting_or none f d = d
setting_or (some source) f d = f source

unfoldable pub initial_form : Option SourceSetting → WebGalleryForm
unfolding source_config
initial_form source =
    let cfg = source_config source in
    record {
      label = setting_or source (λ s. s.label) [];
      list_url = cfg.list_url;
      schedule = or_else cfg.schedule [];
      enabled = setting_or source (λ s. s.enabled) false;
      pagination_strategy = cfg.pagination.strategy;
      page_param = or_else cfg.pagination.param_name (codes "pager");
      start_index = string_of (or_else cfg.pagination.start_index (pos 1));
      next_link_selector = or_else cfg.pagination.next_link_selector [];
      item_link_selector = cfg.selectors.item_link;
      image_selector = cfg.selectors.image.selector;
      image_attr = or_else cfg.selectors.image.attr (codes "src");
      artist_selector = selector_of cfg.selectors.artist;
      artist_attr = attr_of cfg.selectors.artist;
      title_selector = selector_of cfg.selectors.title;
      title_attr = attr_of cfg.selectors.title;
      date_selector = selector_of cfg.selectors.date;
      date_attr = attr_of cfg.selectors.date;
      item_link_filter = join_lines cfg.item_link_filter;
      target_folio_id = setting_or source (λ s. s.target_folio_id) none;
      show_in_library = setting_or source (λ s. s.show_in_library) true;
    }

-- `text || undefined`
abbrev pub nonblank : Text → Option Text
nonblank [] = none
nonblank (c ∷ s) = some (c ∷ s)

unfoldable pub optional_field : Text → Text → Option FieldSelector
optional_field selector attr =
    if is_nil (trim selector)
    then none
    else some (record { selector = trim selector; attr = nonblank (trim attr) })

abbrev pub starts_newline : Text → Bool
starts_newline [] = false
starts_newline (d ∷ t) = d == 10

-- A character in front of the first piece; a split has at least one.
abbrev pub in_front : ℕ → List Text → List Text
in_front c [] = (c ∷ []) ∷ []
in_front c (piece ∷ more) = (c ∷ piece) ∷ more

-- `text.split(/\r?\n|,/)`
unfoldable pub split_filter : Text → List Text
split_filter [] = [] ∷ []
split_filter (c ∷ s) =
    let rest = split_filter s in
    if c == 10 || c == b','
    then [] ∷ rest
    else if c == 13 && starts_newline s
    then rest
    else in_front c rest

abbrev pub pagination_of : Strategy → Text → Text → Text → PaginationConfig
pagination_of page_param param start link = record {
  strategy = page_param;
  param_name = some (or_text (trim param) (codes "pager"));
  start_index = some (or_else (parse_int start) (pos 1));
  next_link_selector = none;
}
pagination_of next_link param start link = record {
  strategy = next_link;
  param_name = none;
  start_index = none;
  next_link_selector = some (trim link);
}
pagination_of no_pages param start link = record {
  strategy = no_pages;
  param_name = none;
  start_index = none;
  next_link_selector = none;
}

unfoldable pub form_config : WebGalleryForm → WebGalleryConfig
form_config form = record {
  list_url = trim form.list_url;
  schedule = nonblank (trim form.schedule);
  pagination =
      pagination_of form.pagination_strategy form.page_param form.start_index
        form.next_link_selector;
  selectors = record {
    item_link = trim form.item_link_selector;
    image = record { selector = trim form.image_selector; attr = nonblank (trim form.image_attr) };
    artist = optional_field form.artist_selector form.artist_attr;
    title = optional_field form.title_selector form.title_attr;
    date = optional_field form.date_selector form.date_attr;
  };
  item_link_filter = filter (λ s. not (is_nil s)) (map trim (split_filter form.item_link_filter));
  extra = [];
}
