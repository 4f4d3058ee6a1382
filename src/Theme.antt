-- ===== src/Theme.antt =====
-- dashboard/src/folio/theme.ts: the stored preferences, and `setTheme`, `toggleTheme`,
-- `setInfoPanelMode` and `setInfoPanelRememberedOpen` of dashboard/src/folio/context.tsx. A browser
-- that refuses `localStorage` throws on every access, which each function swallows.
pub mod Stored
mod Tests
use ok_folio.Prelude.{
  ℕ, List, [], ◌∷◌, ◌++◌, Option, none, some, Bool, true, false, ◌||◌, not, if◌then◌else◌,
}
use ok_folio.Prelude.Text.{Text, codes, text_eq}

pub data ThemeName : Type 0 where
  light dark auto : ThemeName

pub data InfoPanelMode : Type 0 where
  pinned remember hidden : InfoPanelMode

-- What `localStorage` holds, if it may be used at all.
pub data Storage : Type 0 where
  blocked : Storage
  usable : (Text → Option Text) → Storage

-- `localStorage.setItem(key, value)`
unfoldable pub set_item : Text → Text → Storage → Storage
set_item key value blocked = blocked
set_item key value (usable items) = usable (λ k. if text_eq k key then some value else items k)

-- `localStorage.getItem(key)`, with `none` for a missing item and for a refusal, which the readers
-- treat alike.
unfoldable pub get_item : Text → Storage → Option Text
get_item key blocked = none
get_item key (usable items) = items key

abbrev pub storage_key : Text
storage_key = codes "okfolio-theme"

abbrev pub info_panel_mode_storage_key : Text
info_panel_mode_storage_key = codes "okfolio-info-panel-mode"

abbrev pub info_panel_open_storage_key : Text
info_panel_open_storage_key = codes "okfolio-info-panel-open"

abbrev pub theme_text : ThemeName → Text
theme_text light = codes "light"
theme_text dark = codes "dark"
theme_text auto = codes "auto"

abbrev pub mode_text : InfoPanelMode → Text
mode_text pinned = codes "pinned"
mode_text remember = codes "remember"
mode_text hidden = codes "hidden"

abbrev pub parse_theme : Option Text → ThemeName
parse_theme none = light
parse_theme (some s) =
    if text_eq s (codes "dark")
    then dark
    else if text_eq s (codes "light")
    then light
    else if text_eq s (codes "auto")
    then auto
    else light

abbrev pub parse_mode : Option Text → InfoPanelMode
parse_mode none = remember
parse_mode (some s) =
    if text_eq s (codes "pinned")
    then pinned
    else if text_eq s (codes "remember")
    then remember
    else if text_eq s (codes "hidden")
    then hidden
    else remember

abbrev pub parse_open : Option Text → Bool
parse_open none = false
parse_open (some s) = text_eq s (codes "true")

unfoldable pub read_stored_theme : Storage → ThemeName
unfolding get_item text_eq
read_stored_theme storage = parse_theme (get_item storage_key storage)

unfoldable pub store_theme : ThemeName → Storage → Storage
unfolding set_item
store_theme name storage = set_item storage_key (theme_text name) storage

unfoldable pub read_stored_info_panel_mode : Storage → InfoPanelMode
unfolding get_item text_eq
read_stored_info_panel_mode storage = parse_mode (get_item info_panel_mode_storage_key storage)

unfoldable pub store_info_panel_mode : InfoPanelMode → Storage → Storage
unfolding set_item
store_info_panel_mode mode storage = set_item info_panel_mode_storage_key (mode_text mode) storage

unfoldable pub read_stored_info_panel_open : Storage → Bool
unfolding get_item text_eq
read_stored_info_panel_open storage = parse_open (get_item info_panel_open_storage_key storage)

unfoldable pub store_info_panel_open : Bool → Storage → Storage
unfolding set_item
store_info_panel_open open_panel storage =
    set_item info_panel_open_storage_key (if open_panel then codes "true" else codes "false")
      storage

-- `resolveTheme`; `prefers_dark` is the media query, where the browser has `matchMedia`.
unfoldable pub resolve_theme : Option Bool → ThemeName → ThemeName
resolve_theme prefers_dark light = light
resolve_theme prefers_dark dark = dark
resolve_theme none auto = light
resolve_theme (some prefers_dark) auto = if prefers_dark then dark else light

-- The provider's preferences, beside what is stored.
pub record Preferences : Type 0 where
  pub theme : ThemeName
  pub info_panel_mode : InfoPanelMode
  pub info_panel_remembered_open : Bool
  pub storage : Storage

unfoldable pub initial_preferences : Storage → Preferences
unfolding read_stored_theme read_stored_info_panel_mode read_stored_info_panel_open
initial_preferences storage = record {
  theme = read_stored_theme storage;
  info_panel_mode = read_stored_info_panel_mode storage;
  info_panel_remembered_open = read_stored_info_panel_open storage;
  storage = storage;
}

unfoldable pub set_theme : ThemeName → Preferences → Preferences
unfolding store_theme
set_theme t p = record p { theme = t; storage = store_theme t p.storage }

abbrev pub toggled : ThemeName → ThemeName
toggled dark = light
toggled _ = dark

unfoldable pub toggle_theme : Preferences → Preferences
unfolding set_theme
toggle_theme p = set_theme (toggled p.theme) p

unfoldable pub set_info_panel_mode : InfoPanelMode → Preferences → Preferences
unfolding store_info_panel_mode
set_info_panel_mode next p = record p {
  info_panel_mode = next;
  storage = store_info_panel_mode next p.storage;
}

unfoldable pub set_info_panel_remembered_open : Bool → Preferences → Preferences
unfolding store_info_panel_open
set_info_panel_remembered_open open_panel p = record p {
  info_panel_remembered_open = open_panel;
  storage = store_info_panel_open open_panel p.storage;
}
