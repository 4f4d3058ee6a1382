-- ===== src/Theme/Stored.antt =====
-- dashboard/src/folio/theme.ts and the preferences of dashboard/src/folio/context.tsx: a reload finds
-- what was set.
use ok_folio.Prelude.{List, [], ◌∷◌, Option, Bool, true, false, ◌≡◌, refl}
use ok_folio.Prelude.Text.{Text, text_eq}
use ok_folio.Theme.{
  ThemeName, light, dark, auto, InfoPanelMode, pinned, remember, hidden, usable, Preferences,
  initial_preferences, set_theme, toggle_theme, set_info_panel_mode, set_info_panel_remembered_open,
  read_stored_theme, read_stored_info_panel_mode, read_stored_info_panel_open, store_theme,
  store_info_panel_mode, store_info_panel_open, set_item, get_item, toggled,
}

-- The operations on the preferences.
pub data Change : Type 0 where
  to_theme : ThemeName → Change
  toggle : Change
  to_mode : InfoPanelMode → Change
  to_open : Bool → Change

unfoldable pub change : Change → Preferences → Preferences
unfolding set_theme toggle_theme set_info_panel_mode set_info_panel_remembered_open
change (to_theme t) p = set_theme t p
change toggle p = toggle_theme p
change (to_mode m) p = set_info_panel_mode m p
change (to_open b) p = set_info_panel_remembered_open b p

unfoldable pub changes : List Change → Preferences → Preferences
unfolding change
changes [] p = p
changes (c ∷ cs) p = changes cs (change c p)

-- Storage works, and has what each preference is.
record IsSaved (p : Preferences) : Type 0 where
  works : (items : Text → Option Text) × (p.storage ≡ usable items)
  theme_saved : read_stored_theme p.storage ≡ p.theme
  mode_saved : read_stored_info_panel_mode p.storage ≡ p.info_panel_mode
  open_saved : read_stored_info_panel_open p.storage ≡ p.info_panel_remembered_open

module _ (items : Text → Option Text) where
  theme_read : (t : ThemeName) → read_stored_theme (store_theme t (usable items)) ≡ t
  unfolding read_stored_theme store_theme set_item get_item text_eq
  theme_read light = refl
  theme_read dark = refl
  theme_read auto = refl

  mode_read :
      (m : InfoPanelMode) → read_stored_info_panel_mode (store_info_panel_mode m (usable items)) ≡ m
  unfolding read_stored_info_panel_mode store_info_panel_mode set_item get_item text_eq
  mode_read pinned = refl
  mode_read remember = refl
  mode_read hidden = refl

  open_read : (b : Bool) → read_stored_info_panel_open (store_info_panel_open b (usable items)) ≡ b
  unfolding read_stored_info_panel_open store_info_panel_open set_item get_item text_eq
  open_read true = refl
  open_read false = refl

set_theme-IsSaved : (t : ThemeName) (p : Preferences) → IsSaved p → IsSaved (set_theme t p)
unfolding set_theme read_stored_theme read_stored_info_panel_mode read_stored_info_panel_open
    store_theme set_item get_item text_eq
set_theme-IsSaved t p s =
    let (items, e) = s.works in
    record {
      works = rw e (_, refl);
      theme_saved = rw e (theme_read items t);
      mode_saved = rw e (rw e at s.mode_saved);
      open_saved = rw e (rw e at s.open_saved);
    }

set_info_panel_mode-IsSaved :
    (m : InfoPanelMode) (p : Preferences) → IsSaved p → IsSaved (set_info_panel_mode m p)
unfolding set_info_panel_mode read_stored_theme read_stored_info_panel_mode
    read_stored_info_panel_open store_info_panel_mode set_item get_item text_eq
set_info_panel_mode-IsSaved m p s =
    let (items, e) = s.works in
    record {
      works = rw e (_, refl);
      theme_saved = rw e (rw e at s.theme_saved);
      mode_saved = rw e (mode_read items m);
      open_saved = rw e (rw e at s.open_saved);
    }

set_open-IsSaved :
    (b : Bool) (p : Preferences) → IsSaved p → IsSaved (set_info_panel_remembered_open b p)
unfolding set_info_panel_remembered_open read_stored_theme read_stored_info_panel_mode
    read_stored_info_panel_open store_info_panel_open set_item get_item text_eq
set_open-IsSaved b p s =
    let (items, e) = s.works in
    record {
      works = rw e (_, refl);
      theme_saved = rw e (rw e at s.theme_saved);
      mode_saved = rw e (rw e at s.mode_saved);
      open_saved = rw e (open_read items b);
    }

change-IsSaved : (c : Change) (p : Preferences) → IsSaved p → IsSaved (change c p)
unfolding change toggle_theme
change-IsSaved (to_theme t) p s = set_theme-IsSaved t p s
change-IsSaved toggle p s = set_theme-IsSaved (toggled p.theme) p s
change-IsSaved (to_mode m) p s = set_info_panel_mode-IsSaved m p s
change-IsSaved (to_open b) p s = set_open-IsSaved b p s

changes-IsSaved : (cs : List Change) (p : Preferences) → IsSaved p → IsSaved (changes cs p)
unfolding changes
changes-IsSaved [] p s = s
changes-IsSaved (c ∷ cs) p s = changes-IsSaved cs (change c p) (change-IsSaved c p s)

initial-IsSaved : (items : Text → Option Text) → IsSaved (initial_preferences (usable items))
unfolding initial_preferences
initial-IsSaved items = record {
  works = (items, refl);
  theme_saved = refl;
  mode_saved = refl;
  open_saved = refl;
}

reload-IsSaved : (p : Preferences) → IsSaved p → initial_preferences p.storage ≡ p
unfolding initial_preferences
reload-IsSaved p s = λ i. record {
  theme = s.theme_saved i;
  info_panel_mode = s.mode_saved i;
  info_panel_remembered_open = s.open_saved i;
  storage = p.storage;
}

-- Where storage may be used: after any changes of the preferences that a load began with, in any
-- order, a reload begins with the same preferences.
pub reload_restores :
    (items : Text → Option Text) (cs : List Change)
    → let p = changes cs (initial_preferences (usable items)) in initial_preferences p.storage ≡ p
reload_restores items cs =
    reload-IsSaved _
      (changes-IsSaved cs (initial_preferences (usable items)) (initial-IsSaved items))
