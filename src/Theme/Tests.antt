-- ===== src/Theme/Tests.antt =====
-- Tests of the stored preferences of dashboard/src/folio/theme.ts.
use ok_folio.Prelude.{List, [], ◌∷◌, none, true, ◌≡◌, refl}
use ok_folio.Theme.{dark, auto, hidden, usable, initial_preferences, set_theme, toggle_theme}
use ok_folio.Theme.Stored.{
  Change, to_theme, toggle, to_mode, to_open, change, changes, reload_restores,
}

abbrev visit : List Change
visit = toggle ∷ to_open true ∷ to_theme auto ∷ to_mode hidden ∷ toggle ∷ []

reload_restores_example :
    initial_preferences (changes visit (initial_preferences (usable (λ k. none)))).storage
    ≡ changes visit (initial_preferences (usable (λ k. none)))
reload_restores_example = reload_restores (λ k. none) visit

toggled_auto :
    (changes (to_theme auto ∷ toggle ∷ []) (initial_preferences (usable (λ k. none)))).theme ≡ dark
unfolding changes change set_theme toggle_theme
toggled_auto = refl
