-- ===== src/Settings/Prefs.antt =====
-- dashboard/src/folio/Settings.tsx, `useLocalPref`: a preference that the settings keep in
-- `localStorage`. `parse` is `JSON.parse`, `none` where it throws; `stringify` is `JSON.stringify`.
use ok_folio.Prelude.{Option, none, some, or_else, ◌≡◌, refl}
use ok_folio.Prelude.Text.{Text, text_eq_refl}
use ok_folio.Theme.{Storage, usable, set_item, get_item}

module _ {ℓ} {T : Type ℓ} (parse : Text → Option T) (stringify : T → Text) (key : Text) where
  abbrev pub parsed : Option Text → T → T
  parsed none initial = initial
  parsed (some raw) initial = or_else (parse raw) initial

  unfoldable pub read_pref : T → Storage → T
  unfolding get_item
  read_pref initial storage = parsed (get_item key storage) initial

  -- The value shown and the storage after `set`.
  unfoldable pub set_pref : T → Storage → T × Storage
  unfolding set_item
  set_pref v storage = (v, set_item key (stringify v) storage)

  -- Where storage may be used and what is printed parses again, the next load reads the value set.
  pub read-set_pref :
      (initial v : T) (items : Text → Option Text)
      → parse (stringify v) ≡ some v
      → read_pref initial (set_pref v (usable items)).1 ≡ v
  unfolding read_pref set_pref get_item set_item
  read-set_pref initial v items again = rw (text_eq_refl key, again) refl
