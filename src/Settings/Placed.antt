-- ===== src/Settings/Placed.antt =====
-- dashboard/src/folio/Settings.tsx: where the requests of the settings send pieces.
use ok_folio.Prelude.{
  ℕ, Option, none, some, Bool, true, false, ◌||◌, is_nil, is_some, ◌≡◌, ap₂, ◌∙◌, refl, Bool-cases,
  inl, inr,
}
use ok_folio.Destinations.{destination_gate_message}
use ok_folio.Streams.{SourceSetting}
use ok_folio.Streams.Editor.{
  request_input, SourceRequest, create_connector_source, update_connector_source,
}
use ok_folio.Settings.{
  SourceForm, Settings, SettingsRequest, save, delete_connector_source, gated, source_input,
  edited_input, begin_save_source, begin_toggle_source, begin_save_edited,
}

-- Pieces go to the library or to a folio.
abbrev pub placed : Option ℕ → Bool → Bool
placed target_folio_id show_in_library = show_in_library || is_some target_folio_id

-- A request, if any, leaves no pieces without a place.
abbrev pub sends_placed : Option SettingsRequest → Bool
sends_placed none = true
sends_placed (some (save r)) =
    placed (request_input r).target_folio_id (request_input r).show_in_library
sends_placed (some (delete_connector_source id)) = true

gate_lem :
    (target : Option ℕ) (shown : Bool)
    → is_nil (destination_gate_message target shown) ≡ placed target shown
unfolding destination_gate_message
gate_lem none true = refl
gate_lem none false = refl
gate_lem (some id) true = refl
gate_lem (some id) false = refl

sends_placed-gated :
    (form : SourceForm) (r : SourceRequest) (s : Settings)
    → (request_input r).target_folio_id ≡ form.target_folio_id
    → (request_input r).show_in_library ≡ form.show_in_library
    → (sends_placed (gated form (save r) s).1 ≡ true)
      × (is_some (gated form (save r) s).1 ≡ placed form.target_folio_id form.show_in_library)
sends_placed-gated form r s target shown =
    elim (Bool-cases (placed form.target_folio_id form.show_in_library)) [
      | inl safe ↦
          rw (gate_lem form.target_folio_id form.show_in_library, safe)
            (ap₂ placed target shown ∙ safe, refl)
      | inr stray ↦ rw (gate_lem form.target_folio_id form.show_in_library, stray) (refl, refl)
    ]

-- For any source and state of the settings: no request for a form, new or edited, leaves the pieces
-- of its source with neither the library nor a folio, and one is made exactly if the form does not;
-- the switch of a source, which has no such test, is always sent, and leaves them so exactly if the
-- source already does.
pub requests-IsPlaced :
    (source : SourceSetting) (s : Settings)
    → ((sends_placed (begin_save_source s).1 ≡ true)
        × (is_some (begin_save_source s).1
            ≡ placed s.new_source.target_folio_id s.new_source.show_in_library))
      × ((sends_placed (begin_save_edited source s).1 ≡ true)
          × (is_some (begin_save_edited source s).1
              ≡ placed s.edited_source.target_folio_id s.edited_source.show_in_library))
      × ((is_some (begin_toggle_source source s).1 ≡ true)
          × (sends_placed (begin_toggle_source source s).1
              ≡ placed source.target_folio_id source.show_in_library))
unfolding begin_save_source begin_save_edited begin_toggle_source
requests-IsPlaced source s = (
  sends_placed-gated s.new_source (create_connector_source (source_input true s.new_source)) s refl
      refl,
  sends_placed-gated s.edited_source
      (update_connector_source source.id (edited_input source s.edited_source)) s refl refl,
  (refl, refl),
)
