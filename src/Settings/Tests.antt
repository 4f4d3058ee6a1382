-- ===== src/Settings/Tests.antt =====
-- Tests of the settings.
use ok_folio.Prelude.{[], ◌∷◌, none, some, true, false, is_some, ◌≡◌, refl}
use ok_folio.Prelude.Text.{codes, trim, text_eq}
use ok_folio.Actions.{resolved, rejected}
use ok_folio.Destinations.{destination_gate_message}
use ok_folio.Streams.{SourceSetting, telegram}
use ok_folio.Format.{includes}
use ok_folio.Settings.{
  Settings, SourceStatus, blank_source, begin_save_source, begin_toggle_source, begin_save_edited,
  begin_edit_source, end_save_source, end_reload, can_save,
}
use ok_folio.Settings.Placed.{placed, sends_placed, requests-IsPlaced}
use ok_folio.Settings.Summary.{source_matches_managed, telegram_source_summary}

abbrev channel : SourceSetting
channel = record {
  id = 5;
  type = telegram;
  chat_id = codes "-100";
  label = codes "Birds";
  config = none;
  enabled = true;
  target_folio_id = some 3;
  show_in_library = false;
}

abbrev status : SourceStatus
status = record { id = codes "tg:-100"; display_name = codes "birds" }

abbrev page : Settings
page = record {
  sources = channel ∷ [];
  new_source = record blank_source { chat_id = codes "-200"; show_in_library = false };
  editing_source_id = none;
  edited_source = blank_source;
  runtime_telegram_sources = status ∷ [];
  source_busy = false;
  source_error = [];
}

-- A source whose pieces have no place.
abbrev stray : SourceSetting
stray = record channel { target_folio_id = none }

abbrev editing : Settings
editing = begin_edit_source channel page

requests-IsPlaced_example :
    ((sends_placed (begin_save_source editing).1 ≡ true)
      × (is_some (begin_save_source editing).1
          ≡ placed editing.new_source.target_folio_id editing.new_source.show_in_library))
    × ((sends_placed (begin_save_edited stray editing).1 ≡ true)
        × (is_some (begin_save_edited stray editing).1
            ≡ placed editing.edited_source.target_folio_id editing.edited_source.show_in_library))
    × ((is_some (begin_toggle_source stray editing).1 ≡ true)
        × (sends_placed (begin_toggle_source stray editing).1 ≡ placed none false))
requests-IsPlaced_example = requests-IsPlaced stray editing

refused : (begin_save_source page).1 ≡ none
unfolding begin_save_source destination_gate_message
refused = refl

disabled : can_save page.new_source page ≡ false
unfolding can_save destination_gate_message
disabled = refl

-- The source is saved and the form reset, but the failure of the lists reads as one of the save.
saved_unlisted :
    (end_reload
      (codes "Failed to save connector source")
      (rejected none)
      (end_save_source (resolved tt) page)).source_error
    ≡ codes "Failed to save connector source"
unfolding end_reload end_save_source
saved_unlisted = refl

matched : source_matches_managed (channel ∷ []) status ≡ true
unfolding includes trim text_eq
matched = refl

one_managed : telegram_source_summary (channel ∷ []) (status ∷ []) ≡ codes "1 managed"
unfolding telegram_source_summary
one_managed = refl
