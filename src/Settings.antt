-- ===== src/Settings.antt =====
-- dashboard/src/folio/Settings.tsx: the Telegram sources that the settings create, switch, edit and
-- remove. After each request that is resolved, the lists are asked for again.
pub mod Placed
pub mod Summary
pub mod Prefs
mod Tests
use ok_folio.Prelude.{
  ℕ, List, [], ◌∷◌, ◌++◌, Option, none, some, Bool, true, false, ◌&&◌, not, is_nil, or_else,
  if◌then◌else◌,
}
use ok_folio.Prelude.Text.{Text, codes, trim}
use ok_folio.Actions.{Outcome, resolved, rejected}
use ok_folio.Destinations.{destination_gate_message}
use ok_folio.Streams.{SourceSetting, telegram}
use ok_folio.Streams.Editor.{
  SourceInput, SourceRequest, create_connector_source, update_connector_source,
}

-- The fields of `ConnectorSourceStatus` that the settings read.
pub record SourceStatus : Type 0 where
  pub id : Text
  pub display_name : Text

-- The fields of a form, new or edited.
pub record SourceForm : Type 0 where
  pub label : Text
  pub chat_id : Text
  pub target_folio_id : Option ℕ
  pub show_in_library : Bool

abbrev pub blank_source : SourceForm
blank_source = record { label = []; chat_id = []; target_folio_id = none; show_in_library = true }

pub record Settings : Type 0 where
  pub sources : List SourceSetting
  pub new_source : SourceForm
  pub editing_source_id : Option ℕ
  pub edited_source : SourceForm
  pub runtime_telegram_sources : List SourceStatus
  pub source_busy : Bool
  pub source_error : Text

pub data SettingsRequest : Type 0 where
  save : SourceRequest → SettingsRequest
  delete_connector_source : ℕ → SettingsRequest

abbrev pub source_input : Bool → SourceForm → SourceInput
source_input enabled form = record {
  type = telegram;
  chat_id = some form.chat_id;
  label = form.label;
  config = none;
  enabled = enabled;
  target_folio_id = form.target_folio_id;
  show_in_library = form.show_in_library;
}

abbrev pub begin_request : Settings → Settings
begin_request s = record s { source_error = []; source_busy = true }

abbrev pub gated : SourceForm → SettingsRequest → Settings → Settings × Option SettingsRequest
gated form request s =
    let destination_error = destination_gate_message form.target_folio_id form.show_in_library in
    if not (is_nil destination_error)
    then (record s { source_error = destination_error }, none)
    else (begin_request s, some request)

-- The synchronous part of `saveSource`, with the request that it makes, if any.
unfoldable pub begin_save_source : Settings → Settings × Option SettingsRequest
unfolding destination_gate_message
begin_save_source s =
    gated s.new_source (save (create_connector_source (source_input true s.new_source))) s

-- What follows the answer to the creation; the lists are asked for where it is resolved.
unfoldable pub end_save_source : Outcome (Unit {0}) → Settings → Settings
end_save_source (resolved done) s = record s { new_source = blank_source }
end_save_source (rejected err) s = record s {
  source_error = or_else err (codes "Failed to save connector source");
  source_busy = false;
}

-- The synchronous part of `toggleSource`.
unfoldable pub begin_toggle_source : SourceSetting → Settings → Settings × Option SettingsRequest
begin_toggle_source source s = (
  begin_request s,
  some (
      save (
        update_connector_source source.id (record {
          type = source.type;
          chat_id = some source.chat_id;
          label = source.label;
          config = none;
          enabled = not source.enabled;
          target_folio_id = source.target_folio_id;
          show_in_library = source.show_in_library;
        }))),
)

unfoldable pub begin_edit_source : SourceSetting → Settings → Settings
begin_edit_source source s = record s {
  source_error = [];
  editing_source_id = some source.id;
  edited_source = record {
    label = source.label;
    chat_id = source.chat_id;
    target_folio_id = source.target_folio_id;
    show_in_library = source.show_in_library;
  };
}

unfoldable pub cancel_edit_source : Settings → Settings
cancel_edit_source s = record s { editing_source_id = none; edited_source = blank_source }

abbrev pub edited_input : SourceSetting → SourceForm → SourceInput
edited_input source form = record (source_input source.enabled form) { type = source.type }

-- The synchronous part of `saveEditedSource`.
unfoldable pub begin_save_edited : SourceSetting → Settings → Settings × Option SettingsRequest
unfolding destination_gate_message
begin_save_edited source s =
    gated s.edited_source
      (save (update_connector_source source.id (edited_input source s.edited_source))) s

unfoldable pub end_save_edited : Outcome (Unit {0}) → Settings → Settings
unfolding cancel_edit_source
end_save_edited (resolved done) s = cancel_edit_source s
end_save_edited (rejected err) s = record s {
  source_error = or_else err (codes "Failed to update connector source");
  source_busy = false;
}

-- The synchronous part of `removeSource`.
unfoldable pub begin_remove_source : SourceSetting → Settings → Settings × Option SettingsRequest
begin_remove_source source s = (begin_request s, some (delete_connector_source source.id))

-- What follows the answer to a switch or a removal, whose failure has its own message.
unfoldable pub end_change : Text → Outcome (Unit {0}) → Settings → Settings
end_change failure (resolved done) s = s
end_change failure (rejected err) s = record s {
  source_error = or_else err failure;
  source_busy = false;
}

-- What follows both answers of `reloadSources`, called after a request.
unfoldable pub end_reload :
    Text → Outcome (List SourceSetting × List SourceStatus) → Settings → Settings
end_reload failure (resolved (sources, statuses)) s = record s {
  sources = sources;
  runtime_telegram_sources = statuses;
  source_busy = false;
}
end_reload failure (rejected err) s = record s {
  source_error = or_else err failure;
  source_busy = false;
}

-- The effect of the first render.
unfoldable pub end_first_load :
    Outcome (List SourceSetting × List SourceStatus) → Settings → Settings
end_first_load (resolved (sources, statuses)) s = record s {
  sources = sources;
  runtime_telegram_sources = statuses;
}
end_first_load (rejected err) s = record s { source_error = or_else err [] }

-- Whether the button that saves a form is enabled.
unfoldable pub can_save : SourceForm → Settings → Bool
unfolding trim destination_gate_message
can_save form s =
    not s.source_busy
    && not (is_nil (trim form.chat_id))
    && is_nil (destination_gate_message form.target_folio_id form.show_in_library)
