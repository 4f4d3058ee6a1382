-- ===== src/Streams/Editor.antt =====
-- dashboard/src/folio/Streams.tsx, `WebGalleryEditor`: the form of a web gallery, its test and its
-- save. `stringify` is `JSON.stringify`.
use ok_folio.Prelude.{
  ℕ, List, [], Option, none, some, Bool, true, false, ◌==◌, ◌||◌, ◌&&◌, not, is_nil, is_some,
  or_else, if◌then◌else◌,
}
use ok_folio.Prelude.Text.{Text, codes, text_eq}
use ok_folio.Actions.{Outcome, resolved, rejected}
use ok_folio.Destinations.{destination_gate_message}
use ok_folio.Streams.{
  WebGalleryConfig, WebGalleryForm, SourceSetting, SourceKind, webgallery, Strategy, initial_form,
  form_config,
}

pub record PreviewSample : Type 0 where
  pub source_url : Text
  pub image_url : Text
  pub title : Option Text
  pub artist : Option Text
  pub date : Option Text

pub record PreviewResponse : Type 0 where
  pub provider : Text
  pub page : ℕ
  pub items_found : ℕ
  pub has_next : Bool
  pub next_page : Option ℕ
  pub next_cursor : Option Text
  pub sample : List PreviewSample

-- `EditorMode`
pub data Mode : Type 0 where
  create : Mode
  edit : SourceSetting → Mode

abbrev pub mode_source : Mode → Option SourceSetting
mode_source create = none
mode_source (edit source) = some source

pub record EditorState : Type 0 where
  pub form : WebGalleryForm
  pub preview : Option PreviewResponse
  pub preview_error : Text
  pub preview_key : Text
  pub local_busy : Bool
  pub save_error : Text

-- The calls of `setValue`, by key and value.
pub data Change : Type 0 where
  set_label : Text → Change
  set_enabled : Bool → Change
  set_target_folio_id : Option ℕ → Change
  set_show_in_library : Bool → Change
  set_strategy : Strategy → Change
  set_list_url set_schedule set_page_param set_start_index set_next_link_selector
        set_item_link_selector set_image_selector set_image_attr set_artist_selector set_artist_attr
        set_title_selector set_title_attr set_date_selector set_date_attr set_item_link_filter :
      Text → Change

unfoldable pub changed : Change → WebGalleryForm → WebGalleryForm
changed (set_label v) form = record form { label = v }
changed (set_enabled v) form = record form { enabled = v }
changed (set_target_folio_id v) form = record form { target_folio_id = v }
changed (set_show_in_library v) form = record form { show_in_library = v }
changed (set_strategy v) form = record form { pagination_strategy = v }
changed (set_list_url v) form = record form { list_url = v }
changed (set_schedule v) form = record form { schedule = v }
changed (set_page_param v) form = record form { page_param = v }
changed (set_start_index v) form = record form { start_index = v }
changed (set_next_link_selector v) form = record form { next_link_selector = v }
changed (set_item_link_selector v) form = record form { item_link_selector = v }
changed (set_image_selector v) form = record form { image_selector = v }
changed (set_image_attr v) form = record form { image_attr = v }
changed (set_artist_selector v) form = record form { artist_selector = v }
changed (set_artist_attr v) form = record form { artist_attr = v }
changed (set_title_selector v) form = record form { title_selector = v }
changed (set_title_attr v) form = record form { title_attr = v }
changed (set_date_selector v) form = record form { date_selector = v }
changed (set_date_attr v) form = record form { date_attr = v }
changed (set_item_link_filter v) form = record form { item_link_filter = v }

-- Whether the preview outlives the change.
unfoldable pub keeps_preview : Change → Bool
keeps_preview (set_label v) = true
keeps_preview (set_enabled v) = true
keeps_preview (set_target_folio_id v) = true
keeps_preview (set_show_in_library v) = true
keeps_preview _ = false

unfoldable pub set_value : Change → EditorState → EditorState
unfolding changed keeps_preview
set_value change s =
    let next = record s { form = changed change s.form } in
    if keeps_preview change
    then next
    else record next { preview = none; preview_error = []; preview_key = [] }

pub record SourceInput : Type 0 where
  pub type : SourceKind
  pub chat_id : Option Text
  pub label : Text
  pub config : Option WebGalleryConfig
  pub enabled : Bool
  pub target_folio_id : Option ℕ
  pub show_in_library : Bool

pub data SourceRequest : Type 0 where
  create_connector_source : SourceInput → SourceRequest
  update_connector_source : ℕ → SourceInput → SourceRequest

abbrev pub request_input : SourceRequest → SourceInput
request_input (create_connector_source input) = input
request_input (update_connector_source id input) = input

-- `{ ...mode.source.config, ...config }`: `formConfig` sets every field of the type, `schedule` to
-- undefined included, and the fields besides stay. The order of the keys is not represented.
unfoldable pub merged_config : Option WebGalleryConfig → WebGalleryConfig → WebGalleryConfig
merged_config none config = config
merged_config (some old) config = record config { extra = old.extra }

unfoldable pub save_input : Option WebGalleryConfig → WebGalleryForm → SourceInput
unfolding merged_config form_config
save_input old form = record {
  type = webgallery;
  chat_id = none;
  label = form.label;
  config = some (merged_config old (form_config form));
  enabled = form.enabled;
  target_folio_id = form.target_folio_id;
  show_in_library = form.show_in_library;
}

unfoldable pub save_request : Mode → WebGalleryForm → SourceRequest
unfolding save_input
save_request create form = create_connector_source (save_input none form)
save_request (edit source) form = update_connector_source source.id (save_input source.config form)

abbrev pub source_enabled : Mode → Bool
source_enabled create = false
source_enabled (edit source) = source.enabled

abbrev same_id : Option ℕ → Option ℕ → Bool
same_id (some a) (some b) = a == b
same_id none none = true
same_id _ _ = false

abbrev same_flag : Bool → Bool → Bool
same_flag true b = b
same_flag false b = not b

module _ (stringify : WebGalleryConfig → Text) where
  abbrev pub current_key : EditorState → Text
  current_key s = stringify (form_config s.form)

  -- The state in which the editor opens.
  unfoldable pub opened : Mode → EditorState
  unfolding initial_form form_config
  opened mode = record {
    form = initial_form (mode_source mode);
    preview = none;
    preview_error = [];
    preview_key =
        if source_enabled mode
        then stringify (form_config (initial_form (mode_source mode)))
        else [];
    local_busy = false;
    save_error = [];
  }

  unfoldable pub preview_ok : Mode → EditorState → Bool
  preview_ok mode s =
      text_eq s.preview_key (current_key s) && (is_some s.preview || source_enabled mode)

  unfoldable pub can_save_enabled : Mode → EditorState → Bool
  unfolding preview_ok
  can_save_enabled mode s = not s.form.enabled || preview_ok mode s

  -- The synchronous part of `test`, with the configuration that it previews.
  unfoldable pub begin_test : EditorState → EditorState × WebGalleryConfig
  begin_test s =
      (record s { preview_error = []; save_error = []; local_busy = true }, form_config s.form)

  -- What follows the preview of `config`, whose key the closure of `test` holds.
  unfoldable pub end_test : WebGalleryConfig → Outcome PreviewResponse → EditorState → EditorState
  end_test config (resolved result) s = record s {
    preview = some result;
    preview_key = stringify config;
    local_busy = false;
  }
  end_test config (rejected err) s = record s {
    preview = none;
    preview_key = [];
    preview_error = or_else err (codes "Preview failed");
    local_busy = false;
  }

  -- The synchronous part of `save`, with the request that it makes, if any.
  unfoldable pub begin_save : Mode → EditorState → EditorState × Option SourceRequest
  unfolding can_save_enabled destination_gate_message save_request
  begin_save mode s =
      let gate = destination_gate_message s.form.target_folio_id s.form.show_in_library in
      if not (can_save_enabled mode s)
      then (
        record s { save_error = codes "Run a successful test before enabling this web gallery." },
        none,
      )
      else if not (is_nil gate)
      then (record s { save_error = gate }, none)
      else (record s { save_error = []; local_busy = true }, some (save_request mode s.form))

-- What follows the answer; the editor closes exactly where it is resolved.
unfoldable pub end_save : Outcome (Unit {0}) → EditorState → EditorState
end_save (resolved done) s = record s { local_busy = false }
end_save (rejected err) s = record s {
  save_error = or_else err (codes "Failed to save web gallery source");
  local_busy = false;
}

unfoldable pub can_backfill : Mode → EditorState → Bool
can_backfill create s = false
can_backfill (edit source) s =
    is_some s.form.target_folio_id
    && same_id s.form.target_folio_id source.target_folio_id
    && same_flag s.form.show_in_library source.show_in_library
