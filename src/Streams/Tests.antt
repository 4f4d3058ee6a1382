-- ===== src/Streams/Tests.antt =====
-- Runs of the streams screen: its toggles, its cards, and the editor of a web gallery.
use ok_folio.Prelude.{
  ℕ, List, [], ◌∷◌, ◌++◌, none, some, Bool, true, false, ◌≡◌, ◌≢◌, refl, arith, All,
}
use ok_folio.Prelude.Text.{Text, codes, trim, text_eq}
use ok_folio.Prelude.Int.{pos, negsuc}
use ok_folio.Actions.{resolved, rejected, connector_sources, folio_connectors}
use ok_folio.Format.Samples.{browser}
use ok_folio.Streams.{
  SourceSetting, SourceKind, webgallery, telegram, other_kind, WebGalleryConfig, WebGalleryForm,
  initial_form, form_config, split_filter,
}
use ok_folio.Streams.Numbers.{string_of, parse_int}
use ok_folio.Streams.Labels.{
  ConnectorStatus, healthy, status_view, source_title, connector_toggle, week_count, source_type,
  latest_stream_issue,
}
use ok_folio.Streams.Editor.{
  create, edit, PreviewResponse, set_value, set_enabled, set_list_url, begin_test, end_test,
  begin_save, end_save, can_backfill, opened, request_input, can_save_enabled, SourceRequest,
  save_request, save_input, merged_config,
}
use ok_folio.Streams.Tested.{Session, Step, Reach, start, Vetted, kept_fields, enabled_save-Vetted}
use ok_folio.Streams.Toggles.{
  StreamsState, begin_toggle, begin_toggle_source, reject_toggle, resolve_toggle, managed_sources,
  guidance, end_toggle_source, begin_remove, end_remove, switched,
}
use ok_folio.Streams.Toggles.Guarded.{IsTame, toggles-IsTame, refused_toggle_restores}
use ok_folio.Streams.Reopened.{with_src, reopened_config}

abbrev feed : ℕ → SourceKind → Bool → SourceSetting
feed id kind enabled = record {
  id = id;
  type = kind;
  chat_id = codes "42";
  label = [];
  config = none;
  enabled = enabled;
  target_folio_id = none;
  show_in_library = true;
}

abbrev settings : List SourceSetting
settings = feed 1 webgallery false ∷ feed 2 telegram true ∷ feed 3 telegram false ∷ []

abbrev screen : StreamsState
screen = record {
  sources = some settings;
  busy = λ k. false;
  notice = none;
  editor = none;
  invalidated = [];
}

toggles-IsTame_example :
    All IsTame (begin_toggle telegram (managed_sources telegram settings) screen).1
    × All IsTame (begin_toggle_source (feed 1 webgallery false) screen).1
toggles-IsTame_example = toggles-IsTame telegram settings (feed 1 webgallery false) screen

refused_toggle_restores_example :
    ((reject_toggle telegram screen.sources
        (begin_toggle telegram (managed_sources telegram settings) screen).0).sources
      ≡ screen.sources)
    × ((k : SourceKind)
        → (reject_toggle telegram screen.sources
              (begin_toggle telegram (managed_sources telegram settings) screen).0).busy
            k
          ≡ screen.busy k)
refused_toggle_restores_example =
    refused_toggle_restores telegram (managed_sources telegram settings) screen refl

abbrev key_of : WebGalleryConfig → Text
key_of config = b'{' ∷ config.list_url

abbrev no_preview : PreviewResponse
no_preview = record {
  provider = codes "webgallery";
  page = 1;
  items_found = 0;
  has_next = false;
  next_page = none;
  next_cursor = none;
  sample = [];
}

-- The gallery is enabled and given its address, tested, and saved.
abbrev listed : Session
listed = record (start key_of create) {
  editor =
      set_value (set_list_url (codes "https://a.example"))
        (set_value (set_enabled true) (start key_of create).editor);
}

abbrev listed_config : WebGalleryConfig
listed_config = (begin_test key_of listed.editor).1

abbrev under_way : Session
under_way = record listed {
  editor = (begin_test key_of listed.editor).0;
  testing = listed_config ∷ [];
}

abbrev passed : Session
passed = record {
  editor = end_test key_of listed_config (resolved no_preview) under_way.editor;
  testing = [];
  passed = key_of listed_config ∷ [];
}

passed_run : Reach key_of create passed
passed_run =
    Reach.next
      (Reach.next
        (Reach.next (Reach.next Reach.here (Step.valued (set_enabled true) (start key_of create)))
          (Step.valued (set_list_url (codes "https://a.example")) _))
        (Step.tested listed))
      (Step.previewed [] [] listed_config (resolved no_preview) under_way refl)

abbrev tested_request : SourceRequest
tested_request = save_request create passed.editor.form

key_solid : (config : WebGalleryConfig) → key_of config ≢ []
key_solid config = λ (blank : key_of config ≡ []). ground arith

tested_sent : (begin_save key_of create passed.editor).1 ≡ some tested_request
unfolding begin_save opened set_value begin_test end_test can_save_enabled form_config text_eq trim
tested_sent = refl

tested_on : (request_input tested_request).enabled ≡ true
unfolding opened set_value begin_test end_test save_request save_input
tested_on = refl

enabled_save-Vetted_example :
    (config : WebGalleryConfig) × ((request_input tested_request).config ≡ some config)
    × Vetted key_of create (key_of (record config { extra = [] })) passed.passed
    × (config.extra ≡ kept_fields create)
enabled_save-Vetted_example =
    enabled_save-Vetted key_of create passed tested_request key_solid passed_run tested_sent
      tested_on

abbrev typed : WebGalleryForm
typed = record (initial_form none) {
  list_url = codes " https://a.example ";
  image_attr = [];
  start_index = codes "-2 pages";
  item_link_filter = codes " users,\n, tags ";
}

reopened_config_example :
    form_config
      (initial_form (some (record (feed 7 webgallery true) { config = some (form_config typed) })))
    ≡ with_src (form_config typed)
reopened_config_example =
    reopened_config typed (record (feed 7 webgallery true) { config = some (form_config typed) })
      refl

-- The lines of a filter, with a carriage return and empty pieces between.
abbrev filter_text : Text
filter_text = codes "a" ++ (13 ∷ 10 ∷ codes " b,,c")

pieces : split_filter filter_text ≡ codes "a" ∷ codes " b" ∷ [] ∷ codes "c" ∷ []
unfolding split_filter
pieces = refl

numbers :
    (parse_int (codes " -12px") ≡ some (negsuc 11))
    × (parse_int (codes "+7") ≡ some (pos 7))
    × (parse_int (codes "px") ≡ none)
    × (string_of (negsuc 11) ≡ codes "-12")
unfolding parse_int string_of trim
numbers = (refl, refl, refl, refl)

-- A web gallery that is off opens its editor instead of a request.
gallery_opened :
    (begin_toggle_source (feed 1 webgallery false) screen).0.editor
    ≡ some (edit (feed 1 webgallery false))
unfolding begin_toggle_source
gallery_opened = refl

-- A toggle of the connector switches each of its sources the same way.
switched_off :
    ((begin_toggle telegram (managed_sources telegram settings) screen).0.sources
      ≡ some (feed 1 webgallery false ∷ feed 2 telegram false ∷ feed 3 telegram false ∷ []))
    × ((begin_toggle webgallery (managed_sources webgallery settings) screen).0.notice
        ≡ some (guidance (codes "Open a web gallery source, run Test, then save it enabled.")))
unfolding begin_toggle switched
switched_off = (refl, refl)

removed :
    ((end_remove
          (feed 2 telegram true)
          (resolved tt)
          (begin_remove (feed 2 telegram true) screen)).busy
        telegram
      ≡ false)
    × ((end_toggle_source (feed 2 telegram true) (resolved tt) screen).invalidated
        ≡ connector_sources ∷ folio_connectors ∷ [])
    × ((resolve_toggle telegram screen).invalidated ≡ connector_sources ∷ folio_connectors ∷ [])
unfolding end_remove begin_remove end_toggle_source resolve_toggle
removed = (refl, refl, refl)

abbrev connector : SourceKind → ConnectorStatus
connector kind = record {
  id = kind;
  display_name = codes "My Feed";
  health = healthy;
  recent_runs = none;
  recent_errors = some (codes " timeout " ∷ []);
}

cards :
    (source_title (feed 9 telegram true) ≡ codes "42")
    × (connector_toggle (connector telegram) settings false ≡ (true, true))
    × (connector_toggle (connector (other_kind (codes "x"))) settings false ≡ (true, false))
    × (week_count browser (connector telegram) ≡ 0)
    × (source_type browser (connector (other_kind (codes "rss-1"))) ≡ codes "RSS")
    × (latest_stream_issue (connector telegram) ≡ codes "timeout")
    × (status_view healthy ≡ codes "Active")
unfolding source_title connector_toggle week_count source_type latest_stream_issue status_view trim
    text_eq
cards = (refl, refl, refl, refl, refl, refl, refl)

-- A destination that differs from the source's cannot be backfilled.
backfills :
    (can_backfill (edit (feed 7 webgallery true)) (opened key_of (edit (feed 7 webgallery true)))
      ≡ false)
    × ((end_save (rejected none) (opened key_of create)).save_error
        ≡ codes "Failed to save web gallery source")
unfolding can_backfill opened end_save
backfills = (refl, refl)

-- A field that the form does not know is saved with the form.
abbrev polite : WebGalleryConfig
polite = record (form_config typed) { extra = (codes "user_agent", codes "\"folio\"") ∷ [] }

field_kept :
    (merged_config (some polite) (form_config typed)).extra
    ≡ (codes "user_agent", codes "\"folio\"") ∷ []
unfolding merged_config form_config
field_kept = refl
