-- ===== src/Streams/Toggles.antt =====
-- dashboard/src/folio/Streams.tsx: the toggles of a connector and of a source, and the deletion of
-- a source. A connector's id is the type of its sources.
pub mod Guarded
use ok_folio.Prelude.{
  ℕ, List, [], ◌∷◌, ◌++◌, Option, none, some, Bool, true, false, ◌||◌, ◌&&◌, not, filter, map,
  is_nil, if◌then◌else◌,
}
use ok_folio.Prelude.Text.{Text, codes, text_eq}
use ok_folio.Actions.{QueryKey, connector_sources, folio_connectors, Outcome, resolved, rejected}
use ok_folio.Streams.{SourceSetting, SourceKind, webgallery, telegram, other_kind}
use ok_folio.Streams.Editor.{Mode, edit, SourceInput, SourceRequest, update_connector_source}

abbrev pub same_kind : SourceKind → SourceKind → Bool
same_kind webgallery webgallery = true
same_kind telegram telegram = true
same_kind (other_kind a) (other_kind b) = text_eq a b
same_kind _ _ = false

pub data Notice : Type 0 where
  guidance error : Text → Notice

-- `sources` is the cached list of the query "connector-sources", `none` where nothing is cached.
pub record StreamsState : Type 0 where
  pub sources : Option (List SourceSetting)
  pub busy : SourceKind → Bool
  pub notice : Option Notice
  pub editor : Option Mode
  pub invalidated : List QueryKey

abbrev pub set_busy : SourceKind → Bool → (SourceKind → Bool) → SourceKind → Bool
set_busy kind value busy k = if same_kind k kind then value else busy k

abbrev reload : StreamsState → StreamsState
reload s = record s { invalidated = s.invalidated ++ connector_sources ∷ folio_connectors ∷ [] }

-- `settings.filter((source) => source.type === s.id)`, what the cards hand to `toggleConnector`.
abbrev pub managed_sources : SourceKind → List SourceSetting → List SourceSetting
managed_sources kind = filter (λ source. same_kind source.type kind)

abbrev pub any_enabled : List SourceSetting → Bool
any_enabled [] = false
any_enabled (source ∷ l) = source.enabled || any_enabled l

abbrev pub enabling : Bool → SourceSetting → SourceRequest
enabling enabled source = update_connector_source source.id (record {
  type = source.type;
  chat_id = some source.chat_id;
  label = source.label;
  config = source.config;
  enabled = enabled;
  target_folio_id = source.target_folio_id;
  show_in_library = source.show_in_library;
})

abbrev is_webgallery : SourceKind → Bool
is_webgallery = same_kind webgallery

-- The cached list with the sources of a kind switched.
unfoldable pub switched :
    SourceKind → Bool → Option (List SourceSetting) → Option (List SourceSetting)
switched kind enabled none = none
switched kind enabled (some current) = some (
    map
      (λ source. if same_kind source.type kind then record source { enabled = enabled } else source)
      current)

-- The synchronous part of `toggleConnector`, with the requests that it makes.
unfoldable pub begin_toggle :
    SourceKind → List SourceSetting → StreamsState → StreamsState × List SourceRequest
unfolding switched
begin_toggle kind sources s =
    let next_enabled = not (any_enabled sources) in
    if is_nil sources || s.busy kind
    then (s, [])
    else if is_webgallery kind && next_enabled
    then (
      record s {
        notice =
            some (guidance (codes "Open a web gallery source, run Test, then save it enabled."));
      },
      [],
    )
    else (
      record s { sources = switched kind next_enabled s.sources; busy = set_busy kind true s.busy },
      map (enabling next_enabled) sources,
    )

unfoldable pub resolve_toggle : SourceKind → StreamsState → StreamsState
resolve_toggle kind s = reload (record s { busy = set_busy kind false s.busy })

-- `previous` is the list that was cached when the toggle began.
unfoldable pub reject_toggle :
    SourceKind → Option (List SourceSetting) → StreamsState → StreamsState
reject_toggle kind previous s = reload (record s {
  sources = elim previous [ none ↦ s.sources | some l ↦ some l ];
  busy = set_busy kind false s.busy;
  notice =
      some
        (error (codes "Some stream sources could not be updated. The source list was refreshed."));
})

-- The synchronous part of `toggleSource`, with the request that it makes, if any.
unfoldable pub begin_toggle_source :
    SourceSetting → StreamsState → StreamsState × List SourceRequest
begin_toggle_source source s =
    if is_webgallery source.type && not source.enabled
    then (record s { editor = some (edit source) }, [])
    else (
      record s { busy = set_busy source.type true s.busy },
      enabling (not source.enabled) source ∷ [],
    )

unfoldable pub end_toggle_source : SourceSetting → Outcome (Unit {0}) → StreamsState → StreamsState
end_toggle_source source (resolved done) s =
    reload (record s { busy = set_busy source.type false s.busy })
end_toggle_source source (rejected err) s = reload (record s {
  busy = set_busy source.type false s.busy;
  notice = some (error (codes "The stream source could not be updated."));
})

-- `confirmRemoveSource`, before and after the request to delete the source.
unfoldable pub begin_remove : SourceSetting → StreamsState → StreamsState
begin_remove source s = record s { busy = set_busy source.type true s.busy }

unfoldable pub end_remove : SourceSetting → Outcome (Unit {0}) → StreamsState → StreamsState
end_remove source (resolved done) s = reload (record s { busy = set_busy source.type false s.busy })
end_remove source (rejected err) s = reload (record s {
  busy = set_busy source.type false s.busy;
  notice = some (error (codes "The stream source could not be deleted."));
})
