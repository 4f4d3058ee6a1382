-- ===== src/Streams/Labels.antt =====
-- dashboard/src/folio/Streams.tsx: what the cards of the streams show.
use ok_folio.Prelude.{
  ℕ, ◌+◌, ◌*◌, List, [], ◌∷◌, ◌++◌, Option, none, some, Bool, true, false, ◌==◌, ◌&&◌, not, is_nil,
  or_else, if◌then◌else◌,
}
use ok_folio.Prelude.Text.{Text, codes, trim}
use ok_folio.Prelude.Int.{pos, neg_part, ◌-ℤ◌}
use ok_folio.Prelude.Decimal.{decimal}
use ok_folio.Actions.{or_text}
use ok_folio.Format.{Runtime, includes}
use ok_folio.Streams.{SourceSetting, SourceKind, webgallery, telegram, other_kind}
use ok_folio.Streams.Toggles.{managed_sources, any_enabled}

pub data Health : Type 0 where
  healthy degraded error syncing idle : Health

pub record ConnectorRun : Type 0 where
  pub start_time : Text
  pub photos_downloaded : ℕ

-- The fields of `ConnectorStatus` that the cards read.
pub record ConnectorStatus : Type 0 where
  pub id : SourceKind
  pub display_name : Text
  pub health : Health
  pub recent_runs : Option (List ConnectorRun)
  pub recent_errors : Option (List Text)

unfoldable pub status_view : Health → Text
status_view healthy = codes "Active"
status_view syncing = codes "Syncing"
status_view degraded = codes "Degraded"
status_view error = codes "Error"
status_view idle = codes "Idle"

-- `latestStreamIssue`, of the messages of the errors.
abbrev first_message : Option (List Text) → Text
first_message none = []
first_message (some []) = []
first_message (some (message ∷ l)) = trim message

unfoldable pub latest_stream_issue : ConnectorStatus → Text
latest_stream_issue s = first_message s.recent_errors

abbrev list_url_of : SourceSetting → Text
list_url_of source = elim source.config [ none ↦ [] | some config ↦ config.list_url ]

unfoldable pub source_title : SourceSetting → Text
unfolding decimal
source_title source =
    or_text source.label
      (or_text (list_url_of source) (or_text source.chat_id (codes "Source " ++ decimal source.id)))

abbrev seems_on : Health → Bool
seems_on idle = false
seems_on error = false
seems_on _ = true

-- The state of a connector's toggle on the phone: whether it is on, and whether it may be used.
unfoldable pub connector_toggle : ConnectorStatus → List SourceSetting → Bool → Bool × Bool
connector_toggle s settings busy =
    let managed = managed_sources s.id settings in
    (
      if is_nil managed then seems_on s.health else any_enabled managed,
      not (is_nil managed) && not busy,
    )

module _ (rt : Runtime) where
  -- The round of a run: counted if it started within the week that ends now.
  unfoldable pub week_round : ℕ → ConnectorRun → ℕ
  week_round sum r = elim (rt.parse_date r.start_time) [
    | none ↦ sum
    | some t ↦
        if neg_part (t -ℤ (rt.now -ℤ pos (7 * 86400000))) == 0
        then sum + r.photos_downloaded
        else sum
  ]

  unfoldable pub week_from : ℕ → List ConnectorRun → ℕ
  unfolding week_round
  week_from sum [] = sum
  week_from sum (r ∷ runs) = week_from (week_round sum r) runs

  unfoldable pub week_count : ConnectorStatus → ℕ
  unfolding week_from
  week_count s = week_from 0 (or_else s.recent_runs [])

  -- `sourceType`
  unfoldable pub source_type : ConnectorStatus → Text
  unfolding includes
  source_type s = elim s.id [
    | webgallery ↦ codes "Web"
    | telegram ↦ codes "Telegram"
    | other_kind name ↦
        (let id = rt.lower (name ++ (b' ' ∷ s.display_name)) in
          if includes id (codes "rss")
          then codes "RSS"
          else if includes id (codes "manual")
          then codes "Manual"
          else codes "API")
  ]
