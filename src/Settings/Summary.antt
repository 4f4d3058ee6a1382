-- ===== src/Settings/Summary.antt =====
-- dashboard/src/folio/Settings.tsx: which sources the summary counts as managed and unmanaged.
use ok_folio.Prelude.{
  List, [], ◌∷◌, ◌++◌, Bool, false, ◌||◌, ◌&&◌, not, is_nil, filter, length, if◌then◌else◌, ◌≡◌,
  refl, ap, Bool-cases, inl, inr,
}
use ok_folio.Prelude.Text.{Text, codes, trim, text_eq}
use ok_folio.Prelude.Decimal.{decimal}
use ok_folio.Format.{includes}
use ok_folio.Streams.{SourceSetting}
use ok_folio.Settings.{SourceStatus}

abbrev matches : SourceStatus → SourceSetting → Bool
matches source managed =
    let label = trim managed.label in
    let chat_id = trim managed.chat_id in
    (not (is_nil chat_id) && (includes source.id chat_id || includes source.display_name chat_id))
    || (not (is_nil label) && text_eq source.display_name label)

-- `sources.some(…)`
abbrev pub source_matches_managed : List SourceSetting → SourceStatus → Bool
source_matches_managed [] source = false
source_matches_managed (managed ∷ l) source =
    matches source managed || source_matches_managed l source

unfoldable pub unmanaged_telegram_sources :
    List SourceSetting → List SourceStatus → List SourceStatus
unfolding includes text_eq trim
unmanaged_telegram_sources sources =
    filter (λ source. if source_matches_managed sources source then false else is_nil sources)

unfoldable pub telegram_source_summary : List SourceSetting → List SourceStatus → Text
unfolding unmanaged_telegram_sources decimal
telegram_source_summary sources runtime =
    let unmanaged = unmanaged_telegram_sources sources runtime in
    if not (is_nil sources)
    then decimal (length sources)
      ++ (codes " managed"
          ++ (if not (is_nil unmanaged)
              then codes ", " ++ (decimal (length unmanaged) ++ codes " runtime-managed")
              else []))
    else if not (is_nil unmanaged)
    then decimal (length unmanaged) ++ codes " runtime-managed"
    else codes "No sources"

unmanaged_beside :
    (source : SourceSetting) (sources : List SourceSetting) (runtime : List SourceStatus)
    → unmanaged_telegram_sources (source ∷ sources) runtime ≡ []
unfolding unmanaged_telegram_sources
unmanaged_beside source sources [] = refl
unmanaged_beside source sources (status ∷ runtime) =
    elim (Bool-cases (source_matches_managed (source ∷ sources) status)) [
      | inl same ↦ rw same (unmanaged_beside source sources runtime)
      | inr other ↦ rw other (unmanaged_beside source sources runtime)
    ]

unmanaged_alone : (runtime : List SourceStatus) → unmanaged_telegram_sources [] runtime ≡ runtime
unfolding unmanaged_telegram_sources
unmanaged_alone [] = refl
unmanaged_alone (status ∷ runtime) = ap (λ l. status ∷ l) (unmanaged_alone runtime)

-- Which label or chat id matches makes no difference: the sources counted as unmanaged are all those
-- of the running connector where the settings have no source, and none where they have one, so the
-- summary never names both counts.
pub summary_lem :
    (source : SourceSetting) (sources : List SourceSetting) (runtime : List SourceStatus)
    → (unmanaged_telegram_sources [] runtime ≡ runtime)
      × (unmanaged_telegram_sources (source ∷ sources) runtime ≡ [])
      × (telegram_source_summary (source ∷ sources) runtime
          ≡ decimal (length (source ∷ sources)) ++ codes " managed")
unfolding telegram_source_summary
summary_lem source sources runtime = (
  unmanaged_alone runtime,
  unmanaged_beside source sources runtime,
  rw (unmanaged_beside source sources runtime) refl,
)
