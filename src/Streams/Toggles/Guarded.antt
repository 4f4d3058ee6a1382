-- ===== src/Streams/Toggles/Guarded.antt =====
-- dashboard/src/folio/Streams.tsx: what the toggles ask of the server, and what a refused one
-- leaves behind.
use ok_folio.Prelude.{
  List, [], ◌∷◌, Bool, true, false, ◌||◌, ◌&&◌, map, is_nil, ◌≡◌, refl, arith, All, Bool-cases, inl,
  inr, sym, ◌∙◌, ap, Option-cases,
}
use ok_folio.Prelude.Text.{text_eq_sound}
use ok_folio.Streams.{telegram, other_kind, SourceSetting, SourceKind, webgallery}
use ok_folio.Streams.Editor.{SourceRequest, request_input}
use ok_folio.Streams.Toggles.{
  StreamsState, same_kind, managed_sources, enabling, any_enabled, begin_toggle,
  begin_toggle_source, reject_toggle, switched,
}

-- The request does not enable a web gallery.
abbrev pub IsTame : SourceRequest → Type 0
IsTame r = (same_kind webgallery (request_input r).type && (request_input r).enabled) ≡ false

disabling-IsTame : (l : List SourceSetting) → All IsTame (map (enabling false) l)
disabling-IsTame [] = tt
disabling-IsTame (source ∷ l) = (ground arith, disabling-IsTame l)

not_webgallery :
    (a kind : SourceKind)
    → same_kind a kind ≡ true
    → same_kind webgallery kind ≡ false
    → same_kind webgallery a ≡ false
not_webgallery webgallery webgallery same other = other
not_webgallery webgallery telegram same other = ground arith
not_webgallery webgallery (other_kind b) same other = ground arith
not_webgallery telegram kind same other = refl
not_webgallery (other_kind a) kind same other = refl

same_kind_sound : (a b : SourceKind) → same_kind a b ≡ true → a ≡ b
same_kind_sound webgallery webgallery same = refl
same_kind_sound telegram telegram same = refl
same_kind_sound (other_kind a) (other_kind b) same = ap other_kind (text_eq_sound a b same)
same_kind_sound webgallery telegram same = ground arith
same_kind_sound webgallery (other_kind b) same = ground arith
same_kind_sound telegram webgallery same = ground arith
same_kind_sound telegram (other_kind b) same = ground arith
same_kind_sound (other_kind a) webgallery same = ground arith
same_kind_sound (other_kind a) telegram same = ground arith

others-IsTame :
    (kind : SourceKind) (enabled : Bool) (l : List SourceSetting)
    → same_kind webgallery kind ≡ false
    → All IsTame (map (enabling enabled) (managed_sources kind l))
others-IsTame kind enabled [] other = tt
others-IsTame kind enabled (source ∷ l) other = elim (Bool-cases (same_kind source.type kind)) [
  | inl managed ↦ rw managed (
    ground (arith, not_webgallery source.type kind managed other),
    others-IsTame kind enabled l other,
  )
  | inr apart ↦ rw apart (others-IsTame kind enabled l other)
]

source-IsTame :
    (source : SourceSetting) (s : StreamsState) → All IsTame (begin_toggle_source source s).1
unfolding begin_toggle_source
source-IsTame source s = elim (Bool-cases (same_kind webgallery source.type)) [
  | inr other ↦ rw other (ground arith, tt)
  | inl web ↦ elim (Bool-cases source.enabled) [
    | inl on ↦ rw (web, on) (ground arith, tt)
    | inr off ↦ rw (web, off) tt
  ]
]

connector-IsTame :
    (kind : SourceKind) (sources : List SourceSetting) (s : StreamsState)
    → ((on : Bool) → same_kind webgallery kind ≡ false → All IsTame (map (enabling on) sources))
    → All IsTame (begin_toggle kind sources s).1
unfolding begin_toggle
connector-IsTame kind sources s others = elim (Bool-cases (is_nil sources || s.busy kind)) [
  | inl stopped ↦ rw stopped tt
  | inr going ↦ elim (Bool-cases (any_enabled sources)) [
    | inl on ↦ elim (Bool-cases (same_kind webgallery kind)) [
      | inl web ↦ rw (going, on, web) (disabling-IsTame sources)
      | inr other ↦ rw (going, on, other) (disabling-IsTame sources)
    ]
    | inr off ↦ elim (Bool-cases (same_kind webgallery kind)) [
      | inl web ↦ rw (going, off, web) tt
      | inr other ↦ rw (going, off, other) (others true other)
    ]
  ]
]

rejected_sources :
    (kind : SourceKind) (sources : List SourceSetting) (s : StreamsState)
    → (reject_toggle kind s.sources (begin_toggle kind sources s).0).sources ≡ s.sources
unfolding begin_toggle reject_toggle switched
rejected_sources kind sources s = ground (arith, Option-cases s.sources)

begun_busy :
    (kind : SourceKind) (sources : List SourceSetting) (s : StreamsState) (k : SourceKind)
    → same_kind k kind ≡ false
    → (begin_toggle kind sources s).0.busy k ≡ s.busy k
unfolding begin_toggle
begun_busy kind sources s k apart = ground arith

rejected_busy :
    (kind : SourceKind) (sources : List SourceSetting) (s : StreamsState)
    → s.busy kind ≡ false
    → (k : SourceKind)
    → (reject_toggle kind s.sources (begin_toggle kind sources s).0).busy k ≡ s.busy k
unfolding begin_toggle reject_toggle
rejected_busy kind sources s idle k = elim (Bool-cases (same_kind k kind)) [
  | inl same ↦ rw same (sym (ap s.busy (same_kind_sound k kind same) ∙ idle))
  | inr apart ↦ rw apart (begun_busy kind sources s k apart)
]

-- Neither the toggle of a connector, over the sources that its card shows, nor that of a source
-- asks the server to enable a web gallery.
pub toggles-IsTame :
    (kind : SourceKind) (settings : List SourceSetting) (source : SourceSetting) (s : StreamsState)
    → All IsTame (begin_toggle kind (managed_sources kind settings) s).1
      × All IsTame (begin_toggle_source source s).1
unfolding begin_toggle begin_toggle_source
toggles-IsTame kind settings source s = (
  connector-IsTame kind (managed_sources kind settings) s (λ on. others-IsTame kind on settings),
  source-IsTame source s,
)

-- A toggle of a connector that is not busy, refused by the server with nothing in between, leaves
-- the cached list and the busy marks as they were before it.
pub refused_toggle_restores :
    (kind : SourceKind) (sources : List SourceSetting) (s : StreamsState)
    → s.busy kind ≡ false
    → ((reject_toggle kind s.sources (begin_toggle kind sources s).0).sources ≡ s.sources)
      × ((k : SourceKind)
          → (reject_toggle kind s.sources (begin_toggle kind sources s).0).busy k ≡ s.busy k)
refused_toggle_restores kind sources s idle =
    (rejected_sources kind sources s, λ k. rejected_busy kind sources s idle k)
