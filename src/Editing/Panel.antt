-- ===== src/Editing/Panel.antt =====
-- dashboard/src/folio/PieceViewer.tsx: the info panel, the chrome around the artwork, the keys and
-- the touch gestures. Distances of a touch are in whole pixels.
use ok_folio.Prelude.{
  ℕ, ◌+◌, Option, none, some, Bool, true, false, ◌||◌, ◌&&◌, not, ltb, if◌then◌else◌,
}
use ok_folio.Prelude.Text.{Text, codes, text_eq}
use ok_folio.Prelude.Int.{ℤ, pos, pos_part, neg_part, ◌-ℤ◌}
use ok_folio.Theme.{InfoPanelMode, pinned, remember, hidden}

-- `remembered_open` is the provider's; the other two are the viewer's.
pub record PanelState : Type 0 where
  pub remembered_open : Bool
  pub mobile_pinned_open : Bool
  pub transient_open : Bool

module _ (mode : InfoPanelMode) (is_mobile : Bool) where
  abbrev is_pinned : InfoPanelMode → Bool
  is_pinned pinned = true
  is_pinned _ = false

  abbrev pub pinned_desktop : Bool
  pinned_desktop = is_pinned mode && not is_mobile

  unfoldable pub panel_open : PanelState → Bool
  panel_open s = if pinned_desktop then true else elim mode [
    | pinned ↦ s.mobile_pinned_open
    | remember ↦ s.remembered_open
    | hidden ↦ s.transient_open
  ]

  unfoldable pub set_panel_open : Bool → PanelState → PanelState
  set_panel_open show s = if pinned_desktop then s else elim mode [
    | pinned ↦ record s { mobile_pinned_open = show }
    | remember ↦ record s { remembered_open = show }
    | hidden ↦ record s { transient_open = show }
  ]

  unfoldable pub toggle_panel : PanelState → PanelState
  unfolding set_panel_open panel_open
  toggle_panel s = set_panel_open (not (panel_open s)) s

  -- The effects of a change of the mode or the viewport, and of another piece.
  unfoldable pub enter_mode : PanelState → PanelState
  enter_mode s = elim mode [
    | pinned ↦ if is_mobile then record s { mobile_pinned_open = true } else s
    | remember ↦ s
    | hidden ↦ record s { transient_open = false }
  ]

  unfoldable pub panel_visible : Bool → PanelState → Bool
  unfolding panel_open
  panel_visible chrome_visible s = panel_open s && (pinned_desktop || is_mobile || chrome_visible)

-- What a key does, by `e.key` and whether the target takes text.
pub data KeyAction : Type 0 where
  ignore cancel close previous next : KeyAction

unfoldable pub on_key : Bool → Bool → Text → KeyAction
on_key editing text_entry key =
    if editing
    then (if text_eq key (codes "Escape") then cancel else ignore)
    else if text_entry
    then ignore
    else if text_eq key (codes "Escape")
    then close
    else if text_eq key (codes "ArrowLeft")
    then previous
    else if text_eq key (codes "ArrowRight")
    then next
    else ignore

-- `Math.abs`
abbrev pub abs : ℤ → ℕ
abs d = pos_part d + neg_part d

pub data TouchTarget : Type 0 where
  art sheet : TouchTarget

pub record TouchStart : Type 0 where
  pub x : ℤ
  pub y : ℤ
  pub target : TouchTarget

pub record TouchState : Type 0 where
  pub start : Option TouchStart
  pub delta_x : ℤ
  pub delta_y : ℤ
  pub suppress_click : Bool

abbrev is_art : TouchTarget → Bool
is_art art = true
is_art sheet = false

-- What `onArtworkTouchStart` keeps of a touch, beside the chrome that it shows.
unfoldable pub artwork_touch_begin : ℤ → ℤ → TouchState → TouchState
artwork_touch_begin x y s = record {
  start = some (record { x = x; y = y; target = art });
  delta_x = pos 0;
  delta_y = pos 0;
  suppress_click = false;
}

unfoldable pub sheet_touch_start : ℤ → ℤ → TouchState → TouchState
sheet_touch_start x y s = record s { start = some (record { x = x; y = y; target = sheet }) }

-- `onArtworkTouchMove`, without the offset at which the artwork is drawn.
unfoldable pub artwork_touch_move : ℤ → ℤ → TouchState → TouchState
artwork_touch_move x y s = elim s.start [
  | none ↦ s
  | some start ↦
      let dx = x -ℤ start.x in
      let dy = y -ℤ start.y in
      if not (is_art start.target)
      then s
      else if ltb (abs dx) 8 && ltb (abs dy) 8
      then s
      else record s { delta_x = dx; delta_y = dy; suppress_click = true }
]

pub data Gesture : Type 0 where
  no_gesture step_back step_forward close_viewer open_panel : Gesture

abbrev gesture_of : ℤ → ℤ → Gesture
gesture_of dx dy =
    if ltb 72 (abs dx) && ltb (abs dy) (abs dx)
    then (if ltb 0 (neg_part dx) then step_forward else step_back)
    else if ltb 86 (pos_part dy)
    then close_viewer
    else if ltb 64 (neg_part dy)
    then open_panel
    else no_gesture

-- `onArtworkTouchEnd`, with what it does.
unfoldable pub artwork_touch_end : TouchState → TouchState × Gesture
artwork_touch_end s = elim s.start [
  | none ↦ (s, no_gesture)
  | some start ↦ (
    record s { start = none },
    if is_art start.target then gesture_of s.delta_x s.delta_y else no_gesture,
  )
]

-- `onSheetTouchEnd`, where the touch ends at `y`, with whether it closes the panel.
unfoldable pub sheet_touch_end : ℤ → TouchState → TouchState × Bool
sheet_touch_end y s = (
  record s { start = none },
  elim s.start [
    | none ↦ false
    | some start ↦ not (is_art start.target) && ltb 58 (pos_part (y -ℤ start.y))
  ],
)
