-- ===== src/Editing/Chrome.antt =====
-- dashboard/src/folio/PieceViewer.tsx: the chrome around the artwork, which hides itself 2.6 seconds
-- after it was last shown. `timeouts` holds the handles that the browser has pending.
use ok_folio.Prelude.{
  ℕ, Option, none, some, Bool, true, false, if◌then◌else◌, IdSet, add_id, delete_id,
}

-- `shown` tells whether a piece is selected.
pub record Chrome : Type 0 where
  pub shown : Bool
  pub chrome_visible : Bool
  pub chrome_timer : Option ℕ
  pub panel_focus : Bool
  pub suppress_click : Bool
  pub timeouts : IdSet

abbrev pub clear_timer : Option ℕ → IdSet → IdSet
clear_timer none timeouts = timeouts
clear_timer (some handle) timeouts = delete_id timeouts handle

-- `handle` is what `setTimeout` answers.
unfoldable pub show_chrome : ℕ → Chrome → Chrome
show_chrome handle s = record s {
  chrome_visible = true;
  chrome_timer = some handle;
  timeouts = add_id (clear_timer s.chrome_timer s.timeouts) handle;
}

-- The callback of a timeout, which is no longer pending when it runs.
unfoldable pub hide_chrome : ℕ → Chrome → Chrome
hide_chrome handle s = record s {
  chrome_visible = if s.panel_focus then s.chrome_visible else false;
  timeouts = delete_id s.timeouts handle;
}

-- The effects of a selected piece, and those of its end.
unfoldable pub select_piece : ℕ → Chrome → Chrome
unfolding show_chrome
select_piece handle s = show_chrome handle (record s { shown = true; chrome_visible = true })

unfoldable pub unselect_piece : Chrome → Chrome
unselect_piece s = record s { shown = false; timeouts = clear_timer s.chrome_timer s.timeouts }

-- The pointer leaves the desktop surface.
unfoldable pub on_leave : Chrome → Chrome
on_leave s =
    if s.panel_focus
    then s
    else record s { chrome_visible = false; timeouts = clear_timer s.chrome_timer s.timeouts }

-- The focus enters the desktop surface by the panel, and leaves the surface.
unfoldable pub focus_panel : Chrome → Chrome
focus_panel s = record s {
  panel_focus = true;
  chrome_visible = true;
  timeouts = clear_timer s.chrome_timer s.timeouts;
}

unfoldable pub blur_panel : ℕ → Chrome → Chrome
unfolding show_chrome
blur_panel handle s = show_chrome handle (record s { panel_focus = false })

-- `onArtworkTouchStart`, where there is a touch.
unfoldable pub artwork_touch_start : ℕ → Chrome → Chrome
unfolding show_chrome
artwork_touch_start handle s = show_chrome handle (record s { suppress_click = false })

unfoldable pub artwork_click : ℕ → Chrome → Chrome
unfolding show_chrome
artwork_click handle s =
    if s.suppress_click
    then record s { suppress_click = false }
    else if s.chrome_visible
    then record s { chrome_visible = false }
    else show_chrome handle s
