-- ===== src/Editing/Tests.antt =====
-- Runs of the viewer's form, panel and gestures, and of the bulk bar.
use ok_folio.Prelude.{
  [], ◌∷◌, none, some, Bool, true, false, ◌==◌, ◌≡◌, refl, arith, subst, Bool-cases, inl, inr,
  IdMap, put, empty,
}
use ok_folio.Actions.Store.{initial}
use ok_folio.Prelude.Text.{codes, trim, text_eq}
use ok_folio.Prelude.Int.{pos}
use ok_folio.Types.{Photo}
use ok_folio.Format.Samples.{browser}
use ok_folio.Theme.{pinned, remember, hidden}
use ok_folio.Pieces.{PieceVm, map_photo, overlay_piece, piece_stub}
use ok_folio.Pieces.Overlay.{IsFiled}
use ok_folio.Metadata.{EditState, patch_fields}
use ok_folio.Keywords.{normalize_draft_keywords, normalize_from, same_keywords, every_same}
use ok_folio.Editing.{
  EditorState, start_editing, cancel_editing, leave_piece, follow_piece, add_keyword,
  remove_keyword, save_edit, end_save, piece_draft, draft_patch,
}
use ok_folio.Format.{clean_title}
use ok_folio.Editing.Drafted.{IsClean, Shows}
use ok_folio.Editing.Filed.{AreClean, after_save}
use ok_folio.Editing.Saved.{save_edit-Shows}
use ok_folio.Editing.Panel.{
  PanelState, panel_open, set_panel_open, toggle_panel, panel_visible, on_key, cancel, close, next,
  TouchState, art, artwork_touch_move, artwork_touch_end, step_forward, open_panel, close_viewer,
  no_gesture, sheet_touch_end, sheet_touch_start, enter_mode,
}
use ok_folio.Editing.Chrome.{
  Chrome, hide_chrome, show_chrome, focus_panel, select_piece, blur_panel,
}
use ok_folio.Editing.Armed
use ok_folio.Editing.Armed.{unopened, IsArmed, Reach-IsArmed}
use ok_folio.Editing.BulkBar.{BarState, end_apply}

abbrev heron : Photo
heron = record {
  id = 4;
  url = [];
  source_page = [];
  title = codes " Heron ";
  artist = [];
  upload_date = [];
  file_path = [];
  file_name = [];
  image_width = 0;
  image_height = 0;
  captured_at = none;
  camera_make = [];
  camera_model = [];
  lens_model = [];
  orientation = [];
  gps_latitude = none;
  gps_longitude = none;
  downloaded_at = [];
  file_size = 0;
  notes = [];
  keywords = codes "bird" ∷ [];
  manual_fields = [];
  favorite = false;
  status = codes "downloaded";
}

abbrev form : EditorState
form = record {
  editing = true;
  saving_edit = false;
  keyword_draft = codes " Lake ";
  edit_draft = record {
    title = codes "Grey heron ";
    artist = codes " Ida";
    date = [];
    keywords = codes "bird" ∷ codes "BIRD" ∷ [];
    note = [];
  };
}

-- The catalog's heron has an earlier edit of its note, and a heart.
abbrev row : PieceVm
row = map_photo browser heron

abbrev edited_row : PieceVm
edited_row = record row { note = codes "by the lake" }

abbrev hearts : IdMap Bool
hearts = put empty 4 true

abbrev provider : EditState
provider = record {
  overrides = put empty 4 edited_row;
  edit_requests = [];
  store = initial;
  catalog_queries = [];
  folio_piece_queries = [];
}

provider-IsFiled : IsFiled provider.overrides
unfolding map_photo
provider-IsFiled i p filed = ground arith

edited_row-IsClean : IsClean edited_row
unfolding map_photo trim clean_title
edited_row-IsClean = record { title = refl; artist = refl; named = refl; note = refl }

provider-AreClean : AreClean provider.overrides
provider-AreClean i q at_i = elim (Bool-cases (i == 4)) [
  | inl same ↦ let eq : edited_row ≡ q = ground arith in subst IsClean eq edited_row-IsClean
  | inr other ↦ absurd (ground arith)
]

on_view-shown : overlay_piece provider.overrides hearts row ≡ record edited_row { fav = true }
unfolding map_photo overlay_piece
on_view-shown = refl

save_edit-Shows_example :
    Shows browser form.edit_draft (overlay_piece provider.overrides hearts row) (
      overlay_piece
        (after_save browser
          (overlay_piece provider.overrides hearts row)
          form
          (overlay_piece provider.overrides hearts row ∷ [])
          []
          provider).overrides
        hearts
        row)
unfolding map_photo overlay_piece
save_edit-Shows_example =
    save_edit-Shows browser heron hearts (overlay_piece provider.overrides hearts row ∷ []) [] form
      provider provider-IsFiled provider-AreClean refl refl

abbrev plain : PieceVm
plain = piece_stub 4 (record { title = some (codes "Heron"); artist = none; thumb = none })

-- Only what changed is sent.
sent :
    (save_edit browser.lower (some plain) (record form {
      edit_draft = record form.edit_draft { title = codes "Heron"; keywords = [] };
    })).1
    ≡ some (record {
      title = none;
      artist = some (codes "Ida");
      date = none;
      keywords = none;
      note = none;
    })
unfolding save_edit draft_patch piece_stub patch_fields normalize_draft_keywords normalize_from
    same_keywords every_same text_eq trim
sent = refl

-- A form that shows the piece sends nothing and closes.
unchanged :
    save_edit browser.lower
      (some plain)
      (start_editing (some plain) (record form { editing = false }))
    ≡ (record form { editing = false; keyword_draft = []; edit_draft = piece_draft plain }, none)
unfolding save_edit start_editing piece_draft draft_patch piece_stub patch_fields
    normalize_draft_keywords normalize_from same_keywords every_same text_eq trim
unchanged = refl

keyword_added :
    (add_keyword browser.lower form).edit_draft.keywords
    ≡ codes "bird" ∷ codes "BIRD" ∷ codes "Lake" ∷ []
unfolding add_keyword text_eq trim
keyword_added = refl

keyword_removed : (remove_keyword (codes "bird") form.edit_draft).keywords ≡ codes "BIRD" ∷ []
unfolding remove_keyword text_eq
keyword_removed = refl

-- A save of one piece, answered while the form of another is open, closes that form, whose draft
-- then follows the piece.
abbrev other_form : EditorState
other_form =
    record (start_editing (some plain) (leave_piece (record form { saving_edit = true }))) {
      edit_draft = form.edit_draft;
    }

late_answer :
    (other_form.editing ≡ true)
    × ((follow_piece plain (end_save true other_form)).editing ≡ false)
    × ((follow_piece plain (end_save true other_form)).edit_draft ≡ piece_draft plain)
unfolding start_editing leave_piece follow_piece end_save
late_answer = (refl, refl, refl)

cancelled : (cancel_editing form).editing ≡ false
unfolding cancel_editing
cancelled = refl

abbrev panel : PanelState
panel = record { remembered_open = true; mobile_pinned_open = true; transient_open = false }

panels :
    (panel_open pinned false (set_panel_open pinned false false panel) ≡ true)
    × (panel_open pinned true (toggle_panel pinned true panel) ≡ false)
    × (panel_visible remember false false panel ≡ false)
    × (panel_visible hidden true true (toggle_panel hidden true panel) ≡ true)
unfolding panel_open set_panel_open toggle_panel panel_visible
panels = (refl, refl, refl, refl)

keys :
    (on_key true true (codes "Escape") ≡ cancel)
    × (on_key false false (codes "Escape") ≡ close)
    × (on_key false false (codes "ArrowRight") ≡ next)
unfolding on_key text_eq
keys = (refl, refl, refl)

abbrev touched : TouchState
touched = record {
  start = some (record { x = pos 200; y = pos 100; target = art });
  delta_x = pos 0;
  delta_y = pos 0;
  suppress_click = false;
}

gestures :
    ((artwork_touch_end (artwork_touch_move (pos 120) (pos 110) touched)).1 ≡ step_forward)
    × ((artwork_touch_end (artwork_touch_move (pos 200) (pos 10) touched)).1 ≡ open_panel)
    × ((artwork_touch_end (artwork_touch_move (pos 210) (pos 187) touched)).1 ≡ close_viewer)
    × ((artwork_touch_end (artwork_touch_move (pos 205) (pos 105) touched)).1 ≡ no_gesture)
    × ((sheet_touch_end (pos 159) (sheet_touch_start (pos 0) (pos 100) touched)).1 ≡ true)
unfolding artwork_touch_move artwork_touch_end sheet_touch_end sheet_touch_start
gestures = (refl, refl, refl, refl, refl)

abbrev bar : BarState
bar = record {
  artist = codes " Ida ";
  date = codes " ";
  add_keywords = codes "lake, bird,,";
  remove_keywords = [];
  busy = false;
}

bar_answers : (end_apply false bar ≡ bar) × ((end_apply true bar).artist ≡ [])
unfolding end_apply
bar_answers = (refl, refl)

-- Another piece closes a panel of the mode "hidden".
reset_panel :
    panel_open hidden true (enter_mode hidden true (set_panel_open hidden true true panel)) ≡ false
unfolding panel_open enter_mode set_panel_open
reset_panel = refl

-- The focus keeps the chrome, which is hidden again after it.
abbrev kept : Chrome
kept = hide_chrome 1 (show_chrome 1 (focus_panel (select_piece 0 unopened)))

kept_run : Armed.Reach kept
unfolding hide_chrome show_chrome focus_panel select_piece
kept_run =
    Armed.Reach.next
      (Armed.Reach.next
        (Armed.Reach.next (Armed.Reach.next Armed.Reach.here (Armed.Step.selected 0 unopened refl))
          (Armed.Step.focused _))
        (Armed.Step.moved 1 (focus_panel (select_piece 0 unopened)) refl))
      (Armed.Step.fired 1 _ refl)

Reach-IsArmed_example : IsArmed kept
Reach-IsArmed_example = Reach-IsArmed kept_run

hidden_at_last : (hide_chrome 2 (blur_panel 2 kept)).chrome_visible ≡ false
unfolding hide_chrome show_chrome focus_panel select_piece blur_panel
hidden_at_last = refl
