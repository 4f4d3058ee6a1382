-- ===== src/Editing/Armed.antt =====
-- dashboard/src/folio/PieceViewer.tsx: every run of the chrome and its timeouts.
use ok_folio.Prelude.{
  ℕ, Option, none, some, Bool, true, false, ◌==◌, ◌||◌, not, if◌then◌else◌, IdSet, ◌≡◌, refl, arith,
  Bool-cases, ==_refl,
}
use ok_folio.Editing.Chrome.{
  Chrome, clear_timer, show_chrome, hide_chrome, select_piece, unselect_piece, on_leave,
  focus_panel, blur_panel, artwork_touch_start, artwork_click,
}

pub data Step : Chrome → Chrome → Type 0 where
  moved : (handle : ℕ) (s : Chrome) → s.timeouts handle ≡ false → Step s (show_chrome handle s)
  fired : (handle : ℕ) (s : Chrome) → s.timeouts handle ≡ true → Step s (hide_chrome handle s)
  selected : (handle : ℕ) (s : Chrome) → s.timeouts handle ≡ false → Step s (select_piece handle s)
  unselected : (s : Chrome) → Step s (unselect_piece s)
  left : (s : Chrome) → Step s (on_leave s)
  focused : (s : Chrome) → Step s (focus_panel s)
  blurred : (handle : ℕ) (s : Chrome) → s.timeouts handle ≡ false → Step s (blur_panel handle s)
  touched :
      (handle : ℕ) (s : Chrome) → s.timeouts handle ≡ false → Step s (artwork_touch_start handle s)
  clicked : (handle : ℕ) (s : Chrome) → s.timeouts handle ≡ false → Step s (artwork_click handle s)

abbrev pub unopened : Chrome
unopened = record {
  shown = false;
  chrome_visible = true;
  chrome_timer = none;
  panel_focus = false;
  suppress_click = false;
  timeouts = λ handle. false;
}

pub data Reach : Chrome → Type 0 where
  here : Reach unopened
  next : {s t : Chrome} → Reach s → Step s t → Reach t

-- The timeout that the viewer remembers is pending.
abbrev pub is_pending : Option ℕ → IdSet → Bool
is_pending none timeouts = false
is_pending (some handle) timeouts = timeouts handle

abbrev is_timer : Option ℕ → ℕ → Bool
is_timer none handle = false
is_timer (some timer) handle = timer == handle

-- No other timeout is pending, and the chrome that is visible for a piece is about to be hidden, or
-- is kept by the focus in the panel.
pub record IsArmed (s : Chrome) : Type 0 where
  pub single : (h : ℕ) → s.timeouts h ≡ true → is_timer s.chrome_timer h ≡ true
  pub armed :
      (not s.shown || not s.chrome_visible || s.panel_focus || is_pending s.chrome_timer s.timeouts)
      ≡ true

cleared_none :
    (timer : Option ℕ) (timeouts : IdSet)
    → ((h : ℕ) → timeouts h ≡ true → is_timer timer h ≡ true)
    → (h : ℕ) → clear_timer timer timeouts h ≡ false
cleared_none none timeouts single h = ground (arith, Bool-cases (timeouts h), single h)
cleared_none (some timer) timeouts single h = ground (arith, Bool-cases (timeouts h), single h)

abbrev IsSingle : Chrome → Type 0
IsSingle s = (h : ℕ) → s.timeouts h ≡ true → is_timer s.chrome_timer h ≡ true

-- Whatever else was changed before it.
show_chrome-IsArmed : (handle : ℕ) (s : Chrome) → IsSingle s → IsArmed (show_chrome handle s)
unfolding show_chrome
show_chrome-IsArmed handle s single = record {
  single = λ h pending. ground (arith, cleared_none s.chrome_timer s.timeouts single h);
  armed = ground (arith, ==_refl handle);
}

if-IsArmed :
    (b : Bool) (s t : Chrome) → IsArmed s → (b ≡ false → IsArmed t) → IsArmed (if b then s else t)
if-IsArmed true s t h k = h
if-IsArmed false s t h k = k refl

cleared-single :
    (s : Chrome)
    → IsArmed s
    → (h : ℕ) → clear_timer s.chrome_timer s.timeouts h ≡ true
    → is_timer s.chrome_timer h ≡ true
cleared-single s k h pending = ground (arith, cleared_none s.chrome_timer s.timeouts k.single h)

hide_chrome-IsArmed :
    (handle : ℕ) (s : Chrome)
    → s.timeouts handle ≡ true
    → IsArmed s
    → IsArmed (hide_chrome handle s)
unfolding hide_chrome
hide_chrome-IsArmed handle s due k = record {
  single = λ h pending. ground (arith, k.single h);
  armed = ground (arith, Bool-cases s.panel_focus);
}

on_leave-IsArmed : (s : Chrome) → IsArmed s → IsArmed (on_leave s)
unfolding on_leave
on_leave-IsArmed s k =
    if-IsArmed s.panel_focus s _ k
      (λ away. record { single = cleared-single s k; armed = ground arith })

artwork_click-IsArmed : (handle : ℕ) (s : Chrome) → IsArmed s → IsArmed (artwork_click handle s)
unfolding artwork_click
artwork_click-IsArmed handle s k =
    if-IsArmed s.suppress_click _ _ (record { single = k.single; armed = k.armed })
      (λ plain.
        if-IsArmed s.chrome_visible _ _ (record { single = k.single; armed = ground arith })
          (λ hidden. show_chrome-IsArmed handle s k.single))

Step-IsArmed : {s t : Chrome} → Step s t → IsArmed s → IsArmed t
unfolding select_piece unselect_piece focus_panel blur_panel artwork_touch_start
Step-IsArmed (moved handle s fresh) k = show_chrome-IsArmed handle s k.single
Step-IsArmed (fired handle s due) k = hide_chrome-IsArmed handle s due k
Step-IsArmed (selected handle s fresh) k =
    show_chrome-IsArmed handle (record s { shown = true; chrome_visible = true }) k.single
Step-IsArmed (unselected s) k = record { single = cleared-single s k; armed = refl }
Step-IsArmed (left s) k = on_leave-IsArmed s k
Step-IsArmed (focused s) k = record { single = cleared-single s k; armed = ground arith }
Step-IsArmed (blurred handle s fresh) k =
    show_chrome-IsArmed handle (record s { panel_focus = false }) k.single
Step-IsArmed (touched handle s fresh) k =
    show_chrome-IsArmed handle (record s { suppress_click = false }) k.single
Step-IsArmed (clicked handle s fresh) k = artwork_click-IsArmed handle s k

-- In every run of the viewer, the only timeout that can hide the chrome is the last one set; and
-- while a piece is shown with its chrome, that timeout is pending, or the focus is in the panel.
pub Reach-IsArmed : {s : Chrome} → Reach s → IsArmed s
Reach-IsArmed here = record { single = λ h pending. ground arith; armed = refl }
Reach-IsArmed (next r step) = Step-IsArmed step (Reach-IsArmed r)
