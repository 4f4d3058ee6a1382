-- ===== src/Shell/Tests.antt =====
-- Tests of what stands around the screens.
use ok_folio.Prelude.{ℕ, [], ◌∷◌, none, some, true, false, ◌≡◌, refl}
use ok_folio.Prelude.Text.{codes, text_eq, is_space, trim_start}
use ok_folio.Prelude.Int.{pos}
use ok_folio.Format.{starts_with}
use ok_folio.Shell.{
  screen_title, is_active, connecting, on_open, on_message, on_error, storage_usage, submit,
  request_cancel, no_call,
}
use ok_folio.Shell.Asked

titles :
    (screen_title (codes "/folios/3") ≡ codes "Folios")
    × (screen_title (codes "/runs/2") ≡ codes "OK Folio")
    × (is_active (codes "/inbox") (codes "/") ≡ false)
    × (is_active (codes "/inbox") (codes "/inbox") ≡ true)
unfolding screen_title is_active text_eq starts_with
titles = (refl, refl, refl, refl)

-- What was last read stays after the connection fails.
last_stats :
    (on_error (on_message none (on_message (some 7) (on_open (connecting {Stats = ℕ}))))).stats
    ≡ some 7
unfolding on_open on_message on_error
last_stats = refl

usage :
    storage_usage (
      (
        codes "ok-folio-media",
        some (record { content_length = some (codes "120"); blob_size = none })
            ∷ some (record { content_length = none; blob_size = some 5 })
            ∷ none
            ∷ [],
      )
      ∷ (codes "other", some (record { content_length = none; blob_size = some 9 }) ∷ [])
      ∷ [])
    ≡ pos 125
unfolding storage_usage starts_with is_space trim_start
usage = refl

abbrev asking : Asked.Session
asking = record {
  dialog = (submit Asked.shown.dialog).0;
  running = Asked.count_call (submit Asked.shown.dialog).1 0;
}

-- Confirmed and closed while the action runs.
abbrev gone : Asked.Session
gone = record asking { dialog = record asking.dialog { mounted = false } }

gone_run : Asked.Reach gone
gone_run =
    Asked.Reach.next (Asked.Reach.next Asked.Reach.here (Asked.Step.submitted Asked.shown refl))
      (Asked.Step.unmounted asking)

Reach-IsOnce_example : Asked.IsOnce gone
Reach-IsOnce_example = Asked.Reach-IsOnce gone_run

no_cancel : request_cancel asking.dialog ≡ no_call
unfolding request_cancel submit
no_cancel = refl
