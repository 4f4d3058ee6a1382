-- ===== src/Inbox/Tests.antt =====
-- Runs of the inbox screen's dismissals and labels.
use ok_folio.Prelude.{ℕ, [], ◌∷◌, ◌++◌, none, some, true, false, ◌≡◌, refl, elem}
use ok_folio.Prelude.Text.{codes, trim, text_eq}
use ok_folio.Types.{InboxItem, duplicate, ambiguous, Folio}
use ok_folio.Format.Samples.{ascii_lower}
use ok_folio.Inbox.{InboxState, dismiss_with_undo, fire, undo_dismiss, unmount, visible_items}
use ok_folio.Inbox.Runs.{Reach, Step, IsTracked, opened}
use ok_folio.Inbox.Leaving.{ids}
use ok_folio.Inbox.Settled.{Reach-IsTracked, leaving_sends}
use ok_folio.Inbox.Undone.{Run, undone_not_sent}
use ok_folio.Inbox.Labels.{
  action_label, display_status, reason_text, suggested_folio, source_label, choose_folio, can_move,
  UrlParts, source_url, count_for,
}

abbrev row : ℕ → InboxItem
row id = record {
  id = id;
  provider_id = [];
  dedupe_key = [];
  source_id = [];
  media_id = [];
  source_url = codes " https://www.example.org/a ";
  title = codes "Heron";
  artist = [];
  status = duplicate;
  reason = [];
  cover_photo_id = some 40;
  created_at = [];
  updated_at = [];
}

abbrev one : InboxState
one = dismiss_with_undo 1 (row 8) opened

abbrev two : InboxState
two = dismiss_with_undo 2 (row 5) one

two_run : Reach opened two
unfolding dismiss_with_undo
two_run =
    Reach.next (Reach.next Reach.here (Step.dismissed 1 (row 8) opened refl refl))
      (Step.dismissed 2 (row 5) one refl refl)

Reach-IsTracked_example : IsTracked two
Reach-IsTracked_example = Reach-IsTracked two_run

leaving_sends_example :
    ((unmount two).sent ≡ [] ++ ids (row 5 ∷ row 8 ∷ []))
    × ((j : ℕ) (item : InboxItem) → two.dismissed j ≡ some item → elem j (unmount two).sent ≡ true)
unfolding dismiss_with_undo
leaving_sends_example = leaving_sends two (unmount two) two_run refl Reach.here

-- After undoing the second, the first dismissal's timeout fires and the screen is left.
abbrev undone : InboxState
undone = undo_dismiss two

abbrev after_first : InboxState
after_first = fire 1 (row 8) undone

after_first_run : Run 5 undone (unmount after_first)
unfolding dismiss_with_undo undo_dismiss fire
after_first_run =
    Run.more (Run.more Run.start (Step.fired 1 (row 8) undone refl) tt) (Step.left after_first refl)
      tt

undone_not_sent_example :
    (elem 5 (unmount after_first).sent ≡ false) × ((unmount after_first).dismissed 5 ≡ none)
unfolding dismiss_with_undo
undone_not_sent_example =
    undone_not_sent two (unmount after_first) (row 5) two_run refl refl after_first_run

-- An item whose timeout has fired is shown again by `Undo`, and its request stays sent.
late_undo :
    ((undo_dismiss (fire 1 (row 8) one)).dismissed 8 ≡ none)
    × ((undo_dismiss (fire 1 (row 8) one)).sent ≡ 8 ∷ [])
unfolding dismiss_with_undo undo_dismiss fire
late_undo = (refl, refl)

hidden_rows : visible_items two (row 5 ∷ row 6 ∷ row 8 ∷ []) ≡ row 6 ∷ []
unfolding dismiss_with_undo visible_items
hidden_rows = refl

abbrev shelf : ℕ → ℕ → Folio
shelf id count = record {
  id = id;
  name = [];
  cover_photo_id = none;
  piece_count = count;
  created_at = [];
  updated_at = [];
}

suggestion :
    suggested_folio 8 (shelf 1 0 ∷ shelf 2 3 ∷ shelf 3 1 ∷ shelf 4 2 ∷ []) ≡ some (shelf 4 2)
unfolding suggested_folio
suggestion = refl

labels :
    (action_label ascii_lower (row 1) ≡ codes "Compare")
    × (display_status ascii_lower (record (row 1) { reason = codes "Image missing" })
        ≡ codes "Missing image")
    × (reason_text (record (row 1) { status = ambiguous })
        ≡ codes "This import needs a quick decision before it enters the gallery.")
unfolding action_label display_status reason_text trim
labels = (refl, refl, refl)

abbrev example_url : UrlParts
example_url = record { protocol = codes "https:"; hostname = codes "www.example.org" }

source : source_label (λ s. some example_url) (row 1) ≡ codes "example.org"
unfolding source_label source_url trim text_eq
source = refl

moves : (choose_folio (row 1) 3 ≡ some (1, 3, 40)) × (can_move (λ s. some 0) (row 1) [] ≡ false)
unfolding choose_folio can_move
moves = (refl, refl)

counted : count_for none (some (record { duplicate_count = 2; ambiguous_count = 1 })) ≡ some 3
unfolding count_for
counted = refl
