-- ===== src/Actions/Inbox.antt =====
-- dashboard/src/folio/context.tsx: the actions on an inbox item.
use ok_folio.Prelude.{ℕ, [], ◌∷◌, ◌++◌, Option, none}
use ok_folio.Prelude.Text.{Text, codes}
use ok_folio.Actions.{
  Action, Request, inbox, inbox_counts, folios, folio_pieces, folio_cover_sheet_pieces, succeed,
  fail_with,
}

unfoldable pub dismiss_inbox : ℕ → Action (Unit {0}) (Unit {0})
dismiss_inbox inbox_item_id = record {
  request = Request.dismiss_inbox_item inbox_item_id;
  loading_title = codes "Dismissing inbox item";
  loading_detail = none;
  on_success = λ _. succeed (codes "Inbox item dismissed");
  on_failure = λ err. fail_with (codes "Couldn’t dismiss inbox item") err;
  delay = 2800;
  invalidates = λ _. inbox ∷ inbox_counts ∷ [];
  answer = λ _. tt;
  answer_failure = tt;
}

pub data InboxChoice : Type 0 where
  keep skip : InboxChoice

abbrev verb : InboxChoice → Text
verb keep = codes "Keeping"
verb skip = codes "Dismissing"

abbrev done : InboxChoice → Text
done keep = codes "Inbox item kept"
done skip = codes "Inbox item dismissed"

abbrev failed : InboxChoice → Text
failed keep = codes "Couldn’t keep inbox item"
failed skip = codes "Couldn’t dismiss inbox item"

unfoldable pub resolve_inbox : InboxChoice → Request → Action (Unit {0}) (Unit {0})
resolve_inbox choice request = record {
  request = request;
  loading_title = verb choice ++ codes " inbox item";
  loading_detail = none;
  on_success = λ _. succeed (done choice);
  on_failure = λ err. fail_with (failed choice) err;
  delay = 2800;
  invalidates = λ _. inbox ∷ inbox_counts ∷ [];
  answer = λ _. tt;
  answer_failure = tt;
}

unfoldable pub keep_inbox : ℕ → Action (Unit {0}) (Unit {0})
unfolding resolve_inbox
keep_inbox inbox_item_id = resolve_inbox keep (Request.keep_inbox_item inbox_item_id)

unfoldable pub skip_inbox : ℕ → Action (Unit {0}) (Unit {0})
unfolding resolve_inbox
skip_inbox inbox_item_id = resolve_inbox skip (Request.skip_inbox_item inbox_item_id)

unfoldable pub move_inbox_to_folio : ℕ → ℕ → Option ℕ → Action (Unit {0}) (Unit {0})
move_inbox_to_folio inbox_item_id folio_id photo_id = record {
  request = Request.move_inbox_item_to_folio inbox_item_id folio_id photo_id;
  loading_title = codes "Adding inbox item to folio";
  loading_detail = none;
  on_success = λ _. succeed (codes "Inbox item added to folio");
  on_failure = λ err. fail_with (codes "Couldn’t add inbox item to folio") err;
  delay = 2800;
  invalidates = λ _.
      inbox
      ∷ inbox_counts
      ∷ folios
      ∷ folio_pieces folio_id
      ∷ folio_cover_sheet_pieces folio_id
      ∷ [];
  answer = λ _. tt;
  answer_failure = tt;
}
