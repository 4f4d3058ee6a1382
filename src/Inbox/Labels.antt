-- ===== src/Inbox/Labels.antt =====
-- dashboard/src/folio/Inbox.tsx: what a row shows of an inbox item, the folio that it suggests, and
-- what it hands to the provider's actions.
use ok_folio.Prelude.{
  ℕ, ◌+◌, ◌%◌, List, ◌∷◌, ◌++◌, Option, none, some, Bool, false, ◌||◌, ltb, is_nil, filter, length,
  get_elem?, if◌then◌else◌,
}
use ok_folio.Prelude.Text.{Text, codes, trim, text_eq}
use ok_folio.Types.{InboxItem, InboxItemStatus, duplicate, ambiguous, Folio}
use ok_folio.Actions.{or_text}
use ok_folio.Format.{includes, strip_www}

abbrev pub status_text : InboxItemStatus → Text
status_text duplicate = codes "duplicate"
status_text ambiguous = codes "ambiguous"

pub record InboxCounts : Type 0 where
  pub duplicate_count : ℕ
  pub ambiguous_count : ℕ

-- `countFor`; the status "" of all items is `none`.
unfoldable pub count_for : Option InboxItemStatus → Option InboxCounts → Option ℕ
count_for key none = none
count_for none (some counts) = some (counts.duplicate_count + counts.ambiguous_count)
count_for (some duplicate) (some counts) = some counts.duplicate_count
count_for (some ambiguous) (some counts) = some counts.ambiguous_count

-- What the browser's `URL` reads of a text.
pub record UrlParts : Type 0 where
  pub protocol : Text
  pub hostname : Text

-- `new_url` is the constructor, `none` where it throws.
unfoldable pub source_url : (Text → Option UrlParts) → Text → Option UrlParts
source_url new_url value = if is_nil value then none else elim (new_url value) [
  | none ↦ none
  | some url ↦
      if text_eq url.protocol (codes "http:") || text_eq url.protocol (codes "https:")
      then some url
      else none
]

unfoldable pub source_label : (Text → Option UrlParts) → InboxItem → Text
unfolding source_url strip_www
source_label new_url item = elim (source_url new_url (trim item.source_url)) [
  | none ↦ trim item.source_url
  | some url ↦ strip_www url.hostname
]

unfoldable pub item_title : InboxItem → Text
item_title item = or_text (trim item.title) (codes "Untitled piece")

unfoldable pub item_artist : InboxItem → Text
item_artist item = or_text (trim item.artist) (codes "Unknown artist")

-- `pool[item.id % pool.length]`
abbrev from_pool : ℕ → List Folio → Option Folio
from_pool id pool = if is_nil pool then none else get_elem? pool (id % length pool)

unfoldable pub suggested_folio : ℕ → List Folio → Option Folio
suggested_folio id list =
    let with_pieces = filter (λ folio. ltb 0 folio.piece_count) list in
    from_pool id (if is_nil with_pieces then list else with_pieces)

module _ (lower : Text → Text) where
  -- The text that the labels look at.
  abbrev pub about : InboxItem → Text
  about item = lower (status_text item.status ++ (b' ' ∷ item.reason))

  unfoldable pub action_label : InboxItem → Text
  unfolding includes
  action_label item =
      if includes (about item) (codes "duplicate")
      then codes "Compare"
      else if includes (about item) (codes "missing") || includes (about item) (codes "image")
      then codes "Retry import"
      else codes "View source"

  -- The label of `displayStatus`.
  unfoldable pub display_status : InboxItem → Text
  unfolding includes
  display_status item =
      if includes (about item) (codes "removed")
        || includes (about item) (codes "gone")
        || includes (about item) (codes "unavailable")
      then codes "Source removed"
      else if includes (about item) (codes "missing") || includes (about item) (codes "image")
      then codes "Missing image"
      else codes "Possible duplicate"

unfoldable pub reason_text : InboxItem → Text
reason_text item =
    if is_nil (trim item.reason)
    then elim item.status [
      | duplicate ↦ codes "This looks like a piece already in your folio."
      | ambiguous ↦ codes "This import needs a quick decision before it enters the gallery."
    ]
    else trim item.reason

-- The arguments that `chooseFolio` hands to `moveInboxToFolioAction`, if it calls it.
unfoldable pub choose_folio : InboxItem → ℕ → Option (ℕ × ℕ × ℕ)
choose_folio item folio_id = elim item.cover_photo_id [
  | none ↦ none
  | some cover ↦ some (item.id, folio_id, cover)
]

-- The chosen folio of the phone's row: `number` is `Number`, `none` where it is not finite.
unfoldable pub can_move : (Text → Option ℕ) → InboxItem → Text → Bool
can_move number item selected_folio = elim item.cover_photo_id [
  | none ↦ false
  | some cover ↦ elim (number selected_folio) [ none ↦ false | some folio_id ↦ ltb 0 folio_id ]
]
