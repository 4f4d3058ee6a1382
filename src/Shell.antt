-- ===== src/Shell.antt =====
-- What stands around the screens: the titles of dashboard/src/folio/Nav.tsx, the dialog that asks
-- before a deletion (`ConfirmationDialog` of dashboard/src/folio/ui.tsx), and the hooks of
-- dashboard/src/hooks.
pub mod Asked
mod Tests
use ok_folio.Prelude.{
  ℕ, List, [], ◌∷◌, ◌++◌, Option, none, some, Bool, true, false, ◌||◌, ◌&&◌, not, is_nil, filter,
  map, if◌then◌else◌,
}
use ok_folio.Prelude.Text.{Text, codes, text_eq}
use ok_folio.Prelude.Int.{ℤ, pos, ◌+ℤ◌}
use ok_folio.Format.{starts_with}
use ok_folio.Streams.Numbers.{parse_int}

unfoldable pub screen_title : Text → Text
unfolding text_eq starts_with
screen_title pathname =
    if text_eq pathname (codes "/")
    then codes "Gallery"
    else if starts_with pathname (codes "/folios")
    then codes "Folios"
    else if starts_with pathname (codes "/inbox")
    then codes "Inbox"
    else if starts_with pathname (codes "/streams")
    then codes "Streams"
    else if starts_with pathname (codes "/settings")
    then codes "Settings"
    else codes "OK Folio"

-- `isActive(path)` at `pathname`.
unfoldable pub is_active : Text → Text → Bool
unfolding text_eq starts_with
is_active pathname path =
    if text_eq path (codes "/") then text_eq pathname (codes "/") else starts_with pathname path

-- A dialog that is on screen, or was; `isSubmittingRef` follows the state after each render.
pub record Confirmation : Type 0 where
  pub mounted : Bool
  pub is_submitting : Bool

-- What the dialog calls besides.
pub data Call : Type 0 where
  no_call cancel confirm : Call

-- Escape, the backdrop and the button "Cancel".
unfoldable pub request_cancel : Confirmation → Call
request_cancel s = if s.is_submitting then no_call else cancel

-- The synchronous part of `submit`.
unfoldable pub submit : Confirmation → Confirmation × Call
submit s = if s.is_submitting then (s, no_call) else (record s { is_submitting = true }, confirm)

-- The `finally` of `submit`.
unfoldable pub end_submit : Confirmation → Confirmation
end_submit s = if s.mounted then record s { is_submitting = false } else s

-- `useStatsSSE`, for statistics of type `Stats`.
pub record Stream {ℓ} (Stats : Type ℓ) : Type ℓ where
  pub stats : Option Stats
  pub is_connected : Bool
  pub error : Option Text
  pub closed : Bool

module _ {ℓ} {Stats : Type ℓ} where
  abbrev pub connecting : Stream Stats
  connecting = record { stats = none; is_connected = false; error = none; closed = false }

  unfoldable pub on_open : Stream Stats → Stream Stats
  on_open s = record s { is_connected = true; error = none }

  -- `none` is a message that does not parse.
  unfoldable pub on_message : Option Stats → Stream Stats → Stream Stats
  on_message none s = s
  on_message (some data_) s = record s { stats = some data_ }

  unfoldable pub on_error : Stream Stats → Stream Stats
  on_error s = record s {
    is_connected = false;
    error = some (codes "SSE connection failed");
    closed = true;
  }

-- A response of a cache: its header "content-length", and the size of its body, if it can be read.
pub record CachedResponse : Type 0 where
  pub content_length : Option Text
  pub blob_size : Option ℕ

abbrev pub blob_or_zero : Option ℕ → ℤ
blob_or_zero none = pos 0
blob_or_zero (some size) = pos size

abbrev pub length_or : Option ℤ → ℤ → ℤ
length_or none size = size
length_or (some parsed) size = parsed

-- `none` is a request with no response left.
unfoldable pub response_size : Option CachedResponse → ℤ
unfolding parse_int
response_size none = pos 0
response_size (some response) = elim response.content_length [
  | none ↦ blob_or_zero response.blob_size
  | some header ↦
      if is_nil header
      then blob_or_zero response.blob_size
      else length_or (parse_int header) (blob_or_zero response.blob_size)
]

abbrev pub sum : List ℤ → ℤ
sum [] = pos 0
sum (size ∷ sizes) = size +ℤ sum sizes

unfoldable pub estimate_cache_usage : List (Option CachedResponse) → ℤ
unfolding response_size
estimate_cache_usage responses = sum (map response_size responses)

abbrev pub is_offline_cache : Text → Bool
is_offline_cache name =
    starts_with name (codes "ok-folio-") || starts_with name (codes "workbox-precache")

-- The usage that `useStorageEstimate` shows, of all caches by name.
unfoldable pub storage_usage : List (Text × List (Option CachedResponse)) → ℤ
unfolding estimate_cache_usage starts_with
storage_usage caches =
    sum (map (λ c. estimate_cache_usage c.1) (filter (λ c. is_offline_cache c.0) caches))
