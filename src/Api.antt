-- ===== src/Api.antt =====
-- dashboard/src/api.ts: what each function asks of the server, and what it makes of the response.
-- `fetch`, `response.json()` and `caches` belong to the browser: a response is an argument, and the
-- caches are a state. A JSON body is an object. An argument with a default is always given.
pub mod Stats
pub mod Sources
pub mod Folios
pub mod Photos
pub mod Inbox
pub mod Calls
pub mod Clearing
pub mod Similar
mod Tests
use ok_folio.Prelude.{
  ℕ, List, [], ◌∷◌, ◌++◌, Option, none, some, Bool, true, false, ◌&&◌, ◌||◌, not, leb,
  if◌then◌else◌,
}
use ok_folio.Prelude.Text.{Text, codes}
use ok_folio.Prelude.Decimal.{decimal}
use ok_folio.Types.{UploadFile}
use ok_folio.Actions.{Outcome, resolved, rejected, or_text}
use ok_folio.Pieces.{api_base}

pub data Method : Type 0 where
  get post patch_method delete_method : Method

-- The values that the bodies hold.
pub data Json : Type 0 where
  null_value : Json
  number_value : ℕ → Json
  text_value : Text → Json
  numbers_value : List ℕ → Json
  texts_value : List Text → Json

pub data FormField : Type 0 where
  file_field : UploadFile → FormField
  text_field : Text → FormField

-- `JSON.stringify` of an object, by its fields that are not undefined, or a form.
pub data Body : Type 0 where
  no_body : Body
  json_body : List (Text × Json) → Body
  form_body : List (Text × FormField) → Body

-- `params` is the `URLSearchParams` behind the question mark, where the function makes them.
pub record HttpRequest : Type 0 where
  pub method : Method
  pub url : Text
  pub params : Option (List (Text × Text))
  pub body : Body

pub data CacheName : Type 0 where
  api_get piece_images : CacheName

-- What a function does with a response that is ok: read its JSON, clear caches, or both in order.
pub data OnOk : Type 0 where
  read : OnOk
  clear : List CacheName → OnOk
  read_then_clear : List CacheName → OnOk

-- The error that it throws otherwise: a fixed message; `data.error || fallback`, with or without a
-- `catch` of a body that is no JSON; or `data.error` where that is a string.
pub data OnError : Type 0 where
  fixed server_or server_unguarded server_text : Text → OnError

pub record Exchange : Type 0 where
  pub request : HttpRequest
  pub on_ok : OnOk
  pub on_error : OnError

-- `data.error` of a JSON body: missing or falsy, a string, or another value by its string.
pub data ErrorField : Type 0 where
  no_error : ErrorField
  error_text other_error : Text → ErrorField

pub data Payload (A : Type 0) : Type 0 where
  unreadable : Text → Payload A
  readable : ErrorField → A → Payload A

-- The promise of `fetch`: the error that it rejects with, or a status and what `json()` gives.
pub data Response (A : Type 0) : Type 0 where
  unreachable : Text → Response A
  answered : ℕ → Payload A → Response A

pub record Caches : Type 0 where
  pub available : Bool
  pub held : CacheName → Bool
  pub refuses : CacheName → Bool

abbrev pub same_cache : CacheName → CacheName → Bool
same_cache api_get api_get = true
same_cache piece_images piece_images = true
same_cache _ _ = false

abbrev pub lists_cache : CacheName → List CacheName → Bool
lists_cache name [] = false
lists_cache name (n ∷ names) = same_cache name n || lists_cache name names

-- `clearOfflineCaches`: a cache that refuses stays, and that is no error.
unfoldable pub clear_offline_caches : List CacheName → Caches → Caches
clear_offline_caches names c =
    if not c.available
    then c
    else record c { held = λ n. c.held n && (not (lists_cache n names) || c.refuses n) }

-- `response.ok`
abbrev pub is_ok : ℕ → Bool
is_ok status = leb 200 status && leb status 299

abbrev pub server_message : ErrorField → Text → Text
server_message no_error fallback = fallback
server_message (error_text s) fallback = or_text s fallback
server_message (other_error s) fallback = s

module _ {A : Type 0} where
  -- The message of the error thrown for a response that is not ok.
  unfoldable pub failure_message : OnError → Payload A → Text
  failure_message (fixed m) p = m
  failure_message (server_or m) (unreadable s) = m
  failure_message (server_or m) (readable e a) = server_message e m
  failure_message (server_unguarded m) (unreadable s) = s
  failure_message (server_unguarded m) (readable e a) = server_message e m
  failure_message (server_text m) (readable (error_text s) a) = s
  failure_message (server_text m) _ = m

  unfoldable pub succeed_with_body : OnOk → Payload A → Caches → Outcome (Option A) × Caches
  unfolding clear_offline_caches
  succeed_with_body read (unreadable s) c = (rejected (some s), c)
  succeed_with_body read (readable e a) c = (resolved (some a), c)
  succeed_with_body (clear names) p c = (resolved none, clear_offline_caches names c)
  succeed_with_body (read_then_clear names) (unreadable s) c = (rejected (some s), c)
  succeed_with_body (read_then_clear names) (readable e a) c =
      (resolved (some a), clear_offline_caches names c)

  -- The whole exchange: what the promise settles to, and the caches then.
  unfoldable pub exchange : Exchange → Response A → Caches → Outcome (Option A) × Caches
  unfolding failure_message succeed_with_body
  exchange x (unreachable s) c = (rejected (some s), c)
  exchange x (answered status p) c =
      if is_ok status
      then succeed_with_body x.on_ok p c
      else (rejected (some (failure_message x.on_error p)), c)

abbrev pub concat_texts : List Text → Text
concat_texts [] = []
concat_texts (t ∷ ts) = t ++ concat_texts ts

-- A template literal that begins with `API_BASE`, by its parts.
abbrev pub under_base : List Text → Text
under_base l = api_base ++ concat_texts l

abbrev pub get_request : Text → HttpRequest
get_request url = record { method = get; url = url; params = none; body = no_body }

abbrev pub get_with : Text → List (Text × Text) → HttpRequest
get_with url params = record { method = get; url = url; params = some params; body = no_body }

abbrev pub send : Method → Text → Body → HttpRequest
send method url body = record { method = method; url = url; params = none; body = body }

-- `{ limit: limit.toString(), offset: offset.toString() }`
abbrev pub page_params : ℕ → ℕ → List (Text × Text)
page_params limit offset = (codes "limit", decimal limit) ∷ (codes "offset", decimal offset) ∷ []

abbrev pub query : HttpRequest → Text → Exchange
query request message = record { request = request; on_ok = read; on_error = fixed message }

abbrev pub both_caches : List CacheName
both_caches = api_get ∷ piece_images ∷ []

-- The default of `clearOfflineCaches`.
abbrev pub get_cache : List CacheName
get_cache = api_get ∷ []
