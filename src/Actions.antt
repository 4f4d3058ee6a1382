-- ===== src/Actions.antt =====
-- dashboard/src/folio/context.tsx: the background actions of `FolioProvider` that make one request
-- and report it by a toast. An `Action` holds what one of them writes: the loading toast, what a
-- resolved or rejected promise makes of that toast, the query keys that a success invalidates, how
-- long the success toast stays, and what the returned promise answers. `Store` runs them.
pub mod Store
pub mod Lifecycle
pub mod Inbox
pub mod Folios
mod Tests
use ok_folio.Prelude.{
  ℕ, List, [], ◌∷◌, ◌++◌, Option, none, some, Bool, if◌then◌else◌, is_nil, or_else,
}
use ok_folio.Prelude.Text.{Text, codes, trim}
use ok_folio.Toasts.{Toast, ToastStatus, success, error}
use ok_folio.Types.{CreatePieceInput}

-- The keys passed to `invalidateQueries`; a key with no id stands for all that it prefixes.
pub data QueryKey : Type 0 where
  folio_catalog folio_stats gallery_catalog inbox inbox_counts folios all_folio_pieces
        connector_sources folio_connectors :
      QueryKey
  folio_pieces folio_cover_sheet_pieces : ℕ → QueryKey

-- The API calls that the actions make (dashboard/src/api.ts), by function name and arguments.
pub data Request : Type 0 where
  create_piece : CreatePieceInput → Request
  dismiss_inbox_item keep_inbox_item skip_inbox_item : ℕ → Request
  move_inbox_item_to_folio : ℕ → ℕ → Option ℕ → Request
  create_folio : Text → Request
  update_folio_name : ℕ → Text → Request
  update_folio_cover : ℕ → Option ℕ → Request
  delete_folio : ℕ → Request
  add_piece_to_folio remove_piece_from_folio : ℕ → ℕ → Request

-- `err instanceof Error ? err.message : …`: the message, where what is thrown is an `Error`.
abbrev pub Thrown : Type 0
Thrown = Option Text

-- The settled promise of a request.
pub data Outcome (A : Type 0) : Type 0 where
  resolved : A → Outcome A
  rejected : Thrown → Outcome A

pub record Action (A R : Type 0) : Type 0 where
  pub request : Request
  pub loading_title : Text
  pub loading_detail : Option Text
  pub on_success : A → Toast → Toast
  pub on_failure : Thrown → Toast → Toast
  pub delay : ℕ
  pub invalidates : A → List QueryKey
  pub answer : A → R
  pub answer_failure : R

-- `{ ...t, status: "success", title }`
abbrev pub succeed : Text → Toast → Toast
succeed title t = record t { status = success; title = title }

-- `{ ...t, status: "success", title, detail }`
abbrev pub succeed_with : Text → Option Text → Toast → Toast
succeed_with title detail t = record t { status = success; title = title; detail = detail }

-- `{ ...t, status: "error", title, detail }`
abbrev pub fail_with : Text → Option Text → Toast → Toast
fail_with title detail t = record t { status = error; title = title; detail = detail }

-- `a || b` on strings
abbrev pub or_text : Text → Text → Text
or_text a b = if is_nil a then b else a

unfoldable pub import_piece : CreatePieceInput → Action Bool (Unit {0})
import_piece input =
    let label = or_text (trim input.title) input.file.name in
    record {
      request = create_piece input;
      loading_title = codes "Adding piece";
      loading_detail = some label;
      on_success = λ duplicate.
          succeed_with (if duplicate then codes "Already in your folio" else codes "Piece added")
            (some label);
      on_failure = λ err. fail_with (codes "Couldn’t add piece") (some (or_else err label));
      delay = 2800;
      invalidates = λ _. folio_catalog ∷ folio_stats ∷ [];
      answer = λ _. tt;
      answer_failure = tt;
    }
