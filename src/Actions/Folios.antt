-- ===== src/Actions/Folios.antt =====
-- dashboard/src/folio/context.tsx: the actions on a folio and on one of its pieces.
use ok_folio.Prelude.{
  ℕ, [], ◌∷◌, ◌++◌, Option, none, some, Bool, true, false, if◌then◌else◌, or_else,
}
use ok_folio.Prelude.Text.{Text, codes, trim}
use ok_folio.Actions.{
  Action, Request, folios, folio_pieces, folio_cover_sheet_pieces, succeed, succeed_with, fail_with,
}
use ok_folio.Types.{Folio}

unfoldable pub create_folio : Text → Action Folio (Option Folio)
create_folio name =
    let label = trim name in
    record {
      request = Request.create_folio label;
      loading_title = codes "Creating folio";
      loading_detail = some label;
      on_success =
          λ _. succeed_with (codes "Folio \"" ++ (label ++ codes "\" created")) (some label);
      on_failure = λ err. fail_with (codes "Couldn’t create folio") (some (or_else err label));
      delay = 2800;
      invalidates = λ _. folios ∷ [];
      answer = λ folio. some folio;
      answer_failure = none;
    }

unfoldable pub rename_folio : ℕ → Text → Action Folio Bool
rename_folio folio_id name =
    let label = trim name in
    record {
      request = Request.update_folio_name folio_id label;
      loading_title = codes "Renaming folio";
      loading_detail = some label;
      on_success = λ _. succeed_with (codes "Renamed to “" ++ (label ++ codes "”")) (some label);
      on_failure = λ err. fail_with (codes "Couldn’t rename folio") (some (or_else err label));
      delay = 2800;
      invalidates = λ _. folios ∷ [];
      answer = λ _. true;
      answer_failure = false;
    }

unfoldable pub change_folio_cover : ℕ → Option ℕ → Action Folio (Unit {0})
change_folio_cover folio_id photo_id = record {
  request = Request.update_folio_cover folio_id photo_id;
  loading_title = codes "Changing folio cover";
  loading_detail = none;
  on_success = λ _. succeed (codes "Cover updated");
  on_failure = λ err. fail_with (codes "Couldn’t change folio cover") err;
  delay = 2800;
  invalidates = λ _. folios ∷ [];
  answer = λ _. tt;
  answer_failure = tt;
}

unfoldable pub delete_folio : ℕ → Action (Unit {0}) Bool
delete_folio folio_id = record {
  request = Request.delete_folio folio_id;
  loading_title = codes "Deleting folio";
  loading_detail = none;
  on_success = λ _. succeed (codes "Folio deleted");
  on_failure = λ err. fail_with (codes "Couldn’t delete folio") err;
  delay = 2800;
  invalidates = λ _. folios ∷ folio_pieces folio_id ∷ [];
  answer = λ _. true;
  answer_failure = false;
}

-- `addPieceToFolioAction`; the response says whether the piece was new to the folio.
unfoldable pub add_piece_to_folio : ℕ → ℕ → Action Bool (Unit {0})
add_piece_to_folio folio_id photo_id = record {
  request = Request.add_piece_to_folio folio_id photo_id;
  loading_title = codes "Adding piece to folio";
  loading_detail = none;
  on_success = λ added.
      succeed (if added then codes "Piece added to folio" else codes "Piece already in folio");
  on_failure = λ err. fail_with (codes "Couldn’t add piece to folio") err;
  delay = 2800;
  invalidates = λ _. folio_pieces folio_id ∷ folios ∷ folio_cover_sheet_pieces folio_id ∷ [];
  answer = λ _. tt;
  answer_failure = tt;
}

unfoldable pub remove_piece_from_folio : ℕ → ℕ → Action (Unit {0}) (Unit {0})
remove_piece_from_folio folio_id photo_id = record {
  request = Request.remove_piece_from_folio folio_id photo_id;
  loading_title = codes "Removing piece from folio";
  loading_detail = none;
  on_success = λ _. succeed (codes "Piece removed from folio");
  on_failure = λ err. fail_with (codes "Couldn’t remove piece from folio") err;
  delay = 2800;
  invalidates = λ _. folio_pieces folio_id ∷ folios ∷ folio_cover_sheet_pieces folio_id ∷ [];
  answer = λ _. tt;
  answer_failure = tt;
}
