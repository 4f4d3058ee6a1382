-- ===== src/Folios/Tests.antt =====
-- Tests of the folio screens: covers, the name dialog, the sheet and the picker.
use ok_folio.Prelude.{
  ℕ, ◌≤◌, List, [], ◌∷◌, none, some, true, false, ◌≡◌, refl, length, first_some, get_elem?, take,
  Distinct, All, arith,
}
use ok_folio.Prelude.Text.{codes, trim, text_eq}
use ok_folio.Types.{Photo, Folio}
use ok_folio.Actions.{resolved, Request}
use ok_folio.Actions.Folios.{
  change_folio_cover, rename_folio, delete_folio, remove_piece_from_folio,
}
use ok_folio.Format.Samples.{browser}
use ok_folio.Prelude.{◌++◌, ◌==◌, not, filter, map}
use ok_folio.Prelude.Decimal.{decimal}
use ok_folio.Actions.Store.{initial}
use ok_folio.BulkAdd.{Reply, new_piece}
use ok_folio.BulkAdd.Run.{add_pieces_to_folio}
use ok_folio.Folios.Added.{picked_added}
use ok_folio.Folios.{
  truthy_id, cover_ids, hero_cover_id, other_ids, cover_layers, back, mid, hero, updated_label,
}
use ok_folio.Folios.Covers.{shown_cover, hero_cover_lem, cover_ids_lem}
use ok_folio.Folios.NameModal.{
  NameScreen, create, rename, opened, open_create, open_rename, open_modal, close_modal, type_name,
  submit_modal, answer_modal,
}
use ok_folio.Folios.Named.{Reach, Step, SlotStep, all_closed, AreNamed, Reach-IsNamed}
use ok_folio.Folios.Sheet.{SheetState, actions, switch, submit_name, click_delete}
use ok_folio.Folios.Sheet.Confirmed.{
  SheetEvent, typed, submitted, delete_clicked, step, run, delete_clicks, is_delete,
  one_click_spares,
}
use ok_folio.Folios.Selection.{toggle_id, remove_selected_from_folio}
use ok_folio.Folios.Picker.{open_picker, toggle, begin_add}
use ok_folio.Folios.Picked
use ok_folio.Folios.Menus
use ok_folio.Folios.Picked.{Session, with_asked, IsSteady, Reach-IsSteady}

abbrev piece : ℕ → Photo
piece id = record {
  id = id;
  url = [];
  source_page = [];
  title = [];
  artist = [];
  upload_date = [];
  file_path = [];
  file_name = [];
  image_width = 0;
  image_height = 0;
  captured_at = none;
  camera_make = [];
  camera_model = [];
  lens_model = [];
  orientation = [];
  gps_latitude = none;
  gps_longitude = none;
  downloaded_at = [];
  file_size = 0;
  notes = [];
  keywords = [];
  manual_fields = [];
  favorite = false;
  status = codes "downloaded";
}

abbrev herons : Folio
herons = record {
  id = 3;
  name = codes "Herons";
  cover_photo_id = some 9;
  piece_count = 2;
  created_at = [];
  updated_at = [];
}

abbrev pieces : List Photo
pieces = piece 4 ∷ piece 6 ∷ []

-- The cover was removed from the folio.
hero_cover_lem_example :
    hero_cover_id herons (some (take 3 pieces)) ≡ shown_cover (truthy_id (some 9)) 3 pieces
hero_cover_lem_example = hero_cover_lem 2 herons pieces refl

removed_cover : hero_cover_id herons (some pieces) ≡ some 4
unfolding hero_cover_id
removed_cover = refl

cover_ids_lem_example :
    Distinct (cover_ids herons (some pieces))
    × (length (cover_ids herons (some pieces)) ≤ 3)
    × (get_elem? (cover_ids herons (some pieces)) 0
        ≡ first_some (truthy_id (some 9)) (get_elem? (other_ids (some 9) (some pieces)) 0))
cover_ids_lem_example = cover_ids_lem herons pieces (refl, (refl, tt))

layered : cover_layers (cover_ids herons (some pieces)) ≡ (back, 6) ∷ (mid, 4) ∷ (hero, 9) ∷ []
unfolding cover_layers cover_ids
layered = refl

today : updated_label browser (some (codes "1970-01-01")) ≡ codes "updated today"
unfolding updated_label
today = refl

-- A rename of "Herons" is sent, and the dialog is closed and opened again for "Owls".
abbrev typed_egrets : NameScreen
typed_egrets = record (open_rename (codes "Herons") all_closed) {
  renaming = type_name (codes " Egrets ") (open_rename (codes "Herons") all_closed).renaming;
}

abbrev sent_egrets : NameScreen
sent_egrets = record typed_egrets { renaming = submit_modal typed_egrets.renaming }

abbrev shut_egrets : NameScreen
shut_egrets = record sent_egrets { renaming = close_modal sent_egrets.renaming }

abbrev reopened : NameScreen
reopened = open_create (open_rename (codes "Owls") shut_egrets)

reopened_run : Reach reopened
unfolding open_create open_rename submit_modal close_modal
reopened_run =
    Reach.next
      (Reach.next
        (Reach.next
          (Reach.next
            (Reach.next
              (Reach.next Reach.here (Step.rename_clicked (codes "Herons") all_closed refl))
              (Step.at_renaming _ (SlotStep.typed (codes " Egrets ") _)))
            (Step.at_renaming typed_egrets (SlotStep.submitted typed_egrets.renaming)))
          (Step.at_renaming sent_egrets (SlotStep.escaped sent_egrets.renaming)))
        (Step.rename_clicked (codes "Owls") shut_egrets refl))
      (Step.create_clicked (open_rename (codes "Owls") shut_egrets) refl)

Reach-IsNamed_example : AreNamed reopened
Reach-IsNamed_example = Reach-IsNamed reopened_run

-- The answer to the first rename closes the second, and leaves the dialog of a new folio.
late_answer_closes :
    (reopened.renaming.sent ≡ (rename (codes "Herons"), codes "Egrets") ∷ [])
    × (reopened.renaming.modal ≡ some (1, opened (rename (codes "Owls"))))
    × ((answer_modal 0 (resolved true) reopened.renaming).modal ≡ none)
    × (reopened.creation.modal ≡ some (0, opened create))
unfolding answer_modal close_modal submit_modal type_name open_rename open_create open_modal opened
    trim text_eq
late_answer_closes = (refl, refl, refl, refl)

abbrev one_click : List SheetEvent
one_click = delete_clicked ∷ typed (codes "x") ∷ submitted ∷ []

clicked_once : delete_clicks one_click ≤ 1
unfolding delete_clicks
clicked_once = omega arith

one_click_spares_example : All (λ r. is_delete r ≡ false) (run one_click (switch (actions herons)))
one_click_spares_example = one_click_spares (actions herons) one_click clicked_once

two_clicks :
    run (delete_clicked ∷ delete_clicked ∷ []) (switch (actions herons))
    ≡ (delete_folio 3).request ∷ []
unfolding run step switch click_delete
two_clicks = refl

-- What is typed is trimmed, and sent once.
sheet_renames :
    run (typed (codes " Owls ") ∷ submitted ∷ submitted ∷ []) (switch (SheetState.rename herons))
    ≡ (rename_folio 3 (codes "Owls")).request ∷ []
unfolding run step switch submit_name rename_folio trim text_eq
sheet_renames = refl

removed_in_order :
    remove_selected_from_folio 3
      (record { selection_mode = true; selected_ids = toggle_id 4 (toggle_id 6 (toggle_id 4 [])) })
    ≡ (
      record { selection_mode = false; selected_ids = [] },
      (remove_piece_from_folio 3 6).request ∷ [],
    )
unfolding remove_selected_from_folio toggle_id
removed_in_order = refl

abbrev two_chosen : Session
two_chosen = record { picker = toggle 6 (toggle 4 open_picker); asked = [] }

abbrev adding_two : Session
adding_two = record {
  picker = (begin_add two_chosen.picker).0;
  asked = with_asked (begin_add two_chosen.picker).1 [];
}

adding_run : Picked.Reach adding_two
adding_run =
    Picked.Reach.next
      (Picked.Reach.next (Picked.Reach.next Picked.Reach.here (Picked.Step.toggled 4 _))
        (Picked.Step.toggled 6 _))
      (Picked.Step.added two_chosen)

Reach-IsSteady_example : IsSteady adding_two
Reach-IsSteady_example = Reach-IsSteady adding_run

frozen : (toggle 4 adding_two.picker).selected ≡ 4 ∷ 6 ∷ []
unfolding toggle begin_add open_picker
frozen = refl

-- Every piece is new but 6, which is in the folio.
abbrev replies : ℕ → Reply
replies id = new_piece

picked_added_example :
    (add_pieces_to_folio decimal 3 replies adding_two.picker.selected
      (some (λ id. id == 6))
      initial).0.sent
    ≡ initial.sent
      ++ map
          (λ photo. Request.add_piece_to_folio 3 photo)
          (filter (λ id. not (id == 6)) adding_two.picker.selected)
unfolding toggle begin_add open_picker
picked_added_example =
    picked_added decimal 3 replies (λ id. id == 6) adding_two initial adding_run (refl, (refl, tt))
      refl

-- A click on the dots while the covers are shown closes the menu.
abbrev tile : Menus.Tile
tile = record { menu_open = some Menus.cover; delete_open = false; rename_target = none }

tile_menus :
    ((Menus.toggle_menu tile).menu_open ≡ none)
    × ((Menus.change_cover herons 6 tile).1 ≡ (change_folio_cover 3 (some 6)).request)
    × ((Menus.confirm_delete herons (Menus.remove_tile tile)).0.delete_open ≡ false)
    × (Menus.shown_total none (some herons) 24 ≡ 2)
unfolding Menus.toggle_menu Menus.change_cover Menus.confirm_delete Menus.remove_tile
    Menus.shown_total
tile_menus = (refl, refl, refl, refl)
