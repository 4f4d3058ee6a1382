-- ===== src/Editing/Filed.antt =====
-- dashboard/src/folio/PieceViewer.tsx, `saveEdit`, with dashboard/src/folio/context.tsx: the override
-- that a save files, and how the overlay shows it.
use ok_folio.Prelude.{
  ℕ, List, Option, none, some, Bool, false, is_nil, ◌≡◌, refl, inl, inr, Option-cases, or_else,
  IdMap, ==_refl, put, subst, Bool-cases, ◌==◌, arith,
}
use ok_folio.Prelude.Text.{Text}
use ok_folio.Format.{Runtime}
use ok_folio.Types.{Photo}
use ok_folio.Pieces.{PieceVm, map_photo, overlay_piece}
use ok_folio.Pieces.Overlay.{IsFiled}
use ok_folio.Metadata.{
  PieceMetadataPatch, EditState, patch_fields, patched, find_piece, current_piece, begin_edit,
  apply_patch,
}
use ok_folio.Editing.{EditDraft, EditorState, draft_patch, save_edit}
use ok_folio.Editing.Drafted.{patched-IsClean, IsClean, Shows, map_photo-IsClean}

-- The call of `editPieceMetadata` with a patch, if there is one.
abbrev pub edit_with :
    Runtime → ℕ → List PieceVm → List PieceVm → EditState → Option PieceMetadataPatch → EditState
edit_with rt id pieces viewer_pieces st none = st
edit_with rt id pieces viewer_pieces st (some patch) =
    begin_edit rt id patch pieces viewer_pieces st

-- `saveEdit` with its call of `editPieceMetadata` for the piece on view; `pieces` and `viewer_pieces`
-- are the provider's.
unfoldable pub after_save :
    Runtime → PieceVm → EditorState → List PieceVm → List PieceVm → EditState → EditState
unfolding save_edit begin_edit
after_save rt on_view s pieces viewer_pieces st =
    edit_with rt on_view.id pieces viewer_pieces st (save_edit rt.lower (some on_view) s).1

-- Every override is clean.
abbrev pub AreClean : IdMap PieceVm → Type 0
AreClean m = (i : ℕ) (q : PieceVm) → m i ≡ some q → IsClean q

-- A piece with the value of a toggled heart, if there is one.
abbrev pub with_fav : Option Bool → PieceVm → PieceVm
with_fav none p = p
with_fav (some fav) p = record p { fav = fav }

pub overlay_lem :
    (m : IdMap PieceVm) (f : IdMap Bool) (row : PieceVm)
    → overlay_piece m f row ≡ with_fav (f (or_else (m row.id) row).id) (or_else (m row.id) row)
unfolding overlay_piece
overlay_lem m f row = go (or_else (m row.id) row) (f (or_else (m row.id) row).id)
  where
    go :
        (p : PieceVm) (o : Option Bool)
        → elim o [ none ↦ p | some fav ↦ record p { fav = fav } ] ≡ with_fav o p
    go p none = refl
    go p (some fav) = refl

pub id-with_fav : (o : Option Bool) (p : PieceVm) → (with_fav o p).id ≡ p.id
id-with_fav none p = refl
id-with_fav (some fav) p = refl

pub draft_patch-with_fav :
    (lower : Text → Text) (o : Option Bool) (p : PieceVm) (draft : EditDraft)
    → draft_patch lower (with_fav o p) draft ≡ draft_patch lower p draft
unfolding draft_patch
draft_patch-with_fav lower none p draft = refl
draft_patch-with_fav lower (some fav) p draft = refl

pub patched-with_fav :
    (rt : Runtime) (patch : PieceMetadataPatch) (fields : List Text) (o : Option Bool) (p : PieceVm)
    → patched rt patch fields (with_fav o p) ≡ with_fav o (patched rt patch fields p)
unfolding patched
patched-with_fav rt patch fields none p = refl
patched-with_fav rt patch fields (some fav) p = refl

pub with_fav-Shows :
    (rt : Runtime) (draft : EditDraft) (f g : Option Bool) (before p : PieceVm)
    → Shows rt draft before p
    → Shows rt draft (with_fav f before) (with_fav g p)
with_fav-Shows rt draft none none before p h = h
with_fav-Shows rt draft none (some fav) before p h = record {
  title = h.title;
  artist = h.artist;
  date = h.date;
  keywords = h.keywords;
  note = h.note;
}
with_fav-Shows rt draft (some heart) none before p h = record {
  title = h.title;
  artist = h.artist;
  date = h.date;
  keywords = h.keywords;
  note = h.note;
}
with_fav-Shows rt draft (some heart) (some fav) before p h = record {
  title = h.title;
  artist = h.artist;
  date = h.date;
  keywords = h.keywords;
  note = h.note;
}

-- The edit starts from the piece on view, but perhaps for its heart.
pub current_piece_lem :
    (id : ℕ) (pieces viewer_pieces : List PieceVm) (m : IdMap PieceVm) (row : PieceVm)
    (o : Option Bool)
    → find_piece id pieces ≡ some (with_fav o (or_else (m id) row))
    → (g : Option Bool) × (current_piece id pieces viewer_pieces m
        ≡ some (with_fav g (or_else (m id) row)))
current_piece_lem id pieces viewer_pieces m row o listed = elim (Option-cases (m id)) [
  | inl fresh ↦ (o, rw (fresh, rw fresh at listed) refl)
  | inr (q, stored) ↦ (none, rw stored refl)
]

apply_patch_lem :
    (rt : Runtime) (id : ℕ) (patch : PieceMetadataPatch) (pieces viewer_pieces : List PieceVm)
    (m : IdMap PieceVm) (current : PieceVm)
    → current_piece id pieces viewer_pieces m ≡ some current
    → apply_patch rt id patch pieces viewer_pieces m id
      ≡ some (patched rt patch (patch_fields patch) current)
unfolding apply_patch
apply_patch_lem rt id patch pieces viewer_pieces m current found =
    rw (found, apply_patch) (rw (==_refl id) refl)

-- What an edit that is sent files.
pub overrides-begin_edit :
    (rt : Runtime) (id : ℕ) (patch : PieceMetadataPatch) (pieces viewer_pieces : List PieceVm)
    (st : EditState) (current : PieceVm)
    → is_nil (patch_fields patch) ≡ false
    → current_piece id pieces viewer_pieces st.overrides ≡ some current
    → (begin_edit rt id patch pieces viewer_pieces st).overrides id
      ≡ some (patched rt patch (patch_fields patch) current)
unfolding begin_edit
overrides-begin_edit rt id patch pieces viewer_pieces st current sent found =
    rw sent (apply_patch_lem rt id patch pieces viewer_pieces st.overrides current found)

put-AreClean :
    (m : IdMap PieceVm) (id : ℕ) (p : PieceVm) → IsClean p → AreClean m → AreClean (put m id p)
put-AreClean m id p c clean i q at_i = elim (Bool-cases (i == id)) [
  | inl same ↦ let eq : p ≡ q = ground arith in subst IsClean eq c
  | inr other ↦ clean i q (rw other at at_i)
]

apply_patch-AreClean :
    (rt : Runtime) (id : ℕ) (patch : PieceMetadataPatch) (pieces viewer_pieces : List PieceVm)
    (m : IdMap PieceVm) (current : PieceVm)
    → current_piece id pieces viewer_pieces m ≡ some current
    → IsClean current
    → AreClean m
    → AreClean (apply_patch rt id patch pieces viewer_pieces m)
unfolding apply_patch
apply_patch-AreClean rt id patch pieces viewer_pieces m current found c clean =
    rw (found, apply_patch)
      (put-AreClean m id _ (patched-IsClean rt patch (patch_fields patch) current c) clean)

-- An edit keeps every override clean, if the piece that it starts from is.
begin_edit-AreClean :
    (rt : Runtime) (id : ℕ) (patch : PieceMetadataPatch) (pieces viewer_pieces : List PieceVm)
    (st : EditState) (current : PieceVm)
    → current_piece id pieces viewer_pieces st.overrides ≡ some current
    → IsClean current
    → AreClean st.overrides
    → AreClean (begin_edit rt id patch pieces viewer_pieces st).overrides
unfolding begin_edit
begin_edit-AreClean rt id patch pieces viewer_pieces st current found c clean i q =
    elim (Bool-cases (is_nil (patch_fields patch))) [
      | inl nothing ↦ rw nothing (clean i q)
      | inr sent ↦ rw sent (
          apply_patch-AreClean rt id patch pieces viewer_pieces st.overrides current found c clean i
            q)
    ]

pub or_else-IsClean :
    (rt : Runtime) (photo : Photo) (m : IdMap PieceVm)
    → AreClean m
    → IsClean (or_else (m photo.id) (map_photo rt photo))
or_else-IsClean rt photo m clean = elim (Option-cases (m photo.id)) [
  | inl fresh ↦ rw fresh (map_photo-IsClean rt photo)
  | inr (q, stored) ↦ rw stored (clean photo.id q stored)
]

pub id-or_else :
    (rt : Runtime) (photo : Photo) (m : IdMap PieceVm)
    → IsFiled m
    → (or_else (m photo.id) (map_photo rt photo)).id ≡ photo.id
unfolding map_photo
id-or_else rt photo m filed = elim (Option-cases (m photo.id)) [
  | inl fresh ↦ rw fresh refl
  | inr (q, stored) ↦ rw stored (filed photo.id q stored)
]
