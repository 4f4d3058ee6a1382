-- ===== src/Pieces/Tests.antt =====
-- Tests of the pieces of dashboard/src/folio/context.tsx.
use ok_folio.Prelude.{none, some, IdMap, empty, put, arith}
use ok_folio.Prelude.Text.{Text, codes}
use ok_folio.Pieces.{PieceVm, piece_stub}
use ok_folio.Pieces.Overlay.{IsFiled}

abbrev piece : Text → PieceVm
piece title = piece_stub 7 (record { title = some title; artist = none; thumb = none })

abbrev overrides : IdMap PieceVm
overrides = put empty 7 (piece (codes "Dawn"))

overrides-IsFiled : IsFiled overrides
unfolding piece_stub
overrides-IsFiled i p e = ground arith
