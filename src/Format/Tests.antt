-- ===== src/Format/Tests.antt =====
-- Tests of the labels of dashboard/src/folio/context.tsx.
use ok_folio.Prelude.{suc, [], ◌^◌, ◌≤◌, ◌<◌, ◌≡◌, ◌⊎◌, refl, arith}
use ok_folio.Prelude.Text.{Text, codes, trim}
use ok_folio.Prelude.Decimal.{decimal}
use ok_folio.Format.{unit_index, format_bytes, clean_title, all_filler, starts_uuid}
use ok_folio.Format.Bytes.{unit_index_lem}

abbrev raw : Text
raw = codes " Harbour at dusk "

cleaned : clean_title raw ≡ codes "Harbour at dusk"
unfolding clean_title all_filler starts_uuid trim
cleaned = refl

uuid_dropped : clean_title (codes "0f3a9b12-77aa-4C0d.jpg") ≡ []
unfolding clean_title all_filler starts_uuid trim
uuid_dropped = refl

unit_index_lem_example :
    (1024 ^ unit_index 4 5000000 0 ≤ 5000000)
    × ((unit_index 4 5000000 0 ≡ 4)
        ⊎ ((unit_index 4 5000000 0 < 4) × (5000000 < 1024 ^ suc (unit_index 4 5000000 0))))
unit_index_lem_example = unit_index_lem 5000000 (omega arith)

label : format_bytes 5000000 ≡ codes "4.8 MB"
unfolding format_bytes unit_index decimal
label = refl
