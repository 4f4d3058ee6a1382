-- ===== src/Folios.antt =====
-- dashboard/src/folio/Folios.tsx and FolioDetail.tsx beside it: the covers of a folio, from its first
-- pieces, and its labels.
-- `locale` is `toLocaleString`. An id of 0 passes for false, as `null` and `undefined` do.
pub mod Covers
pub mod NameModal
pub mod Named
pub mod Sheet
pub mod Selection
pub mod Picker
pub mod Picked
pub mod Added
pub mod Menus
mod Tests
use ok_folio.Prelude.{
  ℕ, suc, zero, List, [], ◌∷◌, ◌++◌, Option, none, some, Bool, false, ◌==◌, ◌&&◌, not, leb, ltb,
  ◌/◌, is_nil, filter, map, take, elem, length, get_elem?, if◌then◌else◌,
}
use ok_folio.Prelude.Text.{Text, codes}
use ok_folio.Prelude.Decimal.{decimal}
use ok_folio.Types.{Photo, Folio}
use ok_folio.Format.{Runtime}
use ok_folio.Format.Dates.{given, elapsed}

-- An id that passes for true.
unfoldable pub truthy_id : Option ℕ → Option ℕ
truthy_id (some (suc n)) = some (suc n)
truthy_id _ = none

-- `photos.map((photo) => photo.ID)`
abbrev pub photo_ids : List Photo → List ℕ
photo_ids = map (λ photo. photo.id)

abbrev pub is_cover : Option ℕ → ℕ → Bool
is_cover none id = false
is_cover (some cover) id = id == cover

-- `photos?.map(…).filter(…) ?? []`
abbrev pub other_ids : Option ℕ → Option (List Photo) → List ℕ
other_ids cover none = []
other_ids cover (some photos) = filter (λ id. not (is_cover cover id)) (photo_ids photos)

-- `if (folio.cover_photo_id) ids.unshift(folio.cover_photo_id)`
abbrev pub cover_first : Option ℕ → List ℕ → List ℕ
cover_first none ids = ids
cover_first (some cover) ids = cover ∷ ids

unfoldable pub cover_ids : Folio → Option (List Photo) → List ℕ
unfolding truthy_id
cover_ids folio photos =
    take 3 (cover_first (truthy_id folio.cover_photo_id) (other_ids folio.cover_photo_id photos))

-- `photos[0]?.ID`
abbrev pub first_id : List Photo → Option ℕ
first_id [] = none
first_id (photo ∷ photos) = some photo.id

unfoldable pub hero_cover_id : Folio → Option (List Photo) → Option ℕ
unfolding truthy_id
hero_cover_id folio none = truthy_id folio.cover_photo_id
hero_cover_id folio (some photos) = elim (truthy_id folio.cover_photo_id) [
  | none ↦ first_id photos
  | some chosen ↦
      if leb folio.piece_count (length photos) && not (elem chosen (photo_ids photos))
      then first_id photos
      else some chosen
]

-- The layers of `FolioCoverObject`, from the back.
pub data LayerKey : Type 0 where
  back mid hero : LayerKey

abbrev layer : LayerKey → Option ℕ → List (LayerKey × ℕ)
layer key none = []
layer key (some id) = (key, id) ∷ []

unfoldable pub cover_layers : List ℕ → List (LayerKey × ℕ)
unfolding truthy_id
cover_layers ids =
    layer back (truthy_id (get_elem? ids 2))
    ++ layer mid (truthy_id (get_elem? ids 1))
    ++ layer hero (truthy_id (get_elem? ids 0))

-- `folioPiecesLabel` and `pieceCountLabel`
abbrev pub pieces_label : (ℕ → Text) → ℕ → Text
pieces_label locale count =
    locale count ++ (b' ' ∷ (if count == 1 then codes "piece" else codes "pieces"))

abbrev updated_days : ℕ → Text → Text
updated_days days older =
    if days == 0
    then codes "updated today"
    else if days == 1
    then codes "updated yesterday"
    else if ltb days 30
    then codes "updated " ++ (decimal days ++ codes " days ago")
    else codes "updated " ++ older

unfoldable pub updated_label : Runtime → Option Text → Text
unfolding decimal
updated_label rt value =
    if is_nil (given value) then codes "updated recently" else elim (rt.parse_date (given value)) [
      | none ↦ codes "updated recently"
      | some d ↦ updated_days (elapsed rt.now d / 86400000) (rt.month_day d)
    ]
