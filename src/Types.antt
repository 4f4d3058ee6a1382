-- ===== src/Types.antt =====
-- dashboard/src/types.ts: the records of the API that the modelled code reads. A nullable field is
-- an `Option`. Coordinates and the raw timestamps that no modelled code inspects stay texts.
use ok_folio.Prelude.{ℕ, List, Option, Bool}
use ok_folio.Prelude.Text.{Text}

pub record Photo : Type 0 where
  pub id : ℕ
  pub url : Text
  pub source_page : Text
  pub title : Text
  pub artist : Text
  pub upload_date : Text
  pub file_path : Text
  pub file_name : Text
  pub image_width : ℕ
  pub image_height : ℕ
  pub captured_at : Option Text
  pub camera_make : Text
  pub camera_model : Text
  pub lens_model : Text
  pub orientation : Text
  pub gps_latitude : Option Text
  pub gps_longitude : Option Text
  pub downloaded_at : Text
  pub file_size : ℕ
  pub notes : Text
  pub keywords : List Text
  pub manual_fields : List Text
  pub favorite : Bool
  pub status : Text

pub record Folio : Type 0 where
  pub id : ℕ
  pub name : Text
  pub cover_photo_id : Option ℕ
  pub piece_count : ℕ
  pub created_at : Text
  pub updated_at : Text

-- `CreatePieceInput` of dashboard/src/api.ts, with the browser's `File` by its name and type.
pub record UploadFile : Type 0 where
  pub name : Text
  pub type : Text

pub record CreatePieceInput : Type 0 where
  pub file : UploadFile
  pub title : Text
  pub source : Text
  pub artist : Text
  pub date : Text
  pub notes : Text

pub data InboxItemStatus : Type 0 where
  duplicate ambiguous : InboxItemStatus

pub record InboxItem : Type 0 where
  pub id : ℕ
  pub provider_id : Text
  pub dedupe_key : Text
  pub source_id : Text
  pub media_id : Text
  pub source_url : Text
  pub title : Text
  pub artist : Text
  pub status : InboxItemStatus
  pub reason : Text
  pub cover_photo_id : Option ℕ
  pub created_at : Text
  pub updated_at : Text
