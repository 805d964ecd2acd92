-- ===== src/Uploads/Request.antt =====
-- `requestUploadUrl` of backend/src/upload/upload.service.ts: a user asks for a place to send a
-- file to. The signed form is the storage's: its address is an argument.
use sosedi_app.Prelude.{
  Bool, Option, String, any, false, is_some, none, not, true, ℕ, ◌*◌, ◌+◌, ◌==◌, ◌||◌, ◌∷◌,
}
use sosedi_app.Domain.Failure.{
  Result, err, kyc_upload_disabled, ok, or_throw, throw_if, unique_violation,
  upload_entity_mismatch, ◌>>=◌, ◌>>◌,
}
use sosedi_app.Uploads.{
  Intent, StorageConfig, UploadDb, UploadPurpose, ensure_booking_participant,
  ensure_dispute_participant, ensure_no_unfinished_bookings, ensure_owned_item,
  ensure_support_ticket_access, presigned_upload_expires_seconds, purpose_is,
}
use sosedi_app.Uploads.Keys.{ensure_allowed_file, file_name, get_extension, quarantine_prefix}
use Prim.Native.String.{◌++◌}

pub record RequestUploadUrlDto : Type 0 where
  pub purpose : UploadPurpose
  pub content_type : String
  pub size_bytes : ℕ
  pub item_id : Option String
  pub booking_id : Option String
  pub dispute_id : Option String
  pub support_ticket_id : Option String

-- `PresignedUploadResponse`
pub record PresignedUpload : Type 0 where
  pub intent_id : String
  pub upload_url : String
  pub bucket : String
  pub key : String
  pub expires_in_seconds : ℕ
  pub content_type : String
  pub size_bytes : ℕ

-- What is drawn for the request: the name of the object and the identifier of the intent.
pub record Drawn : Type 0 where
  pub uuid : String
  pub intent_id : String

-- The entity of the request, if it names that one alone.
abbrev pub only_one : Option String → Bool → Result String
only_one entity others = do
  e ← or_throw entity upload_entity_mismatch
  throw_if others upload_entity_mismatch
  ok e

-- The checks of `createItemPhotoUploadUrl`, `createAvatarUploadUrl` and the three others, and the
-- entity that the intent is for.
unfoldable pub check_entity :
    String → RequestUploadUrlDto → UploadPurpose → Bool → UploadDb → Result String
check_entity user dto UploadPurpose.kyc_document allow_admin db = err kyc_upload_disabled
check_entity user dto UploadPurpose.item_photo allow_admin db = do
  item ←
      only_one dto.item_id
        (is_some dto.booking_id || is_some dto.dispute_id || is_some dto.support_ticket_id)
  _ ← ensure_owned_item user item db
  ensure_no_unfinished_bookings item db
  ok item
check_entity user dto UploadPurpose.avatar allow_admin db = do
  throw_if
      (is_some dto.item_id
        || is_some dto.booking_id
        || is_some dto.dispute_id
        || is_some dto.support_ticket_id)
      upload_entity_mismatch
  ok user
check_entity user dto UploadPurpose.booking_evidence allow_admin db = do
  booking ←
      only_one dto.booking_id
        (is_some dto.item_id || is_some dto.dispute_id || is_some dto.support_ticket_id)
  ensure_booking_participant user booking db
  ok booking
check_entity user dto UploadPurpose.dispute_evidence allow_admin db = do
  dispute ←
      only_one dto.dispute_id
        (is_some dto.item_id || is_some dto.booking_id || is_some dto.support_ticket_id)
  ensure_dispute_participant user dispute db
  ok dispute
check_entity user dto UploadPurpose.support_attachment allow_admin db = do
  ticket ←
      only_one dto.support_ticket_id
        (is_some dto.item_id || is_some dto.booking_id || is_some dto.dispute_id)
  ensure_support_ticket_access user ticket allow_admin db
  ok ticket

abbrev pub new_intent :
    StorageConfig → String → RequestUploadUrlDto → String → String → Drawn → ℕ → Intent
new_intent config user dto entity extension drawn now = record {
  id = drawn.intent_id;
  actor_id = user;
  purpose = dto.purpose;
  entity_id = entity;
  bucket = config.private_bucket;
  object_key = quarantine_prefix dto.purpose entity user ++ file_name drawn.uuid extension;
  content_type = dto.content_type;
  size_bytes = dto.size_bytes;
  expires_at = now + presigned_upload_expires_seconds * 1000;
  confirmed_at = none;
}

abbrev pub presigned : String → Intent → PresignedUpload
presigned url u = record {
  intent_id = u.id;
  upload_url = url;
  bucket = u.bucket;
  key = u.object_key;
  expires_in_seconds = presigned_upload_expires_seconds;
  content_type = u.content_type;
  size_bytes = u.size_bytes;
}

-- The write of `createPresignedUpload`: identifiers and object keys are unique.
unfoldable pub create_intent :
    StorageConfig
    → String
    → RequestUploadUrlDto
    → String
    → Drawn
    → ℕ
    → UploadDb
    → Result (UploadDb × Intent)
create_intent config user dto entity drawn now db = do
  extension ← get_extension dto.content_type
  let u = new_intent config user dto entity extension drawn now
  throw_if (any (λ x. x.id == u.id || x.object_key == u.object_key) db.intents) unique_violation
  ok (record db { intents = u ∷ db.intents }, u)

-- The checks and the write of `requestUploadUrl`.
unfoldable pub request_intent :
    StorageConfig → String → RequestUploadUrlDto → Drawn → ℕ → UploadDb → Result (UploadDb × Intent)
unfolding check_entity create_intent
request_intent config user dto drawn now db = do
  throw_if (purpose_is dto.purpose UploadPurpose.kyc_document) kyc_upload_disabled
  ensure_allowed_file dto.content_type dto.size_bytes
  entity ← check_entity user dto dto.purpose false db
  create_intent config user dto entity drawn now db

-- `requestAdminSupportAttachmentUploadUrl`, up to the signing.
unfoldable pub request_admin_intent :
    StorageConfig → String → RequestUploadUrlDto → Drawn → ℕ → UploadDb → Result (UploadDb × Intent)
unfolding check_entity create_intent
request_admin_intent config admin dto drawn now db = do
  ensure_allowed_file dto.content_type dto.size_bytes
  throw_if (not (purpose_is dto.purpose UploadPurpose.support_attachment)) upload_entity_mismatch
  ticket ← check_entity admin dto UploadPurpose.support_attachment true db
  create_intent config admin dto ticket drawn now db

-- The signing follows the write: where it fails, the intent stays.
abbrev pub sign_upload :
    Result String → Result (UploadDb × Intent) → UploadDb → UploadDb × Result PresignedUpload
sign_upload signed (err e) db = (db, err e)
sign_upload signed (ok (db', u)) db = (db', signed >>= (λ url. ok (presigned url u)))

-- `requestUploadUrl`
unfoldable pub request_upload_url :
    StorageConfig
    → String
    → RequestUploadUrlDto
    → Drawn
    → Result String
    → ℕ
    → UploadDb
    → UploadDb × Result PresignedUpload
unfolding request_intent
request_upload_url config user dto drawn signed now db =
    sign_upload signed (request_intent config user dto drawn now db) db
