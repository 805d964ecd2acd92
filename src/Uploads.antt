-- ===== src/Uploads.antt =====
-- backend/src/upload: files that users send to the storage. A request writes an intent with the
-- key of the object; what is sent is checked against it, and a cleanup removes what is left over.
-- The storage is an external service: its answers are arguments. The tables are those of
-- backend/prisma/schema.prisma that this code reads or writes.
pub mod Keys
pub mod Request
pub mod Verify
pub mod Photo
pub mod Avatar
pub mod Cleanup
use sosedi_app.Prelude.{
  Bool, List, Option, Pairwise, String, any, false, find_first, is_some, ltb, not, true, ℕ, ◌&&◌,
  ◌*◌, ◌==◌, ◌||◌, ◌≢◌,
}
use sosedi_app.Domain.{Booking, FinancialDispute, participates}
use sosedi_app.Domain.Failure.{
  Result, booking_not_found, dispute_not_found, item_has_unfinished_bookings, item_not_found,
  or_throw, throw_if, ticket_not_found,
}
use sosedi_app.Domain.Status.{BookingStatus}

pub data UploadPurpose : Type 0 where
  item_photo avatar booking_evidence dispute_evidence support_attachment kyc_document :
      UploadPurpose

abbrev pub purpose_is : UploadPurpose → UploadPurpose → Bool
purpose_is UploadPurpose.item_photo UploadPurpose.item_photo = true
purpose_is UploadPurpose.avatar UploadPurpose.avatar = true
purpose_is UploadPurpose.booking_evidence UploadPurpose.booking_evidence = true
purpose_is UploadPurpose.dispute_evidence UploadPurpose.dispute_evidence = true
purpose_is UploadPurpose.support_attachment UploadPurpose.support_attachment = true
purpose_is UploadPurpose.kyc_document UploadPurpose.kyc_document = true
purpose_is _ _ = false

pub record Intent : Type 0 where
  pub id : String
  pub actor_id : String
  pub purpose : UploadPurpose
  pub entity_id : String
  pub bucket : String
  pub object_key : String
  pub content_type : String
  pub size_bytes : ℕ
  pub expires_at : ℕ
  pub confirmed_at : Option ℕ

pub record OwnedItem : Type 0 where
  pub id : String
  pub owner_id : String
  pub is_pending : Bool
  pub reject_reason : Option String

pub record ItemPhoto : Type 0 where
  pub id : String
  pub item_id : String
  pub upload_intent_id : Option String
  pub original_url : Option String
  pub sort_order : ℕ
  pub is_cover : Bool
  pub created_at : ℕ

pub record SupportTicket : Type 0 where
  pub id : String
  pub is_general : Bool
  pub user_id : String

pub record AvatarUser : Type 0 where
  pub id : String
  pub avatar_url : Option String

pub record DisputeEvidence : Type 0 where
  pub id : String
  pub dispute_id : String
  pub upload_intent_id : String
  pub storage_key : String
  pub sha256 : String

pub record UploadDb : Type 0 where
  pub intents : List Intent
  pub items : List OwnedItem
  pub photos : List ItemPhoto
  pub bookings : List Booking
  pub disputes : List FinancialDispute
  pub tickets : List SupportTicket
  pub users : List AvatarUser
  pub dispute_evidence : List DisputeEvidence

-- Identifiers are unique, as the primary key of the table.
abbrev pub DistinctIntents : UploadDb → Type 0
DistinctIntents db = Pairwise (λ (x y : Intent). x.id ≢ y.id) db.intents

-- The buckets and addresses of the storage.
pub record StorageConfig : Type 0 where
  pub private_bucket : String
  pub public_bucket : String
  pub public_url : String → String → String

-- `UploadedObjectInfo`; `prefix` is the first twelve bytes.
pub record ObjectInfo : Type 0 where
  pub size_bytes : Option ℕ
  pub content_type : Option String
  pub prefix : List ℕ

-- What the services outside answer while a file is checked: the metadata of the object, the
-- picture after it was read and encoded anew (`none` if this failed), and the digest of bytes.
pub record Answers : Type 0 where
  pub inspected : Option ObjectInfo
  pub sanitized : Option (List ℕ)
  pub digest : List ℕ → String

abbrev pub presigned_upload_expires_seconds : ℕ
presigned_upload_expires_seconds = 15 * 60

abbrev pub max_upload_size_bytes : ℕ
max_upload_size_bytes = 10 * 1024 * 1024

abbrev pub max_item_photo_count : ℕ
max_item_photo_count = 5

-- An intent that is neither confirmed nor over.
abbrev pub is_open_intent : ℕ → Intent → Bool
is_open_intent now u = not (is_some u.confirmed_at) && ltb now u.expires_at

-- `ensureOwnedItem`
abbrev pub ensure_owned_item : String → String → UploadDb → Result OwnedItem
ensure_owned_item user item db =
    or_throw (find_first (λ i. i.id == item && i.owner_id == user) db.items) item_not_found

abbrev pub is_unfinished : BookingStatus → Bool
is_unfinished BookingStatus.pending = true
is_unfinished BookingStatus.confirmed = true
is_unfinished BookingStatus.active = true
is_unfinished BookingStatus.returned = true
is_unfinished _ = false

-- `ensureNoUnfinishedBookings`
abbrev pub ensure_no_unfinished_bookings : String → UploadDb → Result (Unit {0})
ensure_no_unfinished_bookings item db =
    throw_if (any (λ b. b.item_id == item && is_unfinished b.status) db.bookings)
      item_has_unfinished_bookings

abbrev pub admits_evidence : BookingStatus → Bool
admits_evidence BookingStatus.confirmed = true
admits_evidence BookingStatus.active = true
admits_evidence BookingStatus.returned = true
admits_evidence _ = false

-- `ensureBookingParticipant`
abbrev pub ensure_booking_participant : String → String → UploadDb → Result (Unit {0})
ensure_booking_participant user booking db =
    throw_if (not (any (λ b. participates user booking b && admits_evidence b.status) db.bookings))
      booking_not_found

-- `ensureDisputeParticipant`
abbrev pub ensure_dispute_participant : String → String → UploadDb → Result (Unit {0})
ensure_dispute_participant user dispute db =
    throw_if
      (not (
        any (λ d. d.id == dispute && any (participates user d.booking_id) db.bookings) db.disputes))
      dispute_not_found

-- `ensureSupportTicketAccess`
abbrev pub ensure_support_ticket_access : String → String → Bool → UploadDb → Result (Unit {0})
ensure_support_ticket_access actor ticket allow_admin db =
    throw_if
      (not (
        any (λ t. t.id == ticket && (t.is_general && (allow_admin || t.user_id == actor)))
          db.tickets))
      ticket_not_found
