-- ===== src/Uploads/Verify.antt =====
-- The checks of an uploaded piece of evidence before it is used, and the evidence of a dispute:
-- backend/src/upload/upload.service.ts and `addEvidence` of backend/src/payments/dispute.service.ts.
pub mod Requested
pub mod RoundTrip
pub mod Evidence
use sosedi_app.Prelude.{
  Bool, String, any, count_where, eqb, find_first, not, some, update_many, ℕ, ◌&&◌, ◌==◌, ◌||◌, ◌∷◌,
}
use sosedi_app.Domain.{participates}
use sosedi_app.Domain.Failure.{
  Result, dispute_not_found, image_unsafe, ok, or_throw, throw_if, unique_violation,
  upload_intent_not_found, upload_intent_used, ◌>>=◌, ◌>>◌,
}
use sosedi_app.Uploads.{
  Answers, DisputeEvidence, Intent, StorageConfig, UploadDb, UploadPurpose, dispute_evidence,
  ensure_booking_participant, ensure_dispute_participant, ensure_support_ticket_access,
  is_open_intent, purpose_is,
}
use sosedi_app.Uploads.Keys.{ensure_intent_binding, ensure_uploaded_object}

-- `VerifiedBookingEvidence` and the like.
pub record Verified : Type 0 where
  pub intent_id : String
  pub bucket : String
  pub object_key : String
  pub sha256 : String

-- The open intent of the actor for the entity and the purpose.
abbrev pub is_usable_intent : UploadPurpose → String → String → String → ℕ → Intent → Bool
is_usable_intent purpose actor entity k now u =
    u.id == k
    && (u.actor_id == actor
        && (u.entity_id == entity && (purpose_is u.purpose purpose && is_open_intent now u)))

-- `sanitizePrivateImage` and the digest of what it gives.
abbrev pub sanitize_private_image : Answers → Result String
sanitize_private_image storage = do
  bytes ← or_throw storage.sanitized image_unsafe
  ok (storage.digest bytes)

abbrev pub verified_of : Intent → String → Verified
verified_of u sha256 = record {
  intent_id = u.id;
  bucket = u.bucket;
  object_key = u.object_key;
  sha256 = sha256;
}

-- The body that the three checks share; `access` is the check of the actor's part in the entity.
unfoldable pub verify_intent :
    StorageConfig
    → Answers
    → UploadPurpose
    → Result (Unit {0})
    → String
    → String
    → String
    → ℕ
    → UploadDb
    → Result Verified
unfolding ensure_intent_binding ensure_uploaded_object
verify_intent config storage purpose access actor entity k now db = do
  u ←
      or_throw (find_first (is_usable_intent purpose actor entity k now) db.intents)
        upload_intent_not_found
  ensure_intent_binding config purpose u
  access
  ensure_uploaded_object storage u
  sha256 ← sanitize_private_image storage
  ok (verified_of u sha256)

-- `verifyBookingEvidenceIntent`
unfoldable pub verify_booking_evidence_intent :
    StorageConfig → Answers → String → String → String → ℕ → UploadDb → Result Verified
unfolding verify_intent
verify_booking_evidence_intent config storage user booking k now db =
    verify_intent config storage UploadPurpose.booking_evidence
      (ensure_booking_participant user booking db) user booking k now db

-- `verifyDisputeEvidenceIntent`
unfoldable pub verify_dispute_evidence_intent :
    StorageConfig → Answers → String → String → String → ℕ → UploadDb → Result Verified
unfolding verify_intent
verify_dispute_evidence_intent config storage user dispute k now db =
    verify_intent config storage UploadPurpose.dispute_evidence
      (ensure_dispute_participant user dispute db) user dispute k now db

-- `verifySupportAttachmentIntent`
unfoldable pub verify_support_attachment_intent :
    StorageConfig → Answers → String → String → String → Bool → ℕ → UploadDb → Result Verified
unfolding verify_intent
verify_support_attachment_intent config storage actor ticket k allow_admin now db =
    verify_intent config storage UploadPurpose.support_attachment
      (ensure_support_ticket_access actor ticket allow_admin db) actor ticket k now db

-- The transaction of `addEvidence`; `k` is the identifier of the evidence.
unfoldable pub add_evidence_row :
    String
    → String
    → String
    → Verified
    → String
    → ℕ
    → UploadDb
    → Result (UploadDb × DisputeEvidence)
add_evidence_row actor booking dispute verified k now db = do
  _ ←
      or_throw
        (find_first
          (λ d.
            d.id == dispute
            && (d.booking_id == booking && any (participates actor d.booking_id) db.bookings))
          db.disputes)
        dispute_not_found
  let usable = is_usable_intent UploadPurpose.dispute_evidence actor dispute verified.intent_id now
  throw_if (not (eqb (count_where usable db.intents) 1)) upload_intent_used
  throw_if (any (λ e. e.id == k || e.upload_intent_id == verified.intent_id) db.dispute_evidence)
      unique_violation
  let e : DisputeEvidence = record {
    id = k;
    dispute_id = dispute;
    upload_intent_id = verified.intent_id;
    storage_key = verified.object_key;
    sha256 = verified.sha256;
  }
  ok (
    record db {
      intents = update_many usable (λ u. record u { confirmed_at = some now }) db.intents;
      dispute_evidence = e ∷ db.dispute_evidence;
    },
    e,
  )

-- `DisputeService.addEvidence`; the upload is checked at `checked_at`.
unfoldable pub add_evidence :
    StorageConfig
    → Answers
    → String
    → String
    → String
    → String
    → String
    → ℕ
    → ℕ
    → UploadDb
    → Result (UploadDb × DisputeEvidence)
unfolding verify_dispute_evidence_intent add_evidence_row
add_evidence config storage actor booking dispute intent k checked_at now db = do
  verified ← verify_dispute_evidence_intent config storage actor dispute intent checked_at db
  add_evidence_row actor booking dispute verified k now db
