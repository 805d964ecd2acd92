-- ===== src/Uploads/Verify/RoundTrip.antt =====
-- A requested upload, when it is sent as announced and then checked.
use sosedi_app.Prelude.{
  Bool, List, Option, String, ap, arith, eq_refl, eqb, false, is_some, ltb, refl, some, subst, true,
  ℕ, ◌*◌, ◌+◌, ◌<◌, ◌||◌, ◌∷◌, ◌≡◌,
}
use sosedi_app.Domain.Failure.{>>=-eq-ok, Result, ok, ok-injective, ◌>>=◌}
use sosedi_app.Uploads.{
  Answers, Intent, ObjectInfo, StorageConfig, UploadDb, UploadPurpose, ensure_booking_participant,
  ensure_dispute_participant, ensure_support_ticket_access, presigned_upload_expires_seconds,
  purpose_is,
}
use sosedi_app.Uploads.Keys.{
  ensure_intent_binding, ensure_uploaded_object, has_expected_magic_bytes, has_slash,
}
use sosedi_app.Uploads.Keys.Laws.{ensure_intent_binding-made}
use sosedi_app.Uploads.Request.{
  Drawn, RequestUploadUrlDto, check_entity, new_intent, only_one, request_intent,
}
use sosedi_app.Uploads.Verify.{
  verified_of, verify_booking_evidence_intent, verify_dispute_evidence_intent, verify_intent,
  verify_support_attachment_intent,
}
use sosedi_app.Uploads.Verify.Requested.{Requested, request_intent-Requested}

purpose_is_refl : (p : UploadPurpose) → purpose_is p p ≡ true
purpose_is_refl UploadPurpose.item_photo = refl
purpose_is_refl _ = refl

-- The storage holds what was announced: an object of that size and type, which begins with the
-- bytes of its type and can be read as a picture.
pub record IsSent (storage : Answers) (dto : RequestUploadUrlDto) : Type 0 where
  pub info : ObjectInfo
  pub inspected : storage.inspected ≡ some info
  pub size : info.size_bytes ≡ some dto.size_bytes
  pub content : info.content_type ≡ some dto.content_type
  pub magic : has_expected_magic_bytes dto.content_type info.prefix ≡ true
  pub picture : List ℕ
  pub sanitized : storage.sanitized ≡ some picture

eqb_refl : (n : ℕ) → eqb n n ≡ true
eqb_refl n = ground arith

ensure_uploaded_object-sent :
    (storage : Answers) (dto : RequestUploadUrlDto) (u : Intent)
    → IsSent storage dto
    → u.size_bytes ≡ dto.size_bytes
    → u.content_type ≡ dto.content_type
    → ensure_uploaded_object storage u ≡ ok tt
unfolding ensure_uploaded_object
ensure_uploaded_object-sent storage dto u sent size content = rw (
  sent.inspected,
  size,
  content,
  sent.size,
  sent.content,
  eqb_refl dto.size_bytes,
  eq_refl dto.content_type,
  sent.magic,
)

-- The check with the access granted.
verify_intent-request :
    (config : StorageConfig) (user : String) (dto : RequestUploadUrlDto) (drawn : Drawn) (now : ℕ)
    (db db' : UploadDb) (u : Intent) (storage : Answers) (sent : IsSent storage dto) (at : ℕ)
    → has_slash drawn.uuid ≡ false
    → request_intent config user dto drawn now db ≡ ok (db', u)
    → at < now + presigned_upload_expires_seconds * 1000
    → verify_intent config storage dto.purpose (ok tt) user u.entity_id u.id at db'
      ≡ ok (verified_of u (storage.digest sent.picture))
unfolding verify_intent
verify_intent-request config user dto drawn now db db' u storage sent at plain e early =
    let r = request_intent-Requested config user dto drawn now db e in
    let n = new_intent config user dto r.entity r.extension drawn now in
    let open_yet : ltb at (now + presigned_upload_expires_seconds * 1000) ≡ true = ground arith in
    rw (
      r.written,
      r.row,
      eq_refl drawn.intent_id,
      eq_refl user,
      eq_refl r.entity,
      purpose_is_refl dto.purpose,
      open_yet,
      ensure_intent_binding-made config dto.purpose n drawn.uuid r.extension r.known refl refl
          plain,
      ensure_uploaded_object-sent storage dto n sent refl refl,
      sent.sanitized,
    )

-- The upload `u` passes the check of its purpose: a piece of evidence or an attachment is
-- verified, with the digest of the picture; a photo or an avatar has a key that is let through.
abbrev pub PassesCheck :
    StorageConfig → Answers → List ℕ → String → Intent → ℕ → UploadDb → UploadPurpose → Type 0
PassesCheck config storage picture user u at db UploadPurpose.booking_evidence =
    verify_booking_evidence_intent config storage user u.entity_id u.id at db
    ≡ ok (verified_of u (storage.digest picture))
PassesCheck config storage picture user u at db UploadPurpose.dispute_evidence =
    verify_dispute_evidence_intent config storage user u.entity_id u.id at db
    ≡ ok (verified_of u (storage.digest picture))
PassesCheck config storage picture user u at db UploadPurpose.support_attachment =
    verify_support_attachment_intent config storage user u.entity_id u.id false at db
    ≡ ok (verified_of u (storage.digest picture))
PassesCheck config storage picture user u at db purpose =
    ensure_intent_binding config purpose u ≡ ok tt

module _ (config : StorageConfig) (user : String) (storage : Answers) (sha256 : String) (u : Intent)
    (at : ℕ) (db : UploadDb) where
  -- The check of access is the one that the request passed.
  with_access :
      (purpose : UploadPurpose) (access : Result (Unit {0}))
      → access ≡ ok tt
      → verify_intent config storage purpose (ok tt) user u.entity_id u.id at db
        ≡ ok (verified_of u sha256)
      → verify_intent config storage purpose access user u.entity_id u.id at db
        ≡ ok (verified_of u sha256)
  with_access purpose access granted e = rw granted e

only_one-entity :
    (o : Option String) (others : Bool) (access : String → Result (Unit {0})) {entity : String}
    → (only_one o others >>= (λ k. access k >>= (λ _. ok k))) ≡ ok entity
    → access entity ≡ ok tt
only_one-entity o others access {entity = entity} e =
    let (k, _, e1) = >>=-eq-ok (only_one o others) _ e in
    let (_, granted, e2) = >>=-eq-ok (access k) _ e1 in
    let same : k ≡ entity = ok-injective e2 in subst (λ x. access x ≡ ok tt) same granted

module _ (config : StorageConfig) (user : String) (dto : RequestUploadUrlDto) (drawn : Drawn)
    (now : ℕ) (db db' : UploadDb) (u : Intent) (storage : Answers) (sent : IsSent storage dto)
    (at : ℕ) (plain : has_slash drawn.uuid ≡ false)
    (done : request_intent config user dto drawn now db ≡ ok (db', u))
    (early : at < now + presigned_upload_expires_seconds * 1000) where
  requested : Requested config user dto drawn now db db' u
  requested = request_intent-Requested config user dto drawn now db done

  abbrev Verifies : UploadPurpose → Result (Unit {0}) → Type 0
  Verifies p access =
      verify_intent config storage p access user u.entity_id u.id at db'
      ≡ ok (verified_of u (storage.digest sent.picture))

  granted :
      (p : UploadPurpose) (access : String → UploadDb → Result (Unit {0}))
      → dto.purpose ≡ p
      → access requested.entity (record db { intents = u ∷ db.intents }) ≡ ok tt
      → Verifies p (access u.entity_id db')
  granted p access same may =
      let entity : u.entity_id ≡ requested.entity =
        ap (λ (x : Intent). x.entity_id) requested.row in
      with_access config user storage (storage.digest sent.picture) u at db' p
        (access u.entity_id db') (rw (entity, requested.written) may)
        (subst (λ q. Verifies q (ok tt)) same
          (verify_intent-request config user dto drawn now db db' u storage sent at plain done
            early))

  bound : (p : UploadPurpose) → dto.purpose ≡ p → ensure_intent_binding config p u ≡ ok tt
  bound p same =
      let n = new_intent config user dto requested.entity requested.extension drawn now in
      subst (λ q. ensure_intent_binding config q u ≡ ok tt) same
        (rw requested.row (
          ensure_intent_binding-made config dto.purpose n drawn.uuid requested.extension
            requested.known refl refl plain))

  checked_as :
      (p : UploadPurpose) → dto.purpose ≡ p → check_entity user dto p false db ≡ ok requested.entity
  checked_as p same =
      subst (λ q. check_entity user dto q false db ≡ ok requested.entity) same requested.checked

  passes_as :
      (p : UploadPurpose)
      → dto.purpose ≡ p
      → PassesCheck config storage sent.picture user u at db' p
  unfolding check_entity verify_booking_evidence_intent verify_dispute_evidence_intent
      verify_support_attachment_intent
  passes_as UploadPurpose.booking_evidence same =
      granted UploadPurpose.booking_evidence (ensure_booking_participant user) same (
        only_one-entity dto.booking_id
          (is_some dto.item_id || is_some dto.dispute_id || is_some dto.support_ticket_id)
          (λ k. ensure_booking_participant user k db)
          (checked_as UploadPurpose.booking_evidence same))
  passes_as UploadPurpose.dispute_evidence same =
      granted UploadPurpose.dispute_evidence (ensure_dispute_participant user) same (
        only_one-entity dto.dispute_id
          (is_some dto.item_id || is_some dto.booking_id || is_some dto.support_ticket_id)
          (λ k. ensure_dispute_participant user k db)
          (checked_as UploadPurpose.dispute_evidence same))
  passes_as UploadPurpose.support_attachment same =
      granted UploadPurpose.support_attachment (λ k. ensure_support_ticket_access user k false) same
        (only_one-entity dto.support_ticket_id
          (is_some dto.item_id || is_some dto.booking_id || is_some dto.dispute_id)
          (λ k. ensure_support_ticket_access user k false db)
          (checked_as UploadPurpose.support_attachment same))
  passes_as UploadPurpose.item_photo same = bound UploadPurpose.item_photo same
  passes_as UploadPurpose.avatar same = bound UploadPurpose.avatar same
  passes_as UploadPurpose.kyc_document same = bound UploadPurpose.kyc_document same

  -- An upload that was requested under a drawn name without slashes, was sent as announced, and is
  -- checked by its user before its fifteen minutes are over with the tables as the request left
  -- them: as evidence or an attachment it is verified, with the key that the request gave and the
  -- digest of the picture; the key of a photo or an avatar is let through.
  pub request_intent_round_trip : PassesCheck config storage sent.picture user u at db' dto.purpose
  request_intent_round_trip = passes_as dto.purpose refl
