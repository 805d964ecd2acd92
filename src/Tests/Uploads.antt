-- ===== src/Tests/Uploads.antt =====
-- A photo of the drill, evidence of a dispute and of an act, and the cleanup.
use sosedi_app.Prelude.{
  Bool, List, String, [], arith, eq_iff, false, find_first, none, refl, some, true, ℕ, ◌*◌, ◌∷◌,
  ◌≡◌, ◌≢◌,
}
use sosedi_app.Domain.Failure.{err, ok, upload_intent_not_found}
use sosedi_app.Tests.Data.{minute, open_case, returned_booking}
use sosedi_app.Uploads.{
  Answers, DisputeEvidence, DistinctIntents, Intent, ItemPhoto, StorageConfig, UploadDb,
  UploadPurpose,
}
use sosedi_app.Uploads.Cleanup.{StoredObject, cleanup_expired_uploads}
use sosedi_app.Uploads.Cleanup.Evidence.{cleanup-deletes_unread, cleanup-keeps_needed}
use sosedi_app.Uploads.Cleanup.Laws.{DistinctKeys, has_key, was_removed}
use sosedi_app.Uploads.Keys.{has_expected_magic_bytes, image_jpeg, quarantine_prefix}
use sosedi_app.Uploads.Photo.{
  ConfirmPhotoDto, ConfirmedPhoto, NewPhoto, confirm_item_photo, consume, new_photo,
}
use sosedi_app.Uploads.Photo.Bounds.{PhotosAreBounded, confirm_item_photo-PhotosAreBounded}
use sosedi_app.Uploads.Photo.Repeat.{confirm_item_photo_repeated}
use sosedi_app.Uploads.Request.{Drawn, RequestUploadUrlDto, new_intent, request_intent}
use sosedi_app.Uploads.Verify.{add_evidence}
use sosedi_app.Uploads.Verify.Evidence.{add_evidence_once}
use sosedi_app.Uploads.Verify.RoundTrip.{IsSent, PassesCheck, request_intent_round_trip}

abbrev config : StorageConfig
config = record {
  private_bucket = "private";
  public_bucket = "public";
  public_url = λ bucket key. key;
}

abbrev jpeg : List ℕ
jpeg = 0xff ∷ 0xd8 ∷ 0xff ∷ 0xe0 ∷ []

abbrev sent_file : Answers
sent_file = record {
  inspected =
      some (record { size_bytes = some 1000; content_type = some image_jpeg; prefix = jpeg });
  sanitized = some (1 ∷ 2 ∷ []);
  digest = λ bytes. "digest";
}

abbrev no_uploads : UploadDb
no_uploads = record {
  intents = [];
  items =
      record { id = "drill"; owner_id = "boris"; is_pending = false; reject_reason = none } ∷ [];
  photos = [];
  bookings = returned_booking ∷ [];
  disputes = open_case ∷ [];
  tickets = [];
  users = [];
  dispute_evidence = [];
}

abbrev evidence_request : RequestUploadUrlDto
evidence_request = record {
  purpose = UploadPurpose.dispute_evidence;
  content_type = image_jpeg;
  size_bytes = 1000;
  item_id = none;
  booking_id = none;
  dispute_id = some "f1";
  support_ticket_id = none;
}

abbrev drawn_names : Drawn
drawn_names = record { uuid = "u1"; intent_id = "i1" }

abbrev evidence_intent : Intent
evidence_intent = new_intent config "anna" evidence_request "f1" "jpg" drawn_names minute

abbrev asked_upload : UploadDb
asked_upload = record no_uploads { intents = evidence_intent ∷ [] }

requests_evidence :
    request_intent config "anna" evidence_request drawn_names minute no_uploads
    ≡ ok (asked_upload, evidence_intent)
unfolding request_intent
requests_evidence = refl

is_sent : IsSent sent_file evidence_request
unfolding has_expected_magic_bytes
is_sent = record {
  info = record { size_bytes = some 1000; content_type = some image_jpeg; prefix = jpeg };
  inspected = refl;
  size = refl;
  content = refl;
  magic = refl;
  picture = 1 ∷ 2 ∷ [];
  sanitized = refl;
}

request_intent_round_trip_example :
    PassesCheck config sent_file is_sent.picture "anna" evidence_intent
      (2 * minute)
      asked_upload
      UploadPurpose.dispute_evidence
request_intent_round_trip_example =
    request_intent_round_trip config "anna" evidence_request drawn_names minute no_uploads
      asked_upload evidence_intent sent_file is_sent (2 * minute) refl requests_evidence
      (omega arith)

-- The evidence is added, once.
abbrev annas_evidence : DisputeEvidence
annas_evidence = record {
  id = "e1";
  dispute_id = "f1";
  upload_intent_id = "i1";
  storage_key = evidence_intent.object_key;
  sha256 = "digest";
}

abbrev used_upload : UploadDb
used_upload = record asked_upload {
  intents = consume (2 * minute) evidence_intent ∷ [];
  dispute_evidence = annas_evidence ∷ [];
}

adds_evidence :
    add_evidence config sent_file "anna" "b1" "f1" "i1" "e1" (2 * minute) (2 * minute) asked_upload
    ≡ ok (used_upload, annas_evidence)
unfolding add_evidence
adds_evidence = refl

add_evidence_once_example :
    add_evidence config sent_file "boris" "b1" "f1" "i1" "e2" (3 * minute) (3 * minute) used_upload
    ≡ err upload_intent_not_found
add_evidence_once_example =
    add_evidence_once config sent_file "anna" "b1" "f1" "i1" "e1" (2 * minute) (2 * minute)
      asked_upload used_upload annas_evidence (tt, tt) adds_evidence sent_file "boris" "b1" "f1"
      "e2" (3 * minute) (3 * minute)

-- A photo of the drill, while nothing is booked.
abbrev photo_intent : Intent
photo_intent = record {
  id = "i2";
  actor_id = "boris";
  purpose = UploadPurpose.item_photo;
  entity_id = "drill";
  bucket = "private";
  object_key = "quarantine/item-photos/drill/u2.jpg";
  content_type = image_jpeg;
  size_bytes = 1000;
  expires_at = 900000;
  confirmed_at = none;
}

abbrev before_photo : UploadDb
before_photo = record no_uploads { intents = photo_intent ∷ []; bookings = [] }

abbrev photo_dto : ConfirmPhotoDto
photo_dto = record { intent_id = "i2"; sort_order = none; is_cover = none }

abbrev photo_row : NewPhoto
photo_row = record { id = "p1"; created_at = minute }

abbrev drill_photo : ItemPhoto
drill_photo = new_photo photo_dto photo_intent 0 true photo_row

abbrev confirmed_photo : ConfirmedPhoto
confirmed_photo = record { photo = drill_photo; should_queue = true }

abbrev after_photo : UploadDb
after_photo = record before_photo {
  intents = consume minute photo_intent ∷ [];
  photos = drill_photo ∷ [];
  items = record { id = "drill"; owner_id = "boris"; is_pending = true; reject_reason = none } ∷ [];
}

confirms_photo :
    confirm_item_photo config sent_file "boris" photo_dto photo_row minute minute before_photo
    ≡ ok (after_photo, confirmed_photo)
unfolding confirm_item_photo
confirms_photo = refl

confirm_item_photo-PhotosAreBounded_example : PhotosAreBounded after_photo
confirm_item_photo-PhotosAreBounded_example =
    confirm_item_photo-PhotosAreBounded config sent_file "boris" photo_dto photo_row minute minute
      before_photo after_photo confirmed_photo (λ item. (omega arith, omega arith)) confirms_photo

confirm_item_photo_repeated_example :
    confirm_item_photo config sent_file "boris" photo_dto photo_row 1000000 1000000 after_photo
    ≡ ok (after_photo, record { photo = drill_photo; should_queue = false })
confirm_item_photo_repeated_example =
    confirm_item_photo_repeated config sent_file sent_file "boris" photo_dto photo_row photo_row
      minute minute 1000000 1000000 before_photo after_photo confirmed_photo (tt, tt) confirms_photo
      refl

-- A confirmed piece of evidence, of the dispute or of an act, two days later.
abbrev act_intent : Intent
act_intent = record {
  id = "i3";
  actor_id = "boris";
  purpose = UploadPurpose.booking_evidence;
  entity_id = "b1";
  bucket = "private";
  object_key = "quarantine/booking-evidence/b1/boris/u3.jpg";
  content_type = image_jpeg;
  size_bytes = 1000;
  expires_at = 900000;
  confirmed_at = some minute;
}

abbrev two_uploads : UploadDb
two_uploads = record used_upload { intents = act_intent ∷ used_upload.intents }

abbrev two_days : ℕ
two_days = 2 * 24 * 60 * 60 * 1000

abbrev accepts_all : String → Bool
accepts_all k = false

abbrev listed : List StoredObject
listed =
    record { key = act_intent.object_key; last_modified = some minute }
    ∷ record { key = evidence_intent.object_key; last_modified = some minute }
    ∷ []

uploads_apart : DistinctIntents two_uploads
uploads_apart = ((ground (arith, eq_iff "i3" "i1"), tt), (tt, tt))

keys_apart : DistinctKeys two_uploads
unfolding quarantine_prefix
keys_apart = ((keys_ne, tt), (tt, tt))
  where
    keys_ne : act_intent.object_key ≢ evidence_intent.object_key
    keys_ne = ground (arith, eq_iff act_intent.object_key evidence_intent.object_key)

cleanup-keeps_needed_example :
    let s = cleanup_expired_uploads two_days accepts_all listed two_uploads in
    (was_removed evidence_intent.object_key s ≡ false)
    × (find_first (has_key evidence_intent.object_key) s.db.intents
        ≡ some (consume (2 * minute) evidence_intent))
unfolding quarantine_prefix
cleanup-keeps_needed_example =
    cleanup-keeps_needed two_days accepts_all listed two_uploads uploads_apart keys_apart
      evidence_intent.object_key (consume (2 * minute) evidence_intent) refl refl refl

cleanup-deletes_unread_example :
    let s = cleanup_expired_uploads two_days accepts_all listed two_uploads in
    (was_removed act_intent.object_key s ≡ true)
    × (find_first (has_key act_intent.object_key) s.db.intents ≡ some act_intent)
cleanup-deletes_unread_example =
    cleanup-deletes_unread two_days accepts_all listed two_uploads uploads_apart keys_apart
      act_intent.object_key act_intent refl refl refl refl
