-- ===== src/Uploads/Cleanup.antt =====
-- backend/src/upload/upload-cleanup.service.ts: objects in quarantine that nobody needs are
-- deleted. What the storage lists, and which keys it refuses to delete, are arguments.
pub mod Laws
pub mod Evidence
use sosedi_app.Prelude.{
  Bool, List, Option, String, [], any, delete_many, false, filter_rows, find_first, if◌then◌else◌,
  is_some, leb, none, not, some, true, ℕ, ◌&&◌, ◌*◌, ◌+◌, ◌==◌, ◌||◌, ◌∷◌,
}
use sosedi_app.Text.{is_empty}
use sosedi_app.Uploads.{Intent, ItemPhoto, UploadDb, UploadPurpose, purpose_is}
use sosedi_app.Uploads.Photo.{came_from}

pub record StoredObject : Type 0 where
  pub key : String
  pub last_modified : Option ℕ

-- The tables, the keys that were deleted, and their number.
pub record CleanupState : Type 0 where
  pub db : UploadDb
  pub removed : List String
  pub deleted : ℕ

abbrev pub upload_intent_cleanup_grace_ms : ℕ
upload_intent_cleanup_grace_ms = 24 * 60 * 60 * 1000

abbrev pub rejected_upload_retention_ms : ℕ
rejected_upload_retention_ms = 7 * 24 * 60 * 60 * 1000

-- The purposes whose intents the cleanup reads.
abbrev pub is_cleaned : UploadPurpose → Bool
is_cleaned UploadPurpose.item_photo = true
is_cleaned UploadPurpose.avatar = true
is_cleaned UploadPurpose.dispute_evidence = true
is_cleaned _ = false

-- `Boolean(photo?.originalUrl)`
abbrev pub has_url : Option ItemPhoto → Bool
has_url none = false
has_url (some p) = elim p.original_url [ none ↦ false | some url ↦ not (is_empty url) ]

abbrev pub photo_for : Intent → UploadDb → Option ItemPhoto
photo_for u db =
    if is_some u.confirmed_at && purpose_is u.purpose UploadPurpose.item_photo
    then find_first (came_from u.id) db.photos
    else none

-- `confirmedAt <= rejectedCutoff`, with the cutoff brought to the other side.
abbrev pub was_confirmed_before : ℕ → Option ℕ → Bool
was_confirmed_before now none = false
was_confirmed_before now (some t) = leb (t + rejected_upload_retention_ms) now

abbrev pub is_rejected_upload : ℕ → Intent → Option ItemPhoto → Bool
is_rejected_upload now u photo =
    purpose_is u.purpose UploadPurpose.item_photo
    && (not (has_url photo) && was_confirmed_before now u.confirmed_at)

abbrev pub is_expired_upload : ℕ → Intent → Option ItemPhoto → Bool
is_expired_upload now u photo =
    leb (u.expires_at + upload_intent_cleanup_grace_ms) now
    && (if purpose_is u.purpose UploadPurpose.dispute_evidence
        then not (is_some u.confirmed_at)
        else not (is_some u.confirmed_at) || not (is_some photo) || has_url photo)

abbrev pub unprocessed_from : String → ItemPhoto → Bool
unprocessed_from intent p = came_from intent p && not (is_some p.original_url)

-- The rows that go with the object of an intent.
abbrev pub delete_rows : Bool → Intent → UploadDb → UploadDb
delete_rows rejected u db = record db {
  photos = if rejected then delete_many (unprocessed_from u.id) db.photos else db.photos;
  intents = delete_many (λ x. x.id == u.id) db.intents;
}

-- The body of the loop over the intents; an error of the storage is logged.
unfoldable pub clean_intent : ℕ → (String → Bool) → Intent → CleanupState → CleanupState
clean_intent now refuses u s =
    let photo = photo_for u s.db in
    let rejected = is_rejected_upload now u photo in
    if not (rejected || is_expired_upload now u photo) || refuses u.object_key then s else record {
      db = delete_rows rejected u s.db;
      removed = u.object_key ∷ s.removed;
      deleted = s.deleted + 1;
    }

abbrev pub clean_intents : ℕ → (String → Bool) → List Intent → CleanupState → CleanupState
clean_intents now refuses [] s = s
clean_intents now refuses (u ∷ us) s = clean_intents now refuses us (clean_intent now refuses u s)

abbrev pub is_old : ℕ → Option ℕ → Bool
is_old now none = false
is_old now (some t) = leb (t + upload_intent_cleanup_grace_ms) now

abbrev pub is_known : List Intent → String → Bool
is_known intents k = any (λ u. u.object_key == k) intents

-- The body of the loop over the listed objects.
abbrev pub clean_object :
    ℕ → (String → Bool) → List Intent → StoredObject → CleanupState → CleanupState
clean_object now refuses intents o s =
    if is_known intents o.key || not (is_old now o.last_modified) || refuses o.key
    then s
    else record s { removed = o.key ∷ s.removed; deleted = s.deleted + 1 }

abbrev pub clean_objects :
    ℕ → (String → Bool) → List Intent → List StoredObject → CleanupState → CleanupState
clean_objects now refuses intents [] s = s
clean_objects now refuses intents (o ∷ os) s =
    clean_objects now refuses intents os (clean_object now refuses intents o s)

-- `intents`, as the query gives them.
abbrev pub cleaned_intents : UploadDb → List Intent
cleaned_intents db = filter_rows (λ u. is_cleaned u.purpose) db.intents

-- `cleanupExpiredUploads`
unfoldable pub cleanup_expired_uploads :
    ℕ → (String → Bool) → List StoredObject → UploadDb → CleanupState
unfolding clean_intent
cleanup_expired_uploads now refuses objects db =
    let intents = cleaned_intents db in
    clean_objects now refuses intents objects
      (clean_intents now refuses intents (record { db = db; removed = []; deleted = 0 }))
