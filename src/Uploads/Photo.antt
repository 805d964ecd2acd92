-- ===== src/Uploads/Photo.antt =====
-- `confirmItemPhotoUpload` of backend/src/upload/upload.service.ts: an uploaded picture becomes a
-- photo of an item.
pub mod Bounds
pub mod Outcome
pub mod Repeat
use sosedi_app.Prelude.{
  Bool, List, Option, String, any, count_where, eqb, false, find_first, if◌then◌else◌, is_some, leb,
  none, some, true, update_many, ℕ, ◌&&◌, ◌==◌, ◌||◌, ◌∷◌,
}
use sosedi_app.Domain.Failure.{
  Error, Result, ok, or_throw, photo_limit_reached, throw_if, unique_violation,
  upload_intent_expired, upload_intent_not_found, upload_intent_used, ◌>>=◌, ◌>>◌,
}
use sosedi_app.Uploads.{
  Answers, Intent, ItemPhoto, OwnedItem, StorageConfig, UploadDb, UploadPurpose,
  ensure_no_unfinished_bookings, ensure_owned_item, is_open_intent, max_item_photo_count,
  purpose_is,
}
use sosedi_app.Uploads.Keys.{ensure_intent_binding, ensure_uploaded_object}

pub record ConfirmPhotoDto : Type 0 where
  pub intent_id : String
  pub sort_order : Option ℕ
  pub is_cover : Option Bool

-- What the database fills in for a new photo.
pub record NewPhoto : Type 0 where
  pub id : String
  pub created_at : ℕ

-- The photo, and whether its processing is put in the queue.
pub record ConfirmedPhoto : Type 0 where
  pub photo : ItemPhoto
  pub should_queue : Bool

abbrev pub value_or {ℓ} : {A : Type ℓ} → A → Option A → A
value_or d none = d
value_or d (some a) = a

abbrev pub is_photo_intent : String → String → Intent → Bool
is_photo_intent user k u =
    u.id == k && (u.actor_id == user && purpose_is u.purpose UploadPurpose.item_photo)

abbrev pub came_from : String → ItemPhoto → Bool
came_from intent p = elim p.upload_intent_id [ none ↦ false | some k ↦ k == intent ]

abbrev pub photo_of : String → ItemPhoto → Bool
photo_of item p = p.item_id == item

-- `where: { id, actorId, confirmedAt: null, expiresAt: { gt: confirmedAt } }`
abbrev pub consumable : String → String → ℕ → Intent → Bool
consumable user k now u = u.id == k && (u.actor_id == user && is_open_intent now u)

abbrev pub consume : ℕ → Intent → Intent
consume now u = record u { confirmed_at = some now }

abbrev pub uncover : ItemPhoto → ItemPhoto
uncover p = record p { is_cover = false }

abbrev pub uncovered : Bool → String → List ItemPhoto → List ItemPhoto
uncovered cover item photos = if cover then update_many (photo_of item) uncover photos else photos

abbrev pub new_photo : ConfirmPhotoDto → Intent → ℕ → Bool → NewPhoto → ItemPhoto
new_photo dto u n cover new = record {
  id = new.id;
  item_id = u.entity_id;
  upload_intent_id = some u.id;
  original_url = none;
  sort_order = value_or n dto.sort_order;
  is_cover = cover;
  created_at = new.created_at;
}

-- The item goes back to moderation.
abbrev pub resubmit : OwnedItem → OwnedItem
resubmit i = record i { is_pending = true; reject_reason = none }

-- The writes after the intent was consumed.
unfoldable pub add_photo :
    ConfirmPhotoDto → Intent → NewPhoto → UploadDb → Result (UploadDb × ConfirmedPhoto)
add_photo dto u new db = do
  let n = count_where (photo_of u.entity_id) db.photos
  throw_if (leb max_item_photo_count n) photo_limit_reached
  let cover = value_or (eqb n 0) dto.is_cover
  let p = new_photo dto u n cover new
  throw_if (any (λ q. q.id == new.id || came_from u.id q) db.photos) unique_violation
  ok (
    record db {
      photos = p ∷ uncovered cover u.entity_id db.photos;
      items = update_many (λ i. i.id == u.entity_id) resubmit db.items;
    },
    record { photo = p; should_queue = true },
  )

-- The photo that the intent already gave.
abbrev pub existing_photo : Error → Intent → UploadDb → Result (UploadDb × ConfirmedPhoto)
existing_photo e u db = do
  p ← or_throw (find_first (came_from u.id) db.photos) e
  ok (db, record { photo = p; should_queue = false })

abbrev pub consumed : String → Intent → ℕ → UploadDb → UploadDb
consumed user u at db = record db {
  intents = update_many (consumable user u.id at) (consume at) db.intents;
}

-- The transaction, at the moment `at`.
unfoldable pub confirm_photo_row :
    String → ConfirmPhotoDto → Intent → NewPhoto → ℕ → UploadDb → Result (UploadDb × ConfirmedPhoto)
unfolding add_photo
confirm_photo_row user dto u new at db =
    if eqb (count_where (consumable user u.id at) db.intents) 1
    then add_photo dto u new (consumed user u at db)
    else existing_photo upload_intent_used u db

-- An intent that is not confirmed yet.
unfoldable pub confirm_new_photo :
    Answers
    → String
    → ConfirmPhotoDto
    → Intent
    → NewPhoto
    → ℕ
    → ℕ
    → UploadDb
    → Result (UploadDb × ConfirmedPhoto)
unfolding ensure_uploaded_object confirm_photo_row
confirm_new_photo storage user dto u new now at db = do
  ensure_no_unfinished_bookings u.entity_id db
  throw_if (leb u.expires_at now) upload_intent_expired
  ensure_uploaded_object storage u
  confirm_photo_row user dto u new at db

-- `confirmItemPhotoUpload`; the checks read the clock at `now`, the transaction at `at`.
unfoldable pub confirm_item_photo :
    StorageConfig
    → Answers
    → String
    → ConfirmPhotoDto
    → NewPhoto
    → ℕ
    → ℕ
    → UploadDb
    → Result (UploadDb × ConfirmedPhoto)
unfolding ensure_intent_binding confirm_new_photo
confirm_item_photo config storage user dto new now at db = do
  u ← or_throw (find_first (is_photo_intent user dto.intent_id) db.intents) upload_intent_not_found
  ensure_intent_binding config UploadPurpose.item_photo u
  _ ← ensure_owned_item user u.entity_id db
  if is_some u.confirmed_at
      then existing_photo upload_intent_used u db
      else confirm_new_photo storage user dto u new now at db
