-- ===== src/Uploads/Avatar.antt =====
-- `confirmAvatarUpload` of backend/src/upload/upload.service.ts: an uploaded picture becomes the
-- avatar of the user.
use sosedi_app.Prelude.{
  Bool, String, any, count_where, eqb, find_first, if◌then◌else◌, is_some, leb, not, some,
  update_many, ℕ, ◌&&◌, ◌==◌,
}
use sosedi_app.Domain.Failure.{
  Result, image_unsafe, ok, or_throw, throw_if, upload_intent_expired, upload_intent_not_found,
  upload_intent_used, user_not_found, ◌>>=◌, ◌>>◌,
}
use sosedi_app.Uploads.{Answers, Intent, StorageConfig, UploadDb, UploadPurpose, purpose_is}
use sosedi_app.Uploads.Keys.{ensure_intent_binding, ensure_uploaded_object}
use sosedi_app.Uploads.Photo.{consumable, consumed}
use Prim.Native.String.{◌++◌}

abbrev pub is_avatar_intent : String → String → Intent → Bool
is_avatar_intent user k u =
    u.id == k && (u.actor_id == user && purpose_is u.purpose UploadPurpose.avatar)

abbrev pub avatar_key : String → Intent → String
avatar_key user u = "avatars/" ++ user ++ "/" ++ u.id ++ ".webp"

-- The address is fixed by the intent.
abbrev pub avatar_url : StorageConfig → String → Intent → String
avatar_url config user u = config.public_url config.public_bucket (avatar_key user u)

-- The transaction, at the moment `at`.
unfoldable pub confirm_avatar_row : String → Intent → String → ℕ → UploadDb → Result UploadDb
confirm_avatar_row user u url at db =
    if eqb (count_where (consumable user u.id at) db.intents) 1
    then (do
      throw_if (not (any (λ a. a.id == user) db.users)) user_not_found
      ok (record (consumed user u at db) {
        users = update_many (λ a. a.id == user) (λ a. record a { avatar_url = some url }) db.users;
      }))
    else (do
      throw_if (not (any (λ x. is_avatar_intent user u.id x && is_some x.confirmed_at) db.intents))
          upload_intent_used
      ok db)

-- `confirmAvatarUpload`; the picture that is stored is the storage's affair.
unfoldable pub confirm_avatar :
    StorageConfig → Answers → String → String → ℕ → ℕ → UploadDb → Result (UploadDb × String)
unfolding ensure_intent_binding ensure_uploaded_object confirm_avatar_row
confirm_avatar config storage user k now at db = do
  u ← or_throw (find_first (is_avatar_intent user k) db.intents) upload_intent_not_found
  throw_if (not (u.entity_id == user)) upload_intent_not_found
  ensure_intent_binding config UploadPurpose.avatar u
  let url = avatar_url config user u
  if is_some u.confirmed_at then ok (db, url) else (do
    throw_if (leb u.expires_at now) upload_intent_expired
    ensure_uploaded_object storage u
    _ ← or_throw storage.sanitized image_unsafe
    db' ← confirm_avatar_row user u url at db
    ok (db', url))
