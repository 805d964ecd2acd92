-- ===== src/Uploads/Keys.antt =====
-- The keys of uploaded objects, and the checks of an object against its intent:
-- backend/src/upload/upload.service.ts.
pub mod Laws
use sosedi_app.Prelude.{
  Bool, List, Option, String, [], any, eqb, false, if◌then◌else◌, leb, length, ltb, none, not, some,
  suc, take, true, zero, ℕ, ◌%◌, ◌&&◌, ◌==◌, ◌||◌, ◌∷◌,
}
use sosedi_app.Domain.Failure.{
  Result, content_type_not_allowed, magic_bytes_mismatch, object_mismatch, object_missing, or_throw,
  size_not_allowed, throw_if, upload_binding_mismatch, ◌>>=◌, ◌>>◌,
}
use sosedi_app.Text.{codes}
use sosedi_app.Uploads.{Answers, Intent, StorageConfig, UploadPurpose, max_upload_size_bytes}
use Prim.Native.String.{◌++◌, len, slice}
use text.Mathlib.Text.{starts_with}

abbrev pub image_jpeg : String
image_jpeg = "image/jpeg"

abbrev pub image_png : String
image_png = "image/png"

abbrev pub image_webp : String
image_webp = "image/webp"

-- `ALLOWED_UPLOAD_CONTENT_TYPES.includes(contentType)`
abbrev pub is_allowed_type : String → Bool
is_allowed_type t = t == image_jpeg || t == image_png || t == image_webp

-- `ensureAllowedFile`
abbrev pub ensure_allowed_file : String → ℕ → Result (Unit {0})
ensure_allowed_file content_type size = do
  throw_if (not (is_allowed_type content_type)) content_type_not_allowed
  throw_if (ltb size 1 || ltb max_upload_size_bytes size) size_not_allowed

-- `contentTypeExtensions[contentType]`
abbrev pub extension_of : String → Option String
extension_of t =
    if t == image_jpeg
    then some "jpg"
    else if t == image_png
    then some "png"
    else if t == image_webp
    then some "webp"
    else none

-- `getExtension`
abbrev pub get_extension : String → Result String
get_extension t = or_throw (extension_of t) content_type_not_allowed

-- The prefixes of the keys; `kyc_document` has none, since such uploads are refused.
unfoldable pub quarantine_prefix : UploadPurpose → String → String → String
quarantine_prefix UploadPurpose.item_photo entity actor = "quarantine/item-photos/" ++ entity ++ "/"
quarantine_prefix UploadPurpose.avatar entity actor = "quarantine/avatars/" ++ entity ++ "/"
quarantine_prefix UploadPurpose.booking_evidence entity actor =
    "quarantine/booking-evidence/" ++ entity ++ "/" ++ actor ++ "/"
quarantine_prefix UploadPurpose.dispute_evidence entity actor =
    "quarantine/dispute-evidence/" ++ entity ++ "/" ++ actor ++ "/"
quarantine_prefix UploadPurpose.support_attachment entity actor =
    "quarantine/support-attachments/" ++ entity ++ "/" ++ actor ++ "/"
quarantine_prefix UploadPurpose.kyc_document entity actor = ""

-- `${uuid}.${extension}`
abbrev pub file_name : String → String → String
file_name uuid extension = uuid ++ ("." ++ extension)

-- `s.endsWith(t)`
unfoldable pub ends_with : String → String → Bool
ends_with String.[] t = "" == t
ends_with (String.◌∷◌ c s) t = String.◌∷◌ c s == t || ends_with s t

-- `fileName.includes('/')`
abbrev pub has_slash : String → Bool
has_slash s = any (eqb b'/') (codes s)

-- The condition under which the key of an intent is refused.
abbrev pub key_mismatch : StorageConfig → String → String → Intent → Bool
key_mismatch config prefix extension u =
    let name = slice u.object_key (len prefix) (len u.object_key) in
    not (u.bucket == config.private_bucket)
    || not (starts_with u.object_key prefix)
    || name == ""
    || has_slash name
    || not (ends_with name ("." ++ extension))

-- `ensureItemPhotoIntentBinding`, `ensureAvatarIntentBinding` and the three others, which differ
-- in the prefix only.
unfoldable pub ensure_intent_binding : StorageConfig → UploadPurpose → Intent → Result (Unit {0})
unfolding quarantine_prefix ends_with
ensure_intent_binding config purpose u = do
  extension ← get_extension u.content_type
  throw_if (key_mismatch config (quarantine_prefix purpose u.entity_id u.actor_id) extension u)
      upload_binding_mismatch

abbrev pub same_bytes : List ℕ → List ℕ → Bool
same_bytes [] [] = true
same_bytes (x ∷ xs) (y ∷ ys) = eqb x y && same_bytes xs ys
same_bytes _ _ = false

abbrev pub drop_bytes : ℕ → List ℕ → List ℕ
drop_bytes zero bytes = bytes
drop_bytes (suc n) [] = []
drop_bytes (suc n) (b ∷ bytes) = drop_bytes n bytes

-- `bytes.toString('ascii')` drops the highest bit of each byte.
abbrev pub ascii : List ℕ → List ℕ
ascii [] = []
ascii (b ∷ bytes) = (b % 128) ∷ ascii bytes

-- `hasExpectedMagicBytes`
unfoldable pub has_expected_magic_bytes : String → List ℕ → Bool
has_expected_magic_bytes t bytes =
    if t == image_jpeg
    then same_bytes (take 3 bytes) (0xff ∷ 0xd8 ∷ 0xff ∷ [])
    else if t == image_png
    then same_bytes (take 8 bytes) (0x89 ∷ 0x50 ∷ 0x4e ∷ 0x47 ∷ 0x0d ∷ 0x0a ∷ 0x1a ∷ 0x0a ∷ [])
    else if t == image_webp
    then (leb 12 (length bytes)
        && (same_bytes (ascii (take 4 bytes)) (codes "RIFF")
            && same_bytes (ascii (take 4 (drop_bytes 8 bytes))) (codes "WEBP")))
    else false

abbrev pub same_size : Option ℕ → ℕ → Bool
same_size none n = false
same_size (some m) n = eqb m n

abbrev pub same_type : Option String → String → Bool
same_type none t = false
same_type (some s) t = s == t

-- `ensureUploadedObject`
unfoldable pub ensure_uploaded_object : Answers → Intent → Result (Unit {0})
unfolding has_expected_magic_bytes
ensure_uploaded_object storage u = do
  o ← or_throw storage.inspected object_missing
  throw_if
      (not (same_size o.size_bytes u.size_bytes) || not (same_type o.content_type u.content_type))
      object_mismatch
  throw_if (not (has_expected_magic_bytes u.content_type o.prefix)) magic_bytes_mismatch
