-- ===== src/Uploads/Verify/Requested.antt =====
-- What a successful request of an upload has found and written.
use sosedi_app.Prelude.{String, any, false, sym, ℕ, ◌==◌, ◌||◌, ◌∷◌, ◌≡◌}
use sosedi_app.Domain.Failure.{>>=-eq-ok, ok, ok-pair, throw_if-eq-ok}
use sosedi_app.Uploads.{Intent, StorageConfig, UploadDb, UploadPurpose, purpose_is}
use sosedi_app.Uploads.Keys.{ensure_allowed_file, get_extension}
use sosedi_app.Uploads.Request.{
  Drawn, RequestUploadUrlDto, check_entity, create_intent, new_intent, request_intent,
}

-- What a successful request wrote.
pub record Requested (config : StorageConfig) (user : String) (dto : RequestUploadUrlDto)
    (drawn : Drawn) (now : ℕ) (db db' : UploadDb) (u : Intent) : Type 0 where
  pub entity : String
  pub checked : check_entity user dto dto.purpose false db ≡ ok entity
  pub extension : String
  pub known : get_extension dto.content_type ≡ ok extension
  pub row : u ≡ new_intent config user dto entity extension drawn now
  pub written : db' ≡ record db { intents = u ∷ db.intents }

create_intent-written :
    (config : StorageConfig) (user : String) (dto : RequestUploadUrlDto) (entity : String)
    (drawn : Drawn) (now : ℕ) (db : UploadDb) {db' : UploadDb} {u : Intent}
    → create_intent config user dto entity drawn now db ≡ ok (db', u)
    → (extension : String) × (get_extension dto.content_type ≡ ok extension)
      × (u ≡ new_intent config user dto entity extension drawn now)
      × (db' ≡ record db { intents = u ∷ db.intents })
unfolding create_intent
create_intent-written config user dto entity drawn now db e =
    let (extension, known, e1) = >>=-eq-ok (get_extension dto.content_type) _ e in
    let (_, e2) =
      throw_if-eq-ok
        (any
          (λ x.
            x.id == drawn.intent_id
            || x.object_key == (new_intent config user dto entity extension drawn now).object_key)
          db.intents)
        _ _ e1 in
    let row = sym (ok-pair e2).1 in (extension, known, row, rw row (sym (ok-pair e2).0))

pub request_intent-Requested :
    (config : StorageConfig) (user : String) (dto : RequestUploadUrlDto) (drawn : Drawn) (now : ℕ)
    (db : UploadDb) {db' : UploadDb} {u : Intent}
    → request_intent config user dto drawn now db ≡ ok (db', u)
    → Requested config user dto drawn now db db' u
unfolding request_intent
request_intent-Requested config user dto drawn now db e =
    let (_, e1) = throw_if-eq-ok (purpose_is dto.purpose UploadPurpose.kyc_document) _ _ e in
    let (_, _, e2) = >>=-eq-ok (ensure_allowed_file dto.content_type dto.size_bytes) _ e1 in
    let (entity, checked, e3) = >>=-eq-ok (check_entity user dto dto.purpose false db) _ e2 in
    let w = create_intent-written config user dto entity drawn now db e3 in
    record {
      entity = entity;
      checked = checked;
      extension = w.0;
      known = w.1;
      row = w.2;
      written = w.3;
    }
