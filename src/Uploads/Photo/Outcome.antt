-- ===== src/Uploads/Photo/Outcome.antt =====
-- The two ways in which the confirmation of a photo succeeds.
use sosedi_app.Prelude.{
  Bool-cases, String, ap, count_where, eqb, false, find_first, inl, inr, is_some, leb, some, sym,
  true, ℕ, ◌≡◌, ◌⊎◌,
}
use sosedi_app.Domain.Failure.{
  >>=-eq-ok, Error, ok, ok-pair, or_throw-eq-ok, throw_if-eq-ok, upload_intent_used,
}
use sosedi_app.Uploads.{
  Answers, Intent, OwnedItem, StorageConfig, UploadDb, UploadPurpose, ensure_no_unfinished_bookings,
  ensure_owned_item,
}
use sosedi_app.Uploads.Keys.{ensure_intent_binding, ensure_uploaded_object}
use sosedi_app.Uploads.Photo.{
  ConfirmPhotoDto, ConfirmedPhoto, NewPhoto, add_photo, came_from, confirm_item_photo,
  confirm_new_photo, confirm_photo_row, consumable, consumed, existing_photo, is_photo_intent,
}

-- The intent was confirmed before, and gave this photo.
pub record Known (db db' : UploadDb) (r : ConfirmedPhoto) : Type 0 where
  pub kept : db' ≡ db
  pub queued : r.should_queue ≡ false

-- The intent was open, and is confirmed now.
pub record Added (config : StorageConfig) (user : String) (dto : ConfirmPhotoDto) (new : NewPhoto)
    (at : ℕ) (db db' : UploadDb) (r : ConfirmedPhoto) : Type 0 where
  pub intent : Intent
  pub found : find_first (is_photo_intent user dto.intent_id) db.intents ≡ some intent
  pub bound : ensure_intent_binding config UploadPurpose.item_photo intent ≡ ok tt
  pub item : OwnedItem
  pub owned : ensure_owned_item user intent.entity_id db ≡ ok item
  pub once : eqb (count_where (consumable user intent.id at) db.intents) 1 ≡ true
  pub fresh : is_some intent.confirmed_at ≡ false
  pub written : add_photo dto intent new (consumed user intent at db) ≡ ok (db', r)

module _ (db : UploadDb) {db' : UploadDb} {r : ConfirmedPhoto} where
  existing_photo-Known :
      (e : Error) (u : Intent) → existing_photo e u db ≡ ok (db', r) → Known db db' r
  existing_photo-Known e u h =
      let (p, _, h1) = or_throw-eq-ok (find_first (came_from u.id) db.photos) _ _ h in
      record {
        kept = sym (ok-pair h1).0;
        queued = ap (λ (x : ConfirmedPhoto). x.should_queue) (sym (ok-pair h1).1);
      }

  confirm_new_photo-cases :
      (storage : Answers) (user : String) (dto : ConfirmPhotoDto) (u : Intent) (new : NewPhoto)
      (now at : ℕ)
      → confirm_new_photo storage user dto u new now at db ≡ ok (db', r)
      → Known db db' r
        ⊎ ((eqb (count_where (consumable user u.id at) db.intents) 1 ≡ true)
            × (add_photo dto u new (consumed user u at db) ≡ ok (db', r)))
  unfolding confirm_new_photo confirm_photo_row
  confirm_new_photo-cases storage user dto u new now at e =
      let (_, _, e1) = >>=-eq-ok (ensure_no_unfinished_bookings u.entity_id db) _ e in
      let (_, e2) = throw_if-eq-ok (leb u.expires_at now) _ _ e1 in
      let (_, _, e3) = >>=-eq-ok (ensure_uploaded_object storage u) _ e2 in
      elim (Bool-cases (eqb (count_where (consumable user u.id at) db.intents) 1)) [
        | inl one ↦ inr (one, rw one at e3)
        | inr none_left ↦ inl (existing_photo-Known upload_intent_used u (rw none_left at e3))
      ]

  pub confirm_item_photo-outcome :
      (config : StorageConfig) (storage : Answers) (user : String) (dto : ConfirmPhotoDto)
      (new : NewPhoto) (now at : ℕ)
      → confirm_item_photo config storage user dto new now at db ≡ ok (db', r)
      → Known db db' r ⊎ Added config user dto new at db db' r
  unfolding confirm_item_photo
  confirm_item_photo-outcome config storage user dto new now at e =
      let (u, found, e1) =
        or_throw-eq-ok (find_first (is_photo_intent user dto.intent_id) db.intents) _ _ e in
      let (_, bound, e2) =
        >>=-eq-ok (ensure_intent_binding config UploadPurpose.item_photo u) _ e1 in
      let (i, owned, e3) = >>=-eq-ok (ensure_owned_item user u.entity_id db) _ e2 in
      elim (Bool-cases (is_some u.confirmed_at)) [
        | inl before ↦
            let k = existing_photo-Known upload_intent_used u (rw before at e3) in
            inl (record { kept = k.kept; queued = k.queued })
        | inr fresh ↦
            elim (confirm_new_photo-cases storage user dto u new now at (rw fresh at e3)) [
              | inl k ↦ inl (record { kept = k.kept; queued = k.queued })
              | inr (one, written) ↦ inr (record {
                intent = u;
                found = found;
                bound = bound;
                item = i;
                owned = owned;
                once = one;
                fresh = fresh;
                written = written;
              })
            ]
      ]
