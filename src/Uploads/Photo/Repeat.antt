-- ===== src/Uploads/Photo/Repeat.antt =====
-- A confirmation of a photo that is sent again.
use sosedi_app.Prelude.{
  All, All-mono, Bool, Bool-cases, List, String, String-cases, [], any, arith, count_where, eq_iff,
  eq_refl, eqb, false, find_first, find_first-update_many, find_first_only, inl, inr, is_some, leb,
  refl, some, subst₂, true, update_many, update_row, ℕ, ◌&&◌, ◌==◌, ◌||◌, ◌∙◌, ◌∷◌, ◌≡◌,
}
use sosedi_app.Domain.Failure.{item_not_found, ok, ok-pair, or_throw-ok, throw_if-eq-ok}
use sosedi_app.Uploads.{
  Answers, DistinctIntents, Intent, ItemPhoto, OwnedItem, StorageConfig, UploadDb, UploadPurpose,
  max_item_photo_count,
}
use sosedi_app.Uploads.Keys.{ensure_intent_binding}
use sosedi_app.Uploads.Photo.{
  ConfirmPhotoDto, ConfirmedPhoto, NewPhoto, add_photo, came_from, confirm_item_photo, consumable,
  consume, consumed, is_photo_intent, photo_of, resubmit,
}
use sosedi_app.Uploads.Photo.Outcome.{confirm_item_photo-outcome}

module _ (user : String) (at : ℕ) where
  same_photo_intent :
      (k user' : String) (id : String) (u : Intent)
      → is_photo_intent user' k (update_row (consumable user id at) (consume at) u)
        ≡ is_photo_intent user' k u
  same_photo_intent k user' id u = elim (Bool-cases (consumable user id at u)) [
    | inl t ↦ rw t
    | inr t ↦ rw t
  ]

-- The intent that is found and alone open under its identifier is the one that is consumed.
found_consumed :
    (user k : String) (at : ℕ) (u : Intent) (rows : List Intent)
    → find_first (is_photo_intent user k) rows ≡ some u
    → consumable user u.id at u ≡ true
    → find_first (is_photo_intent user k) (update_many (consumable user u.id at) (consume at) rows)
      ≡ some (consume at u)
found_consumed user k at u rows found may =
    find_first-update_many (is_photo_intent user k) (consumable user u.id at) (consume at) rows
      (same_photo_intent user at k user u.id)
    ∙ rw (found, may)

still_owned :
    (user item other : String) (rows : List OwnedItem) {i : OwnedItem}
    → find_first (λ x. x.id == item && x.owner_id == user) rows ≡ some i
    → (j : OwnedItem) × (find_first
          (λ x. x.id == item && x.owner_id == user)
          (update_many (λ x. x.id == other) resubmit rows)
        ≡ some j)
still_owned user item other rows {i} found = (
  update_row (λ x. x.id == other) resubmit i,
  find_first-update_many (λ x. x.id == item && x.owner_id == user) (λ x. x.id == other) resubmit
        rows (λ x. elim (Bool-cases (x.id == other)) [ inl t ↦ rw t | inr t ↦ rw t ])
      ∙ rw found,
)

-- What the writes leave.
record Left (dto : ConfirmPhotoDto) (u : Intent) (db db' : UploadDb) (r : ConfirmedPhoto)
    : Type 0 where
  intents : db'.intents ≡ db.intents
  items : db'.items ≡ update_many (λ i. i.id == u.entity_id) resubmit db.items
  photo : find_first (came_from u.id) db'.photos ≡ some r.photo
  queued : r.should_queue ≡ true

add_photo-Left :
    (dto : ConfirmPhotoDto) (u : Intent) (new : NewPhoto) (db db' : UploadDb) (r : ConfirmedPhoto)
    → add_photo dto u new db ≡ ok (db', r)
    → Left dto u db db' r
unfolding add_photo
add_photo-Left dto u new db db' r e =
    let n = count_where (photo_of u.entity_id) db.photos in
    let (_, e1) = throw_if-eq-ok (leb max_item_photo_count n) _ _ e in
    let (_, e2) = throw_if-eq-ok (any (λ q. q.id == new.id || came_from u.id q) db.photos) _ _ e1 in
    let parts = ok-pair e2 in
    subst₂ (Left dto u db) parts.0 parts.1
      (record { intents = refl; items = refl; photo = rw (eq_refl u.id); queued = refl })

module _ (config : StorageConfig) (storage : Answers) (user : String) (dto : ConfirmPhotoDto)
    (new : NewPhoto) (now at : ℕ) (db : UploadDb) where
  -- The path of an intent that is confirmed.
  confirm_item_photo-old :
      (u : Intent) (i : OwnedItem) (p : ItemPhoto)
      → find_first (is_photo_intent user dto.intent_id) db.intents ≡ some u
      → ensure_intent_binding config UploadPurpose.item_photo u ≡ ok tt
      → find_first (λ x. x.id == u.entity_id && x.owner_id == user) db.items ≡ some i
      → is_some u.confirmed_at ≡ true
      → find_first (came_from u.id) db.photos ≡ some p
      → confirm_item_photo config storage user dto new now at db
        ≡ ok (db, record { photo = p; should_queue = false })
  unfolding confirm_item_photo
  confirm_item_photo-old u i p found bound owned before photo =
      rw (found, bound, owned, before, photo)

ensure_intent_binding-consume :
    (config : StorageConfig) (at : ℕ) (u : Intent)
    → ensure_intent_binding config UploadPurpose.item_photo (consume at u)
      ≡ ensure_intent_binding config UploadPurpose.item_photo u
unfolding ensure_intent_binding
ensure_intent_binding-consume config at u = refl

count_where_none {ℓ} :
    {A : Type ℓ} (p : A → Bool) (xs : List A) → All (λ x. p x ≡ false) xs → count_where p xs ≡ 0
count_where_none p [] h = refl
count_where_none p (x ∷ xs) h = rw h.0 (count_where_none p xs h.1)

-- Where identifiers are distinct, the row that is counted is the one that was found.
counted_row :
    (user k : String) (at : ℕ) (u : Intent) (db : UploadDb)
    → DistinctIntents db
    → find_first (is_photo_intent user k) db.intents ≡ some u
    → eqb (count_where (consumable user u.id at) db.intents) 1 ≡ true
    → consumable user u.id at u ≡ true
counted_row user k at u db distinct found one = elim (Bool-cases (consumable user u.id at u)) [
  | inl t ↦ t
  | inr f ↦
      let zero_rows = count_where_none (consumable user u.id at) db.intents (
        All-mono (λ (x : Intent). x.id ≡ u.id → x ≡ u) (λ x. consumable user u.id at x ≡ false)
          db.intents
          (λ x same. elim (String-cases x.id u.id) [
            | inl here ↦ rw (same here) f
            | inr there ↦ ground (arith, eq_iff x.id u.id)
          ])
          (find_first_only (λ (x : Intent). x.id) (is_photo_intent user k) db.intents distinct
            found)) in
      absurd (ground (arith, zero_rows))
]

-- Where the identifiers of intents are distinct, a confirmation that added a photo gives the same
-- photo, changes nothing and puts nothing in the queue when it is sent again at any times,
-- whatever the storage then answers.
pub confirm_item_photo_repeated :
    (config : StorageConfig) (storage storage' : Answers) (user : String) (dto : ConfirmPhotoDto)
    (new new' : NewPhoto) (now at now' at' : ℕ) (db db' : UploadDb) (r : ConfirmedPhoto)
    → DistinctIntents db
    → confirm_item_photo config storage user dto new now at db ≡ ok (db', r)
    → r.should_queue ≡ true
    → confirm_item_photo config storage' user dto new' now' at' db'
      ≡ ok (db', record { photo = r.photo; should_queue = false })
confirm_item_photo_repeated config storage storage' user dto new new' now at now' at' db db' r
      distinct e queued =
    elim (confirm_item_photo-outcome db config storage user dto new now at e) [
      | inl old ↦ absurd (cc (old.queued, queued))
      | inr added ↦
          let u = added.intent in
          let left = add_photo-Left dto u new (consumed user u at db) db' r added.written in
          let may = counted_row user dto.intent_id at u db distinct added.found added.once in
          let i = or_throw-ok _ item_not_found added.owned in
          let j = still_owned user u.entity_id u.entity_id db.items i in
          confirm_item_photo-old config storage' user dto new' now' at' db' (consume at u) j.0
            r.photo
            (rw left.intents (found_consumed user dto.intent_id at u db.intents added.found may))
            (ensure_intent_binding-consume config at u ∙ added.bound) (rw left.items j.1) refl
            left.photo
    ]
