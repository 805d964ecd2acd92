-- ===== src/Uploads/Photo/Bounds.antt =====
-- How many photos and covers an item has.
use sosedi_app.Prelude.{
  Bool, Bool-cases, List, String, [], any, ap, arith, count_where, eq_iff, eqb, false, inl, inr,
  leb, refl, subst, sym, true, update_many, ℕ, ◌&&◌, ◌<◌, ◌==◌, ◌||◌, ◌∷◌, ◌≡◌, ◌≤◌,
}
use sosedi_app.Domain.Failure.{ok, ok-pair, throw_if-eq-ok}
use sosedi_app.Uploads.{Answers, Intent, ItemPhoto, StorageConfig, UploadDb, max_item_photo_count}
use sosedi_app.Uploads.Photo.{
  ConfirmPhotoDto, ConfirmedPhoto, NewPhoto, add_photo, came_from, confirm_item_photo, consumed,
  new_photo, photo_of, uncover, uncovered, value_or,
}
use sosedi_app.Uploads.Photo.Outcome.{confirm_item_photo-outcome}

abbrev pub cover_of : String → ItemPhoto → Bool
cover_of item p = p.item_id == item && p.is_cover

-- An item has five photos at most, and one cover at most.
abbrev pub PhotosAreBounded : UploadDb → Type 0
PhotosAreBounded db =
    (item : String)
    → (count_where (photo_of item) db.photos ≤ max_item_photo_count)
      × (count_where (cover_of item) db.photos ≤ 1)

module _ (item other : String) where
  uncovered_photos :
      (cover : Bool) (photos : List ItemPhoto)
      → count_where (photo_of other) (uncovered cover item photos)
        ≡ count_where (photo_of other) photos
  uncovered_photos false photos = refl
  uncovered_photos true [] = refl
  uncovered_photos true (p ∷ ps) = ground (arith, uncovered_photos true ps)

  uncovered_covers :
      (cover : Bool) (photos : List ItemPhoto)
      → count_where (cover_of other) (uncovered cover item photos)
        ≤ count_where (cover_of other) photos
  uncovered_covers false photos = omega arith
  uncovered_covers true [] = omega arith
  uncovered_covers true (p ∷ ps) = ground (arith, uncovered_covers true ps)

no_covers :
    (item : String) (photos : List ItemPhoto)
    → count_where (cover_of item) (update_many (photo_of item) uncover photos) ≡ 0
no_covers item [] = refl
no_covers item (p ∷ ps) = ground (arith, no_covers item ps)

module _ (dto : ConfirmPhotoDto) (u : Intent) (new : NewPhoto) (db db' : UploadDb)
    (r : ConfirmedPhoto) where
  add_photo-written :
      add_photo dto u new db ≡ ok (db', r)
      → let n = count_where (photo_of u.entity_id) db.photos in
        let cover = value_or (eqb n 0) dto.is_cover in
        (n < max_item_photo_count)
        × (db'.photos ≡ new_photo dto u n cover new ∷ uncovered cover u.entity_id db.photos)
  unfolding add_photo
  add_photo-written e =
      let n = count_where (photo_of u.entity_id) db.photos in
      let (room, e1) = throw_if-eq-ok (leb max_item_photo_count n) _ _ e in
      let (_, e2) =
        throw_if-eq-ok (any (λ q. q.id == new.id || came_from u.id q) db.photos) _ _ e1 in
      (ground arith, ap (λ (d : UploadDb). d.photos) (sym (ok-pair e2).0))

  add_photo-PhotosAreBounded :
      PhotosAreBounded db → add_photo dto u new db ≡ ok (db', r) → PhotosAreBounded db'
  add_photo-PhotosAreBounded bounded e item =
      let (room, photos) = add_photo-written e in
      let n = count_where (photo_of u.entity_id) db.photos in
      let cover = value_or (eqb n 0) dto.is_cover in
      rw photos (
        ground (
          arith,
          bounded item,
          eq_iff u.entity_id item,
          uncovered_photos u.entity_id item cover db.photos,
        ),
        elim (Bool-cases cover) [
          | inl covers ↦ ground (
            arith,
            bounded item,
            eq_iff u.entity_id item,
            no_covers u.entity_id db.photos,
            uncovered_covers u.entity_id item true db.photos,
          )
          | inr plain ↦ rw plain (ground (arith, bounded item))
        ],
      )

-- If every item has five photos and one cover at most, this also holds after the confirmation of a
-- photo, whatever the request says of the cover.
pub confirm_item_photo-PhotosAreBounded :
    (config : StorageConfig) (storage : Answers) (user : String) (dto : ConfirmPhotoDto)
    (new : NewPhoto) (now at : ℕ) (db db' : UploadDb) (r : ConfirmedPhoto)
    → PhotosAreBounded db
    → confirm_item_photo config storage user dto new now at db ≡ ok (db', r)
    → PhotosAreBounded db'
confirm_item_photo-PhotosAreBounded config storage user dto new now at db db' r bounded e =
    elim (confirm_item_photo-outcome db config storage user dto new now at e) [
      | inl old ↦ subst PhotosAreBounded (sym old.kept) bounded
      | inr added ↦
          add_photo-PhotosAreBounded dto added.intent new (consumed user added.intent at db) db' r
            bounded added.written
    ]
