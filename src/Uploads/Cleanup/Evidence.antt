-- ===== src/Uploads/Cleanup/Evidence.antt =====
-- The objects of evidence in the cleanup: of disputes, and of acts and support tickets.
use sosedi_app.Prelude.{
  All, All-zip, Bool, List, String, String-cases, [], any, eq_iff, false, find_first,
  find_first_holds, find_first_only, inl, inr, refl, some, sym, true, ℕ, ◌&&◌, ◌==◌, ◌∙◌, ◌≡◌, ◌≢◌,
  ◌⊎◌,
}
use sosedi_app.Uploads.{DistinctIntents, Intent, UploadDb}
use sosedi_app.Uploads.Cleanup.{
  CleanupState, StoredObject, clean_intents, cleaned_intents, cleanup_expired_uploads, is_cleaned,
  is_old,
}
use sosedi_app.Uploads.Cleanup.Laws.{
  DistinctKeys, clean_intents_kept, clean_intents_row, clean_objects_db, clean_objects_gone,
  clean_objects_known, cleaned_rows, has_key, is_needed, known_row, mixed, unknown_row, was_removed,
}

module _ (now : ℕ) (refuses : String → Bool) (objects : List StoredObject) (db : UploadDb)
    (distinct : DistinctIntents db) (keys : DistinctKeys db) (k : String) (u : Intent)
    (row : find_first (has_key k) db.intents ≡ some u) where
  start : CleanupState
  start = record { db = db; removed = []; deleted = 0 }

  named : u.object_key ≡ k
  named = (eq_iff u.object_key k).0 (find_first_holds (has_key k) db.intents row)

  -- Whoever shares the key or the identifier with the intent is the intent.
  only_key : All (λ (x : Intent). x.object_key ≡ u.object_key → x ≡ u) db.intents
  only_key = find_first_only (λ (x : Intent). x.object_key) (has_key k) db.intents keys row

  only_id : All (λ (x : Intent). x.id ≡ u.id → x ≡ u) db.intents
  only_id = find_first_only (λ (x : Intent). x.id) (has_key k) db.intents distinct row

  -- What holds of the rows that are cleaned holds of the list of the first loop.
  of_cleaned {κ} :
      (P : Intent → Type κ)
      → ((x : Intent)
          → is_cleaned x.purpose ≡ true
          → (x.object_key ≡ u.object_key → x ≡ u)
          → (x.id ≡ u.id → x ≡ u)
          → P x)
      → All P (cleaned_intents db)
  of_cleaned P each = cleaned_rows P db.intents (
      All-zip (λ (x : Intent). x.object_key ≡ u.object_key → x ≡ u)
        (λ (x : Intent). x.id ≡ u.id → x ≡ u) (λ x. is_cleaned x.purpose ≡ true → P x) db.intents
        (λ x by_key by_id c. each x c by_key by_id) only_key only_id)

  -- The object of an intent that the cleanup reads, and that is needed, is never deleted, and
  -- neither is the row.
  pub cleanup-keeps_needed :
      is_cleaned u.purpose ≡ true
      → is_needed now u ≡ true
      → (was_removed k (cleanup_expired_uploads now refuses objects db) ≡ false)
        × (find_first (has_key k) (cleanup_expired_uploads now refuses objects db).db.intents
            ≡ some u)
  unfolding cleanup_expired_uploads start
  cleanup-keeps_needed cleaned needed = (
    clean_objects_known now refuses k (cleaned_intents db) objects _
        (known_row k u db.intents cleaned row)
        (clean_intents_kept now refuses k (cleaned_intents db) start
          (of_cleaned (λ x. (x.object_key ≢ k) ⊎ (is_needed now x ≡ true))
            (λ x c by_key by_id. elim (String-cases x.object_key k) [
              | inl same ↦ inr (rw (by_key (same ∙ sym named)) needed)
              | inr other ↦ inl other
            ]))
          refl),
    rw
        (clean_objects_db now refuses k (cleaned_intents db) objects
          (clean_intents now refuses (cleaned_intents db) start))
        (clean_intents_row now refuses k u (cleaned_intents db) start
          (of_cleaned (λ x. (x.id ≢ u.id) ⊎ (is_needed now x ≡ true))
            (λ x c by_key by_id. elim (String-cases x.id u.id) [
              | inl same ↦ inr (rw (by_id same) needed)
              | inr other ↦ inl other
            ]))
          row),
  )

  -- The object of an intent that the cleanup does not read is deleted as soon as the storage lists
  -- it as a day old, confirmed or not; the row stays, and names an object that is gone.
  pub cleanup-deletes_unread :
      is_cleaned u.purpose ≡ false
      → refuses k ≡ false
      → any (λ (o : StoredObject). o.key == k && is_old now o.last_modified) objects ≡ true
      → (was_removed k (cleanup_expired_uploads now refuses objects db) ≡ true)
        × (find_first (has_key k) (cleanup_expired_uploads now refuses objects db).db.intents
            ≡ some u)
  unfolding cleanup_expired_uploads start
  cleanup-deletes_unread unread yields listed = (
    clean_objects_gone now refuses k (cleaned_intents db) objects _
        (unknown_row k (cleaned_intents db) (
          of_cleaned (λ x. x.object_key ≢ k)
            (λ x c by_key by_id same. mixed x c (by_key (same ∙ sym named)) unread)))
        yields listed,
    rw
        (clean_objects_db now refuses k (cleaned_intents db) objects
          (clean_intents now refuses (cleaned_intents db) start))
        (clean_intents_row now refuses k u (cleaned_intents db) start
          (of_cleaned (λ x. (x.id ≢ u.id) ⊎ (is_needed now x ≡ true))
            (λ x c by_key by_id. inl (λ same. mixed x c (by_id same) unread)))
          row),
  )
