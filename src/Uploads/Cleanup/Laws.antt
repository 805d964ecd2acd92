-- ===== src/Uploads/Cleanup/Laws.antt =====
-- Which objects the cleanup deletes, and which rows it leaves.
use sosedi_app.Prelude.{
  All, Bool, Bool-cases, List, Option, Pairwise, String, String-cases, [], any, ap, arith,
  delete_many, eq_iff, eq_refl, false, filter_rows, find_first, inl, inr, is_some, ltb, not, refl,
  some, true, ℕ, ◌&&◌, ◌+◌, ◌==◌, ◌||◌, ◌∙◌, ◌∷◌, ◌≡◌, ◌≢◌, ◌⊎◌,
}
use sosedi_app.Reviews.{later}
use sosedi_app.Uploads.{Intent, ItemPhoto, UploadDb, UploadPurpose, purpose_is}
use sosedi_app.Uploads.Cleanup.{
  CleanupState, StoredObject, clean_intent, clean_intents, clean_object, clean_objects, is_cleaned,
  is_expired_upload, is_known, is_old, is_rejected_upload, photo_for,
  upload_intent_cleanup_grace_ms, was_confirmed_before,
}

abbrev pub has_key : String → Intent → Bool
has_key k u = u.object_key == k

abbrev pub DistinctKeys : UploadDb → Type 0
DistinctKeys db = Pairwise (λ (x y : Intent). x.object_key ≢ y.object_key) db.intents

abbrev pub was_removed : String → CleanupState → Bool
was_removed k s = any (λ x. x == k) s.removed

-- The object of the intent is still wanted: not of a photo that was rejected for good, and either
-- young or the confirmed evidence of a dispute.
abbrev pub is_needed : ℕ → Intent → Bool
is_needed now u =
    not (purpose_is u.purpose UploadPurpose.item_photo && was_confirmed_before now u.confirmed_at)
    && (ltb now (u.expires_at + upload_intent_cleanup_grace_ms)
        || (purpose_is u.purpose UploadPurpose.dispute_evidence && is_some u.confirmed_at))

needed_stays :
    (now : ℕ) (u : Intent) (photo : Option ItemPhoto)
    → is_needed now u ≡ true
    → (is_rejected_upload now u photo || is_expired_upload now u photo) ≡ false
needed_stays now u photo h = ground arith

clean_intent-needed :
    (now : ℕ) (refuses : String → Bool) (u : Intent) (s : CleanupState)
    → is_needed now u ≡ true
    → clean_intent now refuses u s ≡ s
unfolding clean_intent
clean_intent-needed now refuses u s h = rw (needed_stays now u (photo_for u s.db) h)

find_first-delete_many {ℓ} :
    {A : Type ℓ} (p q : A → Bool) (xs : List A) {r : A}
    → find_first p xs ≡ some r
    → q r ≡ false
    → find_first p (delete_many q xs) ≡ some r
find_first-delete_many p q [] found apart = absurd (cc found)
find_first-delete_many p q (x ∷ xs) {r} found apart = elim (Bool-cases (p x)) [
  | inl t ↦
      let same : x ≡ r = ground arith in
      let kept : q x ≡ false = rw same apart in rw (kept, t) (ap (λ y. some y) same)
  | inr t ↦ elim (Bool-cases (q x)) [
    | inl gone ↦ rw gone (find_first-delete_many p q xs {r = r} (ground arith) apart)
    | inr here ↦ rw (here, t) (find_first-delete_many p q xs {r = r} (ground arith) apart)
  ]
]

module _ (now : ℕ) (refuses : String → Bool) (k : String) where
  -- An object that no intent of the round wants away is not deleted in the first loop.
  pub clean_intents_kept :
      (us : List Intent) (s : CleanupState)
      → All (λ u. (u.object_key ≢ k) ⊎ (is_needed now u ≡ true)) us
      → was_removed k s ≡ false
      → was_removed k (clean_intents now refuses us s) ≡ false
  unfolding clean_intent
  clean_intents_kept [] s h kept = kept
  clean_intents_kept (u ∷ us) s h kept =
      clean_intents_kept us (clean_intent now refuses u s) h.1 (elim h.0 [
        | inl other ↦ ground (arith, eq_iff u.object_key k)
        | inr needed ↦ rw (clean_intent-needed now refuses u s needed) kept
      ])

  clean_intent_row :
      (u v : Intent) (s : CleanupState)
      → u.id ≢ v.id
      → find_first (has_key k) s.db.intents ≡ some v
      → find_first (has_key k) (clean_intent now refuses u s).db.intents ≡ some v
  unfolding clean_intent
  clean_intent_row u v s other found =
      let left =
        find_first-delete_many (has_key k) (λ x. x.id == u.id) s.db.intents found
          (ground (arith, eq_iff v.id u.id)) in
      ground (arith, left)

  -- A row that no intent of the round names is left.
  pub clean_intents_row :
      (v : Intent) (us : List Intent) (s : CleanupState)
      → All (λ u. (u.id ≢ v.id) ⊎ (is_needed now u ≡ true)) us
      → find_first (has_key k) s.db.intents ≡ some v
      → find_first (has_key k) (clean_intents now refuses us s).db.intents ≡ some v
  clean_intents_row v [] s h found = found
  clean_intents_row v (u ∷ us) s h found =
      clean_intents_row v us (clean_intent now refuses u s) h.1 (elim h.0 [
        | inl other ↦ clean_intent_row u v s other found
        | inr needed ↦ rw (clean_intent-needed now refuses u s needed) found
      ])

  -- The second loop does not touch the tables, spares what is known, and deletes what is old.
  pub clean_objects_db :
      (intents : List Intent) (os : List StoredObject) (s : CleanupState)
      → (clean_objects now refuses intents os s).db ≡ s.db
  clean_objects_db intents [] s = refl
  clean_objects_db intents (o ∷ os) s =
      clean_objects_db intents os (clean_object now refuses intents o s)
      ∙ elim (Bool-cases
          (is_known intents o.key || not (is_old now o.last_modified) || refuses o.key)) [
            | inl t ↦ rw t
            | inr t ↦ rw t
          ]

  pub clean_objects_known :
      (intents : List Intent) (os : List StoredObject) (s : CleanupState)
      → is_known intents k ≡ true
      → was_removed k s ≡ false
      → was_removed k (clean_objects now refuses intents os s) ≡ false
  clean_objects_known intents [] s known kept = kept
  clean_objects_known intents (o ∷ os) s known kept =
      clean_objects_known intents os (clean_object now refuses intents o s) known
        (elim (String-cases o.key k) [
          | inl same ↦ rw (same, known) kept
          | inr other ↦ ground (arith, eq_iff o.key k)
        ])

  clean_objects_more :
      (intents : List Intent) (os : List StoredObject) (s : CleanupState)
      → was_removed k s ≡ true
      → was_removed k (clean_objects now refuses intents os s) ≡ true
  clean_objects_more intents [] s gone = gone
  clean_objects_more intents (o ∷ os) s gone =
      clean_objects_more intents os (clean_object now refuses intents o s) (ground arith)

  pub clean_objects_gone :
      (intents : List Intent) (os : List StoredObject) (s : CleanupState)
      → is_known intents k ≡ false
      → refuses k ≡ false
      → any (λ o. o.key == k && is_old now o.last_modified) os ≡ true
      → was_removed k (clean_objects now refuses intents os s) ≡ true
  clean_objects_gone intents [] s unknown yields listed = absurd (cc listed)
  clean_objects_gone intents (o ∷ os) s unknown yields listed =
      elim (Bool-cases (o.key == k && is_old now o.last_modified)) [
        | inl this ↦
            let same : o.key ≡ k = ground (arith, eq_iff o.key k) in
            let old : is_old now o.last_modified ≡ true = ground arith in
            clean_objects_more intents os (clean_object now refuses intents o s)
              (rw (same, unknown, old, yields, eq_refl k))
        | inr later ↦
            clean_objects_gone intents os (clean_object now refuses intents o s) unknown yields
              (ground arith)
      ]

-- The intents that the cleanup reads, as a part of the table.
pub cleaned_rows {κ} :
    (P : Intent → Type κ) (us : List Intent)
    → All (λ (x : Intent). is_cleaned x.purpose ≡ true → P x) us
    → All P (filter_rows (λ (x : Intent). is_cleaned x.purpose) us)
cleaned_rows P [] h = tt
cleaned_rows P (u ∷ us) h = elim (Bool-cases (is_cleaned u.purpose)) [
  | inl t ↦ rw t (h.0 t, cleaned_rows P us h.1)
  | inr f ↦ rw f (cleaned_rows P us h.1)
]

pub known_row :
    (k : String) (u : Intent) (us : List Intent)
    → is_cleaned u.purpose ≡ true
    → find_first (has_key k) us ≡ some u
    → is_known (filter_rows (λ (x : Intent). is_cleaned x.purpose) us) k ≡ true
known_row k u [] cleaned found = absurd (cc found)
known_row k u (x ∷ us) cleaned found = elim (Bool-cases (x.object_key == k)) [
  | inl t ↦
      let same : x ≡ u = ground arith in
      let read : is_cleaned x.purpose ≡ true = rw same cleaned in rw (read, t)
  | inr f ↦
      let rest = known_row k u us cleaned (ground arith) in
      elim (Bool-cases (is_cleaned x.purpose)) [ inl c ↦ rw (c, f) rest | inr c ↦ rw c rest ]
]

pub unknown_row :
    (k : String) (us : List Intent)
    → All (λ (x : Intent). x.object_key ≢ k) us
    → is_known us k ≡ false
unknown_row k [] h = refl
unknown_row k (u ∷ us) h = ground (arith, eq_iff u.object_key k, unknown_row k us h.1, h.0)

pub mixed :
    {u : Intent} (x : Intent)
    → is_cleaned x.purpose ≡ true
    → x ≡ u
    → is_cleaned u.purpose ≡ false
    → ⊥
mixed x read same unread = cc (ap (λ (y : Intent). is_cleaned y.purpose) same)
