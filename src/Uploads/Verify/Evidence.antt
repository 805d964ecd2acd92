-- ===== src/Uploads/Verify/Evidence.antt =====
-- The evidence of a dispute uses its upload up.
use sosedi_app.Prelude.{
  All, All-trivial, All-update_with, Bool, Bool-cases, List, String, String-cases, [], any, ap,
  arith, count_where, eq_iff, eqb, false, find_first, find_first_absent, find_first_holds,
  find_first_only, inl, inr, not, not-false, some, sym, true, update_many, ℕ, ◌&&◌, ◌==◌, ◌||◌, ◌∙◌,
  ◌∷◌, ◌≡◌,
}
use sosedi_app.Domain.{participates}
use sosedi_app.Domain.Failure.{
  >>=-eq-ok, err, ok, ok-injective, ok-pair, or_throw-eq-ok, throw_if-eq-ok,
  upload_intent_not_found,
}
use sosedi_app.Uploads.{
  Answers, DisputeEvidence, DistinctIntents, Intent, StorageConfig, UploadDb, UploadPurpose,
  ensure_dispute_participant,
}
use sosedi_app.Uploads.Keys.{ensure_intent_binding, ensure_uploaded_object}
use sosedi_app.Uploads.Photo.{consume}
use sosedi_app.Uploads.Verify.{
  Verified, add_evidence, add_evidence_row, is_usable_intent, sanitize_private_image,
  verify_dispute_evidence_intent, verify_intent,
}

count_where_found {ℓ} :
    {A : Type ℓ} (p : A → Bool) (xs : List A)
    → eqb (count_where p xs) 1 ≡ true
    → (r : A) × (find_first p xs ≡ some r)
count_where_found p [] one = absurd (cc one)
count_where_found p (x ∷ xs) one = elim (Bool-cases (p x)) [
  | inl t ↦ (x, rw t)
  | inr f ↦ let (r, found) = count_where_found p xs (rw f at one) in (r, rw f found)
]

module _ (config : StorageConfig) (storage : Answers) (actor booking dispute intent k : String)
    (checked_at now : ℕ) (db : UploadDb) where
  verify_dispute_evidence_intent-id :
      {v : Verified}
      → verify_dispute_evidence_intent config storage actor dispute intent checked_at db ≡ ok v
      → v.intent_id ≡ intent
  unfolding verify_dispute_evidence_intent verify_intent
  verify_dispute_evidence_intent-id e =
      let usable =
        is_usable_intent UploadPurpose.dispute_evidence actor dispute intent checked_at in
      let (u, found, e1) = or_throw-eq-ok (find_first usable db.intents) _ _ e in
      let (_, _, e2) =
        >>=-eq-ok (ensure_intent_binding config UploadPurpose.dispute_evidence u) _ e1 in
      let (_, _, e3) = >>=-eq-ok (ensure_dispute_participant actor dispute db) _ e2 in
      let (_, _, e4) = >>=-eq-ok (ensure_uploaded_object storage u) _ e3 in
      let (sha256, _, e5) = >>=-eq-ok (sanitize_private_image storage) _ e4 in
      let same = find_first_holds usable db.intents found in
      ap (λ (x : Verified). x.intent_id) (sym (ok-injective e5))
      ∙ ground (arith, eq_iff u.id intent)

  -- What the addition wrote: the intent of the upload as used.
  record Uses (db' : UploadDb) : Type 0 where
    row : Intent
    of_intent : is_usable_intent UploadPurpose.dispute_evidence actor dispute intent now row ≡ true
    found :
        find_first
          (is_usable_intent UploadPurpose.dispute_evidence actor dispute intent now)
          db.intents
        ≡ some row
    written :
        db'.intents
        ≡ update_many
            (is_usable_intent UploadPurpose.dispute_evidence actor dispute intent now)
            (consume now)
            db.intents

  add_evidence_row-Uses :
      {db' : UploadDb} {evidence : DisputeEvidence} (v : Verified)
      → v.intent_id ≡ intent
      → add_evidence_row actor booking dispute v k now db ≡ ok (db', evidence)
      → Uses db'
  unfolding add_evidence_row
  add_evidence_row-Uses v named e =
      let (_, _, e1) =
        or_throw-eq-ok
          (find_first
            (λ d.
              d.id == dispute
              && (d.booking_id == booking && any (participates actor d.booking_id) db.bookings))
            db.disputes)
          _ _ e in
      let usable = is_usable_intent UploadPurpose.dispute_evidence actor dispute v.intent_id now in
      let (one, e2) = throw_if-eq-ok (not (eqb (count_where usable db.intents) 1)) _ _ e1 in
      let (_, e3) =
        throw_if-eq-ok
          (any (λ x. x.id == k || x.upload_intent_id == v.intent_id) db.dispute_evidence) _ _ e2 in
      let (r, found) = count_where_found usable db.intents (not-false _ one) in
      let wrote = ap (λ (d : UploadDb). d.intents) (sym (ok-pair e3).0) in
      record {
        row = r;
        of_intent = rw (← named) (find_first_holds usable db.intents found);
        found = rw (← named) found;
        written = rw (← named) wrote;
      }

  add_evidence-Uses :
      {db' : UploadDb} {evidence : DisputeEvidence}
      → add_evidence config storage actor booking dispute intent k checked_at now db
        ≡ ok (db', evidence)
      → Uses db'
  unfolding add_evidence
  add_evidence-Uses e =
      let (v, checked, e1) =
        >>=-eq-ok (verify_dispute_evidence_intent config storage actor dispute intent checked_at db)
          _ e in
      add_evidence_row-Uses v (verify_dispute_evidence_intent-id checked) e1

  -- After that no row is usable under the identifier of the upload.
  used_up :
      {db' : UploadDb}
      → DistinctIntents db
      → Uses db'
      → (actor' dispute' : String) (at : ℕ)
      → All
          (λ x. is_usable_intent UploadPurpose.dispute_evidence actor' dispute' intent at x ≡ false)
          db'.intents
  used_up distinct use_up actor' dispute' at =
      let usable = is_usable_intent UploadPurpose.dispute_evidence actor dispute intent now in
      let r = use_up.row in
      let here : r.id ≡ intent = ground (arith, use_up.of_intent, eq_iff r.id intent) in
      rw use_up.written (
        All-update_with (λ (x : Intent). x.id ≡ r.id → x ≡ r) (λ x. Unit {0})
          (λ x. is_usable_intent UploadPurpose.dispute_evidence actor' dispute' intent at x ≡ false)
          usable (consume now) db.intents
          (λ x only _. elim (String-cases x.id intent) [
            | inl same ↦ rw (only (same ∙ sym here), use_up.of_intent) (ground arith)
            | inr other ↦ elim (Bool-cases (usable x)) [
              | inl t ↦ rw t (ground (arith, eq_iff x.id intent))
              | inr f ↦ rw f (ground (arith, eq_iff x.id intent))
            ]
          ])
          (find_first_only (λ (x : Intent). x.id) usable db.intents distinct use_up.found)
          (All-trivial db.intents))

-- Where the identifiers of intents are distinct, an upload that became evidence of a dispute is not
-- found again, whoever adds it to whichever dispute, at any time.
pub add_evidence_once :
    (config : StorageConfig) (storage : Answers) (actor booking dispute intent k : String)
    (checked_at now : ℕ) (db db' : UploadDb) (evidence : DisputeEvidence)
    → DistinctIntents db
    → add_evidence config storage actor booking dispute intent k checked_at now db
      ≡ ok (db', evidence)
    → (storage' : Answers) (actor' booking' dispute' k' : String) (checked_at' now' : ℕ)
    → add_evidence config storage' actor' booking' dispute' intent k' checked_at' now' db'
      ≡ err upload_intent_not_found
unfolding add_evidence verify_dispute_evidence_intent verify_intent
add_evidence_once config storage actor booking dispute intent k checked_at now db db' evidence
      distinct e storage' actor' booking' dispute' k' checked_at' now' =
    let wrote =
      add_evidence-Uses config storage actor booking dispute intent k checked_at now db e in
    rw (
      find_first_absent
        (is_usable_intent UploadPurpose.dispute_evidence actor' dispute' intent checked_at')
        db'.intents
        (used_up config storage actor booking dispute intent k checked_at now db distinct wrote
          actor' dispute' checked_at'))
