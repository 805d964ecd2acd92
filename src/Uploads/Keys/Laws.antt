-- ===== src/Uploads/Keys/Laws.antt =====
-- The key that a request makes, against the check of keys.
use sosedi_app.Prelude.{
  Bool, Bool-cases, String, any, arith, eq_iff, eq_refl, eqb, false, inl, inr, refl, subst, sym,
  true, ℕ, ◌==◌, ◌∙◌, ◌≡◌, ◌≢◌,
}
use sosedi_app.Domain.Failure.{Result, content_type_not_allowed, err, ok, ok-injective}
use sosedi_app.Text.{codes}
use sosedi_app.Uploads.{Intent, StorageConfig, UploadPurpose}
use sosedi_app.Uploads.Keys.{
  ends_with, ensure_intent_binding, file_name, get_extension, has_slash, image_jpeg, image_png,
  image_webp, quarantine_prefix,
}
use Prim.Native.String.{◌++◌, len, slice}
use text.Mathlib.TextLemmas.{nil-append, cons-append, append-ne-nil_of_right_ne-nil, cons-ne-nil}
use text.Mathlib.TextPositions.{len-append, slice-append_right, starts_with-append}

any-codes-append :
    (p : ℕ → Bool) (s t : String)
    → any p (codes s) ≡ false
    → any p (codes t) ≡ false
    → any p (codes (s ++ t)) ≡ false
any-codes-append p String.[] t hs ht = rw (nil-append t) ht
any-codes-append p (String.◌∷◌ c s) t hs ht =
    rw (cons-append c s t) (ground (arith, any-codes-append p s t (ground arith) ht))

ends_with-append : (s t : String) → ends_with (s ++ t) t ≡ true
unfolding ends_with
ends_with-append String.[] String.[] = refl
ends_with-append String.[] (String.◌∷◌ c t) =
    rw (nil-append (String.◌∷◌ c t), eq_refl (String.◌∷◌ c t))
ends_with-append (String.◌∷◌ c s) t = rw (cons-append c s t) (ground (arith, ends_with-append s t))

-- The extensions hold no slash.
extension_lem : (t e : String) → get_extension t ≡ ok e → any (eqb b'/') (codes ("." ++ e)) ≡ false
extension_lem t e h = elim (Bool-cases (t == image_jpeg)) [
  | inl jpeg ↦ subst NoSlash (ok-injective (rw jpeg at h)) refl
  | inr other ↦ elim (Bool-cases (t == image_png)) [
    | inl png ↦ subst NoSlash (ok-injective (rw (other, png) at h)) refl
    | inr rest ↦ elim (Bool-cases (t == image_webp)) [
      | inl webp ↦ subst NoSlash (ok-injective (rw (other, rest, webp) at h)) refl
      | inr bad ↦ absurd (clash (rw (other, rest, bad) at h))
    ]
  ]
]
  where
    NoSlash : String → Type 0
    NoSlash x = any (eqb b'/') (codes ("." ++ x)) ≡ false

    clash : {x : String} → ◌≡◌ {A = Result String} (err content_type_not_allowed) (ok x) → ⊥
    clash q = cc q

file_name-ne-empty : (uuid e : String) → (file_name uuid e == "") ≡ false
file_name-ne-empty uuid e = elim (Bool-cases (file_name uuid e == "")) [
  | inl t ↦ absurd (append-ne-nil_of_right_ne-nil uuid dot_ne ((eq_iff (file_name uuid e) "").0 t))
  | inr f ↦ f
]
  where
    dot_ne : "." ++ e ≢ ""
    dot_ne same = cons-ne-nil "." ("" ++ e) (sym (cons-append "." "" e) ∙ same)

-- A key made of the prefix, a name without slashes and the extension passes the check.
pub ensure_intent_binding-made :
    (config : StorageConfig) (purpose : UploadPurpose) (u : Intent) (uuid e : String)
    → get_extension u.content_type ≡ ok e
    → u.bucket ≡ config.private_bucket
    → u.object_key ≡ quarantine_prefix purpose u.entity_id u.actor_id ++ file_name uuid e
    → has_slash uuid ≡ false
    → ensure_intent_binding config purpose u ≡ ok tt
unfolding ensure_intent_binding
ensure_intent_binding-made config purpose u uuid e known bucket key plain =
    let prefix = quarantine_prefix purpose u.entity_id u.actor_id in
    let cut : slice (prefix ++ file_name uuid e) (len prefix) (len (prefix ++ file_name uuid e))
        ≡ file_name uuid e =
      rw (len-append prefix (file_name uuid e)) (slice-append_right prefix (file_name uuid e)) in
    rw (
      known,
      key,
      cut,
      bucket,
      eq_refl config.private_bucket,
      starts_with-append prefix (file_name uuid e),
      file_name-ne-empty uuid e,
      any-codes-append (eqb b'/') uuid ("." ++ e) plain (extension_lem u.content_type e known),
      ends_with-append uuid ("." ++ e),
    )
