-- ===== src/Auth/Phone/Laws.antt =====
-- A telephone number that was normalised before.
use sosedi_app.Prelude.{
  Bool-cases, String, ap, arith, eqb, inl, inr, length, num_eq, refl, subst, true, ◌&&◌, ◌∙◌, ◌≡◌,
}
use sosedi_app.Auth.Phone.{digits_of, head_is, is_digit, normalize_russian_phone, tail_of}
use sosedi_app.Domain.Failure.{Result, bad_phone, err, ok, ok-injective}
use sosedi_app.Text.{codes}
use Prim.Native.Char.{Char, code}
use Prim.Native.String.{◌++◌}
use text.Mathlib.TextLemmas.{nil-append, cons-append}

one_char : (c : Char) (s : String) → String.◌∷◌ c String.[] ++ s ≡ String.◌∷◌ c s
one_char c s = cons-append c String.[] s ∙ ap (λ (x : String). String.◌∷◌ c x) (nil-append s)

plus : (s : String) → "+" ++ s ≡ String.◌∷◌ "+" s
plus s = one_char "+" s

plus_seven : (s : String) → "+7" ++ s ≡ String.◌∷◌ "+" (String.◌∷◌ "7" s)
plus_seven s = cons-append "+" "7" s ∙ ap (λ (x : String). String.◌∷◌ "+" x) (one_char "7" s)

digits_of_idem : (s : String) → digits_of (digits_of s) ≡ digits_of s
unfolding digits_of
digits_of_idem String.[] = refl
digits_of_idem (String.◌∷◌ c s) = elim (Bool-cases (is_digit (code c))) [
  | inl t ↦ rw (t, t, digits_of_idem s)
  | inr f ↦ rw (f, digits_of_idem s)
]

-- Ten digits behind the code of the country.
ten_digits :
    (s : String)
    → digits_of s ≡ s
    → eqb (length (codes s)) 10 ≡ true
    → normalize_russian_phone ("+7" ++ s) ≡ ok ("+7" ++ s)
unfolding normalize_russian_phone
ten_digits s plain ten =
    let n : length (codes s) ≡ 10 = num_eq _ _ ten in
    rw (plus_seven s, plain, n, plus (String.◌∷◌ "7" s))

-- Eleven digits of which the first is a seven.
eleven_digits :
    (s : String)
    → digits_of s ≡ s
    → eqb (length (codes s)) 11 ≡ true
    → head_is b'7' s ≡ true
    → normalize_russian_phone ("+" ++ s) ≡ ok ("+" ++ s)
unfolding normalize_russian_phone
eleven_digits String.[] plain eleven seven = absurd (cc seven)
eleven_digits (String.◌∷◌ c s) plain eleven seven =
    let n : length (codes s) ≡ 10 =
      ground (arith, num_eq (length (codes (String.◌∷◌ c s))) 11 eleven) in
    let d : code c ≡ b'7' = num_eq _ _ seven in
    rw (plus (String.◌∷◌ c s), plain, n, d) (ap (λ (x : String). ok x) (plus (String.◌∷◌ c s)))

-- Behind a leading eight stand ten digits.
behind_eight :
    (s : String)
    → digits_of s ≡ s
    → eqb (length (codes s)) 11 ≡ true
    → head_is b'8' s ≡ true
    → (digits_of (tail_of s) ≡ tail_of s) × (eqb (length (codes (tail_of s))) 10 ≡ true)
unfolding digits_of
behind_eight String.[] plain eleven eight = absurd (cc eight)
behind_eight (String.◌∷◌ c s) plain eleven eight =
    let d : code c ≡ b'8' = num_eq _ _ eight in
    let e : String.◌∷◌ c (digits_of s) ≡ String.◌∷◌ c s = rw d at plain in
    (ap tail_of e, ground arith)

-- A number that was normalised is normalised again to itself.
pub normalize_russian_phone_idem :
    (phone normal : String)
    → normalize_russian_phone phone ≡ ok normal
    → normalize_russian_phone normal ≡ ok normal
unfolding normalize_russian_phone
normalize_russian_phone_idem phone normal e =
    let d = digits_of phone in
    let plain = digits_of_idem phone in
    elim (Bool-cases (eqb (length (codes d)) 10 && head_is b'9' d)) [
      | inl short ↦ subst Normal (ok-injective (rw short at e)) (ten_digits d plain (ground arith))
      | inr other ↦ elim (Bool-cases (eqb (length (codes d)) 11 && head_is b'8' d)) [
        | inl eight ↦
            let behind = behind_eight d plain (ground arith) (ground arith) in
            subst Normal (ok-injective (rw (other, eight) at e))
              (ten_digits (tail_of d) behind.0 behind.1)
        | inr rest ↦ elim (Bool-cases (eqb (length (codes d)) 11 && head_is b'7' d)) [
          | inl seven ↦
              subst Normal (ok-injective (rw (other, rest, seven) at e))
                (eleven_digits d plain (ground arith) (ground arith))
          | inr bad ↦ absurd (clash (rw (other, rest, bad) at e))
        ]
      ]
    ]
  where
    Normal : String → Type 0
    Normal x = normalize_russian_phone x ≡ ok x

    clash : {x : String} → ◌≡◌ {A = Result String} (err bad_phone) (ok x) → ⊥
    clash q = cc q
