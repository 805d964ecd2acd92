-- ===== src/Auth/Phone.antt =====
-- `normalizeRussianPhone` of backend/src/auth/auth.util.ts
pub mod Laws
use sosedi_app.Prelude.{Bool, String, eqb, false, if◌then◌else◌, leb, length, ℕ, ◌&&◌}
use sosedi_app.Domain.Failure.{Result, bad_phone, err, ok}
use sosedi_app.Text.{codes}
use Prim.Native.Char.{Char, code}
use Prim.Native.String.{◌++◌}

abbrev pub is_digit : ℕ → Bool
is_digit c = leb b'0' c && leb c b'9'

-- `phone.replace(/\D/g, '')`
unfoldable pub digits_of : String → String
digits_of String.[] = String.[]
digits_of (String.◌∷◌ c s) =
    let rest = digits_of s in if is_digit (code c) then String.◌∷◌ c rest else rest

abbrev pub head_is : ℕ → String → Bool
head_is d String.[] = false
head_is d (String.◌∷◌ c s) = eqb (code c) d

-- `digits.slice(1)`
abbrev pub tail_of : String → String
tail_of String.[] = String.[]
tail_of (String.◌∷◌ c s) = s

unfoldable pub normalize_russian_phone : String → Result String
unfolding digits_of
normalize_russian_phone phone =
    let d = digits_of phone in
    if eqb (length (codes d)) 10 && head_is b'9' d
    then ok ("+7" ++ d)
    else if eqb (length (codes d)) 11 && head_is b'8' d
    then ok ("+7" ++ tail_of d)
    else if eqb (length (codes d)) 11 && head_is b'7' d
    then ok ("+" ++ d)
    else err bad_phone
