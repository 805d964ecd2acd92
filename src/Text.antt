-- ===== src/Text.antt =====
-- Strings as JavaScript reads them: code points, white space, and the ISO texts of dates.
use Prim.Native.Char.{Char, code}
use sosedi_app.Prelude.{
  ℕ, zero, suc, ◌+◌, ◌-◌, ◌*◌, ◌/◌, ◌%◌, String, Bool, true, false, ◌&&◌, ◌||◌, Option, none, some,
  List, [], ◌∷◌, leb, eqb, if◌then◌else◌,
}

abbrev pub codes : String → List ℕ
codes String.[] = []
codes (String.◌∷◌ c s) = code c ∷ codes s

-- What `trim` removes: white space and line ends.
unfoldable pub is_space : ℕ → Bool
is_space c =
    (leb 9 c && leb c 13)
    || eqb c 32
    || eqb c 160
    || eqb c 0x1680
    || (leb 0x2000 c && leb c 0x200a)
    || eqb c 0x2028
    || eqb c 0x2029
    || eqb c 0x202f
    || eqb c 0x205f
    || eqb c 0x3000
    || eqb c 0xfeff

-- `s.trim().length > 0`
unfoldable pub has_text : String → Bool
has_text String.[] = false
has_text (String.◌∷◌ c s) = if is_space (code c) then has_text s else true

abbrev drop_space : Char → String → String
drop_space c String.[] = if is_space (code c) then String.[] else String.◌∷◌ c String.[]
drop_space c s = String.◌∷◌ c s

trim_end : String → String
trim_end String.[] = String.[]
trim_end (String.◌∷◌ c s) = drop_space c (trim_end s)

trim_start : String → String
trim_start String.[] = String.[]
trim_start (String.◌∷◌ c s) = if is_space (code c) then trim_start s else String.◌∷◌ c s

-- `s.trim()`
unfoldable pub trim : String → String
unfolding trim_end trim_start is_space
trim s = trim_end (trim_start s)

-- `s === ""`
abbrev pub is_empty : String → Bool
is_empty String.[] = true
is_empty _ = false

-- A number of exactly `n` decimal digits, and what follows it.
unfoldable pub digits : ℕ → ℕ → List ℕ → Option (ℕ × List ℕ)
digits zero acc cs = some (acc, cs)
digits (suc n) acc [] = none
digits (suc n) acc (c ∷ cs) =
    let rest = digits n (acc * 10 + (c - b'0')) cs in
    if leb b'0' c && leb c b'9' then rest else none

unfoldable pub expect : ℕ → List ℕ → Option (List ℕ)
expect c [] = none
expect c (d ∷ cs) = if eqb c d then some cs else none

unfoldable pub is_leap : ℕ → Bool
is_leap y = eqb (y % 4) 0 && (not_century y || eqb (y % 400) 0)
  where
    not_century : ℕ → Bool
    not_century n = if eqb (n % 100) 0 then false else true

unfoldable pub days_in_month : ℕ → ℕ → ℕ
unfolding is_leap
days_in_month y m =
    if eqb m 2
    then (if is_leap y then 29 else 28)
    else if eqb m 4 || eqb m 6 || eqb m 9 || eqb m 11
    then 30
    else 31

-- The days of the first `n` months of year `y`.
unfoldable pub days_through_month : ℕ → ℕ → ℕ
unfolding days_in_month
days_through_month y zero = 0
days_through_month y (suc n) =
    let earlier = days_through_month y n in days_in_month y (suc n) + earlier

-- The days since 0000-01-01.
unfoldable pub day_number : ℕ → ℕ → ℕ → ℕ
unfolding days_through_month
day_number y m d =
    365 * y
    + (y + 3) / 4
    + (y + 399) / 400
    - (y + 99) / 100
    + days_through_month y (m - 1)
    + (d - 1)

infixl 5 ◌>>=◌
abbrev pub ◌>>=◌ {ℓ κ} : {A : Type ℓ} {B : Type κ} → Option A → (A → Option B) → Option B
none >>= k = none
some a >>= k = k a

-- `YYYY-MM-DD` of a day that exists, and what follows it.
unfoldable pub date_prefix : List ℕ → Option (ℕ × List ℕ)
unfolding digits expect days_in_month day_number
date_prefix cs = do
  (y, c1) ← digits 4 0 cs
  c2 ← expect b'-' c1
  (m, c3) ← digits 2 0 c2
  c4 ← expect b'-' c3
  (d, c5) ← digits 2 0 c4
  if leb 1 m && leb m 12 && leb 1 d && leb d (days_in_month y m)
      then some (day_number y m d, c5)
      else none

-- `new Date(value).toISOString() === value`, for the years 0 to 9999.
unfoldable pub is_iso_timestamp : String → Bool
unfolding date_prefix digits expect
is_iso_timestamp s = elim (rest (codes s)) [ some [] ↦ true | _ ↦ false ]
  where
    rest : List ℕ → Option (List ℕ)
    rest cs = do
      (_, c1) ← date_prefix cs
      c2 ← expect b'T' c1
      (h, c3) ← digits 2 0 c2
      c4 ← expect b':' c3
      (m, c5) ← digits 2 0 c4
      c6 ← expect b':' c5
      (sec, c7) ← digits 2 0 c6
      c8 ← expect b'.' c7
      (ms, c9) ← digits 3 0 c8
      c10 ← expect b'Z' c9
      if leb h 23 && leb m 59 && leb sec 59 then some c10 else none
