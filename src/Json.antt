-- ===== src/Json.antt =====
-- The JSON values that the `termsSnapshot` column of a booking holds (`Prisma.JsonValue`).
-- A number is an exact decimal, counted in units of 10⁻⁸.
use sosedi_app.Prelude.{
  ℕ, ◌*◌, String, Bool, Option, none, some, ◌==◌, if◌then◌else◌, List, [], ◌∷◌,
}
use sosedi_app.Prelude.Int.{ℤ, pos}

mutual
  pub data Json : Type 0 where
    null : Json
    bool : Bool → Json
    num : ℤ → Json
    str : String → Json
    arr : Items → Json
    obj : Fields → Json

  pub data Items : Type 0 where
    nil : Items
    cons : Json → Items → Items

  pub data Fields : Type 0 where
    end : Fields
    field : String → Json → Fields → Fields

-- `value.name`, where `none` is `undefined`.
abbrev pub get : String → Fields → Option Json
get name end = none
get name (field k v fs) = if k == name then some v else get name fs

abbrev pub units_per_one : ℕ
units_per_one = 100000000

-- The JSON number of an integer.
abbrev pub of_ℕ : ℕ → Json
of_ℕ n = num (pos (n * units_per_one))

abbrev pub of_option {ℓ} : {A : Type ℓ} → (A → Json) → Option A → Json
of_option f none = null
of_option f (some a) = f a

abbrev pub object : List (String × Json) → Fields
object [] = end
object ((k, v) ∷ fs) = field k v (object fs)
