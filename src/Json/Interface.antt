-- ===== src/Json/Interface.antt =====
-- What the code uses of nlohmann::json: the kind of a value, the members of an object, and the values
-- that a braced list makes.
use did_vc.Base.{ℕ, Str, str_eq, Bool, List, [], ◌∷◌, Option, none, some, if◌then◌else◌, ◌≡◌}

-- The answers of `is_null()` .. `is_object()` with the scalar that `get` gives. `integer` holds the
-- sign and the absolute value of a number that is not unsigned.
pub data Kind : Type 0 where
  null float array object : Kind
  string : Str → Kind
  boolean : Bool → Kind
  unsigned : ℕ → Kind
  integer : Bool → ℕ → Kind

-- The value at the first of the pairs with the key.
abbrev pub lookup {ℓ} : {A : Type ℓ} → Str → List (Str × A) → Option A
lookup key [] = none
lookup key ((k, a) ∷ rest) = if str_eq k key then some a else lookup key rest

pub record JsonLib : Type 1 where
  pub Value : Type 0
  pub kind : Value → Kind
  -- `find(key)`, of an object.
  pub member : Value → Str → Option Value
  -- `dump()`, the text of a double with 17 digits, and its comparison with 0.
  pub dump : Value → Str
  pub print_float : Value → Str
  pub is_nonzero : Value → Bool
  pub make_object : List (Str × Value) → Value
  pub make_string : Str → Value
  pub make_number : ℕ → Value
  pub make_boolean : Bool → Value
  pub kind-make_object : (members : List (Str × Value)) → kind (make_object members) ≡ object
  pub member-make_object :
      (members : List (Str × Value)) (key : Str)
      → member (make_object members) key ≡ lookup key members
  pub kind-make_string : (s : Str) → kind (make_string s) ≡ string s
  pub kind-make_number : (n : ℕ) → kind (make_number n) ≡ unsigned n
  pub kind-make_boolean : (b : Bool) → kind (make_boolean b) ≡ boolean b
