-- ===== src/Board/Interface.antt =====
-- What the bulletin board's client uses of nlohmann::json: `parse`, `value`, `at` with `get`, `contains`
-- with the tests of a value's kind, and the assignment of a member.
use did_vc.Base.{ℕ, Str, Bool, List, Option, Result}

-- An `int`.
pub record Whole : Type 0 where
  pub negative : Bool
  pub magnitude : ℕ

-- An element of `pathIndex`: a number, a text, or something else.
pub data Item : Type 0 where
  whole : Whole → Item
  text : Str → Item
  other : Item

-- An operation that throws gives the text of its exception.
pub record BoardJson : Type 1 where
  pub Value : Type 0
  pub parse : Str → Result Value
  pub has_members : Value → Bool
  -- `value(key, 0) != 0` and `value(key, std::string())`.
  pub nonzero : Value → Str → Result Bool
  pub text_value : Value → Str → Result Str
  -- `contains(key) && !at(key).is_null()`, with the number.
  pub number_value : Value → Str → Result (Option ℕ)
  pub whole_of : Value → Str → Result (Option Whole)
  -- `contains(key) && at(key).is_string()`, with the text.
  pub string_of : Value → Str → Option Str
  -- `contains(key) && at(key).is_array()`, with the elements.
  pub strings_of : Value → Str → Result (Option (List Str))
  pub items_of : Value → Str → Option (List Item)
  -- `at(key)`, which throws when it is not there.
  pub at_string : Value → Str → Result Str
  pub at_number : Value → Str → Result ℕ
  pub at_whole : Value → Str → Result Whole
  pub at_strings : Value → Str → Result (List Str)
  pub at_items : Value → Str → Result (List Item)
  pub set_string : Value → Str → Str → Value
