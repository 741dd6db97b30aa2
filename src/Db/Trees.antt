-- ===== src/Db/Trees.antt =====
-- Documents as trees, which is one way to have the calls on documents.
use Prim.Native.String.{String}
use text.Mathlib.Text.{◌==◌ as str_eq}
use penn_daq.Prelude.{ℕ, zero, suc, Option, none, some, ◌==◌, ltb, if◌then◌else◌}
use mathlib.Core.Option
use penn_daq.Db.Json.{Json}

-- A document; an array is an object of which the keys do not matter.
pub data Value : Type 0 where
  absent : Value
  num : ℕ → Value
  chars : String → Value
  empty : Value
  member : String → Value → Value → Value

abbrev pub value_at : Value → String → Value
value_at (member key v rest) wanted =
    let later = value_at rest wanted in if str_eq key wanted then v else later
value_at _ wanted = absent

abbrev pub element_at : Value → ℕ → Value
element_at (member key v rest) zero = v
element_at (member key v rest) (suc i) = element_at rest i
element_at _ i = absent

abbrev pub number_in : Value → ℕ
number_in (num n) = n
number_in _ = 0

abbrev pub text_in : Value → Option String
text_in (chars s) = some s
text_in _ = none

abbrev pub members_of : Value → Option ℕ
members_of empty = some 0
members_of (member key v rest) = Option.map suc (members_of rest)
members_of _ = none

-- The only text with a value is "1a2b".
abbrev pub trees : Json
trees = record {
  Node = Value;
  Number = ℕ;
  find_member = value_at;
  find_element = element_at;
  get_number = number_in;
  get_bool = λ v. number_in v == 1;
  get_string = text_in;
  num_mems = members_of;
  copy = λ v. some v;
  equals_int = λ a b. a == b;
  is_positive = λ a. ltb 0 a;
  to_int = λ a. a;
  hex = λ s. if str_eq s "1a2b" then 0x1A2B else 0;
}
