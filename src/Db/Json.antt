-- ===== src/Db/Json.antt =====
-- The calls of src/db/Json.h, of the C library's `strtoul` on the texts of documents, and of the
-- server that has the documents. A `Node` is a `JsonNode *`, which may be NULL.
use Prim.Native.String.{String}
use penn_daq.Prelude.{ℕ, Bool, Option}

pub record Json : Type 1 where
  pub Node : Type 0
  -- A `double`.
  pub Number : Type 0
  pub find_member : Node → String → Node
  pub find_element : Node → ℕ → Node
  pub get_number : Node → Number
  pub get_bool : Node → Bool
  -- none is NULL, the answer for a node that is no string.
  pub get_string : Node → Option String
  -- `json_get_num_mems`; none is -1, the answer for a node that is no array and no object.
  pub num_mems : Node → Option ℕ
  -- `json_mkcopy`; none is the access through NULL that it makes for no node.
  pub copy : Node → Option Node
  -- `d == i` and `d > 0` on a `double`.
  pub equals_int : Number → ℕ → Bool
  pub is_positive : Number → Bool
  -- `(int)` of a `double`, as the pattern of 32 bits.
  pub to_int : Number → ℕ
  -- `strtoul` with the base 16.
  pub hex : String → ℕ
