-- ===== src/Args.antt =====
-- The arguments of a command, src/core/Globals.cpp: `GetInt`, `GetUInt`, `GetULongLong`, `GetFlag`,
-- `GetMultiUInt`, `GetFloat`, `GetMultiFloat` and `GetString`. A line is the list of its bytes. An
-- `int` is its pattern of 32 bits. `float` and the C library's conversions are parameters.
pub mod Laws
pub mod Slots
mod Tests
use penn_daq.Prelude.{
  ℕ, zero, suc, ◌+◌, ◌-◌, ◌*◌, ◌/◌, ◌%◌, List, [], ◌∷◌, Option, none, some, Bool, true, false, ◌&&◌,
  ◌==◌, ltb, if◌then◌else◌, get_or, set, length, drop, replicate, map, strncmp_eq,
}
use mathlib.Core.Option

-- `atoi`, `strtoul` and `strtoull` to the base 16, and `strtod`.
pub record Conversions (F : Type 0) : Type 0 where
  pub atoi : List ℕ → ℕ
  pub strtoul : List ℕ → ℕ
  pub strtoull : List ℕ → ℕ
  pub strtod : List ℕ → F

-- A word and the words that follow it; the empty word is none.
abbrev close_word : List ℕ → List (List ℕ) → List (List ℕ)
close_word [] words = words
close_word (c ∷ cs) words = (c ∷ cs) ∷ words

-- `strtok` on spaces, called until it returns NULL: the word that the line starts with, which is
-- empty if a space stands there, and the words behind it.
pub split : List ℕ → List ℕ × List (List ℕ)
split [] = ([], [])
split (c ∷ line) =
    let (word, words) = split line in
    if c == b' ' then ([], close_word word words) else (c ∷ word, words)

unfoldable pub tokens : List ℕ → List (List ℕ)
unfolding split
tokens line = close_word (split line).0 (split line).1

abbrev head_of : List (List ℕ) → Option (List ℕ)
head_of [] = none
head_of (w ∷ ws) = some w

-- The loop over the words: what follows the first word that matches.
unfoldable pub find_value : (List ℕ → Bool) → List (List ℕ) → Option (List ℕ)
find_value matches [] = none
find_value matches (w ∷ ws) =
    let rest = find_value matches ws in if matches w then head_of ws else rest

-- `words[0] == '-'` and `words[1] == flag`
unfoldable pub is_flag : ℕ → List ℕ → Bool
is_flag flag w = get_or w 0 0 == b'-' && get_or w 1 0 == flag

-- `words[0] == '-'` and `strncmp(&words[1], flag, flag_len) == 0`
unfoldable pub is_long_flag : List ℕ → ℕ → List ℕ → Bool
is_long_flag flag flag_len w = get_or w 0 0 == b'-' && strncmp_eq flag_len (drop 1 w) flag

abbrev converted {ℓ} : {A : Type ℓ} → (List ℕ → A) → A → Option (List ℕ) → A
converted convert dflt none = dflt
converted convert dflt (some w) = convert w

unfoldable pub get_flag : List ℕ → ℕ → Bool
get_flag input flag = any_flag flag (tokens input)
  where
    any_flag : ℕ → List (List ℕ) → Bool
    any_flag f [] = false
    any_flag f (w ∷ ws) = let rest = any_flag f ws in if is_flag f w then true else rest

-- The two ASCII digits that follow `-`: the loops over `i` and over `j`, from `k` on.
unfoldable pub digit_loop : ℕ → ℕ → ℕ → Option ℕ
digit_loop zero k c = none
digit_loop (suc n) k c = let rest = digit_loop n (suc k) c in if c == k + 48 then some k else rest

-- The place in `results` that a word names.
unfoldable pub slot_of : ℕ → List ℕ → Option ℕ
unfolding digit_loop
slot_of num w = elim (digit_loop (suc (num / 10)) 0 (get_or w 1 0)) [
  | none ↦ none
  | some i ↦ Option.map (λ j. i * 10 + j) (digit_loop (suc ((num - i * 10) % 10)) 0 (get_or w 2 0))
]

-- `results[k] = value`; none past the end of the array.
abbrev store {ℓ} : {A : Type ℓ} → List A → ℕ → A → Option (List A)
store results k value = if ltb k (length results) then some (set results k value) else none

module _ {A : Type 0} (convert : List ℕ → A) (num flag : ℕ) where
  -- The loop of `GetMultiUInt` and `GetMultiFloat`. A word that names a place takes the word after
  -- it as its value.
  pub multi_loop : List (List ℕ) → List A → Option (List A)
  multi_loop [] results = some results
  multi_loop (w ∷ []) results = some results
  multi_loop (w ∷ v ∷ ws) results =
      let skip = multi_loop (v ∷ ws) results in
      let all = multi_loop ws (replicate num (convert v)) in
      if get_or w 0 0 == b'-'
      then (if get_or w 1 0 == flag then all else elim (slot_of num w) [
        | none ↦ skip
        | some k ↦ elim (store results k (convert v)) [
          | none ↦ none
          | some results' ↦ multi_loop ws results'
        ]
      ])
      else skip

module _ {F : Type 0} (lib : Conversions F) where
  unfoldable pub get_int : List ℕ → ℕ → ℕ → ℕ
  get_int input flag dflt = converted lib.atoi dflt (find_value (is_flag flag) (tokens input))

  unfoldable pub get_uint : List ℕ → List ℕ → ℕ → ℕ → ℕ
  get_uint input flag dflt flag_len =
      converted lib.strtoul dflt (find_value (is_long_flag flag flag_len) (tokens input))

  unfoldable pub get_ulonglong : List ℕ → List ℕ → ℕ → ℕ → ℕ
  get_ulonglong input flag dflt flag_len =
      converted lib.strtoull dflt (find_value (is_long_flag flag flag_len) (tokens input))

  unfoldable pub get_float : List ℕ → ℕ → F → F
  get_float input flag dflt = converted lib.strtod dflt (find_value (is_flag flag) (tokens input))

  unfoldable pub get_multi_uint : List ℕ → ℕ → ℕ → ℕ → Option (List ℕ)
  unfolding multi_loop
  get_multi_uint input num flag dflt =
      multi_loop lib.strtoul num flag (tokens input) (replicate num dflt)

  unfoldable pub get_multi_float : List ℕ → ℕ → ℕ → F → Option (List F)
  unfolding multi_loop
  get_multi_float input num flag dflt =
      multi_loop lib.strtod num flag (tokens input) (replicate num dflt)

-- The last word that stands behind a word with the flag. A value is not looked at for flags.
unfoldable pub last_value : ℕ → List (List ℕ) → List ℕ → List ℕ
last_value flag [] result = result
last_value flag (w ∷ []) result = result
last_value flag (w ∷ v ∷ ws) result =
    let skip = last_value flag (v ∷ ws) result in
    let taken = last_value flag ws v in if is_flag flag w then taken else skip

unfoldable pub get_string : List ℕ → ℕ → List ℕ → List ℕ
get_string input flag dflt = last_value flag (tokens input) dflt
