-- ===== src/Args/Laws.antt =====
-- What a command reads from a line of flags and values.
use penn_daq.Prelude.{
  ℕ, ◌≡◌, refl, ap, ◌∙◌, List, [], ◌∷◌, ◌++◌, Option, none, some, false, append-nil, get_or, ◌==◌,
  if◌then◌else◌, All,
}
use penn_daq.Args.{Conversions, split, tokens, find_value, is_flag, converted, get_int}

-- A word: not empty, and without spaces.
abbrev pub IsWord : List ℕ → Type 0
IsWord [] = ⊥
IsWord (c ∷ cs) = All (λ x. (x == b' ') ≡ false) (c ∷ cs)

-- The words of a line, each behind a space.
abbrev pub join : List (List ℕ) → List ℕ
join [] = []
join (w ∷ ws) = b' ' ∷ w ++ join ws

split-word :
    (w line : List ℕ)
    → All (λ x. (x == b' ') ≡ false) w
    → split (w ++ line) ≡ (w ++ (split line).0, (split line).1)
unfolding split
split-word [] line h = refl
split-word (c ∷ w) line h = rw (split, split-word w line h.1, h.0) refl

split-join : (ws : List (List ℕ)) → All IsWord ws → split (join ws) ≡ ([], ws)
unfolding split
split-join [] h = refl
split-join ([] ∷ ws) h = absurd h.0
split-join ((c ∷ w) ∷ ws) h =
    rw (split-word (c ∷ w) (join ws) h.0, split-join ws h.1, append-nil w) refl

-- `strtok` finds the words of a line again.
pub tokens-join :
    (name : List ℕ) (ws : List (List ℕ))
    → IsWord name
    → All IsWord ws
    → tokens (name ++ join ws) ≡ name ∷ ws
unfolding tokens
tokens-join [] ws n h = absurd n
tokens-join (c ∷ name) ws n h =
    rw (split-word (c ∷ name) (join ws) n, split-join ws h, append-nil name) refl

-- The words `-f value` of a list of flags and values.
abbrev pub words_of : List (ℕ × List ℕ) → List (List ℕ)
words_of [] = []
words_of (a ∷ args) = (b'-' ∷ a.0 ∷ []) ∷ a.1 ∷ words_of args

-- The value behind the first occurrence of a flag.
pub lookup : ℕ → List (ℕ × List ℕ) → Option (List ℕ)
lookup flag [] = none
lookup flag (a ∷ args) = let rest = lookup flag args in if a.0 == flag then some a.1 else rest

-- A word that does not start with `-`.
abbrev pub IsPlain : List ℕ → Type 0
IsPlain w = IsWord w × ((get_or w 0 0 == b'-') ≡ false)

abbrev pub IsArg : ℕ × List ℕ → Type 0
IsArg a = ((a.0 == b' ') ≡ false) × IsPlain a.1

words_of-IsWord : (args : List (ℕ × List ℕ)) → All IsArg args → All IsWord (words_of args)
words_of-IsWord [] h = tt
words_of-IsWord (a ∷ args) h = ((refl, (h.0.0, tt)), (h.0.1.0, words_of-IsWord args h.1))

find_value-words_of :
    (flag : ℕ) (args : List (ℕ × List ℕ))
    → All IsArg args
    → find_value (is_flag flag) (words_of args) ≡ lookup flag args
unfolding find_value is_flag lookup
find_value-words_of flag [] h = refl
find_value-words_of flag (a ∷ args) h = rw (h.0.1.1, find_value-words_of flag args h.1) refl

skip_plain :
    (flag : ℕ) (w : List ℕ) (ws : List (List ℕ))
    → (get_or w 0 0 == b'-') ≡ false
    → find_value (is_flag flag) (w ∷ ws) ≡ find_value (is_flag flag) ws
unfolding find_value is_flag
skip_plain flag w ws h = rw h refl

-- A line of a command's name and flags with values, none of which starts with `-`: `GetInt` converts
-- the value behind the first occurrence of its flag, and gives the default if there is none.
pub get_int-args :
    {F : Type 0} (lib : Conversions F) (name : List ℕ) (args : List (ℕ × List ℕ)) (flag dflt : ℕ)
    → IsPlain name
    → All IsArg args
    → get_int lib (name ++ join (words_of args)) flag dflt
      ≡ converted lib.atoi dflt (lookup flag args)
unfolding get_int
get_int-args lib name args flag dflt n h =
    ap (λ ws. converted lib.atoi dflt (find_value (is_flag flag) ws))
      (tokens-join name (words_of args) n.0 (words_of-IsWord args h))
    ∙ ap (converted lib.atoi dflt) (skip_name ∙ find_value-words_of flag args h)
  where
    skip_name :
        find_value (is_flag flag) (name ∷ words_of args) ≡ find_value (is_flag flag) (words_of args)
    skip_name = skip_plain flag name (words_of args) n.1
