-- ===== src/Args/Tests.antt =====
-- Concrete lines.
use penn_daq.Prelude.{
  ℕ, ◌+◌, ◌↔◌, ◌/◌, ◌%◌, ◌≤◌, ◌≡◌, refl, List, [], ◌∷◌, ◌++◌, none, some, codes, length, get_or,
  true,
}
use penn_daq.Args.{
  Conversions, tokens, is_flag, slot_of, converted, get_int, get_flag, get_multi_uint,
}
use penn_daq.Args.Laws.{join, words_of, lookup, get_int-args}
use penn_daq.Args.Slots.{slot_of-digits}

-- Conversions that give the length of the text.
abbrev lengths : Conversions ℕ
lengths = record { atoi = length; strtoul = length; strtoull = length; strtod = length }

abbrev some_args : List (ℕ × List ℕ)
some_args = (b'c', codes "12") ∷ (b's', codes "7") ∷ []

get_int-args_example :
    get_int lengths (codes "fr" ++ join (words_of some_args)) b's' 13
    ≡ converted length 13 (lookup b's' some_args)
get_int-args_example =
    get_int-args lengths (codes "fr") some_args b's' 13 ((refl, (refl, tt)), refl)
      ((refl, ((refl, (refl, tt)), refl)), ((refl, ((refl, tt), refl)), tt))

slot_ten : slot_of 20 (codes "-10") ≡ some 10
unfolding slot_of
slot_ten = refl

slot_of-digits_example :
    (slot_of 20 (codes "-10") ≡ some 10 ↔ (
      (10 / 10 ≤ 20 / 10)
      × (10 % 10 ≤ 20 % 10)
      × (get_or (codes "-10") 1 0 ≡ 10 / 10 + 48)
      × (get_or (codes "-10") 2 0 ≡ 10 % 10 + 48)))
    × (slot_of 20 (0 ∷ (20 / 10 + 48) ∷ (20 % 10 + 48) ∷ []) ≡ some 20)
slot_of-digits_example = slot_of-digits 20 (codes "-10") 10

-- A mask for crate 5 alone is not read, and one for crate 20 is written past the array.
slot_five : slot_of 20 (codes "-05") ≡ none
unfolding slot_of
slot_five = refl

past_the_end : get_multi_uint lengths (codes "find_noise -20 1") 20 b's' 0 ≡ none
unfolding get_multi_uint tokens slot_of
past_the_end = refl

flag_found : get_flag (codes "fr -h") b'h' ≡ true
unfolding get_flag tokens is_flag
flag_found = refl
