-- ===== src/Bundle.antt =====
-- A PMT bundle, three 32-bit words read from a front-end card: the macros of
-- src/xl3/UnpackBundles.h, and `GetBits` of src/core/Globals.cpp. A word is a number below 2 ^ 32.
pub mod Laws
pub mod Layout
mod Tests
use penn_daq.Prelude.{ℕ, ◌+◌, ◌-◌, ◌*◌, ◌/◌, ◌%◌, ◌^◌, bit_and, bit_or, not32, ◌==◌, if◌then◌else◌}

-- The array `a` of the macros.
pub record Words : Type 0 where
  pub word0 : ℕ
  pub word1 : ℕ
  pub word2 : ℕ

unfoldable pub missed_count : Words → ℕ
missed_count a = bit_and (a.word1 / 2 ^ 28) 0x1

unfoldable pub nc_cc : Words → ℕ
nc_cc a = bit_and (a.word1 / 2 ^ 29) 0x1

unfoldable pub lgi_select : Words → ℕ
lgi_select a = bit_and (a.word1 / 2 ^ 30) 0x1

unfoldable pub cmos_es16 : Words → ℕ
cmos_es16 a = bit_and (a.word1 / 2 ^ 31) 0x1

unfoldable pub cgt_es16 : Words → ℕ
cgt_es16 a = bit_and (a.word0 / 2 ^ 30) 0x1

unfoldable pub cgt_es24 : Words → ℕ
cgt_es24 a = bit_and (a.word0 / 2 ^ 31) 0x1

unfoldable pub my_qlx : Words → ℕ
my_qlx a = bit_or (bit_and a.word1 0x7FF) (bit_and (not32 a.word1) 0x800)

-- The 12-bit ADC value in the low bits of a word, whose top bit is inverted.
abbrev adc : ℕ → ℕ
adc w = if bit_and w 0x800 == 0x800 then bit_and w 0x7FF else bit_and w 0x7FF + 2048

unfoldable pub qlx : Words → ℕ
qlx a = adc a.word1

unfoldable pub qhs : Words → ℕ
qhs a = adc (a.word1 / 2 ^ 16)

unfoldable pub qhl : Words → ℕ
qhl a = adc a.word2

unfoldable pub tac : Words → ℕ
tac a = adc (a.word2 / 2 ^ 16)

unfoldable pub cell_id : Words → ℕ
cell_id a = bit_and (a.word1 / 2 ^ 12) 0xF

unfoldable pub channel_id : Words → ℕ
channel_id a = bit_and (a.word0 / 2 ^ 16) 0x1F

unfoldable pub board_id : Words → ℕ
board_id a = bit_and (a.word0 / 2 ^ 26) 0xF

unfoldable pub crate_id : Words → ℕ
crate_id a = bit_and (a.word0 / 2 ^ 21) 0x1F

unfoldable pub gt24_id : Words → ℕ
gt24_id a =
    bit_or (bit_or (bit_and a.word0 0xFFFF) (bit_and (a.word2 * 2 ^ 4 % 2 ^ 32) 0xF0000))
      (bit_and (a.word2 / 2 ^ 8) 0xF00000)

unfoldable pub gt16_id : Words → ℕ
gt16_id a = bit_and a.word0 0xFFFF

unfoldable pub gt8_id : Words → ℕ
gt8_id a = bit_or (bit_and (a.word2 / 2 ^ 24) 0xF0) (bit_and (a.word2 / 2 ^ 12) 0xF)

-- `GetBits`; a shift by more than the word, or by a negative count, is not defined in C.
unfoldable pub get_bits : ℕ → ℕ → ℕ → ℕ
get_bits value bit_start num_bits =
    bit_and (value / 2 ^ (bit_start + 1 - num_bits)) (2 ^ num_bits - 1)
