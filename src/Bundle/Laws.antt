-- ===== src/Bundle/Laws.antt =====
-- The macros read the layout of the front-end card.
use penn_daq.Prelude.{
  ℕ, ◌+◌, ◌-◌, ◌*◌, ◌/◌, ◌%◌, ◌^◌, ◌<◌, ◌≡◌, ap, ap₂, ◌∙◌, arith, bit_and, bit_or, bit_and-low,
  bit_and-field, bit_or-field, bit_or-field_right, not32,
}
use penn_daq.Bundle.{Words, my_qlx, adc, qlx, gt24_id, gt16_id, gt8_id, get_bits}

abbrev pub IsWords : Words → Type 0
IsWords a = (a.word0 < 2 ^ 32) × (a.word1 < 2 ^ 32) × (a.word2 < 2 ^ 32)

pub adc_sum : (w : ℕ) → adc w ≡ (w + 2048) % 4096
adc_sum w = ground (arith, bit_and-low 11 w, bit_and-field 11 1 w)

-- Both macros for the low-gain charge give the same value, the count with its top bit put right.
pub my_qlx-eq-qlx : (a : Words) → a.word1 < 2 ^ 32 → my_qlx a ≡ qlx a
unfolding my_qlx qlx
my_qlx-eq-qlx a h =
    let low : bit_and a.word1 2047 ≡ a.word1 % 2048 = bit_and-low 11 a.word1 in
    let high : bit_and (not32 a.word1) 2048 ≡ (1 - a.word1 / 2048 % 2) * 2048 =
      omega (arith, bit_and-field 11 1 (not32 a.word1)) in
    ap₂ bit_or low high
    ∙ bit_or-field_right 11 (1 - a.word1 / 2048 % 2) (a.word1 % 2048) (omega arith)
    ∙ omega (arith, adc_sum a.word1)

pub gt24_sum :
    (a : Words)
    → a.word2 < 2 ^ 32
    → gt24_id a ≡ a.word0 % 65536 + a.word2 / 4096 % 16 * 65536 + a.word2 / 268435456 * 1048576
unfolding gt24_id
gt24_sum a h =
    let e0 : bit_and a.word0 65535 ≡ a.word0 % 65536 = bit_and-low 16 a.word0 in
    let e1 : bit_and (a.word2 * 16 % 4294967296) 983040 ≡ a.word2 / 4096 % 16 * 65536 =
      omega (arith, bit_and-field 16 4 (a.word2 * 16 % 4294967296)) in
    let e2 : bit_and (a.word2 / 256) 15728640 ≡ a.word2 / 268435456 * 1048576 =
      omega (arith, bit_and-field 20 4 (a.word2 / 256)) in
    rw (e0, e1, e2)
      (ap (λ t. bit_or t (a.word2 / 268435456 * 1048576))
          (bit_or-field_right 16 (a.word2 / 4096 % 16) (a.word0 % 65536) (omega arith))
        ∙ bit_or-field_right 20 (a.word2 / 268435456)
            (a.word0 % 65536 + a.word2 / 4096 % 16 * 65536) (omega arith))

gt8_sum : (a : Words) → a.word2 < 2 ^ 32 → gt8_id a ≡ a.word2 / 268435456 * 16 + a.word2 / 4096 % 16
unfolding gt8_id
gt8_sum a h =
    let e0 : bit_and (a.word2 / 16777216) 240 ≡ a.word2 / 268435456 * 16 =
      omega (arith, bit_and-field 4 4 (a.word2 / 16777216)) in
    rw (e0, bit_and-low 4 (a.word2 / 4096))
      (bit_or-field 4 (a.word2 / 268435456) (a.word2 / 4096 % 16) (omega arith))

-- The two parts of the trigger count that `ReadBundle` prints make up the 24-bit count.
pub gt8-gt16 : (a : Words) → IsWords a → gt8_id a * 65536 + gt16_id a ≡ gt24_id a
unfolding gt16_id
gt8-gt16 a h = omega (arith, gt8_sum a h.2, gt24_sum a h.2, bit_and-low 16 a.word0)

-- `get_bits value start n` is the `n` bits of which `start` is the highest.
pub get_bits_lem :
    (value low n : ℕ) → 0 < n → get_bits value (low + n - 1) n ≡ value / 2 ^ low % 2 ^ n
unfolding get_bits
get_bits_lem value low n pos =
    bit_and-low n (value / 2 ^ (low + n - 1 + 1 - n))
    ∙ ap (λ k. value / 2 ^ k % 2 ^ n) (omega arith)
