-- ===== src/Swap.antt =====
-- Byte order, src/core/Globals.cpp: `SwapLongBlock` and `SwapShortBlock`. The XL3 boards are
-- big-endian, and every word that goes to or comes from them passes through these. A word is its
-- pattern of 32 or 16 bits; `NEED_TO_SWAP` of the configuration is the argument `need_to_swap`.
pub mod Laws
mod Tests
use penn_daq.Prelude.{
  ℕ, zero, suc, ◌+◌, ◌*◌, ◌/◌, ◌%◌, ◌^◌, List, [], ◌∷◌, Option, none, some, Bool, true, false,
  bit_and, bit_or,
}
use mathlib.Core.Option

-- The body of the loop of `SwapLongBlock`.
unfoldable pub swap_long : ℕ → ℕ
swap_long x =
    bit_or
      (bit_or
        (bit_or (bit_and x 0x000000FF * 2 ^ 24 % 2 ^ 32) (bit_and x 0x0000FF00 * 2 ^ 8 % 2 ^ 32))
        (bit_and x 0x00FF0000 / 2 ^ 8))
      (bit_and x 0xFF000000 / 2 ^ 24)

-- The body of the loop of `SwapShortBlock`, with the store into an `int16_t`.
unfoldable pub swap_short : ℕ → ℕ
swap_short x = bit_or (bit_and x 0x00FF * 2 ^ 8) (bit_and x 0xFF00 / 2 ^ 8) % 2 ^ 16

-- The words at `p`, of which the first `n` are swapped; none if there are fewer.
pub swap_loop : (ℕ → ℕ) → List ℕ → ℕ → Option (List ℕ)
swap_loop swap words zero = some words
swap_loop swap [] (suc n) = none
swap_loop swap (x ∷ words) (suc n) = Option.map (λ rest. swap x ∷ rest) (swap_loop swap words n)

unfoldable pub swap_long_block : Bool → List ℕ → ℕ → Option (List ℕ)
unfolding swap_loop
swap_long_block true words n = swap_loop swap_long words n
swap_long_block false words n = some words

unfoldable pub swap_short_block : Bool → List ℕ → ℕ → Option (List ℕ)
unfolding swap_loop
swap_short_block true words n = swap_loop swap_short words n
swap_short_block false words n = some words
