-- ===== src/Swap/Tests.antt =====
-- Swaps of concrete words.
use penn_daq.Prelude.{ℕ, ◌≡◌, refl, List, [], ◌∷◌}
use penn_daq.Swap.{swap_long}

abbrev long_words : List ℕ
long_words = 0x12345678 ∷ 0xFF ∷ 0x80000001 ∷ []

abbrev short_words : List ℕ
short_words = 0x1234 ∷ 0xFF ∷ []

swap_long_run : swap_long 0x12345678 ≡ 0x78563412
unfolding swap_long
swap_long_run = refl
