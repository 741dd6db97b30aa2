-- ===== src/Swap/Laws.antt =====
-- The swaps reverse the bytes of each word, and undo themselves.
use penn_daq.Prelude.{
  ℕ, zero, suc, ◌+◌, ◌*◌, ◌/◌, ◌%◌, ◌^◌, ◌≤◌, ◌<◌, ◌≡◌, refl, ap, ◌∙◌, List, [], ◌∷◌, ◌++◌, some,
  Bool, true, false, arith, length, take, drop, map, All, bit_and-field, bit_or-field, bit_and,
  bit_or,
}
use mathlib.Core.List.{reverse}
use penn_daq.Swap.{swap_long, swap_short, swap_loop, swap_long_block, swap_short_block}

-- The bytes of a word in memory order, on a little-endian host.
abbrev pub bytes_of_long : ℕ → List ℕ
bytes_of_long x = x % 256 ∷ x / 256 % 256 ∷ x / 65536 % 256 ∷ x / 16777216 % 256 ∷ []

abbrev pub bytes_of_short : ℕ → List ℕ
bytes_of_short x = x % 256 ∷ x / 256 % 256 ∷ []

long_masks :
    (x : ℕ)
    → (bit_and x 0x000000FF ≡ x % 256)
      × (bit_and x 0x0000FF00 ≡ x / 256 % 256 * 256)
      × (bit_and x 0x00FF0000 ≡ x / 65536 % 256 * 65536)
      × (bit_and x 0xFF000000 ≡ x / 16777216 % 256 * 16777216)
long_masks x = (
  omega (arith, bit_and-field 0 8 x),
  omega (arith, bit_and-field 8 8 x),
  omega (arith, bit_and-field 16 8 x),
  omega (arith, bit_and-field 24 8 x),
)

swap_long_sum :
    (x : ℕ)
    → swap_long x
      ≡ x % 256 * 16777216 + x / 256 % 256 * 65536 + x / 65536 % 256 * 256 + x / 16777216 % 256
unfolding swap_long
swap_long_sum x =
    let m = long_masks x in
    let b0 : ℕ = x % 256 in
    let b1 : ℕ = x / 256 % 256 in
    let b2 : ℕ = x / 65536 % 256 in
    let b3 : ℕ = x / 16777216 % 256 in
    let e0 : bit_and x 255 * 16777216 % 4294967296 ≡ b0 * 16777216 = omega (arith, m.0) in
    let e1 : bit_and x 65280 * 256 % 4294967296 ≡ b1 * 65536 = omega (arith, m.1) in
    let e2 : bit_and x 16711680 / 256 ≡ b2 * 256 = omega (arith, m.2) in
    let e3 : bit_and x 4278190080 / 16777216 ≡ b3 = omega (arith, m.3) in
    let top : b0 * 16777216 + b1 * 65536 ≡ (b0 * 256 + b1) * 65536 = omega arith in
    let upper : (b0 * 256 + b1) * 65536 + b2 * 256 ≡ (b0 * 65536 + b1 * 256 + b2) * 256 =
      omega arith in
    rw (e0, e1, e2, e3)
      (ap (λ t. bit_or (bit_or t (b2 * 256)) b3)
          (bit_or-field 24 b0 (b1 * 65536) (omega arith) ∙ top)
        ∙ ap (λ t. bit_or t b3) (bit_or-field 16 (b0 * 256 + b1) (b2 * 256) (omega arith) ∙ upper)
        ∙ bit_or-field 8 (b0 * 65536 + b1 * 256 + b2) b3 (omega arith)
        ∙ omega arith)

swap_short_sum : (x : ℕ) → swap_short x ≡ x % 256 * 256 + x / 256 % 256
unfolding swap_short
swap_short_sum x =
    let m = long_masks x in
    let e0 : bit_and x 255 * 256 ≡ x % 256 * 256 = omega (arith, m.0) in
    let e1 : bit_and x 65280 / 256 ≡ x / 256 % 256 = omega (arith, m.1) in
    rw (e0, e1)
      (ap (λ (t : ℕ). t % 65536) (bit_or-field 8 (x % 256) (x / 256 % 256) (omega arith))
        ∙ omega arith)

-- Swapping a 32-bit word reverses the order of its four bytes.
pub swap_long-reverses : (x : ℕ) → bytes_of_long (swap_long x) ≡ reverse (bytes_of_long x)
swap_long-reverses x =
    let e = swap_long_sum x in
    let e0 : swap_long x % 256 ≡ x / 16777216 % 256 = omega (arith, e) in
    let e1 : swap_long x / 256 % 256 ≡ x / 65536 % 256 = omega (arith, e) in
    let e2 : swap_long x / 65536 % 256 ≡ x / 256 % 256 = omega (arith, e) in
    let e3 : swap_long x / 16777216 % 256 ≡ x % 256 = omega (arith, e) in cc

-- Swapping a 16-bit word exchanges its two bytes.
pub swap_short-reverses : (x : ℕ) → bytes_of_short (swap_short x) ≡ reverse (bytes_of_short x)
swap_short-reverses x =
    let e = swap_short_sum x in
    let e0 : swap_short x % 256 ≡ x / 256 % 256 = omega (arith, e) in
    let e1 : swap_short x / 256 % 256 ≡ x % 256 = omega (arith, e) in cc

-- Swapping twice gives the word back.
pub swap_long-swap_long : (x : ℕ) → x < 2 ^ 32 → swap_long (swap_long x) ≡ x
swap_long-swap_long x h = omega (arith, swap_long_sum x, swap_long_sum (swap_long x))

pub swap_short-swap_short : (x : ℕ) → x < 2 ^ 16 → swap_short (swap_short x) ≡ x
swap_short-swap_short x h = omega (arith, swap_short_sum x, swap_short_sum (swap_short x))

pub swap_long-lt : (x : ℕ) → swap_long x < 2 ^ 32
swap_long-lt x = omega (arith, swap_long_sum x)

pub swap_short-lt : (x : ℕ) → swap_short x < 2 ^ 16
swap_short-lt x = omega (arith, swap_short_sum x)

-- The loop on a block: `n` words are swapped, the words behind them stay.
module _ (swap : ℕ → ℕ) where
  pub swap_loop-eq :
      (words : List ℕ) (n : ℕ)
      → n ≤ length words
      → swap_loop swap words n ≡ some (map swap (take n words) ++ drop n words)
  unfolding swap_loop
  swap_loop-eq words zero h = refl
  swap_loop-eq [] (suc n) h = elim h [ ]
  swap_loop-eq (x ∷ words) (suc n) h = rw (swap_loop-eq words n (omega arith))

  swap_loop-undo :
      (limit : ℕ)
      → ((x : ℕ) → x < limit → swap (swap x) ≡ x)
      → (words : List ℕ) (n : ℕ) → All (λ x. x < limit) words
      → n ≤ length words
      → (out : List ℕ) × (swap_loop swap words n ≡ some out) × (swap_loop swap out n ≡ some words)
  unfolding swap_loop
  swap_loop-undo limit undo words zero all h = (words, refl, refl)
  swap_loop-undo limit undo [] (suc n) all h = elim h [ ]
  swap_loop-undo limit undo (x ∷ words) (suc n) all h =
      let (out, there, back) = swap_loop-undo limit undo words n all.1 (omega arith) in
      (swap x ∷ out, rw there, rw (back, undo x all.0))

-- Swapping a block of 32-bit words twice gives the block back, whether the host swaps or not; the
-- first call never reads past the block.
pub swap_long_block-twice :
    (need_to_swap : Bool) (words : List ℕ) (n : ℕ)
    → All (λ x. x < 2 ^ 32) words
    → n ≤ length words
    → (out : List ℕ) × (swap_long_block need_to_swap words n ≡ some out)
      × (swap_long_block need_to_swap out n ≡ some words)
unfolding swap_long_block
swap_long_block-twice true words n all h =
    swap_loop-undo swap_long (2 ^ 32) swap_long-swap_long words n all h
swap_long_block-twice false words n all h = (words, refl, refl)

-- The same for 16-bit words.
pub swap_short_block-twice :
    (need_to_swap : Bool) (words : List ℕ) (n : ℕ)
    → All (λ x. x < 2 ^ 16) words
    → n ≤ length words
    → (out : List ℕ) × (swap_short_block need_to_swap words n ≡ some out)
      × (swap_short_block need_to_swap out n ≡ some words)
unfolding swap_short_block
swap_short_block-twice true words n all h =
    swap_loop-undo swap_short (2 ^ 16) swap_short-swap_short words n all h
swap_short_block-twice false words n all h = (words, refl, refl)
