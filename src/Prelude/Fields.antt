-- ===== src/Prelude/Fields.antt =====
-- `|`, `&` and `~` on words as arithmetic: fields, masks, flags.
use Prim.Native.Nat.{ℕ, zero, suc, ◌+◌, ◌-◌, ◌*◌, ◌/◌, ◌%◌, ◌^◌, ◌≤◌, ◌<◌, min, bit_and, bit_or}
use mathlib.Core.Path.{◌≡◌, ap, ◌∙◌, sym}
use native.Mathlib.Omega.{arith}
use native.Mathlib.Nat.{
  pow-succ', two-pow-succ, mul_left_comm, mul-one, div-one, one-le-pow, mul-add-mod_self_left,
  mod-eq_of_lt, mod-lt, div-add-mod, div-div-eq-div-mul,
}
use penn_daq.Prelude.Words.{
  bit, bit_or_digit, bit_and_digit, bit_ext, bit-bit_and, bit-bit_or, bit-complement, bit-zero,
}

pub bit_or-zero : (x : ℕ) → bit_or x 0 ≡ x
bit_or-zero x = bit_ext (bit_or x 0) x λ k. bit-bit_or x 0 k ∙ omega (arith, bit-zero k)

pub bit_and-zero : (x : ℕ) → bit_and x 0 ≡ 0
bit_and-zero x = bit_ext (bit_and x 0) 0 λ k. bit-bit_and x 0 k ∙ omega (arith, bit-zero k)

double : (q k : ℕ) → q * 2 ^ suc k ≡ 2 * (q * 2 ^ k)
double q k = ap (λ (t : ℕ). q * t) (pow-succ' 2 k) ∙ mul_left_comm q 2 (2 ^ k)

-- A field set beside lower bits: `(q << k) | r` is a sum when `r` has `k` bits.
pub bit_or-field : (k q r : ℕ) → r < 2 ^ k → bit_or (q * 2 ^ k) r ≡ q * 2 ^ k + r
bit_or-field zero q r h =
    ap (λ t. bit_or (q * 1) t) {y = 0} (omega arith) ∙ bit_or-zero (q * 1) ∙ omega arith
bit_or-field (suc k) q r h =
    let e : q * 2 ^ suc k / 2 ≡ q * 2 ^ k = omega (arith, double q k) in
    omega (
      arith,
      bit_or_digit (q * 2 ^ suc k) r,
      double q k,
      ap (λ t. bit_or t (r / 2)) e,
      bit_or-field k q (r / 2) (omega (arith, two-pow-succ k)),
    )

pub bit_or_comm : (a b : ℕ) → bit_or a b ≡ bit_or b a
bit_or_comm a b =
    bit_ext (bit_or a b) (bit_or b a) λ k. bit-bit_or a b k ∙ omega arith ∙ sym (bit-bit_or b a k)

pub bit_and_comm : (a b : ℕ) → bit_and a b ≡ bit_and b a
bit_and_comm a b =
    bit_ext (bit_and a b) (bit_and b a)
      λ k. bit-bit_and a b k ∙ omega arith ∙ sym (bit-bit_and b a k)

-- The same with the field on the right.
pub bit_or-field_right : (k q r : ℕ) → r < 2 ^ k → bit_or r (q * 2 ^ k) ≡ r + q * 2 ^ k
bit_or-field_right k q r h = bit_or_comm r (q * 2 ^ k) ∙ bit_or-field k q r h ∙ omega arith

mod-double : (p x : ℕ) → 0 < p → x % (2 * p) ≡ x / 2 % p * 2 + x % 2
mod-double p x pos =
    ap (λ (t : ℕ). t % (2 * p)) split
    ∙ mul-add-mod_self_left (2 * p) (x / 2 / p) (x / 2 % p * 2 + x % 2)
    ∙ mod-eq_of_lt (omega (arith, mod-lt (x / 2) pos))
  where
    split : x ≡ 2 * p * (x / 2 / p) + (x / 2 % p * 2 + x % 2)
    split = omega (arith, div-add-mod (x / 2) p)

bit-mul_le : (t p : ℕ) → t ≤ 1 → t * p ≤ p
bit-mul_le zero p h = omega arith
bit-mul_le (suc zero) p h = omega arith
bit-mul_le (suc (suc t)) p h = absurd (omega arith)

-- The bit above a remainder by `p`, a power of 2.
pub mod-double_high : (p x : ℕ) → 0 < p → x % (2 * p) ≡ x / p % 2 * p + x % p
mod-double_high p x pos =
    ap (λ (t : ℕ). t % (2 * p)) split
    ∙ mul-add-mod_self_left (2 * p) (x / p / 2) (x / p % 2 * p + x % p)
    ∙ mod-eq_of_lt (omega (arith, bit-mul_le (x / p % 2) p (omega arith), mod-lt x pos))
  where
    halves : p * (x / p) ≡ p * (2 * (x / p / 2) + x / p % 2)
    halves = ap (λ (t : ℕ). p * t) (omega arith)

    split : x ≡ 2 * p * (x / p / 2) + (x / p % 2 * p + x % p)
    split = omega (arith, div-add-mod x p, halves)

-- A mask of the low `w` bits is the remainder by `2 ^ w`.
pub bit_and-low : (w x : ℕ) → bit_and x (2 ^ w - 1) ≡ x % 2 ^ w
bit_and-low zero x = bit_and-zero x ∙ omega arith
bit_and-low (suc w) x =
    let e : (2 ^ suc w - 1) / 2 ≡ 2 ^ w - 1 = omega (arith, two-pow-succ w, one-le-pow w 2) in
    omega (
      arith,
      bit_and_digit x (2 ^ suc w - 1),
      ap (λ t. bit_and (x / 2) t) e,
      bit_and-low w (x / 2),
      mod-double (2 ^ w) x (omega (arith, one-le-pow w 2)),
      ap (λ (t : ℕ). x % t) (pow-succ' 2 w),
      two-pow-succ w,
      one-le-pow w 2,
    )

-- A mask shifted by `k` picks a field out and leaves it in its place.
pub bit_and-field : (k w x : ℕ) → bit_and x ((2 ^ w - 1) * 2 ^ k) ≡ x / 2 ^ k % 2 ^ w * 2 ^ k
bit_and-field zero w x =
    ap (λ t. bit_and x t) (mul-one (2 ^ w - 1))
    ∙ bit_and-low w x
    ∙ ap (λ (t : ℕ). t % 2 ^ w) (sym (div-one x))
    ∙ sym (mul-one (x / 1 % 2 ^ w))
bit_and-field (suc k) w x =
    let e : (2 ^ w - 1) * 2 ^ suc k / 2 ≡ (2 ^ w - 1) * 2 ^ k =
      omega (arith, double (2 ^ w - 1) k) in
    let shifted : x / 2 / 2 ^ k ≡ x / 2 ^ suc k =
      div-div-eq-div-mul x 2 (2 ^ k) ∙ ap (λ (t : ℕ). x / t) (sym (pow-succ' 2 k)) in
    omega (
      arith,
      bit_and_digit x ((2 ^ w - 1) * 2 ^ suc k),
      double (2 ^ w - 1) k,
      ap (λ t. bit_and (x / 2) t) e,
      bit_and-field k w (x / 2),
      ap (λ (t : ℕ). t % 2 ^ w * 2 ^ k) shifted,
      double (x / 2 ^ suc k % 2 ^ w) k,
    )

-- `~x` on `uint32_t`.
abbrev pub not32 : ℕ → ℕ
not32 x = 2 ^ 32 - 1 - x % 2 ^ 32

-- The bits of `x` that `mask` does not name: `x & ~mask`.
abbrev pub clear_bits : ℕ → ℕ → ℕ
clear_bits x mask = bit_and x (not32 mask)

pub bit-clear_bits :
    (x mask k : ℕ)
    → mask < 2 ^ 32
    → k < 32
    → bit (clear_bits x mask) k ≡ min (bit x k) (1 - bit mask k)
bit-clear_bits x mask k h g =
    bit-bit_and x (not32 mask) k
    ∙ ap (λ t. min (bit x k) t) (ap (λ t. bit t k) wrap ∙ bit-complement 32 mask k h g)
  where
    wrap : not32 mask ≡ 2 ^ 32 - 1 - mask
    wrap = omega arith
