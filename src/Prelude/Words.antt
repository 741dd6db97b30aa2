-- ===== src/Prelude/Words.antt =====
-- Bits of a machine word, and `|`, `&` and `~` on words, bit by bit.
use Prim.Native.Nat.{
  ℕ, zero, suc, ◌+◌, ◌-◌, ◌*◌, ◌/◌, ◌%◌, ◌^◌, ◌≤◌, ◌<◌, min, max, digits, bit_and, bit_or,
  bit_and-bitwise, bit_or-bitwise,
}
use mathlib.Core.Logic.{◌≢◌}
use mathlib.Core.Path.{◌≡◌, refl, ap, ◌∙◌, sym}
use native.Mathlib.Omega.{arith}
use native.Mathlib.Nat.{le_refl, div-div-eq-div-mul, pow-succ', div-one, two-pow-succ, one-le-pow}

-- Bit `k` of `x`.
abbrev pub bit : ℕ → ℕ → ℕ
bit x zero = x % 2
bit x (suc k) = bit (x / 2) k

-- The fuel of `digits` does not matter once it covers the number.
module _ (tail : ℕ → ℕ) (op : ℕ → ℕ → ℕ) where
  digits_enough : (n m a b : ℕ) → a ≤ n → a ≤ m → digits tail op n a b ≡ digits tail op m a b
  digits_enough zero zero a b p q = refl
  digits_enough n m zero b p q = both_zero n m
    where
      both_zero : (n m : ℕ) → digits tail op n zero b ≡ digits tail op m zero b
      both_zero zero zero = refl
      both_zero zero (suc m) = refl
      both_zero (suc n) zero = refl
      both_zero (suc n) (suc m) = refl
  digits_enough zero m (suc a) b p q = absurd (omega arith)
  digits_enough (suc n) zero (suc a) b p q = absurd (omega arith)
  digits_enough (suc n) (suc m) (suc a) b p q =
      ap (λ (t : ℕ). t * 2 + op (suc a % 2) (b % 2))
        (digits_enough n m (suc a / 2) (b / 2) (omega arith) (omega arith))

pub bit_or_digit : (a b : ℕ) → bit_or a b ≡ bit_or (a / 2) (b / 2) * 2 + max (a % 2) (b % 2)
bit_or_digit zero b = omega (arith, bit_or-bitwise 0 b, bit_or-bitwise 0 (b / 2))
bit_or_digit (suc a) b = omega (
  arith,
  bit_or-bitwise (suc a) b,
  bit_or-bitwise (suc a / 2) (b / 2),
  digits_enough (λ y. y) max a (suc a / 2) (suc a / 2) (b / 2) (omega arith) (le_refl _),
)

pub bit_and_digit : (a b : ℕ) → bit_and a b ≡ bit_and (a / 2) (b / 2) * 2 + min (a % 2) (b % 2)
bit_and_digit zero b = omega (arith, bit_and-bitwise 0 b, bit_and-bitwise 0 (b / 2))
bit_and_digit (suc a) b = omega (
  arith,
  bit_and-bitwise (suc a) b,
  bit_and-bitwise (suc a / 2) (b / 2),
  digits_enough (λ y. 0) min a (suc a / 2) (suc a / 2) (b / 2) (omega arith) (le_refl _),
)

pub bit_or-half : (a b : ℕ) → bit_or a b / 2 ≡ bit_or (a / 2) (b / 2)
bit_or-half a b = omega (arith, bit_or_digit a b)

pub bit_and-half : (a b : ℕ) → bit_and a b / 2 ≡ bit_and (a / 2) (b / 2)
bit_and-half a b = omega (arith, bit_and_digit a b)

pub bit-bit_or : (a b k : ℕ) → bit (bit_or a b) k ≡ max (bit a k) (bit b k)
bit-bit_or a b zero = omega (arith, bit_or_digit a b)
bit-bit_or a b (suc k) = ap (λ t. bit t k) (bit_or-half a b) ∙ bit-bit_or (a / 2) (b / 2) k

pub bit-bit_and : (a b k : ℕ) → bit (bit_and a b) k ≡ min (bit a k) (bit b k)
bit-bit_and a b zero = omega (arith, bit_and_digit a b)
bit-bit_and a b (suc k) = ap (λ t. bit t k) (bit_and-half a b) ∙ bit-bit_and (a / 2) (b / 2) k

pub bit-le-one : (x k : ℕ) → bit x k ≤ 1
bit-le-one x zero = omega arith
bit-le-one x (suc k) = bit-le-one (x / 2) k

-- Two numbers with the same bits are equal.
bit_ext_below : (n a b : ℕ) → a ≤ n → b ≤ n → ((k : ℕ) → bit a k ≡ bit b k) → a ≡ b
bit_ext_below zero a b p q same = omega arith
bit_ext_below (suc n) a b p q same =
    omega (
      arith,
      same 0,
      bit_ext_below n (a / 2) (b / 2) (omega arith) (omega arith) (λ k. same (suc k)),
    )

pub bit_ext : (a b : ℕ) → ((k : ℕ) → bit a k ≡ bit b k) → a ≡ b
bit_ext a b same = bit_ext_below (a + b) a b (omega arith) (omega arith) same

-- What `(x >> k) & 1` reads.
pub shift-bit : (x k : ℕ) → x / 2 ^ k % 2 ≡ bit x k
shift-bit x zero = ap (λ (t : ℕ). t % 2) (div-one x)
shift-bit x (suc k) =
    ap (λ (t : ℕ). t % 2)
      (ap (λ (t : ℕ). x / t) (pow-succ' 2 k) ∙ sym (div-div-eq-div-mul x 2 (2 ^ k)))
    ∙ shift-bit (x / 2) k

pub bit_and-one : (x : ℕ) → bit_and x 1 ≡ x % 2
bit_and-one x = bit_ext (bit_and x 1) (x % 2) λ k. bit-bit_and x 1 k ∙ same k
  where
    zeros : (k : ℕ) → bit 0 k ≡ 0
    zeros zero = refl
    zeros (suc k) = zeros k

    low_half : x % 2 / 2 ≡ 0
    low_half = omega arith

    same : (k : ℕ) → min (bit x k) (bit 1 k) ≡ bit (x % 2) k
    same zero = omega arith
    same (suc k) = omega (arith, zeros k, ap (λ t. bit t k) low_half)

pub bit-zero : (k : ℕ) → bit 0 k ≡ 0
bit-zero zero = refl
bit-zero (suc k) = bit-zero k

pub bit-ge : (n x k : ℕ) → x < 2 ^ n → n ≤ k → bit x k ≡ 0
bit-ge zero x k h g = ap (λ t. bit t k) zero_x ∙ bit-zero k
  where
    zero_x : x ≡ 0
    zero_x = omega arith
bit-ge (suc n) x zero h g = absurd (omega arith)
bit-ge (suc n) x (suc k) h g = bit-ge n (x / 2) k (omega (arith, two-pow-succ n)) (omega arith)

-- The complement in a word of `n` bits.
pub bit-complement : (n x k : ℕ) → x < 2 ^ n → k < n → bit (2 ^ n - 1 - x) k ≡ 1 - bit x k
bit-complement zero x k h g = absurd (omega arith)
bit-complement (suc n) x zero h g = omega (arith, two-pow-succ n, one-le-pow n 2)
bit-complement (suc n) x (suc k) h g =
    ap (λ t. bit t k) half
    ∙ bit-complement n (x / 2) k (omega (arith, two-pow-succ n)) (omega arith)
  where
    half : (2 ^ suc n - 1 - x) / 2 ≡ 2 ^ n - 1 - x / 2
    half = omega (arith, two-pow-succ n, one-le-pow n 2)

-- The bits of a power of 2.
pub bit-pow : (k : ℕ) → bit (2 ^ k) k ≡ 1
bit-pow zero = refl
bit-pow (suc k) = ap (λ t. bit t k) (omega (arith, two-pow-succ k)) ∙ bit-pow k

pub bit-pow_ne : (k i : ℕ) → i ≢ k → bit (2 ^ k) i ≡ 0
bit-pow_ne zero zero ne = absurd (ne refl)
bit-pow_ne zero (suc i) ne = bit-zero i
bit-pow_ne (suc k) zero ne = omega (arith, two-pow-succ k)
bit-pow_ne (suc k) (suc i) ne =
    ap (λ t. bit t i) (omega (arith, two-pow-succ k)) ∙ bit-pow_ne k i (λ e. ne (ap suc e))
