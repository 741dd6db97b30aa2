-- ===== src/Mtc/Lines.antt =====
-- The lines of the DACs carry the bits of their counts.
use penn_daq.Prelude.{
  ℕ, zero, suc, ◌+◌, ◌*◌, ◌^◌, ◌≤◌, ◌<◌, ◌≡◌, ◌≢◌, refl, ap, ◌∙◌, arith, List, [], ◌∷◌, some, ◌==◌,
  if◌then◌else◌, length, get_elem?, bit, bit-le-one, bit_and, bit_or, bit_and-field, shift-bit,
  clear_bits, bit-bit_or, bit-clear_bits, bit-pow_ne, bit-pow,
}
use mathlib.Core.Option.{some-injective}
use native.Mathlib.Nat.{one-le-pow, pow-le-pow_right}
use penn_daq.Mtc.Dacs.{set_lines}

-- One round of the loop over the DACs.
abbrev set_line : ℕ → ℕ → ℕ → ℕ → ℕ
set_line bi raw di v =
    if bit_and raw (2 ^ bi) == 0 then clear_bits v (2 ^ di) else bit_or v (2 ^ di)

tested : (raw bi : ℕ) → bit_and raw (2 ^ bi) ≡ bit raw bi * 2 ^ bi
tested raw bi =
    ap (λ t. bit_and raw t) (omega arith)
    ∙ bit_and-field bi 1 raw
    ∙ ap (λ (t : ℕ). t * 2 ^ bi) (shift-bit raw bi)

set_line_self : (bi raw di v : ℕ) → di < 32 → bit (set_line bi raw di v) di ≡ bit raw bi
set_line_self bi raw di v lt = by_bit (bit raw bi) (bit-le-one raw bi) (tested raw bi)
  where
    small : 2 ^ di ≤ 2147483648
    small = pow-le-pow_right {n = 2} (omega arith) {i = di} {j = 31} (omega arith)

    by_bit : (t : ℕ) → t ≤ 1 → bit_and raw (2 ^ bi) ≡ t * 2 ^ bi → bit (set_line bi raw di v) di ≡ t
    by_bit zero le e =
        ground (arith, e, bit-clear_bits v (2 ^ di) di (omega (arith, small)) lt, bit-pow di)
    by_bit (suc zero) le e = ground (
      arith,
      e,
      one-le-pow bi 2 (omega arith),
      bit-bit_or v (2 ^ di) di,
      bit-pow di,
      bit-le-one v di,
    )
    by_bit (suc (suc t)) le e = absurd (omega arith)

set_line_ne :
    (bi raw di v k : ℕ) → di < 32 → k < 32 → k ≢ di → bit (set_line bi raw di v) k ≡ bit v k
set_line_ne bi raw di v k lt lk ne = ground (
  arith,
  bit-clear_bits v (2 ^ di) k (omega (arith, small)) lk,
  bit-bit_or v (2 ^ di) k,
  bit-pow_ne di k ne,
  bit-le-one v k,
)
  where
    small : 2 ^ di ≤ 2147483648
    small = pow-le-pow_right {n = 2} (omega arith) {i = di} {j = 31} (omega arith)

set_lines-below :
    (bi : ℕ) (raws : List ℕ) (di v k : ℕ)
    → di + length raws ≤ 32
    → k < di
    → bit (set_lines bi raws di v) k ≡ bit v k
unfolding set_lines
set_lines-below bi [] di v k fit lt = refl
set_lines-below bi (raw ∷ raws) di v k fit lt =
    set_lines-below bi raws (suc di) (set_line bi raw di v) k (omega arith) (omega arith)
    ∙ set_line_ne bi raw di v k (omega arith) (omega arith) (λ e. omega arith)

-- Each line of the word has the bit of its DAC's count.
pub set_lines-bit :
    (bi : ℕ) (raws : List ℕ) (di v k raw : ℕ)
    → di + length raws ≤ 32
    → get_elem? raws k ≡ some raw
    → bit (set_lines bi raws di v) (di + k) ≡ bit raw bi
unfolding set_lines
set_lines-bit bi [] di v k raw fit e = cc
set_lines-bit bi (x ∷ raws) di v zero raw fit e =
    ap (λ t. bit (set_lines bi raws (suc di) (set_line bi x di v)) t) {x = di + 0} {y = di}
      (omega arith)
    ∙ set_lines-below bi raws (suc di) (set_line bi x di v) di (omega arith) (omega arith)
    ∙ set_line_self bi x di v (omega arith)
    ∙ ap (λ t. bit t bi) (some-injective x raw e)
set_lines-bit bi (x ∷ raws) di v (suc k) raw fit e =
    ap (λ t. bit (set_lines bi raws (suc di) (set_line bi x di v)) t) {x = di + suc k}
      {y = suc di + k} (omega arith)
    ∙ set_lines-bit bi raws (suc di) (set_line bi x di v) k raw (omega arith) e

-- The bits above the lines stay.
pub set_lines-above :
    (bi : ℕ) (raws : List ℕ) (di v k : ℕ)
    → di + length raws ≤ k
    → k < 32
    → bit (set_lines bi raws di v) k ≡ bit v k
unfolding set_lines
set_lines-above bi [] di v k le lt = refl
set_lines-above bi (raw ∷ raws) di v k le lt =
    set_lines-above bi raws (suc di) (set_line bi raw di v) k (omega arith) lt
    ∙ set_line_ne bi raw di v k (omega arith) lt (λ e. omega arith)
