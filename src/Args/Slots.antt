-- ===== src/Args/Slots.antt =====
-- Which places of an array the flags of `GetMultiUInt` and `GetMultiFloat` can name.
use penn_daq.Prelude.{
  ℕ, zero, suc, ◌+◌, ◌-◌, ◌*◌, ◌/◌, ◌%◌, ◌≤◌, ◌<◌, ◌≡◌, refl, List, Option, none, some, arith,
  get_or, ap, ◌∙◌, ◌↔◌, [], ◌∷◌, Bool, true, false, if◌then◌else◌, ◌==◌,
}
use mathlib.Core.Option
use mathlib.Core.Option.{some-injective}
use penn_daq.Args.{digit_loop, slot_of}

-- A loop over digits finds the digit that the byte stands for, if the loop reaches it.
digit_loop-found : (n k c d : ℕ) → digit_loop n k c ≡ some d → (k ≤ d) × (d < k + n) × (c ≡ d + 48)
unfolding digit_loop
digit_loop-found zero k c d e = cc
digit_loop-found (suc n) k c d e =
    by_hit (λ f. digit_loop-found n (suc k) c d f) (c == k + 48) refl e
  where
    by_hit :
        (digit_loop n (suc k) c ≡ some d → (suc k ≤ d) × (d < suc k + n) × (c ≡ d + 48))
        → (b : Bool) → (c == k + 48) ≡ b
        → (if b then some k else digit_loop n (suc k) c) ≡ some d
        → (k ≤ d) × (d < k + suc n) × (c ≡ d + 48)
    by_hit later true t f = let s = some-injective k d f in ground arith
    by_hit later false t f = let r = later f in (omega arith, omega arith, r.2)

slot_of_sound :
    (num : ℕ) (w : List ℕ) (k : ℕ)
    → slot_of num w ≡ some k
    → (k / 10 ≤ num / 10)
      × (k % 10 ≤ num % 10)
      × (get_or w 1 0 ≡ k / 10 + 48)
      × (get_or w 2 0 ≡ k % 10 + 48)
unfolding slot_of
slot_of_sound num w k e = first (digit_loop (suc (num / 10)) 0 (get_or w 1 0)) refl e
  where
    second :
        (i j : ℕ)
        → digit_loop (suc (num / 10)) 0 (get_or w 1 0) ≡ some i
        → digit_loop (suc ((num - i * 10) % 10)) 0 (get_or w 2 0) ≡ some j
        → i * 10 + j ≡ k
        → (k / 10 ≤ num / 10)
          × (k % 10 ≤ num % 10)
          × (get_or w 1 0 ≡ k / 10 + 48)
          × (get_or w 2 0 ≡ k % 10 + 48)
    second i j p q s =
        let f : (0 ≤ i) × (i < 0 + suc (num / 10)) × (get_or w 1 0 ≡ i + 48) =
          digit_loop-found (suc (num / 10)) 0 (get_or w 1 0) i p in
        let g : (0 ≤ j) × (j < 0 + suc ((num - i * 10) % 10)) × (get_or w 2 0 ≡ j + 48) =
          digit_loop-found (suc ((num - i * 10) % 10)) 0 (get_or w 2 0) j q in
        let same : (num - i * 10) % 10 ≡ num % 10 = omega arith in
        let tens : k / 10 ≡ i = omega arith in
        let units : k % 10 ≡ j = omega arith in (omega arith, omega arith, omega arith, omega arith)

    units_of :
        (i : ℕ) (o : Option ℕ)
        → digit_loop (suc (num / 10)) 0 (get_or w 1 0) ≡ some i
        → digit_loop (suc ((num - i * 10) % 10)) 0 (get_or w 2 0) ≡ o
        → Option.map (λ j. i * 10 + j) o ≡ some k
        → (k / 10 ≤ num / 10)
          × (k % 10 ≤ num % 10)
          × (get_or w 1 0 ≡ k / 10 + 48)
          × (get_or w 2 0 ≡ k % 10 + 48)
    units_of i none p q f = cc
    units_of i (some j) p q f = second i j p q (some-injective (i * 10 + j) k f)

    first :
        (o : Option ℕ)
        → digit_loop (suc (num / 10)) 0 (get_or w 1 0) ≡ o
        → elim o as (λ x. Option ℕ) [
          | none ↦ none
          | some i ↦
              Option.map (λ j. i * 10 + j) (digit_loop (suc ((num - i * 10) % 10)) 0 (get_or w 2 0))
        ]
          ≡ some k
        → (k / 10 ≤ num / 10)
          × (k % 10 ≤ num % 10)
          × (get_or w 1 0 ≡ k / 10 + 48)
          × (get_or w 2 0 ≡ k % 10 + 48)
    first none p f = cc
    first (some i) p f =
        units_of i (digit_loop (suc ((num - i * 10) % 10)) 0 (get_or w 2 0)) p refl f

-- A loop over digits that reaches the digit of the byte finds it.
digit_loop-finds : (n k d : ℕ) → k ≤ d → d < k + n → digit_loop n k (d + 48) ≡ some d
unfolding digit_loop
digit_loop-finds zero k d low high = absurd (omega arith)
digit_loop-finds (suc n) k d low high =
    by_hit (λ m. digit_loop-finds n (suc k) d m (omega arith)) (d + 48 == k + 48) refl
  where
    by_hit :
        (suc k ≤ d → digit_loop n (suc k) (d + 48) ≡ some d)
        → (b : Bool) → (d + 48 == k + 48) ≡ b
        → (if b then some k else digit_loop n (suc k) (d + 48)) ≡ some d
    by_hit later true t = ap some (ground arith)
    by_hit later false t = later (ground arith)

slot_of_complete :
    (num : ℕ) (w : List ℕ) (k : ℕ)
    → k / 10 ≤ num / 10
    → k % 10 ≤ num % 10
    → get_or w 1 0 ≡ k / 10 + 48
    → get_or w 2 0 ≡ k % 10 + 48
    → slot_of num w ≡ some k
unfolding slot_of
slot_of_complete num w k tens units first second =
    ap by_tens tens_found
    ∙ ap (Option.map (λ j. k / 10 * 10 + j)) units_found
    ∙ ap some (omega arith)
  where
    by_tens : Option ℕ → Option ℕ
    by_tens none = none
    by_tens (some i) =
        Option.map (λ j. i * 10 + j) (digit_loop (suc ((num - i * 10) % 10)) 0 (get_or w 2 0))

    tens_found : digit_loop (suc (num / 10)) 0 (get_or w 1 0) ≡ some (k / 10)
    tens_found =
        ap (digit_loop (suc (num / 10)) 0) first
        ∙ digit_loop-finds (suc (num / 10)) 0 (k / 10) (omega arith) (omega arith)

    units_found : digit_loop (suc ((num - k / 10 * 10) % 10)) 0 (get_or w 2 0) ≡ some (k % 10)
    units_found =
        ap (digit_loop (suc ((num - k / 10 * 10) % 10)) 0) second
        ∙ digit_loop-finds (suc ((num - k / 10 * 10) % 10)) 0 (k % 10) (omega arith) (omega arith)

-- A word names the place `k` of an array of `num` exactly when its second and third bytes are the two
-- digits of `k`, the first of them at most the first of `num`, and the second at most the second of
-- `num`; so the digits of `num` itself name the place past the end.
pub slot_of-digits :
    (num : ℕ) (w : List ℕ) (k : ℕ)
    → (slot_of num w ≡ some k ↔ (
        (k / 10 ≤ num / 10)
        × (k % 10 ≤ num % 10)
        × (get_or w 1 0 ≡ k / 10 + 48)
        × (get_or w 2 0 ≡ k % 10 + 48)))
      × (slot_of num (0 ∷ (num / 10 + 48) ∷ (num % 10 + 48) ∷ []) ≡ some num)
slot_of-digits num w k = (
  (slot_of_sound num w k, λ h. slot_of_complete num w k h.0 h.1 h.2 h.3),
  slot_of_complete num (0 ∷ (num / 10 + 48) ∷ (num % 10 + 48) ∷ []) num (omega arith) (omega arith)
      refl refl,
)
