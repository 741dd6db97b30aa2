-- ===== src/Xl3/Bundles.antt =====
-- The walk over a megabundle, `XL3Link::ProcessPacket` of src/xl3/XL3Link.cpp: it counts
-- the bundles of every minibundle.
use penn_daq.Prelude.{
  ℕ, zero, suc, ◌+◌, ◌-◌, ◌/◌, ◌≤◌, ◌<◌, ◌≡◌, refl, ap, ap₂, ◌∙◌, ◌⊎◌, inl, inr, List, [], ◌∷◌,
  ◌++◌, false, some, drop, length, length-append, All, arith, append_assoc, Bool-cases, ltb,
  if◌then◌else◌,
}
use penn_daq.Stream.Bytes.{drop-append}
use penn_daq.Xl3.Mega.{mini_size, is_passcur, count_mini, mini_loop}

-- A minibundle: its header and its words.
pub record Mini : Type 0 where
  pub info : ℕ
  pub words : List ℕ

-- The header has the size of the words; a passcur minibundle has one at least.
pub record IsMini (m : Mini) : Type 0 where
  pub size : mini_size m.info ≡ length m.words
  pub readable : (is_passcur m.info ≡ false) ⊎ (0 < length m.words)

abbrev pub flat : List Mini → List ℕ
flat [] = []
flat (m ∷ minis) = m.info ∷ (m.words ++ flat minis)

abbrev pub bundles_in : List Mini → ℕ
bundles_in [] = 0
bundles_in (m ∷ minis) =
    let rest = bundles_in minis in if is_passcur m.info then rest else length m.words / 3 + rest

-- A word behind the header is enough to read.
pub count_mini-some :
    (info n : ℕ) (words : List ℕ)
    → (is_passcur info ≡ false) ⊎ (0 < length words)
    → count_mini info words n ≡ some (if is_passcur info then n else n + mini_size info / 3)
unfolding count_mini
count_mini-some info n [] h = elim (Bool-cases (is_passcur info)) [
  | inl p ↦ absurd (ground arith)
  | inr p ↦ rw p refl
]
count_mini-some info n (w ∷ words) h = elim (Bool-cases (is_passcur info)) [
  | inl p ↦ rw p refl
  | inr p ↦ rw p refl
]

-- `numBundles` after one minibundle.
abbrev pub counted_after : ℕ → ℕ → ℕ
counted_after info n = if is_passcur info then n else n + mini_size info / 3

pub goes_on :
    (fuel info left n : ℕ) (words : List ℕ)
    → mini_size info ≤ left
    → (is_passcur info ≡ false) ⊎ (0 < length words)
    → mini_loop (suc fuel) (info ∷ words) (suc left) n
      ≡ mini_loop fuel (drop (mini_size info) words) (left - mini_size info) (counted_after info n)
unfolding mini_loop
goes_on fuel info left n words fits h = rw (mini_loop, count_mini-some info n words h, small) refl
  where
    small : ltb left (mini_size info) ≡ false
    small = ground arith

longer : (k : ℕ) (xs ys : List ℕ) → k < length xs → k < length (xs ++ ys)
longer k xs ys h = omega (arith, length-append xs ys)

-- The walk over minibundles counts the bundles of all of them, and ends without finding one
-- corrupted.
pub mini_loop-flat :
    (minis : List Mini) (tail : List ℕ) (fuel n : ℕ)
    → All IsMini minis
    → length (flat minis) ≤ fuel
    → mini_loop fuel (flat minis ++ tail) (length (flat minis)) n
      ≡ some (record { num_bundles = n + bundles_in minis; corrupted = false })
unfolding mini_loop
mini_loop-flat [] tail fuel n h f =
    ap (λ k. some (record { num_bundles = k; corrupted = false })) {x = n} {y = n + 0} (omega arith)
mini_loop-flat (m ∷ minis) tail zero n h f = absurd (omega arith)
mini_loop-flat (m ∷ minis) tail (suc fuel) n h f =
    let size : mini_size m.info ≡ length m.words = h.0.size in
    let total : length (m.words ++ flat minis) ≡ length m.words + length (flat minis) =
      length-append m.words (flat minis) in
    let left_over : length (m.words ++ flat minis) - mini_size m.info ≡ length (flat minis) =
      omega arith in
    goes_on fuel m.info (length (m.words ++ flat minis)) n ((m.words ++ flat minis) ++ tail)
      (omega arith)
      (elim h.0.readable [
        | inl p ↦ inl p
        | inr p ↦ inr (longer 0 (m.words ++ flat minis) tail (longer 0 m.words (flat minis) p))
      ])
    ∙ ap₂ (λ ws k. mini_loop fuel ws k (counted_after m.info n))
        (ap (λ ws. drop (mini_size m.info) ws) (append_assoc m.words (flat minis) tail)
          ∙ ap (λ k. drop k (m.words ++ (flat minis ++ tail))) size
          ∙ drop-append m.words (flat minis ++ tail))
        left_over
    ∙ mini_loop-flat minis tail fuel (counted_after m.info n) h.1 (omega arith)
    ∙ ap (λ k. some (record { num_bundles = k; corrupted = false }))
        (summed m.info (length m.words) n (bundles_in minis) size)
  where
    summed :
        (info k n rest : ℕ)
        → mini_size info ≡ k
        → counted_after info n + rest ≡ n + (if is_passcur info then rest else k / 3 + rest)
    summed info k n rest e = elim (Bool-cases (is_passcur info)) [
      | inl p ↦ rw p refl
      | inr p ↦ rw p (omega arith)
    ]
