-- ===== src/Stream/Bytes.antt =====
-- C arrays of bytes: reading a run, overwriting a run, `strlen`.
use penn_daq.Prelude.{
  ℕ, zero, suc, ◌+◌, ◌-◌, ◌≤◌, ◌≡◌, refl, ap, ◌∙◌, List, [], ◌∷◌, ◌++◌, Option, none, some, arith,
  length, take, drop, length-take, leb, if◌then◌else◌, ◌==◌, replicate, sym,
}

-- The `n` bytes at a pointer; none if the array ends before.
abbrev pub read_bytes : List ℕ → ℕ → Option (List ℕ)
read_bytes input n = if leb n (length input) then some (take n input) else none

-- `memcpy(dst + off, src, strlen)`; none if it would write past the end.
abbrev pub copy_bytes : List ℕ → ℕ → List ℕ → Option (List ℕ)
copy_bytes dst off src =
    if leb (off + length src) (length dst)
    then some (take off dst ++ (src ++ drop (off + length src) dst))
    else none

-- `strlen`: the bytes before the first zero. A buffer without one is read to its end.
unfoldable pub strlen : List ℕ → ℕ
strlen [] = 0
strlen (b ∷ bs) = if b == 0 then 0 else suc (strlen bs)

pub strlen-replicate : (n : ℕ) → strlen (replicate n 0) ≡ 0
unfolding strlen
strlen-replicate zero = refl
strlen-replicate (suc n) = refl

abbrev pub nil_of {ℓ} : (A : Type ℓ) → List A
nil_of A = []

module _ {ℓ} {A : Type ℓ} where
  pub take-append : (xs ys : List A) → take (length xs) (xs ++ ys) ≡ xs
  take-append [] ys = refl
  take-append (x ∷ xs) ys = ap (λ t. x ∷ t) (take-append xs ys)

  pub drop-append : (xs ys : List A) → drop (length xs) (xs ++ ys) ≡ ys
  drop-append [] ys = refl
  drop-append (x ∷ xs) ys = drop-append xs ys

  pub take-nil : (n : ℕ) → take n (nil_of A) ≡ []
  take-nil zero = refl
  take-nil (suc n) = refl

  pub take_all : (n : ℕ) (xs : List A) → length xs ≤ n → take n xs ≡ xs
  take_all zero [] h = refl
  take_all zero (x ∷ xs) h = elim h [ ]
  take_all (suc n) [] h = refl
  take_all (suc n) (x ∷ xs) h = ap (λ t. x ∷ t) (take_all n xs (omega arith))

  pub take-append_le : (n : ℕ) (xs ys : List A) → n ≤ length xs → take n (xs ++ ys) ≡ take n xs
  take-append_le zero xs ys h = refl
  take-append_le (suc n) [] ys h = elim h [ ]
  take-append_le (suc n) (x ∷ xs) ys h = ap (λ t. x ∷ t) (take-append_le n xs ys (omega arith))

  pub take-split :
      (n t : ℕ) (xs : List A) → n ≤ t → take t xs ≡ take n xs ++ take (t - n) (drop n xs)
  take-split zero t xs h = ap (λ k. take k xs) (omega arith)
  take-split (suc n) zero xs h = elim h [ ]
  take-split (suc n) (suc t) [] h = sym (take-nil (suc t - suc n))
  take-split (suc n) (suc t) (x ∷ xs) h =
      ap (λ z. x ∷ z)
        (take-split n t xs (omega arith) ∙ ap (λ k. take n xs ++ take k (drop n xs)) (omega arith))

  pub length-take_le : (n : ℕ) (xs : List A) → n ≤ length xs → length (take n xs) ≡ n
  length-take_le n xs h = omega (arith, length-take n xs)

  pub drop_all : (n : ℕ) (xs : List A) → length xs ≤ n → drop n xs ≡ []
  drop_all zero [] h = refl
  drop_all zero (x ∷ xs) h = elim h [ ]
  drop_all (suc n) [] h = refl
  drop_all (suc n) (x ∷ xs) h = drop_all n xs (omega arith)

  pub drop-append_le :
      (n : ℕ) (xs ys : List A) → n ≤ length xs → drop n (xs ++ ys) ≡ drop n xs ++ ys
  drop-append_le zero xs ys h = refl
  drop-append_le (suc n) [] ys h = elim h [ ]
  drop-append_le (suc n) (x ∷ xs) ys h = drop-append_le n xs ys (omega arith)

  pub take-append_eq : (n : ℕ) (xs ys : List A) → length xs ≡ n → take n (xs ++ ys) ≡ xs
  take-append_eq n xs ys e = rw (← e) (take-append xs ys)

pub copy_bytes-start :
    (dst : List ℕ) (k : ℕ) (src : List ℕ)
    → k ≡ 0
    → length src ≤ length dst
    → copy_bytes dst k src ≡ some (src ++ drop (length src) dst)
copy_bytes-start dst k src e h = ground arith
