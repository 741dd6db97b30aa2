-- ===== src/Db/Posting.antt =====
-- When `GenerateFECDocFromECAL` posts the document of a card.
use text.Mathlib.Text.{◌==◌ as str_eq}
use penn_daq.Prelude.{
  ℕ, zero, ◌≤◌, ◌≡◌, refl, sym, subst, ap, ◌∙◌, List, [], ◌∷◌, Bool, true, false, if◌then◌else◌,
  arith, length, get_or, All,
}
use penn_daq.Db.Json.{Json}
use penn_daq.Db.Overrides.{Step, got, ◌>>=◌}
use penn_daq.Db.Ecal.{
  Test, other_tests, type_of, count_place, counted_at, Adding, add_ecal_test_results,
}
use penn_daq.Db.Generate.{of_option, Row, is_of, add_critical, add_others, add_rows}
use penn_daq.Db.Counting.{
  Surely, then-Surely, counted_at_grows, length-counted_at, IsSound, add_ecal_test_results-counts,
  is_at, and_left,
}

pub weaken-Surely :
    {A : Type 0} (P Q : A → Type 0) (s : Step A) → ((a : A) → P a → Q a) → Surely P s → Surely Q s
weaken-Surely P Q (got a) f h = f a h
weaken-Surely P Q Step.given_up f h = absurd h
weaken-Surely P Q Step.fault f h = absurd h

pub each-Surely :
    {A : Type 0} (P : ℕ → A → Type 0) (s : Step A)
    → ((i : ℕ) → Surely (P i) s)
    → Surely (λ a. (i : ℕ) → P i a) s
each-Surely P (got a) h = h
each-Surely P Step.given_up h = absurd (h zero)
each-Surely P Step.fault h = absurd (h zero)

pub both-Surely :
    {A : Type 0} (P Q : A → Type 0) (s : Step A)
    → Surely P s
    → Surely Q s
    → Surely (λ a. P a × Q a) s
both-Surely P Q (got a) p q = (p, q)
both-Surely P Q Step.given_up p q = absurd p
both-Surely P Q Step.fault p q = absurd p

pub given-Surely :
    {A : Type 0} (C : Type 0) (P : A → Type 0) (s : Step A) → Surely P s → Surely (λ a. C → P a) s
given-Surely C P s h = weaken-Surely P (λ a. C → P a) s (λ a p c. p) h

module _ (json : Json) (crate slot : ℕ) where
  open json use {Node, find_member, find_element, get_string}

  -- A relation between the states that every test added keeps is kept by the rows.
  module _ (R : Adding json → Adding json → Type 0) (here : (a : Adding json) → R a a)
      (next : (a b c : Adding json) → R a b → R b c → R a c) (Fits : Row json → Type 0)
      (step : (t : Test) (row : Row json) (a : Adding json)
        → Fits row
        → is_of json t crate slot row ≡ true
        → Surely (R a) (of_option (add_ecal_test_results json row.doc a))) where
    then-R :
        (a : Adding json) (s : Step (Adding json)) (f : Adding json → Step (Adding json))
        → Surely (R a) s
        → ((b : Adding json) → Surely (R b) (f b))
        → Surely (R a) (s >>= f)
    then-R a s f h k =
        then-Surely (R a) (R a) s f h
          λ b r. weaken-Surely (R b) (R a) (f b) (λ c q. next a b c r q) (k b)

    if_step :
        (test : Bool) (t : Test) (row : Row json) (a : Adding json)
        → Fits row
        → (test ≡ true → is_of json t crate slot row ≡ true)
        → Surely (R a) (if test then of_option (add_ecal_test_results json row.doc a) else got a)
    if_step true t row a fits h = step t row a fits (h refl)
    if_step false t row a fits h = here a

    pub add_critical-R :
        (ts : List (Test × ℕ)) (row : Row json) (a : Adding json)
        → Fits row
        → Surely (R a) (add_critical json ts crate slot row a)
    unfolding add_critical
    add_critical-R [] row a fits = here a
    add_critical-R ((t, time) ∷ ts) row a fits =
        then-R a _ _ (if_step (is_at json t crate slot time row) t row a fits (and_left _ _))
          λ b. add_critical-R ts row b fits

    pub add_others-R :
        (ts : List Test) (row : Row json) (a : Adding json)
        → Fits row
        → Surely (R a) (add_others json ts crate slot row a)
    unfolding add_others
    add_others-R [] row a fits = here a
    add_others-R (t ∷ ts) row a fits =
        then-R a _ _ (if_step (is_of json t crate slot row) t row a fits (λ e. e))
          λ b. add_others-R ts row b fits

    pub add_rows-R :
        (times : List (Test × ℕ)) (rows : List (Row json)) (a : Adding json)
        → All Fits rows
        → Surely (R a) (add_rows json times crate slot rows a)
    unfolding add_rows
    add_rows-R times [] a fits = here a
    add_rows-R times (row ∷ rows) a fits =
        then-R a _ _
          (then-R a _ _ (add_critical-R times row a fits.0)
            (λ b. add_others-R other_tests row b fits.0))
          λ b. add_rows-R times rows b fits.1

  -- No count falls, and there are as many.
  abbrev pub Grows : Adding json → Adding json → Type 0
  Grows a b =
      (length b.counts ≡ length a.counts) × ((k : ℕ) → get_or a.counts k 0 ≤ get_or b.counts k 0)

  pub here-Grows : (a : Adding json) → Grows a a
  here-Grows a = (refl, λ k. omega arith)

  pub next-Grows : (a b c : Adding json) → Grows a b → Grows b c → Grows a c
  next-Grows a b c p q = (q.0 ∙ p.0, λ k. omega (arith, p.1 k, q.1 k))

  pub same_type :
      (t : Test) (row : Row json)
      → is_of json t crate slot row ≡ true
      → str_eq row.type (type_of t) ≡ true
  same_type t row h = and_left _ _ h

  pub step-Grows :
      (t : Test) (row : Row json) (a : Adding json)
      → IsSound json row
      → is_of json t crate slot row ≡ true
      → Surely (Grows a) (of_option (add_ecal_test_results json row.doc a))
  step-Grows t row a typed h =
      weaken-Surely (λ b. b.counts ≡ counted_at (count_place t) a.counts) (Grows a) _
        (λ b e. (
          ap length e ∙ length-counted_at (count_place t) a.counts,
          λ k.
              subst (λ c. get_or a.counts k 0 ≤ get_or c k 0) (sym e)
                (counted_at_grows (count_place t) a.counts k),
        ))
        (add_ecal_test_results-counts json t row a typed (same_type t row h))
