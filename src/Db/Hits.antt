-- ===== src/Db/Hits.antt =====
-- Which tests of an ECAL are counted for a card, row by row.
use penn_daq.Prelude.{
  ℕ, zero, suc, ◌<◌, ◌≡◌, ◌≢◌, ◌⊎◌, inl, inr, refl, sym, subst, ap, ◌∙◌, List, [], ◌∷◌, Bool, true,
  false, ◌||◌, if◌then◌else◌, Bool-cases, Option, none, some, arith, length, get_or, All,
}
use penn_daq.Db.Json.{Json}
use penn_daq.Db.Overrides.{Step, got}
use penn_daq.Db.Ecal.{
  Test, crate_cbal, zdisc, set_ttot, cmos_m_gtvalid, find_noise_2, ped_run, cgt_test, get_ttot,
  fec_test, disc_check, ped_run_by_channel, other_tests, count_place, counted_at, Adding,
  add_ecal_test_results,
}
use penn_daq.Db.Generate.{of_option, Row, is_of, add_critical, add_others, add_rows}
use penn_daq.Db.Counting.{
  Surely, then-Surely, counted_at_self, counted_at_ne, IsSound, add_ecal_test_results-counts, any,
  is_at, and_left,
}
use penn_daq.Db.Posting.{
  weaken-Surely, add_critical-R, add_others-R, add_rows-R, Grows, here-Grows, next-Grows,
  step-Grows, same_type,
}

abbrev test_at : ℕ → Test
test_at zero = crate_cbal
test_at (suc zero) = zdisc
test_at (suc (suc zero)) = set_ttot
test_at (suc (suc (suc zero))) = cmos_m_gtvalid
test_at _ = find_noise_2

abbrev place_or : Option ℕ → ℕ
place_or none = 0
place_or (some k) = k

-- No two tests have the same place.
at_place : (t : Test) (k : ℕ) → count_place t ≡ some k → test_at k ≡ t
at_place crate_cbal k h = ap (λ o. test_at (place_or o)) (sym h)
at_place zdisc k h = ap (λ o. test_at (place_or o)) (sym h)
at_place set_ttot k h = ap (λ o. test_at (place_or o)) (sym h)
at_place cmos_m_gtvalid k h = ap (λ o. test_at (place_or o)) (sym h)
at_place find_noise_2 k h = ap (λ o. test_at (place_or o)) (sym h)
at_place ped_run k h = cc
at_place cgt_test k h = cc
at_place get_ttot k h = cc
at_place fec_test k h = cc
at_place disc_check k h = cc
at_place ped_run_by_channel k h = cc

module _ (json : Json) (crate slot : ℕ) (t : Test) (k : ℕ) (place : count_place t ≡ some k) where
  -- The count of the test is as it was.
  abbrev Same : Adding json → Adding json → Type 0
  Same a b = get_or b.counts k 0 ≡ get_or a.counts k 0

  abbrev pub IsOther : Row json → Type 0
  IsOther row = IsSound json row × (is_of json t crate slot row ≡ false)

  other_place :
      (u : Test) (row : Row json)
      → is_of json t crate slot row ≡ false
      → is_of json u crate slot row ≡ true
      → count_place u ≢ some k
  other_place u row fails holds e = absurd (
      true_ne_false (
        sym holds
        ∙ ap (λ v. is_of json v crate slot row) (sym (at_place u k e) ∙ at_place t k place)
        ∙ fails))
    where
      true_ne_false : true ≢ false
      true_ne_false h = ground arith

  step-Same :
      (u : Test) (row : Row json) (a : Adding json)
      → IsOther row
      → is_of json u crate slot row ≡ true
      → Surely (Same a) (of_option (add_ecal_test_results json row.doc a))
  step-Same u row a other holds =
      weaken-Surely (λ b. b.counts ≡ counted_at (count_place u) a.counts) (Same a) _
        (λ b e.
          ap (λ c. get_or c k 0) e
          ∙ counted_at_ne (count_place u) a.counts k (other_place u row other.1 holds))
        (add_ecal_test_results-counts json u row a other.0 (same_type json crate slot u row holds))

  -- Rows of other tests leave the count as it was.
  pub add_rows-Same :
      (times : List (Test × ℕ)) (rows : List (Row json)) (a : Adding json)
      → All IsOther rows
      → Surely (Same a) (add_rows json times crate slot rows a)
  add_rows-Same = add_rows-R json crate slot Same (λ a. refl) (λ a b c p q. q ∙ p) IsOther step-Same

  -- The test stands in the list with its time.
  abbrev pub IsIn : ℕ → List (Test × ℕ) → Type 0
  IsIn time [] = ⊥
  IsIn time ((u, s) ∷ ts) = ((u ≡ t) × (s ≡ time)) ⊎ IsIn time ts

  abbrev pub Counted : Adding json → Type 0
  Counted a = 0 < get_or a.counts k 0

  Grows-Counted : (a b : Adding json) → Counted a → Grows json crate slot a b → Counted b
  Grows-Counted a b h g = omega (arith, g.1 k)

  abbrev Adds : Adding json → Step (Adding json) → Type 0
  Adds a s = Surely (Grows json crate slot a) s

  critical-Grows :
      (ts : List (Test × ℕ)) (row : Row json) (a : Adding json)
      → IsSound json row
      → Adds a (add_critical json ts crate slot row a)
  critical-Grows =
      add_critical-R json crate slot (Grows json crate slot) (here-Grows json crate slot)
        (next-Grows json crate slot) (IsSound json) (step-Grows json crate slot)

  others-Grows :
      (ts : List Test) (row : Row json) (a : Adding json)
      → IsSound json row
      → Adds a (add_others json ts crate slot row a)
  others-Grows =
      add_others-R json crate slot (Grows json crate slot) (here-Grows json crate slot)
        (next-Grows json crate slot) (IsSound json) (step-Grows json crate slot)

  pub rows-Grows :
      (times : List (Test × ℕ)) (rows : List (Row json)) (a : Adding json)
      → All (IsSound json) rows
      → Adds a (add_rows json times crate slot rows a)
  rows-Grows =
      add_rows-R json crate slot (Grows json crate slot) (here-Grows json crate slot)
        (next-Grows json crate slot) (IsSound json) (step-Grows json crate slot)

  still-Counted :
      (a : Adding json) (s : Step (Adding json)) → Counted a → Adds a s → Surely Counted s
  still-Counted a s h g =
      weaken-Surely (Grows json crate slot a) Counted s (λ b. Grows-Counted a b h) g

  hit :
      (row : Row json) (a : Adding json)
      → IsSound json row
      → is_of json t crate slot row ≡ true
      → k < length a.counts
      → Surely Counted (of_option (add_ecal_test_results json row.doc a))
  hit row a typed holds fits =
      weaken-Surely (λ b. b.counts ≡ counted_at (count_place t) a.counts) Counted _
        (λ b e.
          subst (λ c. 0 < get_or c k 0) (sym (e ∙ ap (λ p. counted_at p a.counts) place))
            (counted_at_self a.counts k fits))
        (add_ecal_test_results-counts json t row a typed (same_type json crate slot t row holds))

  if_hit :
      (test : Bool) (row : Row json) (a : Adding json)
      → test ≡ true
      → Surely Counted (of_option (add_ecal_test_results json row.doc a))
      → Surely Counted (if test then of_option (add_ecal_test_results json row.doc a) else got a)
  if_hit true row a e h = h
  if_hit false row a e h = absurd (ground arith)

  if_grows :
      (u : Test) (test : Bool) (row : Row json) (a : Adding json)
      → IsSound json row
      → (test ≡ true → is_of json u crate slot row ≡ true)
      → Adds a (if test then of_option (add_ecal_test_results json row.doc a) else got a)
  if_grows u true row a typed h = step-Grows json crate slot u row a typed (h refl)
  if_grows u false row a typed h = here-Grows json crate slot a

  critical_hits :
      (ts : List (Test × ℕ)) (time : ℕ) (row : Row json) (a : Adding json)
      → IsIn time ts
      → IsSound json row
      → is_at json t crate slot time row ≡ true
      → k < length a.counts
      → Surely Counted (add_critical json ts crate slot row a)
  unfolding add_critical
  critical_hits [] time row a m typed holds fits = absurd m
  critical_hits ((u, s) ∷ ts) time row a (inl (p, q)) typed holds fits =
      then-Surely Counted Counted _ _
        (if_hit (is_at json u crate slot s row) row a
          (ap2 (λ v r. is_at json v crate slot r row) p q ∙ holds)
          (hit row a typed (and_left _ _ holds) fits))
        λ b h. still-Counted b _ h (critical-Grows ts row b typed)
    where
      ap2 : {A B C : Type 0} (f : A → B → C) {x y : A} {v w : B} → x ≡ y → v ≡ w → f x v ≡ f y w
      ap2 f {x} {y} {v} {w} e h = ap (λ z. f z v) e ∙ ap (f y) h
  critical_hits ((u, s) ∷ ts) time row a (inr m) typed holds fits =
      then-Surely (Grows json crate slot a) Counted _ _
        (if_grows u (is_at json u crate slot s row) row a typed (and_left _ _))
        λ b g. critical_hits ts time row b m typed holds (omega (arith, g.0))

  -- A row of the test at its time has it counted.
  pub add_rows-Counted :
      (times : List (Test × ℕ)) (time : ℕ) (rows : List (Row json)) (a : Adding json)
      → IsIn time times
      → All (IsSound json) rows
      → any json (is_at json t crate slot time) rows ≡ true
      → k < length a.counts
      → Surely Counted (add_rows json times crate slot rows a)
  unfolding add_rows
  add_rows-Counted times time [] a m typed holds fits = absurd (ground arith)
  add_rows-Counted times time (row ∷ rows) a m typed holds fits =
      elim (Bool-cases (is_at json t crate slot time row)) [
        | inl e ↦
            then-Surely Counted Counted _ _
              (then-Surely Counted Counted _ _ (critical_hits times time row a m typed.0 e fits)
                (λ b h. still-Counted b _ h (others-Grows other_tests row b typed.0)))
              λ b h. still-Counted b _ h (rows-Grows times rows b typed.1)
        | inr e ↦
            then-Surely (Grows json crate slot a) Counted _ _
              (then-Surely (Grows json crate slot a) (Grows json crate slot a) _ _
                (critical-Grows times row a typed.0)
                (λ b g.
                  weaken-Surely (Grows json crate slot b) (Grows json crate slot a) _
                    (λ c h. next-Grows json crate slot a b c g h)
                    (others-Grows other_tests row b typed.0)))
              λ b g.
                add_rows-Counted times time rows b m typed.1
                  (sym (ap (λ c. c || any json (is_at json t crate slot time) rows) e) ∙ holds)
                  (omega (arith, g.0))
      ]
