-- ===== src/Db/Counting.antt =====
-- How the tests of an ECAL are counted for a card.
use Prim.Native.String.{String}
use text.Mathlib.Text.{◌==◌ as str_eq}
use text.Mathlib.TextEquality.{eq_iff}
use penn_daq.Prelude.{
  ℕ, zero, suc, ◌+◌, ◌≤◌, ◌<◌, ◌≡◌, ◌≢◌, ◌⊎◌, inl, inr, refl, sym, subst, ap, ◌∙◌, List, [], ◌∷◌,
  Bool, true, false, ◌==◌, ◌&&◌, ◌||◌, if◌then◌else◌, Bool-cases, ==_iff, Option, none, some, arith,
  length, set, get_or, length-set,
}
use penn_daq.Db.Json.{Json}
use penn_daq.Db.Overrides.{Step, got, ◌>>=◌}
use penn_daq.Db.Ecal.{
  Test, crate_cbal, zdisc, set_ttot, cmos_m_gtvalid, find_noise_2, ped_run, cgt_test, get_ttot,
  fec_test, disc_check, ped_run_by_channel, type_of, test_of, count_place, counted_at, Adding,
  add_ecal_test_results, with_id,
}
use penn_daq.Db.Generate.{of_option, int_lt, Row, is_of, latest}

-- A step goes on, with what satisfies a predicate.
abbrev pub Surely : {A : Type 0} → (A → Type 0) → Step A → Type 0
Surely P (got a) = P a
Surely P Step.given_up = ⊥
Surely P Step.fault = ⊥

pub then-Surely :
    {A B : Type 0} (P : A → Type 0) (Q : B → Type 0) (s : Step A) (f : A → Step B)
    → Surely P s
    → ((a : A) → P a → Surely Q (f a))
    → Surely Q (s >>= f)
then-Surely P Q (got a) f h k = k a h
then-Surely P Q Step.given_up f h k = absurd h
then-Surely P Q Step.fault f h k = absurd h

get_or-set_self : (xs : List ℕ) (i v : ℕ) → i < length xs → get_or (set xs i v) i 0 ≡ v
get_or-set_self [] i v h = absurd (omega arith)
get_or-set_self (x ∷ xs) zero v h = refl
get_or-set_self (x ∷ xs) (suc i) v h = get_or-set_self xs i v (omega arith)

get_or-set_ne : (xs : List ℕ) (i j v : ℕ) → i ≢ j → get_or (set xs i v) j 0 ≡ get_or xs j 0
get_or-set_ne [] i j v h = refl
get_or-set_ne (x ∷ xs) zero zero v h = absurd (h refl)
get_or-set_ne (x ∷ xs) zero (suc j) v h = refl
get_or-set_ne (x ∷ xs) (suc i) zero v h = refl
get_or-set_ne (x ∷ xs) (suc i) (suc j) v h = get_or-set_ne xs i j v (λ e. h (ap suc e))

get_or-le-set : (xs : List ℕ) (i j : ℕ) → get_or xs j 0 ≤ get_or (set xs i (get_or xs i 0 + 1)) j 0
get_or-le-set [] i j = omega arith
get_or-le-set (x ∷ xs) zero zero = omega arith
get_or-le-set (x ∷ xs) zero (suc j) = omega arith
get_or-le-set (x ∷ xs) (suc i) zero = omega arith
get_or-le-set (x ∷ xs) (suc i) (suc j) = get_or-le-set xs i j

pub counted_at_self :
    (counts : List ℕ) (k : ℕ) → k < length counts → 0 < get_or (counted_at (some k) counts) k 0
counted_at_self counts k h = omega (arith, get_or-set_self counts k (get_or counts k 0 + 1) h)

pub counted_at_ne :
    (place : Option ℕ) (counts : List ℕ) (k : ℕ)
    → place ≢ some k
    → get_or (counted_at place counts) k 0 ≡ get_or counts k 0
counted_at_ne none counts k h = refl
counted_at_ne (some i) counts k h =
    get_or-set_ne counts i k (get_or counts i 0 + 1) (λ e. h (ap some e))

pub counted_at_grows :
    (place : Option ℕ) (counts : List ℕ) (k : ℕ)
    → get_or counts k 0 ≤ get_or (counted_at place counts) k 0
counted_at_grows none counts k = omega arith
counted_at_grows (some i) counts k = get_or-le-set counts i k

pub length-counted_at :
    (place : Option ℕ) (counts : List ℕ) → length (counted_at place counts) ≡ length counts
length-counted_at none counts = refl
length-counted_at (some i) counts = length-set counts i (get_or counts i 0 + 1)

pub and_left : (a b : Bool) → (a && b) ≡ true → a ≡ true
and_left true b h = refl
and_left false b h = h

or_right : (a b : Bool) → b ≡ true → (a || b) ≡ true
or_right true b h = refl
or_right false b h = h

test_of-type_of : (t : Test) → test_of (type_of t) ≡ some t
unfolding test_of
test_of-type_of crate_cbal = refl
test_of-type_of zdisc = refl
test_of-type_of set_ttot = refl
test_of-type_of cmos_m_gtvalid = refl
test_of-type_of find_noise_2 = refl
test_of-type_of ped_run = refl
test_of-type_of cgt_test = refl
test_of-type_of get_ttot = refl
test_of-type_of fec_test = refl
test_of-type_of disc_check = refl
test_of-type_of ped_run_by_channel = refl

module _ (json : Json) where
  open json use {Node, find_member, get_string}

  -- A row has the type of its document, and its document has an identifier.
  abbrev pub HasType : Row json → Type 0
  HasType row = get_string (find_member row.doc "type") ≡ some row.type

  abbrev pub HasId : Row json → Type 0
  HasId row = get_string (find_member row.doc "_id") ≢ none

  abbrev pub IsSound : Row json → Type 0
  IsSound row = HasType row × HasId row

  with_id-counts :
      (type : String) (t : Test) (id : Option String) (d : Node) (a : Adding json)
      → test_of type ≡ some t
      → id ≢ none
      → Surely
          (λ b. b.counts ≡ counted_at (count_place t) a.counts)
          (of_option (with_id json type id d a))
  with_id-counts type t none d a h some_id = absurd (some_id refl)
  with_id-counts type t (some id) d a h some_id = rw h refl

  -- Adding a test changes no count but the one of its place.
  pub add_ecal_test_results-counts :
      (t : Test) (row : Row json) (a : Adding json)
      → IsSound row
      → str_eq row.type (type_of t) ≡ true
      → Surely
          (λ b. b.counts ≡ counted_at (count_place t) a.counts)
          (of_option (add_ecal_test_results json row.doc a))
  unfolding add_ecal_test_results
  add_ecal_test_results-counts t row a sound same = rw sound.0 (
      with_id-counts row.type t (get_string (find_member row.doc "_id")) row.doc a
        (ap test_of ((eq_iff row.type (type_of t)).0 same) ∙ test_of-type_of t) sound.1)

  -- Whether some row is of a test, and has a given time.
  abbrev pub any : (Row json → Bool) → List (Row json) → Bool
  any p [] = false
  any p (row ∷ rows) = p row || any p rows

  module _ (t : Test) (crate slot : ℕ) where
    abbrev pub is_at : ℕ → Row json → Bool
    is_at time row = is_of json t crate slot row && row.timestamp == time

    abbrev takes : Row json → ℕ → Bool
    takes row time = is_of json t crate slot row && (time == 0 || int_lt time row.timestamp)

    taken :
        (row : Row json) (rows : List (Row json))
        → is_of json t crate slot row ≡ true
        → (latest json t crate slot rows row.timestamp ≡ row.timestamp)
          ⊎ (any (is_at (latest json t crate slot rows row.timestamp)) rows ≡ true)
        → any (is_at (latest json t crate slot rows row.timestamp)) (row ∷ rows) ≡ true
    taken row rows e (inl h) = rw (h, e, (==_iff row.timestamp row.timestamp).1 refl) refl
    taken row rows e (inr h) = or_right _ _ h

    latest_take :
        (row : Row json) (rows : List (Row json)) (time : ℕ)
        → takes row time ≡ true
        → latest json t crate slot (row ∷ rows) time ≡ latest json t crate slot rows row.timestamp
    unfolding latest
    latest_take row rows time e =
        ap (λ c. latest json t crate slot rows (if c then row.timestamp else time)) e

    latest_skip :
        (row : Row json) (rows : List (Row json)) (time : ℕ)
        → takes row time ≡ false
        → latest json t crate slot (row ∷ rows) time ≡ latest json t crate slot rows time
    unfolding latest
    latest_skip row rows time e =
        ap (λ c. latest json t crate slot rows (if c then row.timestamp else time)) e

    -- The time is the one at the start, or that of a row.
    abbrev IsFrom : ℕ → List (Row json) → ℕ → Type 0
    IsFrom time rows m = (m ≡ time) ⊎ (any (is_at m) rows ≡ true)

    latest_of :
        (rows : List (Row json)) (time : ℕ) → IsFrom time rows (latest json t crate slot rows time)
    unfolding latest
    latest_of [] time = inl refl
    latest_of (row ∷ rows) time = elim (Bool-cases (takes row time)) [
      | inl e ↦
          subst (IsFrom time (row ∷ rows)) (sym (latest_take row rows time e))
            (inr (taken row rows (and_left _ _ e) (latest_of rows row.timestamp)))
      | inr e ↦
          subst (IsFrom time (row ∷ rows)) (sym (latest_skip row rows time e))
            (later (latest_of rows time))
    ]
      where
        later :
            IsFrom time rows (latest json t crate slot rows time)
            → IsFrom time (row ∷ rows) (latest json t crate slot rows time)
        later (inl h) = inl h
        later (inr h) = inr (or_right _ _ h)

    -- The time of a test that ran is the time of one of its rows.
    pub latest_attained :
        (rows : List (Row json))
        → any (is_of json t crate slot) rows ≡ true
        → any (is_at (latest json t crate slot rows 0)) rows ≡ true
    latest_attained [] h = absurd (ground arith)
    latest_attained (row ∷ rows) h = elim (Bool-cases (is_of json t crate slot row)) [
      | inl e ↦
          subst (λ m. any (is_at m) (row ∷ rows) ≡ true) (sym (latest_take row rows 0 (rw e refl)))
            (taken row rows e (latest_of rows row.timestamp))
      | inr e ↦
          subst (λ m. any (is_at m) (row ∷ rows) ≡ true) (sym (latest_skip row rows 0 (rw e refl)))
            (or_right _ _ (latest_attained rows (tail e h)))
    ]
      where
        tail :
            is_of json t crate slot row ≡ false
            → any (is_of json t crate slot) (row ∷ rows) ≡ true
            → any (is_of json t crate slot) rows ≡ true
        tail e k = sym (ap (λ c. c || any (is_of json t crate slot) rows) e) ∙ k
