-- ===== src/Db/Crates.antt =====
-- The first crate with a number, and what a change of it leaves as it was.
use penn_daq.Prelude.{
  ℕ, suc, ◌+◌, ◌≡◌, ◌≢◌, inl, inr, refl, sym, subst, ap, ◌∙◌, List, [], ◌∷◌, Bool, true, false,
  ◌==◌, ==_iff, Bool-cases, if◌then◌else◌, Option, none, some, arith, get_elem?, set, All,
}
use mathlib.Core.Option
use penn_daq.Db.Location.{Text, CrateEntry, find_crate}
use penn_daq.Db.Removed.{IsFull}
use penn_daq.Db.Places.{Place, read}

-- The first crate with a number, and a change of it.
abbrev pub first : ℕ → List CrateEntry → Option CrateEntry
first n [] = none
first n (c ∷ cs) = let rest = first n cs in if c.id == n then some c else rest

abbrev pub modify : ℕ → (CrateEntry → CrateEntry) → List CrateEntry → List CrateEntry
modify n f [] = []
modify n f (c ∷ cs) = let rest = modify n f cs in if c.id == n then f c ∷ cs else c ∷ rest

abbrev pub read_in : Place → Option CrateEntry → Option (Option Text)
read_in q none = none
read_in q (some c) = read c q

-- What stands at a place of the crate with a number.
abbrev pub look : List CrateEntry → ℕ → Place → Option (Option Text)
look crates n q = read_in q (first n crates)

pub true_ne_false : {b : Bool} → b ≡ true → b ≡ false → ⊥
true_ne_false {b} h g = ground arith

pub ne_test : (m n : ℕ) → m ≢ n → (m == n) ≡ false
ne_test m n h = elim (Bool-cases (m == n)) [ inl e ↦ absurd (h ((==_iff m n).0 e)) | inr e ↦ e ]

-- A change that keeps the numbers changes the first crate with its number, and no other.
module _ (f : CrateEntry → CrateEntry) (keeps : (c : CrateEntry) → (f c).id ≡ c.id) where
  pub first-modify_self :
      (n : ℕ) (cs : List CrateEntry) → first n (modify n f cs) ≡ Option.map f (first n cs)
  first-modify_self n [] = refl
  first-modify_self n (c ∷ cs) = elim (Bool-cases (c.id == n)) [
    | inl e ↦ rw (e, keeps c, e) refl
    | inr e ↦ rw (e, e, first-modify_self n cs) refl
  ]

  pub first-modify_ne :
      (n m : ℕ) (cs : List CrateEntry) → m ≢ n → first m (modify n f cs) ≡ first m cs
  first-modify_ne n m [] h = refl
  first-modify_ne n m (c ∷ cs) h = elim (Bool-cases (c.id == n)) [
    | inl e ↦
        let other = ne_test c.id m (λ g. h (sym g ∙ (==_iff c.id n).0 e)) in
        rw (e, keeps c, other) refl
    | inr e ↦ rw (e) (ap (λ r. if c.id == m then some c else r) (first-modify_ne n m cs h))
  ]

pub modify-IsFull :
    (n : ℕ) (f : CrateEntry → CrateEntry) (cs : List CrateEntry)
    → ((c : CrateEntry) → IsFull c → IsFull (f c))
    → All IsFull cs
    → All IsFull (modify n f cs)
modify-IsFull n f [] k full = tt
modify-IsFull n f (c ∷ cs) k full = elim (Bool-cases (c.id == n)) [
  | inl e ↦ rw e (k c full.0, full.1)
  | inr e ↦ rw e (full.0, modify-IsFull n f cs k full.1)
]

pub first-IsFull :
    (n : ℕ) (cs : List CrateEntry) (c : CrateEntry) → All IsFull cs → first n cs ≡ some c → IsFull c
first-IsFull n [] c full e = absurd cc
first-IsFull n (x ∷ cs) c full e = elim (Bool-cases (x.id == n)) [
  | inl h ↦ subst (IsFullOr x) (sym (ap (λ b. if b then some x else first n cs) h) ∙ e) full.0
  | inr h ↦ first-IsFull n cs c full.1 (sym (ap (λ b. if b then some x else first n cs) h) ∙ e)
]
  where
    IsFullOr : CrateEntry → Option CrateEntry → Type 0
    IsFullOr y none = IsFull y
    IsFullOr y (some z) = IsFull z

same_some : {x y : CrateEntry} → some x ≡ some y → x ≡ y
same_some e = cc

-- The pointer that the loop over the crates finds.
pub record IsAt (n j : ℕ) (cs : List CrateEntry) (c : CrateEntry) : Type 0 where
  pub index : ℕ
  pub finds : (found : Option ℕ) → find_crate n j cs found ≡ some (j + index)
  pub holds : get_elem? cs index ≡ some c
  pub sets : (f : CrateEntry → CrateEntry) → set cs index (f c) ≡ modify n f cs

pub find_crate-first :
    (n j : ℕ) (cs : List CrateEntry) (c : CrateEntry) → first n cs ≡ some c → IsAt n j cs c
unfolding find_crate
find_crate-first n j [] c e = absurd cc
find_crate-first n j (x ∷ cs) c e = elim (Bool-cases (x.id == n)) [
  | inl h ↦ record {
    index = 0;
    finds = λ found. rw h (ap some (omega arith));
    holds = sym (ap (λ b. if b then some x else first n cs) h) ∙ e;
    sets = λ f. rw h (
        ap (λ y. f y ∷ cs)
          (sym (same_some (sym (ap (λ b. if b then some x else first n cs) h) ∙ e))));
  }
  | inr h ↦
      let later =
        find_crate-first n (suc j) cs c (sym (ap (λ b. if b then some x else first n cs) h) ∙ e) in
      record {
        index = suc later.index;
        finds = λ found. rw h (later.finds found ∙ ap some (omega arith));
        holds = later.holds;
        sets = λ f. rw h (ap (λ r. x ∷ r) (later.sets f));
      }
]
