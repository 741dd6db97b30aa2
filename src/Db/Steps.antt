-- ===== src/Db/Steps.antt =====
-- Boards at places of their own: each stands at its place behind all steps.
use penn_daq.Prelude.{
  ℕ, ◌≡◌, ◌≢◌, ◌⊎◌, inl, inr, refl, sym, subst, ap, ◌∙◌, List, [], ◌∷◌, ◌++◌, true, false, ◌==◌,
  ==_iff, Bool-cases, Option, none, some, arith, All,
}
use mathlib.Core.Option
use penn_daq.Db.Location.{Text, CrateEntry, Board, id_text, Placing, noted}
use penn_daq.Db.Removed.{IsFull}
use penn_daq.Db.Places.{Place, place_of, place_of-IsPlace, read-write_self}
use penn_daq.Db.Written.{read-write_ne}
use penn_daq.Db.Crates.{first, read_in, look, first-modify_self, first-modify_ne, first-IsFull}
use penn_daq.Db.Standing.{
  put_of, put_of-id, step, steps, HasPlace, first-is_in, step-IsFull, step-HasPlace, All-map,
}
use penn_daq.Db.Cleared.{IsNew, IsFree}

-- A place that is not the one of a board; boards at places of their own.
abbrev pub Apart : ℕ → Place → Board → Type 0
Apart n q b = (n ≢ b.crate) ⊎ (q ≢ place_of b)

abbrev pub AreApart : List Board → Type 0
AreApart [] = Unit
AreApart (b ∷ bs) = All (Apart b.crate (place_of b)) bs × AreApart bs

pub Apart-sym : (a b : Board) → Apart b.crate (place_of b) a → Apart a.crate (place_of a) b
Apart-sym a b (inl h) = inl (λ e. h (sym e))
Apart-sym a b (inr h) = inr (λ e. h (sym e))

pub step_other :
    (n : ℕ) (q : Place) (b : Board) (p : Placing)
    → Apart n q b
    → look (step b p).crates n q ≡ look p.crates n q
step_other n q b p (inl h) =
    ap (read_in q) (first-modify_ne (put_of b) (put_of-id b) b.crate n p.crates h)
step_other n q b p (inr h) = elim (Bool-cases (n == b.crate)) [
  | inl e ↦
      subst (λ m. look (step b p).crates m q ≡ look p.crates m q) (sym ((==_iff n b.crate).0 e))
        (ap (read_in q) (first-modify_self (put_of b) (put_of-id b) b.crate p.crates)
          ∙ by_case (first b.crate p.crates))
  | inr e ↦ ap (read_in q) (
      first-modify_ne (put_of b) (put_of-id b) b.crate n p.crates
        (λ g. true_is_false (sym ((==_iff n b.crate).1 g) ∙ e)))
]
  where
    true_is_false : true ≡ false → ⊥
    true_is_false g = ground arith

    by_case : (o : Option CrateEntry) → read_in q (Option.map (put_of b) o) ≡ read_in q o
    by_case none = refl
    by_case (some c) = read-write_ne (id_text b.id) (place_of b) q c (λ e. h (sym e))

pub steps_other :
    (n : ℕ) (q : Place) (bs : List Board) (p : Placing)
    → All (Apart n q) bs
    → look (steps bs p).crates n q ≡ look p.crates n q
steps_other n q [] p apart = refl
steps_other n q (b ∷ bs) p apart =
    steps_other n q bs (step b p) apart.1 ∙ step_other n q b p apart.0

-- A board stands at its place.
abbrev pub StandsIn : List CrateEntry → Board → Type 0
StandsIn crates b = look crates b.crate (place_of b) ≡ some (some (id_text b.id))

pub step_self :
    (b : Board) (p : Placing)
    → All IsFull p.crates
    → HasPlace p.crates b
    → StandsIn (step b p).crates b
step_self b p full here =
    let c = first-is_in b.crate p.crates here.0 in
    ap (read_in (place_of b))
      (first-modify_self (put_of b) (put_of-id b) b.crate p.crates ∙ ap (Option.map (put_of b)) c.1)
    ∙ read-write_self (id_text b.id) (place_of b) c.0 (first-IsFull b.crate p.crates c.0 full c.1)
        (place_of-IsPlace b here.1.0)

pub steps-StandsIn :
    (bs : List Board) (p : Placing)
    → All IsFull p.crates
    → All (HasPlace p.crates) bs
    → AreApart bs
    → All (StandsIn (steps bs p).crates) bs
steps-StandsIn [] p full here apart = tt
steps-StandsIn (b ∷ bs) p full here apart = (
  steps_other b.crate (place_of b) bs (step b p) apart.0 ∙ step_self b p full here.0,
  steps-StandsIn bs (step b p) (step-IsFull b p full)
      (All-map (HasPlace p.crates) (HasPlace (step b p).crates) bs (λ a. step-HasPlace b a p)
        here.1)
      apart.1,
)

pub steps-IsFull :
    (bs : List Board) (p : Placing) → All IsFull p.crates → All IsFull (steps bs p).crates
steps-IsFull [] p full = full
steps-IsFull (b ∷ bs) p full = steps-IsFull bs (step b p) (step-IsFull b p full)

module _ (ids : List Text) where
  noted-IsNew :
      (v : Option (Option Text)) (olds : List Text)
      → IsFree ids v
      → All (IsNew ids) olds
      → All (IsNew ids) (noted v olds)
  noted-IsNew none olds h all = all
  noted-IsNew (some none) olds h all = all
  noted-IsNew (some (some old)) olds h all = snoc olds all
    where
      snoc : (ts : List Text) → All (IsNew ids) ts → All (IsNew ids) (ts ++ old ∷ [])
      snoc [] every = (h, tt)
      snoc (t ∷ ts) every = (every.0, snoc ts every.1)

  abbrev pub AllFree : List CrateEntry → List Board → Type 0
  AllFree crates bs = All (λ b. IsFree ids (look crates b.crate (place_of b))) bs

  step-AllFree :
      (b : Board) (p : Placing) (bs : List Board)
      → AllFree p.crates bs
      → All (Apart b.crate (place_of b)) bs
      → AllFree (step b p).crates bs
  step-AllFree b p [] free apart = tt
  step-AllFree b p (a ∷ bs) free apart = (
    subst (IsFree ids) (sym (step_other a.crate (place_of a) b p (Apart-sym a b apart.0))) free.0,
    step-AllFree b p bs free.1 apart.1,
  )

  -- The texts that were replaced are none of the identifiers.
  pub steps-IsNew :
      (bs : List Board) (p : Placing)
      → AllFree p.crates bs
      → All (IsNew ids) p.olds
      → AreApart bs
      → All (IsNew ids) (steps bs p).olds
  steps-IsNew [] p free all apart = all
  steps-IsNew (b ∷ bs) p free all apart =
      steps-IsNew bs (step b p) (step-AllFree b p bs free.1 apart.0)
        (noted-IsNew (look p.crates b.crate (place_of b)) p.olds free.0 all) apart.1
