-- ===== src/Db/Cleared.antt =====
-- What a removal of identifiers leaves at the places of a configuration.
use penn_daq.Prelude.{
  ℕ, zero, suc, ◌≡◌, inl, inr, refl, sym, ap, ◌∙◌, List, [], ◌∷◌, map, Bool, true, false, ◌==◌,
  ◌||◌, ==_iff, Bool-cases, if◌then◌else◌, Option, none, some, arith, length-map, get_elem?, All,
  strncmp_eq,
}
use mathlib.Core.Option
use penn_daq.Db.Location.{Text, Fec, CrateEntry, any_same, cleared}
use penn_daq.Db.Removed.{IsFullFec, IsFull, without_fec, without}
use penn_daq.Db.Places.{Place, at_fec, at_db, at_pmtic, db_of, read}
use penn_daq.Db.Crates.{first, read_in, look}
use penn_daq.Db.Standing.{is_in}

get_elem?-map :
    {A B : Type 0} (f : A → B) (xs : List A) (i : ℕ)
    → get_elem? (map f xs) i ≡ Option.map f (get_elem? xs i)
get_elem?-map f [] i = refl
get_elem?-map f (x ∷ xs) zero = refl
get_elem?-map f (x ∷ xs) (suc i) = get_elem?-map f xs i

read-without :
    (ids : List Text) (c : CrateEntry) (q : Place)
    → read (without ids c) q ≡ Option.map (cleared ids) (read c q)
read-without ids c (at_fec s) =
    ap (Option.map (λ fec. fec.id)) (get_elem?-map (without_fec ids) c.fecs s)
    ∙ by_case (get_elem? c.fecs s)
  where
    by_case :
        (o : Option Fec)
        → Option.map {A = Fec} (λ fec. fec.id) (Option.map (without_fec ids) o)
          ≡ Option.map (cleared ids) (Option.map {A = Fec} (λ fec. fec.id) o)
    by_case none = refl
    by_case (some fec) = refl
read-without ids c (at_db s k) =
    ap (db_of k) (get_elem?-map (without_fec ids) c.fecs s) ∙ by_case (get_elem? c.fecs s)
  where
    by_case :
        (o : Option Fec)
        → db_of k (Option.map (without_fec ids) o) ≡ Option.map (cleared ids) (db_of k o)
    by_case none = refl
    by_case (some fec) = get_elem?-map (cleared ids) fec.dbs k
read-without ids c (at_pmtic s) = get_elem?-map (cleared ids) c.pmtics s

first-without :
    (ids : List Text) (n : ℕ) (cs : List CrateEntry)
    → first n (map (without ids) cs) ≡ Option.map (without ids) (first n cs)
first-without ids n [] = refl
first-without ids n (c ∷ cs) = elim (Bool-cases (c.id == n)) [
  | inl e ↦ rw e refl
  | inr e ↦ rw e (first-without ids n cs)
]

pub look-without :
    (ids : List Text) (cs : List CrateEntry) (n : ℕ) (q : Place)
    → look (map (without ids) cs) n q ≡ Option.map (cleared ids) (look cs n q)
look-without ids cs n q = ap (read_in q) (first-without ids n cs) ∙ by_case (first n cs)
  where
    by_case :
        (o : Option CrateEntry)
        → read_in q (Option.map (without ids) o) ≡ Option.map (cleared ids) (read_in q o)
    by_case none = refl
    by_case (some c) = read-without ids c q

pub is_in-without :
    (ids : List Text) (n : ℕ) (cs : List CrateEntry) → is_in n (map (without ids) cs) ≡ is_in n cs
is_in-without ids n [] = refl
is_in-without ids n (c ∷ cs) = ap (λ r. if c.id == n then true else r) (is_in-without ids n cs)

pub without-IsFull :
    (ids : List Text) (cs : List CrateEntry) → All IsFull cs → All IsFull (map (without ids) cs)
without-IsFull ids [] full = tt
without-IsFull ids (c ∷ cs) full = (
  (
    length-map c.fecs (without_fec ids) ∙ full.0.0,
    (cards c.fecs full.0.1.0, length-map c.pmtics (cleared ids) ∙ full.0.1.1),
  ),
  without-IsFull ids cs full.1,
)
  where
    cards : (fecs : List Fec) → All IsFullFec fecs → All IsFullFec (map (without_fec ids) fecs)
    cards [] all = tt
    cards (fec ∷ fecs) all = (length-map fec.dbs (cleared ids) ∙ all.0, cards fecs all.1)

-- The text is none of some identifiers; and what stands at a place holds none of them.
abbrev pub IsNew : List Text → Text → Type 0
IsNew ids old = any_same old ids ≡ false

abbrev pub IsFree : List Text → Option (Option Text) → Type 0
IsFree ids (some (some old)) = IsNew ids old
IsFree ids _ = Unit

pub cleared-IsFree :
    (ids : List Text) (v : Option (Option Text)) → IsFree ids (Option.map (cleared ids) v)
cleared-IsFree ids none = tt
cleared-IsFree ids (some none) = tt
cleared-IsFree ids (some (some old)) = by_case (any_same old ids) refl
  where
    by_case : (c : Bool) → any_same old ids ≡ c → IsFree ids (some (if c then none else some old))
    by_case true e = tt
    by_case false e = e

-- Other identifiers that are removed leave it so.
pub still-IsFree :
    (ids olds : List Text) (v : Option (Option Text))
    → IsFree ids v
    → IsFree ids (Option.map (cleared olds) v)
still-IsFree ids olds none h = tt
still-IsFree ids olds (some none) h = tt
still-IsFree ids olds (some (some old)) h = by_case (any_same old olds)
  where
    by_case : (c : Bool) → IsFree ids (some (if c then none else some old))
    by_case true = tt
    by_case false = h

pub cleared_nil : (v : Option (Option Text)) → Option.map (cleared []) v ≡ v
unfolding any_same
cleared_nil none = refl
cleared_nil (some none) = refl
cleared_nil (some (some old)) = refl

pub cleared_kept :
    (olds : List Text) (t : Text)
    → IsNew olds t
    → Option.map (cleared olds) (some (some t)) ≡ some (some t)
cleared_kept olds t h = ap (λ c. some (if c then none else some t)) h

sym_eq : (x y : ℕ) → (x == y) ≡ (y == x)
sym_eq x y = elim (Bool-cases (x == y)) [
  | inl e ↦ e ∙ sym ((==_iff y x).1 (sym ((==_iff x y).0 e)))
  | inr e ↦ elim (Bool-cases (y == x)) [
    | inl g ↦ (==_iff x y).1 (sym ((==_iff y x).0 g)) ∙ sym g
    | inr g ↦ e ∙ sym g
  ]
]

strncmp_eq-swap : (n : ℕ) (a b : Text) → strncmp_eq n a b ≡ strncmp_eq n b a
unfolding strncmp_eq
strncmp_eq-swap zero a b = refl
strncmp_eq-swap (suc n) [] [] = refl
strncmp_eq-swap (suc n) [] (y ∷ b) = refl
strncmp_eq-swap (suc n) (x ∷ a) [] = refl
strncmp_eq-swap (suc n) (x ∷ a) (y ∷ b) = elim (Bool-cases (x == y)) [
  | inl e ↦ rw (sym_eq y x, e, strncmp_eq-swap n a b, (==_iff x y).0 e) refl
  | inr e ↦ rw (sym_eq y x, e) refl
]

-- Texts that are none of the identifiers: no identifier is one of them.
pub IsNew-All : (ids olds : List Text) → All (IsNew ids) olds → All (IsNew olds) ids
unfolding any_same
IsNew-All ids [] new = all_new ids
  where
    all_new : (ts : List Text) → All (IsNew []) ts
    all_new [] = tt
    all_new (t ∷ ts) = (refl, all_new ts)
IsNew-All ids (old ∷ olds) new = both ids new.0 (IsNew-All ids olds new.1)
  where
    or_false : (a b : Bool) → (a || b) ≡ false → (a ≡ false) × (b ≡ false)
    or_false true b h = absurd (ground arith)
    or_false false b h = (refl, h)

    both : (ts : List Text) → IsNew ts old → All (IsNew olds) ts → All (IsNew (old ∷ olds)) ts
    both [] h all = tt
    both (t ∷ ts) h all = (
      ap (λ c. c || any_same t olds)
            (strncmp_eq-swap 4 old t ∙ (or_false (strncmp_eq 4 t old) (any_same old ts) h).0)
          ∙ all.0,
      both ts (or_false (strncmp_eq 4 t old) (any_same old ts) h).1 all.1,
    )
