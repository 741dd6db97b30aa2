-- ===== src/Db/Places.antt =====
-- The places of a configuration, and what a board that is put at one changes.
use penn_daq.Prelude.{
  ℕ, zero, suc, ◌<◌, ◌≡◌, refl, subst, ap, ◌∙◌, List, [], ◌∷◌, Option, none, some, arith, length,
  length-set, get_elem?, get_elem?-set_self, set, All,
}
use mathlib.Core.Option
use penn_daq.Db.Location.{Text, Fec, CrateEntry, Board}
use penn_daq.Db.Removed.{IsFullFec, IsFull}

-- A place in a crate: a card, a daughter board of a card, or a PMT interface card.
pub data Place : Type 0 where
  at_fec : ℕ → Place
  at_db : ℕ → ℕ → Place
  at_pmtic : ℕ → Place

abbrev place_at_position : ℕ → ℕ → Place
place_at_position slot zero = at_fec slot
place_at_position slot (suc zero) = at_db slot 0
place_at_position slot (suc (suc zero)) = at_db slot 1
place_at_position slot (suc (suc (suc zero))) = at_db slot 2
place_at_position slot (suc (suc (suc (suc zero)))) = at_db slot 3
place_at_position slot (suc (suc (suc (suc (suc k))))) = at_pmtic slot

abbrev pub place_of : Board → Place
place_of b = place_at_position b.slot b.position

abbrev pub db_of : ℕ → Option Fec → Option (Option Text)
db_of k none = none
db_of k (some fec) = get_elem? fec.dbs k

-- What stands at a place; none is a place that the document does not have.
abbrev pub read : CrateEntry → Place → Option (Option Text)
read c (at_fec s) = Option.map (λ fec. fec.id) (get_elem? c.fecs s)
read c (at_db s k) = db_of k (get_elem? c.fecs s)
read c (at_pmtic s) = get_elem? c.pmtics s

abbrev pub change : (Fec → Fec) → ℕ → Option Fec → List Fec → List Fec
change f s none fecs = fecs
change f s (some fec) fecs = set fecs s (f fec)

abbrev pub write : Text → Place → CrateEntry → CrateEntry
write t (at_fec s) c = record c {
  fecs = change (λ fec. record fec { id = some t }) s (get_elem? c.fecs s) c.fecs;
}
write t (at_db s k) c = record c {
  fecs = change (λ fec. record fec { dbs = set fec.dbs k (some t) }) s (get_elem? c.fecs s) c.fecs;
}
write t (at_pmtic s) c = record c { pmtics = set c.pmtics s (some t) }

-- A place that a full crate has.
abbrev pub IsPlace : Place → Type 0
IsPlace (at_fec s) = s < 16
IsPlace (at_db s k) = (s < 16) × (k < 4)
IsPlace (at_pmtic s) = s < 16

pub place_of-IsPlace : (b : Board) → b.slot < 16 → IsPlace (place_of b)
place_of-IsPlace b h = cases b.position
  where
    cases : (p : ℕ) → IsPlace (place_at_position b.slot p)
    cases zero = h
    cases (suc zero) = (h, omega arith)
    cases (suc (suc zero)) = (h, omega arith)
    cases (suc (suc (suc zero))) = (h, omega arith)
    cases (suc (suc (suc (suc zero)))) = (h, omega arith)
    cases (suc (suc (suc (suc (suc k))))) = h

module _ {A : Type 0} where
  pub found_in : (xs : List A) (i : ℕ) → i < length xs → (x : A) × (get_elem? xs i ≡ some x)
  found_in [] i h = absurd (omega arith)
  found_in (x ∷ xs) zero h = (x, refl)
  found_in (x ∷ xs) (suc i) h = found_in xs i (omega arith)

  abbrev or_old : A → Option A → A
  or_old y none = y
  or_old y (some x) = x

  pub All-get_elem? :
      (P : A → Type 0) (xs : List A) (i : ℕ) (x : A) → All P xs → get_elem? xs i ≡ some x → P x
  All-get_elem? P [] i x all e = absurd cc
  All-get_elem? P (y ∷ xs) zero x all e = subst P (ap (or_old y) e) all.0
  All-get_elem? P (y ∷ xs) (suc i) x all e = All-get_elem? P xs i x all.1 e

  pub All-set : (P : A → Type 0) (xs : List A) (i : ℕ) (x : A) → All P xs → P x → All P (set xs i x)
  All-set P [] i x all p = tt
  All-set P (y ∷ xs) zero x all p = (p, all.1)
  All-set P (y ∷ xs) (suc i) x all p = (all.0, All-set P xs i x all.1 p)

-- A crate stays full, and keeps its number.
pub write-IsFull : (t : Text) (q : Place) (c : CrateEntry) → IsFull c → IsFull (write t q c)
write-IsFull t (at_pmtic s) c full = (full.0, (full.1.0, length-set c.pmtics s (some t) ∙ full.1.1))
write-IsFull t (at_fec s) c full = changed (get_elem? c.fecs s) refl
  where
    changed :
        (o : Option Fec)
        → get_elem? c.fecs s ≡ o
        → IsFull (record c { fecs = change (λ fec. record fec { id = some t }) s o c.fecs })
    changed none e = full
    changed (some fec) e = (
      length-set c.fecs s _ ∙ full.0,
      (
        All-set IsFullFec c.fecs s _ full.1.0 (All-get_elem? IsFullFec c.fecs s fec full.1.0 e),
        full.1.1,
      ),
    )
write-IsFull t (at_db s k) c full = changed (get_elem? c.fecs s) refl
  where
    changed :
        (o : Option Fec)
        → get_elem? c.fecs s ≡ o
        → IsFull (record c {
          fecs = change (λ fec. record fec { dbs = set fec.dbs k (some t) }) s o c.fecs;
        })
    changed none e = full
    changed (some fec) e = (
      length-set c.fecs s _ ∙ full.0,
      (
        All-set IsFullFec c.fecs s _ full.1.0
            (length-set fec.dbs k (some t) ∙ All-get_elem? IsFullFec c.fecs s fec full.1.0 e),
        full.1.1,
      ),
    )

-- What was written at a place stands there.
pub read-write_self :
    (t : Text) (q : Place) (c : CrateEntry)
    → IsFull c
    → IsPlace q
    → read (write t q c) q ≡ some (some t)
read-write_self t (at_pmtic s) c full h =
    get_elem?-set_self c.pmtics s (some t) (omega (arith, full.1.1))
read-write_self t (at_fec s) c full h =
    let fec = found_in c.fecs s (omega (arith, full.0)) in
    rw (fec.1)
      (ap (Option.map (λ fec. fec.id)) (get_elem?-set_self c.fecs s _ (omega (arith, full.0))))
read-write_self t (at_db s k) c full h =
    let fec = found_in c.fecs s (omega (arith, full.0, h.0)) in
    rw (fec.1) (
      ap (db_of k) (get_elem?-set_self c.fecs s _ (omega (arith, full.0, h.0)))
      ∙ get_elem?-set_self fec.0.dbs k (some t)
          (omega (arith, h.1, All-get_elem? IsFullFec c.fecs s fec.0 full.1.0 fec.1)))
