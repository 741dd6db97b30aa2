-- ===== src/Db/Written.antt =====
-- A board is put at its place, and at no other.
use penn_daq.Prelude.{
  ℕ, zero, suc, ◌<◌, ◌≡◌, ◌≢◌, refl, sym, subst, ap, ◌∙◌, List, [], ◌∷◌, true, false, ltb, ◌==◌,
  ==_iff, Bool-cases, inl, inr, Option, none, some, arith, get_elem?, get_elem?-set_ne, set,
}
use mathlib.Core.Option
use penn_daq.Db.Overrides.{got}
use penn_daq.Db.Location.{Text, Fec, CrateEntry, Board, id_text, put_id, put_board}
use penn_daq.Db.Removed.{IsFullFec, IsFull, replace_in_full}
use penn_daq.Db.Places.{
  Place, at_fec, at_db, at_pmtic, place_of, db_of, read, change, write, found_in, All-get_elem?,
}

change-suc :
    (f : Fec → Fec) (s : ℕ) (o : Option Fec) (x : Fec) (fecs : List Fec)
    → change f (suc s) o (x ∷ fecs) ≡ x ∷ change f s o fecs
change-suc f s none x fecs = refl
change-suc f s (some fec) x fecs = refl

changed_self :
    (f : Fec → Fec) (s : ℕ) (fecs : List Fec)
    → get_elem? (change f s (get_elem? fecs s) fecs) s ≡ Option.map f (get_elem? fecs s)
changed_self f s [] = refl
changed_self f zero (x ∷ fecs) = refl
changed_self f (suc s) (x ∷ fecs) =
    ap (λ xs. get_elem? xs (suc s)) (change-suc f s (get_elem? fecs s) x fecs)
    ∙ changed_self f s fecs

changed_ne :
    (f : Fec → Fec) (s r : ℕ) (fecs : List Fec)
    → s ≢ r
    → get_elem? (change f s (get_elem? fecs s) fecs) r ≡ get_elem? fecs r
changed_ne f s r fecs h = by_case (get_elem? fecs s)
  where
    by_case : (o : Option Fec) → get_elem? (change f s o fecs) r ≡ get_elem? fecs r
    by_case none = refl
    by_case (some fec) = get_elem?-set_ne fecs (f fec) h

-- A change of the cards that keeps what is read of a card.
same_read :
    {A : Type 0} (g : Option Fec → A) (f : Fec → Fec) (s r : ℕ) (fecs : List Fec)
    → (s ≡ r → (o : Option Fec) → g (Option.map f o) ≡ g o)
    → g (get_elem? (change f s (get_elem? fecs s) fecs) r) ≡ g (get_elem? fecs r)
same_read g f s r fecs same = elim (Bool-cases (s == r)) [
  | inl e ↦
      let eq = (==_iff s r).0 e in
      subst (λ z. g (get_elem? (change f s (get_elem? fecs s) fecs) z) ≡ g (get_elem? fecs z)) eq
        (ap g (changed_self f s fecs) ∙ same eq (get_elem? fecs s))
  | inr e ↦ ap g (changed_ne f s r fecs (λ eq. absurd_eq (sym ((==_iff s r).1 eq) ∙ e)))
]
  where
    absurd_eq : true ≡ false → ⊥
    absurd_eq h = ground arith

-- What stands at another place is as it was.
pub read-write_ne :
    (t : Text) (q r : Place) (c : CrateEntry) → q ≢ r → read (write t q c) r ≡ read c r
read-write_ne t (at_fec s) (at_fec r) c h =
    same_read (Option.map (λ fec. fec.id)) _ s r c.fecs (λ e. absurd (h (ap at_fec e)))
read-write_ne t (at_fec s) (at_db r k) c h = same_read (db_of k) _ s r c.fecs (λ e. same)
  where
    same :
        (o : Option Fec)
        → db_of k (Option.map {A = Fec} (λ fec. record fec { id = some t }) o) ≡ db_of k o
    same none = refl
    same (some fec) = refl
read-write_ne t (at_fec s) (at_pmtic r) c h = refl
read-write_ne t (at_db s k) (at_fec r) c h =
    same_read (Option.map (λ fec. fec.id)) _ s r c.fecs (λ e. same)
  where
    same :
        (o : Option Fec)
        → Option.map {A = Fec}
            (λ fec. fec.id)
            (Option.map {A = Fec} (λ fec. record fec { dbs = set fec.dbs k (some t) }) o)
          ≡ Option.map {A = Fec} (λ fec. fec.id) o
    same none = refl
    same (some fec) = refl
read-write_ne t (at_db s k) (at_db r j) c h = same_read (db_of j) _ s r c.fecs same
  where
    same :
        s ≡ r
        → (o : Option Fec)
        → db_of j (Option.map {A = Fec} (λ fec. record fec { dbs = set fec.dbs k (some t) }) o)
          ≡ db_of j o
    same e none = refl
    same e (some fec) =
        get_elem?-set_ne fec.dbs (some t) (λ f. h (ap (at_db s) f ∙ ap (λ z. at_db z j) e))
read-write_ne t (at_db s k) (at_pmtic r) c h = refl
read-write_ne t (at_pmtic s) (at_fec r) c h = refl
read-write_ne t (at_pmtic s) (at_db r k) c h = refl
read-write_ne t (at_pmtic s) (at_pmtic r) c h =
    get_elem?-set_ne c.pmtics (some t) (λ e. h (ap at_pmtic e))

-- The code for a board in a full crate notes what stood at its place, and writes its identifier there.
pub put_board-write :
    (b : Board) (c : CrateEntry)
    → IsFull c
    → b.slot < 16
    → b.position < 6
    → put_board b c ≡ got (read c (place_of b), write (id_text b.id) (place_of b) c)
unfolding put_board
put_board-write b c full h p = cases b.position p
  where
    fec : (x : Fec) × (get_elem? c.fecs b.slot ≡ some x)
    fec = found_in c.fecs b.slot (omega (arith, full.0))

    here : ℕ → Board
    here k = record { id = b.id; crate = b.crate; slot = b.slot; position = k }

    Right : ℕ → Type 0
    Right k =
        put_board (here k) c
        ≡ got (read c (place_of (here k)), write (id_text b.id) (place_of (here k)) c)

    in_card :
        (k : ℕ)
        → put_id b (suc k) fec.0 c.fecs c
          ≡ got (
            get_elem? fec.0.dbs k,
            record c {
              fecs =
                  set c.fecs b.slot (record fec.0 { dbs = set fec.0.dbs k (some (id_text b.id)) });
            },
          )
    in_card k =
        rw
          (replace_in_full 4 k (some (id_text b.id)) fec.0.dbs
            (All-get_elem? IsFullFec c.fecs b.slot fec.0 full.1.0 fec.1))
          refl

    slot_in : ltb b.slot 16 ≡ true
    slot_in = ground arith

    cases : (k : ℕ) → k < 6 → Right k
    cases zero l = rw (fec.1) refl
    cases (suc zero) l = rw (fec.1) (in_card 0)
    cases (suc (suc zero)) l = rw (fec.1) (in_card 1)
    cases (suc (suc (suc zero))) l = rw (fec.1) (in_card 2)
    cases (suc (suc (suc (suc zero)))) l = rw (fec.1) (in_card 3)
    cases (suc (suc (suc (suc (suc zero))))) l =
        rw (replace_in_full 16 b.slot (some (id_text b.id)) c.pmtics full.1.1, slot_in) refl
    cases (suc (suc (suc (suc (suc (suc k)))))) l = absurd (omega arith)
