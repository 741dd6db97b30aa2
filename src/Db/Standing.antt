-- ===== src/Db/Standing.antt =====
-- The boards that are put into a configuration one after the other.
use penn_daq.Prelude.{
  ℕ, ◌+◌, ◌<◌, ◌≡◌, inl, inr, refl, sym, ap, ◌∙◌, List, [], ◌∷◌, Bool, true, false, ◌==◌,
  Bool-cases, if◌then◌else◌, Option, some, arith, set, All,
}
use penn_daq.Db.Overrides.{got, ◌>>=◌}
use penn_daq.Db.Location.{
  CrateEntry, Board, id_text, Placing, noted, find_crate, place_in, place_at, place_boards,
}
use penn_daq.Db.Removed.{IsFull}
use penn_daq.Db.Places.{Place, place_of, write, write-IsFull}
use penn_daq.Db.Written.{put_board-write}
use penn_daq.Db.Crates.{
  first, modify, read_in, look, modify-IsFull, first-IsFull, IsAt, find_crate-first,
}

-- What one board does: what stood at its place is noted, and its identifier stands there.
abbrev pub put_of : Board → CrateEntry → CrateEntry
put_of b c = write (id_text b.id) (place_of b) c

abbrev pub step : Board → Placing → Placing
step b p = record {
  olds = noted (look p.crates b.crate (place_of b)) p.olds;
  crates = modify b.crate (put_of b) p.crates;
}

abbrev pub steps : List Board → Placing → Placing
steps [] p = p
steps (b ∷ bs) p = steps bs (step b p)

-- A board whose crate is in the configuration, and whose place a full crate has.
abbrev pub is_in : ℕ → List CrateEntry → Bool
is_in n [] = false
is_in n (c ∷ cs) = let rest = is_in n cs in if c.id == n then true else rest

abbrev pub HasPlace : List CrateEntry → Board → Type 0
HasPlace crates b = (is_in b.crate crates ≡ true) × ((b.slot < 16) × (b.position < 6))

pub first-is_in :
    (n : ℕ) (cs : List CrateEntry) → is_in n cs ≡ true → (c : CrateEntry) × (first n cs ≡ some c)
first-is_in n [] h = absurd (ground arith)
first-is_in n (x ∷ cs) h = elim (Bool-cases (x.id == n)) [
  | inl e ↦ (x, rw e refl)
  | inr e ↦
      let later = first-is_in n cs (sym (ap (λ b. if b then true else is_in n cs) e) ∙ h) in
      (later.0, rw e later.1)
]

is_in-modify :
    (n m : ℕ) (f : CrateEntry → CrateEntry) (cs : List CrateEntry)
    → ((c : CrateEntry) → (f c).id ≡ c.id)
    → is_in m (modify n f cs) ≡ is_in m cs
is_in-modify n m f [] keeps = refl
is_in-modify n m f (c ∷ cs) keeps = elim (Bool-cases (c.id == n)) [
  | inl e ↦ rw (e, keeps c) refl
  | inr e ↦ rw e (ap (λ r. if c.id == m then true else r) (is_in-modify n m f cs keeps))
]

pub put_of-id : (b : Board) (c : CrateEntry) → (put_of b c).id ≡ c.id
put_of-id b c = write-id (place_of b)
  where
    write-id : (q : Place) → (write (id_text b.id) q c).id ≡ c.id
    write-id (Place.at_fec s) = refl
    write-id (Place.at_db s k) = refl
    write-id (Place.at_pmtic s) = refl

place_at-step :
    (b : Board) (p : Placing) (found : Option ℕ)
    → All IsFull p.crates
    → HasPlace p.crates b
    → place_at b (find_crate b.crate 0 p.crates found) p ≡ got (step b p)
place_at-step b p found full here =
    ap (λ o. place_at b o p) (at.finds found ∙ ap some from_zero)
    ∙ ap (λ o. place_in b at.index o p) at.holds
    ∙ ap
        (λ s. s >>= λ put.
          got (record { olds = noted put.0 p.olds; crates = set p.crates at.index put.1 }))
        (put_board-write b c.0 (first-IsFull b.crate p.crates c.0 full c.1) here.1.0 here.1.1)
    ∙ ap got (λ i. record {
      olds = noted (read_in (place_of b) (sym c.1 i)) p.olds;
      crates = at.sets (put_of b) i;
    })
  where
    c : (x : CrateEntry) × (first b.crate p.crates ≡ some x)
    c = first-is_in b.crate p.crates here.0

    at : IsAt b.crate 0 p.crates c.0
    at = find_crate-first b.crate 0 p.crates c.0 c.1

    from_zero : 0 + at.index ≡ at.index
    from_zero = omega arith

pub All-map :
    {A : Type 0} (P Q : A → Type 0) (xs : List A) → ((x : A) → P x → Q x) → All P xs → All Q xs
All-map P Q [] f all = tt
All-map P Q (x ∷ xs) f all = (f x all.0, All-map P Q xs f all.1)

pub step-IsFull : (b : Board) (p : Placing) → All IsFull p.crates → All IsFull (step b p).crates
step-IsFull b p full =
    modify-IsFull b.crate (put_of b) p.crates (write-IsFull (id_text b.id) (place_of b)) full

pub step-HasPlace : (b a : Board) (p : Placing) → HasPlace p.crates a → HasPlace (step b p).crates a
step-HasPlace b a p here =
    (is_in-modify b.crate a.crate (put_of b) p.crates (put_of-id b) ∙ here.0, here.1)

-- The loop over the boards does what its steps do.
pub place_boards-steps :
    (bs : List Board) (found : Option ℕ) (p : Placing)
    → All IsFull p.crates
    → All (HasPlace p.crates) bs
    → place_boards bs found p ≡ got (steps bs p)
unfolding place_boards
place_boards-steps [] found p full here = refl
place_boards-steps (b ∷ bs) found p full here =
    ap (λ s. s >>= place_boards bs (find_crate b.crate 0 p.crates found))
      (place_at-step b p found full here.0)
    ∙ place_boards-steps bs _ (step b p) (step-IsFull b p full)
        (All-map (HasPlace p.crates) _ bs (λ a. step-HasPlace b a p) here.1)
