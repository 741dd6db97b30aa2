-- ===== src/Db/Removed.antt =====
-- What `RemoveFromConfig` makes of a configuration whose arrays have their full lengths.
use penn_daq.Prelude.{
  ℕ, zero, suc, ◌≡◌, refl, sym, subst, ap, ◌∙◌, List, [], ◌∷◌, ◌++◌, map, append_assoc, Bool, true,
  false, ltb, Bool-cases, inl, inr, if◌then◌else◌, Option, none, some, arith, length, length-append,
  length-set, get_elem?, set, take, drop, All, strncmp_eq,
}
use penn_daq.Db.Overrides.{Step, got, ◌>>=◌}
use penn_daq.Db.Location.{
  Text, Fec, CrateEntry, replace_in, clear_same, clear_text, clear_from, any_same, cleared,
  remove_fecs, remove_from_config,
}

-- The arrays of a crate have the elements that the loops go over.
abbrev pub IsFullFec : Fec → Type 0
IsFullFec fec = length fec.dbs ≡ 4

abbrev pub IsFull : CrateEntry → Type 0
IsFull crate = (length crate.fecs ≡ 16) × (All IsFullFec crate.fecs × (length crate.pmtics ≡ 16))

-- The identifiers are looked up at every place by itself.
abbrev pub without_fec : List Text → Fec → Fec
without_fec ids fec = record { id = cleared ids fec.id; dbs = map (cleared ids) fec.dbs }

abbrev pub without : List Text → CrateEntry → CrateEntry
without ids crate = record {
  id = crate.id;
  fecs = map (without_fec ids) crate.fecs;
  pmtics = map (cleared ids) crate.pmtics;
}

module _ {A : Type 0} where
  drop_all : (xs : List A) → drop (length xs) xs ≡ []
  drop_all [] = refl
  drop_all (x ∷ xs) = drop_all xs

  take_all : (xs : List A) → take (length xs) xs ≡ xs
  take_all [] = refl
  take_all (x ∷ xs) = rw (take_all xs) refl

  pub replace_in_full :
      (n k : ℕ) (new : A) (xs : List A) → length xs ≡ n → replace_in n k new xs ≡ got (set xs k new)
  replace_in_full n k new xs e = subst (λ m. replace_in m k new xs ≡ got (set xs k new)) e whole
    where
      not_less : (m : ℕ) → ltb m m ≡ false
      not_less m = ground arith

      whole : replace_in (length xs) k new xs ≡ got (set xs k new)
      whole = rw (not_less (length xs), drop_all xs, take_all xs) refl

  set-set : (xs : List A) (k : ℕ) (v : A) → set (set xs k v) k v ≡ set xs k v
  set-set [] k v = refl
  set-set (x ∷ xs) zero v = refl
  set-set (x ∷ xs) (suc k) v = rw (set-set xs k v) refl

  set-append : (xs ys : List A) (y v : A) → set (xs ++ y ∷ ys) (length xs) v ≡ xs ++ v ∷ ys
  set-append [] ys y v = refl
  set-append (x ∷ xs) ys y v = rw (set-append xs ys y v) refl

  get_elem?-append : (xs ys : List A) (y : A) → get_elem? (xs ++ y ∷ ys) (length xs) ≡ some y
  get_elem?-append [] ys y = refl
  get_elem?-append (x ∷ xs) ys y = get_elem?-append xs ys y

clear_same_full :
    (n k : ℕ) (old : Text) (ids : List Text) (xs : List (Option Text))
    → length xs ≡ n
    → clear_same n k old ids xs ≡ got (if any_same old ids then set xs k none else xs)
unfolding clear_same any_same
clear_same_full n k old [] xs e = refl
clear_same_full n k old (id ∷ ids) xs e = elim (Bool-cases (strncmp_eq 4 id old)) [
  | inl h ↦
      rw
        (
          h,
          replace_in_full n k none xs e,
          clear_same_full n k old ids (set xs k none) (length-set xs k none ∙ e),
        )
        (twice (any_same old ids))
  | inr h ↦ rw (h, clear_same_full n k old ids xs e) refl
]
  where
    twice :
        (c : Bool)
        → ◌≡◌ {A = Step (List (Option Text))}
            (got (if c then set (set xs k none) k none else set xs k none))
            (got (set xs k none))
    twice true = ap got (set-set xs k none)
    twice false = refl

clear_one :
    (n : ℕ) (ids : List Text) (pre : List (Option Text)) (x : Option Text) (ys : List (Option Text))
    → length (pre ++ x ∷ ys) ≡ n
    → clear_text n (length pre) (some x) ids (pre ++ x ∷ ys) ≡ got (pre ++ cleared ids x ∷ ys)
clear_one n ids pre none ys e = refl
clear_one n ids pre (some old) ys e =
    clear_same_full n (length pre) old ids (pre ++ some old ∷ ys) e ∙ by_case (any_same old ids)
  where
    by_case :
        (c : Bool)
        → ◌≡◌ {A = Step (List (Option Text))}
            (got (if c then set (pre ++ some old ∷ ys) (length pre) none else pre ++ some old ∷ ys))
            (got (pre ++ (if c then none else some old) ∷ ys))
    by_case true = ap got (set-append pre ys (some old) none)
    by_case false = refl

clear_from_full :
    (n : ℕ) (ids : List Text) (pre ys : List (Option Text))
    → length (pre ++ ys) ≡ n
    → clear_from (length ys) (length pre) n ids (pre ++ ys) ≡ got (pre ++ map (cleared ids) ys)
unfolding clear_from
clear_from_full n ids pre [] e = refl
clear_from_full n ids pre (x ∷ ys) e =
    ap
      (λ o.
        clear_text n (length pre) o ids (pre ++ x ∷ ys)
        >>= clear_from (length ys) (suc (length pre)) n ids)
      (get_elem?-append pre ys x)
    ∙ ap (λ s. s >>= clear_from (length ys) (suc (length pre)) n ids) (clear_one n ids pre x ys e)
    ∙ subst
        (λ k.
          clear_from (length ys) k n ids (pre ++ cleared ids x ∷ ys)
          ≡ got (pre ++ cleared ids x ∷ map (cleared ids) ys))
        (length_snoc pre)
        (subst
          (λ zs.
            clear_from (length ys) (length (pre ++ cleared ids x ∷ [])) n ids zs
            ≡ got (pre ++ cleared ids x ∷ map (cleared ids) ys))
          (append_assoc pre (cleared ids x ∷ []) ys)
          (clear_from_full n ids (pre ++ cleared ids x ∷ []) ys (
              ap length (append_assoc pre (cleared ids x ∷ []) ys)
              ∙ length-append pre (cleared ids x ∷ ys)
              ∙ sym (length-append pre (x ∷ ys))
              ∙ e)
            ∙ ap got (append_assoc pre (cleared ids x ∷ []) (map (cleared ids) ys))))
  where
    length_snoc : (xs : List (Option Text)) → length (xs ++ cleared ids x ∷ []) ≡ suc (length xs)
    length_snoc xs = omega (arith, length-append xs (cleared ids x ∷ []))

clear_all :
    (n : ℕ) (ids : List Text) (xs : List (Option Text))
    → length xs ≡ n
    → clear_from n 0 n ids xs ≡ got (map (cleared ids) xs)
clear_all n ids xs e =
    subst (λ m. clear_from m 0 n ids xs ≡ got (map (cleared ids) xs)) e
      (clear_from_full n ids [] xs e)

remove_fecs_full :
    (ids : List Text) (fecs : List Fec)
    → All IsFullFec fecs
    → remove_fecs (length fecs) ids fecs ≡ got (map (without_fec ids) fecs)
unfolding remove_fecs
remove_fecs_full ids [] full = refl
remove_fecs_full ids (fec ∷ fecs) full =
    rw (clear_all 4 ids fec.dbs full.0, remove_fecs_full ids fecs full.1) refl

-- When every array has its full length, exactly the places that hold one of the identifiers, by their
-- first four characters, are made null: all others are as they were, and in their order.
pub remove_from_config-without :
    (ids : List Text) (config : List CrateEntry)
    → All IsFull config
    → remove_from_config ids config ≡ got (map (without ids) config)
unfolding remove_from_config
remove_from_config-without ids [] full = refl
remove_from_config-without ids (crate ∷ crates) full =
    rw
      (
        subst (λ n. remove_fecs n ids crate.fecs ≡ got (map (without_fec ids) crate.fecs)) full.0.0
            (remove_fecs_full ids crate.fecs full.0.1.0),
        clear_all 16 ids crate.pmtics full.0.1.1,
        remove_from_config-without ids crates full.1,
      )
      refl
