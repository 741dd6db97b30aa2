-- ===== src/Db/Posted.antt =====
-- When `GenerateFECDocFromECAL` of src/db/DB.cpp posts the document of a card.
use Prim.Native.String.{String}
use penn_daq.Prelude.{
  ℕ, zero, suc, ◌<◌, ◌≡◌, ◌≢◌, ◌↔◌, inl, inr, refl, sym, subst, ap, ◌∙◌, List, [], ◌∷◌, map, Bool,
  true, false, not, ◌==◌, ◌||◌, if◌then◌else◌, Bool-cases, Option, none, some, arith, length,
  get_or, All, replicate,
}
use penn_daq.Db.Json.{Json}
use penn_daq.Db.Overrides.{Step, got, ◌>>=◌}
use penn_daq.Db.Ecal.{
  Test, crate_cbal, zdisc, set_ttot, cmos_m_gtvalid, find_noise_2, critical_tests, count_place,
  EcalFec, Adding,
}
use penn_daq.Db.Generate.{
  of_option, Row, row_of, rows_from, is_of, latest, add_rows, times_of, start_of, Generated,
  missing, is_nil, outcome_of, generate_card, create_fec_db_doc,
}
use penn_daq.Db.Counting.{Surely, then-Surely, HasType, HasId, IsSound, any, latest_attained}
use penn_daq.Db.Posting.{weaken-Surely, each-Surely, both-Surely, given-Surely, Grows}
use penn_daq.Db.Hits.{IsOther, IsIn, Counted, add_rows-Same, add_rows-Counted, rows-Grows}

-- The places of what is false.
abbrev pub absences : ℕ → List Bool → List ℕ
absences k [] = []
absences k (b ∷ bs) = let rest = absences (suc k) bs in if b then rest else k ∷ rest

missing-absences :
    (bs : List Bool) (counts : List ℕ) (j : ℕ)
    → length counts ≡ length bs
    → ((i : ℕ) → i < length bs → (get_or counts i 0 == 0) ≡ not (get_or bs i false))
    → missing j counts ≡ absences j bs
missing-absences [] [] j same each = refl
missing-absences [] (c ∷ counts) j same each = absurd (omega arith)
missing-absences (b ∷ bs) [] j same each = absurd (omega arith)
missing-absences (b ∷ bs) (c ∷ counts) j same each =
    here b (c == 0) _ _ (each zero (omega arith))
      (missing-absences bs counts (suc j) (omega arith) (λ i h. each (suc i) (omega arith)))
  where
    here :
        (b z : Bool) (xs ys : List ℕ)
        → z ≡ not b
        → xs ≡ ys
        → (if z then j ∷ xs else xs) ≡ (if b then ys else j ∷ ys)
    here true z xs ys e h = ap (λ q. if q then j ∷ xs else xs) e ∙ h
    here false z xs ys e h = ap (λ q. if q then j ∷ xs else xs) e ∙ ap (λ q. j ∷ q) h

-- What a step goes on with satisfies a predicate, when it goes on.
abbrev Ends : {A : Type 0} → (A → Type 0) → Step A → Type 0
Ends P (got a) = P a
Ends P Step.given_up = Unit
Ends P Step.fault = Unit

module _ (json : Json) where
  open json use {Node, find_member, find_element, get_string}

  -- The rows have the types of their documents.
  rows_from-HasType :
      (n k : ℕ) (ecal_rows : Node) → Ends (All (HasType json)) (rows_from json n k ecal_rows)
  unfolding rows_from
  rows_from-HasType zero k ecal_rows = tt
  rows_from-HasType (suc n) k ecal_rows =
      one (get_string (find_member doc "type")) refl (rows_from-HasType n (suc k) ecal_rows)
    where
      doc : Node
      doc = find_member (find_element ecal_rows k) "value"

      others :
          (type : String) (rest : Step (List (Row json)))
          → get_string (find_member doc "type") ≡ some type
          → Ends (All (HasType json)) rest
          → Ends (All (HasType json)) (rest >>= λ rows. got (row_of json doc type ∷ rows))
      others type (got rows) e h = (e, h)
      others type Step.given_up e h = tt
      others type Step.fault e h = tt

      one :
          (text : Option String)
          → get_string (find_member doc "type") ≡ text
          → Ends (All (HasType json)) (rows_from json n (suc k) ecal_rows)
          → Ends (All (HasType json)) (
              of_option text >>= λ type.
              rows_from json n (suc k) ecal_rows >>= λ rows. got (row_of json doc type ∷ rows))
      one none e h = tt
      one (some type) e h = others type (rows_from json n (suc k) ecal_rows) e h

  All-IsSound :
      (rows : List (Row json))
      → All (HasType json) rows
      → All (HasId json) rows
      → All (IsSound json) rows
  All-IsSound [] p q = tt
  All-IsSound (row ∷ rows) p q = ((p.0, q.0), All-IsSound rows p.1 q.1)

  module _ (crate slot : ℕ) where
    none_of :
        (t : Test) (k : ℕ) (place : count_place t ≡ some k) (rows : List (Row json))
        → All (IsSound json) rows
        → any json (is_of json t crate slot) rows ≡ false
        → All (IsOther json crate slot t k place) rows
    none_of t k place [] typed e = tt
    none_of t k place (row ∷ rows) typed e =
        ((typed.0, (or_false _ _ e).0), none_of t k place rows typed.1 ((or_false _ _ e).1))
      where
        or_false : (a b : Bool) → (a || b) ≡ false → (a ≡ false) × (b ≡ false)
        or_false true b h = absurd (ground arith)
        or_false false b h = (refl, h)

    -- Whether the critical tests have rows for the card, in the order of their places.
    abbrev pub ran : List (Row json) → List Bool
    ran rows = map (λ t. any json (is_of json t crate slot) rows) critical_tests

    module _ (rows : List (Row json)) (typed : All (IsSound json) rows) (a : Adding json)
        (fits : length a.counts ≡ 5) (fresh : (k : ℕ) → get_or a.counts k 0 ≡ 0) where
      abbrev IsRight : ℕ → Adding json → Type 0
      IsRight k b = (get_or b.counts k 0 == 0) ≡ not (get_or (ran rows) k false)

      counted_right :
          (t : Test) (k : ℕ) (place : count_place t ≡ some k)
          → k < 5
          → IsIn json crate slot t k place
              (latest json t crate slot rows 0)
              (times_of json crate slot rows)
          → Surely
              (λ b. (get_or b.counts k 0 == 0) ≡ not (any json (is_of json t crate slot) rows))
              (add_rows json (times_of json crate slot rows) crate slot rows a)
      counted_right t k place h m = elim (Bool-cases (any json (is_of json t crate slot) rows)) [
        | inl e ↦
            weaken-Surely (Counted json crate slot t k place) _ _
              (λ b p. positive (get_or b.counts k 0) p ∙ ap not (sym e))
              (add_rows-Counted json crate slot t k place (times_of json crate slot rows)
                (latest json t crate slot rows 0) rows a m typed
                (latest_attained json t crate slot rows e) (omega arith))
        | inr e ↦
            weaken-Surely (λ b. get_or b.counts k 0 ≡ get_or a.counts k 0) _ _
              (λ b p. ap (λ c. c == 0) (p ∙ fresh k) ∙ ap not (sym e))
              (add_rows-Same json crate slot t k place (times_of json crate slot rows) rows a
                (none_of t k place rows typed e))
      ]
        where
          positive : (c : ℕ) → 0 < c → (c == 0) ≡ false
          positive zero p = absurd (omega arith)
          positive (suc c) p = ground arith

      each-IsRight :
          (k : ℕ)
          → Surely {A = Adding json}
              (λ b. k < 5 → IsRight k b)
              (add_rows json (times_of json crate slot rows) crate slot rows a)
      each-IsRight zero =
          given-Surely (0 < 5) (IsRight 0) _
            (counted_right crate_cbal 0 refl (omega arith) (inl (refl, refl)))
      each-IsRight (suc zero) =
          given-Surely (1 < 5) (IsRight 1) _
            (counted_right zdisc 1 refl (omega arith) (inr (inl (refl, refl))))
      each-IsRight (suc (suc zero)) =
          given-Surely (2 < 5) (IsRight 2) _
            (counted_right set_ttot 2 refl (omega arith) (inr (inr (inl (refl, refl)))))
      each-IsRight (suc (suc (suc zero))) =
          given-Surely (3 < 5) (IsRight 3) _
            (counted_right cmos_m_gtvalid 3 refl (omega arith) (inr (inr (inr (inl (refl, refl))))))
      each-IsRight (suc (suc (suc (suc zero)))) = given-Surely (4 < 5) (IsRight 4) _ (
          counted_right find_noise_2 4 refl (omega arith)
            (inr (inr (inr (inr (inl (refl, refl)))))))
      each-IsRight (suc (suc (suc (suc (suc k))))) =
          weaken-Surely (Grows json crate slot a)
            (λ b. suc (suc (suc (suc (suc k)))) < 5 → IsRight (suc (suc (suc (suc (suc k))))) b)
            (add_rows json (times_of json crate slot rows) crate slot rows a)
            (λ b p h. absurd (omega arith))
            (rows-Grows json crate slot crate_cbal 0 refl (times_of json crate slot rows) rows a
              typed)

      places_right :
          Surely
            (λ b. missing 0 b.counts ≡ absences 0 (ran rows))
            (add_rows json (times_of json crate slot rows) crate slot rows a)
      places_right =
          weaken-Surely (λ b. Grows json crate slot a b × ((k : ℕ) → k < 5 → IsRight k b))
            (λ b. missing 0 b.counts ≡ absences 0 (ran rows)) _
            (λ b p. missing-absences (ran rows) b.counts 0 (p.0.0 ∙ fits) (λ i h. p.1 i h))
            (both-Surely _ _ _
              (rows-Grows json crate slot crate_cbal 0 refl (times_of json crate slot rows) rows a
                typed)
              (each-Surely (λ k b. k < 5 → IsRight k b) _ each-IsRight))

    -- The tests without a row are found missing, and the document is posted when there is none.
    abbrev pub IsSettled : List (Row json) → Generated json → Type 0
    IsSettled rows g =
        (g.not_run ≡ absences 0 (ran rows)) × ((g.posted ≡ none) ↔ (absences 0 (ran rows) ≢ []))

    outcome-IsSettled :
        (rows : List (Row json)) (b : Adding json)
        → missing 0 b.counts ≡ absences 0 (ran rows)
        → IsSettled rows (outcome_of json b)
    unfolding outcome_of
    outcome-IsSettled rows b e = (e, subst (λ ms. Posting ms) e (posting (missing 0 b.counts)))
      where
        Posting : List ℕ → Type 0
        Posting ms = ((if is_nil (missing 0 b.counts) then some b.doc else none) ≡ none) ↔ (ms ≢ [])

        posting : (ms : List ℕ) → ((if is_nil ms then some b.doc else none) ≡ none) ↔ (ms ≢ [])
        posting [] = (λ h. cc, λ h. absurd (h refl))
        posting (m ∷ ms) = (λ h. λ e. cc, λ h. refl)

    -- When the card has a configuration in the document of the ECAL, with all the texts it wants, and
    -- every row of the view a type and a document with an identifier, the work for the card is done to the
    -- end: the critical tests that no row is of for the card are found missing, and the document of the
    -- card is posted exactly when none of the five is.
    pub generate_card-posts :
        (ecal_doc : Node) (doc : EcalFec json) (total : ℕ) (ecal_rows : Node)
        (rows : List (Row json))
        → create_fec_db_doc json crate slot ecal_doc ≡ got doc
        → rows_from json total 0 ecal_rows ≡ got rows
        → All (HasId json) rows
        → Surely (IsSettled rows) (generate_card json crate slot ecal_doc total ecal_rows)
    unfolding generate_card
    generate_card-posts ecal_doc doc total ecal_rows rows made e ids =
        subst
          (λ s.
            Surely (IsSettled rows) (s >>= λ d. rows_from json total 0 ecal_rows >>= with_rows d))
          (sym made)
          (subst (λ s. Surely (IsSettled rows) (s >>= with_rows doc)) (sym e)
            (then-Surely (λ b. missing 0 b.counts ≡ absences 0 (ran rows)) (IsSettled rows) _ _
              (places_right rows (All-IsSound rows typed ids) (start_of json doc) refl zeros)
              (λ b h. outcome-IsSettled rows b h)))
      where
        typed : All (HasType json) rows
        typed = subst (Ends (All (HasType json))) e (rows_from-HasType total 0 ecal_rows)

        with_rows : EcalFec json → List (Row json) → Step (Generated json)
        with_rows doc rs =
            add_rows json (times_of json crate slot rs) crate slot rs (start_of json doc) >>= λ b.
            got (outcome_of json b)

        zeros : (k : ℕ) → get_or {A = ℕ} (replicate 5 0) k 0 ≡ 0
        zeros zero = refl
        zeros (suc zero) = refl
        zeros (suc (suc zero)) = refl
        zeros (suc (suc (suc zero))) = refl
        zeros (suc (suc (suc (suc zero)))) = refl
        zeros (suc (suc (suc (suc (suc k))))) = refl
