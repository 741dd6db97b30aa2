-- ===== src/Db/Generate.antt =====
-- `CreateFECDBDoc` and `GenerateFECDocFromECAL` of src/db/DB.cpp: the documents that an ECAL gives.
-- What is printed, and the times of day, are left out.
use Prim.Native.String.{String}
use text.Mathlib.Text.{◌==◌ as str_eq}
use penn_daq.Prelude.{
  ℕ, zero, suc, ◌+◌, ◌%◌, ◌^◌, List, [], ◌∷◌, ◌++◌, map, Bool, true, false, Option, none, some,
  ◌==◌, ltb, ◌&&◌, ◌||◌, if◌then◌else◌, get_elem?, replicate,
}
use penn_daq.Locks.{selected}
use penn_daq.Boards.Registers.{slots_from, slots_of}
use penn_daq.Db.Json.{Json}
use penn_daq.Db.Overrides.{Step, got, ◌>>=◌, given_up, fault}
use penn_daq.Db.Ecal.{
  Test, critical_tests, other_tests, type_of, EcalFec, Adding, add_ecal_test_results,
}

-- `a < b` on the patterns of two `int`.
abbrev pub int_lt : ℕ → ℕ → Bool
int_lt a b = ltb ((a + 2 ^ 31) % 2 ^ 32) ((b + 2 ^ 31) % 2 ^ 32)

abbrev pub of_option : {A : Type 0} → Option A → Step A
of_option none = fault
of_option (some a) = got a

-- The rounds of a loop to `json_get_num_mems`.
abbrev pub rounds_of : Option ℕ → ℕ
rounds_of none = 0
rounds_of (some n) = n

-- The channels of an array with a bit set, from channel `i` on.
abbrev pub with_bit : ℕ → ℕ → List ℕ → List ℕ
with_bit bit i [] = []
with_bit bit i (p ∷ problems) =
    let rest = with_bit bit (suc i) problems in if selected p bit then i ∷ rest else rest

-- The places of the counts that are 0, counted from `k` on.
abbrev pub missing : ℕ → List ℕ → List ℕ
missing k [] = []
missing k (c ∷ counts) = let rest = missing (suc k) counts in if c == 0 then k ∷ rest else rest

abbrev pub is_nil : List ℕ → Bool
is_nil [] = true
is_nil (x ∷ xs) = false

module _ (json : Json) where
  open json use {
    Node, find_member, find_element, get_number, get_string, num_mems, to_int, equals_int, copy,
  }

  -- The first slot that fits, of the slots of a crate from `j` on.
  unfoldable pub find_slot : ℕ → ℕ → ℕ → Node → Option Node
  find_slot zero j card slots = none
  find_slot (suc n) j card slots =
      let rest = find_slot n (suc j) card slots in
      let one_slot = find_element slots j in
      if equals_int (get_number (find_member one_slot "slot_id")) card then some one_slot else rest

  -- `config`: a crate that fits later takes the place of one that fits earlier.
  abbrev pub or_else : Option Node → Option Node → Option Node
  or_else none old = old
  or_else (some new) old = some new

  unfoldable pub find_config : ℕ → ℕ → ℕ → ℕ → Node → Option Node → Option Node
  find_config zero i crate card crates found = found
  find_config (suc n) i crate card crates found =
      let one_crate = find_element crates i in
      let slots = find_member one_crate "slots" in
      find_config n (suc i) crate card crates (
        if equals_int (get_number (find_member one_crate "crate_id")) crate
        then or_else (find_slot (rounds_of (num_mems slots)) 0 card slots) found
        else found)

  abbrev pub text_of : Node → Step String
  text_of node = of_option (get_string node)

  -- The text of a member, and the copy of a member.
  abbrev pub fill_doc : ℕ → ℕ → Node → Node → Step (EcalFec json)
  fill_doc crate card ecal_doc config = do
    timestamp ← text_of (find_member ecal_doc "formatted_timestamp")
    ecal_id ← text_of (find_member ecal_doc "_id")
    board_id ← text_of (find_member config "mb_id")
    tr100 ← of_option (copy (find_member (find_member ecal_doc "settings") "tr100"))
    tr20 ← of_option (copy (find_member (find_member ecal_doc "settings") "tr20"))
    scmos ← of_option (copy (find_member (find_member ecal_doc "settings") "scmos"))
    db0 ← text_of (find_member config "db0_id")
    db1 ← text_of (find_member config "db1_id")
    db2 ← text_of (find_member config "db2_id")
    db3 ← text_of (find_member config "db3_id")
    got (record {
      crate = crate;
      card = card;
      timestamp_ecal = timestamp;
      ecal_id = ecal_id;
      board_id = board_id;
      db_ids = db0 ∷ db1 ∷ db2 ∷ db3 ∷ [];
      vint = get_number (find_member (find_member ecal_doc "settings") "vint");
      hvref = get_number (find_member (find_member ecal_doc "settings") "hvref");
      tr100 = tr100;
      tr20 = tr20;
      scmos = scmos;
      hw = [];
      tests = [];
      problem = replicate 32 0;
    })

  -- A card that the document of the ECAL does not have leaves `doc` unset, which is used all the same.
  unfoldable pub create_fec_db_doc : ℕ → ℕ → Node → Step (EcalFec json)
  create_fec_db_doc crate card ecal_doc =
      let crates = find_member ecal_doc "crates" in
      of_option (find_config (rounds_of (num_mems crates)) 0 crate card crates none)
      >>= fill_doc crate card ecal_doc

  -- A row of the view: the type and the document of a test, its card and its time.
  pub record Row : Type 0 where
    pub type : String
    pub doc : Node
    pub crate : ℕ
    pub slot : ℕ
    pub timestamp : ℕ

  abbrev pub row_of : Node → String → Row
  row_of doc type = record {
    type = type;
    doc = doc;
    crate = to_int (get_number (find_member (find_member doc "config") "crate_id"));
    slot = to_int (get_number (find_member (find_member doc "config") "slot"));
    timestamp = to_int (get_number (find_member doc "timestamp"));
  }

  -- The rows from `k` on; one with no type gives NULL to `strcmp`.
  unfoldable pub rows_from : ℕ → ℕ → Node → Step (List Row)
  rows_from zero k ecal_rows = got []
  rows_from (suc n) k ecal_rows = do
    let doc = find_member (find_element ecal_rows k) "value"
    type ← text_of (find_member doc "type")
    rest ← rows_from n (suc k) ecal_rows
    got (row_of doc type ∷ rest)

  abbrev pub is_of : Test → ℕ → ℕ → Row → Bool
  is_of t crate slot row = str_eq row.type (type_of t) && (row.crate == crate && row.slot == slot)

  -- `time[ttype]` behind the loop over the rows.
  unfoldable pub latest : Test → ℕ → ℕ → List Row → ℕ → ℕ
  latest t crate slot [] time = time
  latest t crate slot (row ∷ rows) time = latest t crate slot rows (
      if is_of t crate slot row && (time == 0 || int_lt time row.timestamp)
      then row.timestamp
      else time)

  -- The loop over the critical tests for one row, each with its time, and the one over the others.
  unfoldable pub add_critical : List (Test × ℕ) → ℕ → ℕ → Row → Adding json → Step (Adding json)
  add_critical [] crate slot row a = got a
  add_critical ((t, time) ∷ ts) crate slot row a =
      (if is_of t crate slot row && row.timestamp == time
        then of_option (add_ecal_test_results json row.doc a)
        else got a)
      >>= add_critical ts crate slot row

  unfoldable pub add_others : List Test → ℕ → ℕ → Row → Adding json → Step (Adding json)
  add_others [] crate slot row a = got a
  add_others (t ∷ ts) crate slot row a =
      (if is_of t crate slot row then of_option (add_ecal_test_results json row.doc a) else got a)
      >>= add_others ts crate slot row

  unfoldable pub add_rows : List (Test × ℕ) → ℕ → ℕ → List Row → Adding json → Step (Adding json)
  add_rows times crate slot [] a = got a
  add_rows times crate slot (row ∷ rows) a =
      add_critical times crate slot row a
      >>= add_others other_tests crate slot row
      >>= add_rows times crate slot rows

  -- The times of the critical tests of a card.
  abbrev pub times_of : ℕ → ℕ → List Row → List (Test × ℕ)
  times_of crate slot rows = map (λ t. (t, latest t crate slot rows 0)) critical_tests

  abbrev pub start_of : EcalFec json → Adding json
  start_of doc = record { doc = doc; problems = replicate 32 0; counts = replicate 5 0 }

  -- What the function does for a card: the channels that `LoadBadDiscToDetectorDB` is called with, the
  -- document that is posted and loaded, and the places of the tests that did not run.
  pub record Generated : Type 0 where
    pub bad_discs : List ℕ
    pub posted : Option (EcalFec json)
    pub not_run : List ℕ

  unfoldable pub outcome_of : Adding json → Generated
  outcome_of a = record {
    bad_discs = with_bit 1 0 a.problems;
    posted = if is_nil (missing 0 a.counts) then some a.doc else none;
    not_run = missing 0 a.counts;
  }

  -- `ecal_rows` is the array of the view, with `total` rows.
  unfoldable pub generate_card : ℕ → ℕ → Node → ℕ → Node → Step Generated
  generate_card crate slot ecal_doc total ecal_rows = do
    doc ← create_fec_db_doc crate slot ecal_doc
    rows ← rows_from total 0 ecal_rows
    a ← add_rows (times_of crate slot rows) crate slot rows (start_of doc)
    got (outcome_of a)

  unfoldable pub generate_slots : ℕ → List ℕ → Node → ℕ → Node → Step (List Generated)
  generate_slots crate [] ecal_doc total ecal_rows = got []
  generate_slots crate (slot ∷ slots) ecal_doc total ecal_rows = do
    card ← generate_card crate slot ecal_doc total ecal_rows
    rest ← generate_slots crate slots ecal_doc total ecal_rows
    got (card ∷ rest)

  -- `slot_masks` is the array that the function is given; past its end is a fault.
  unfoldable pub generate_crates : List ℕ → List ℕ → Node → ℕ → Node → Step (List Generated)
  generate_crates [] slot_masks ecal_doc total ecal_rows = got []
  generate_crates (crate ∷ crates) slot_masks ecal_doc total ecal_rows = do
    slot_mask ← of_option (get_elem? slot_masks crate)
    cards ← generate_slots crate (slots_of slot_mask) ecal_doc total ecal_rows
    rest ← generate_crates crates slot_masks ecal_doc total ecal_rows
    got (cards ++ rest)

  abbrev pub found : Option Node → Step Node
  found none = given_up
  found (some doc) = got doc

  -- A view with no row ends the function, but not one without the array of rows.
  abbrev pub total_of : Option ℕ → Step ℕ
  total_of (some zero) = given_up
  total_of n = got (rounds_of n)

  -- The answers are what the database has for the ECAL: its document and the view of its tests.
  unfoldable pub generate_fec_doc_from_ecal :
      ℕ → List ℕ → Option Node → Option Node → Step (List Generated)
  generate_fec_doc_from_ecal crate_mask slot_masks ecal_answer view_answer = do
    ecal_doc ← found ecal_answer
    view ← found view_answer
    total ← total_of (num_mems (find_member view "rows"))
    generate_crates (slots_from 20 0 crate_mask) slot_masks ecal_doc total (find_member view "rows")
