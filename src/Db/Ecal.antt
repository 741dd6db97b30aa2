-- ===== src/Db/Ecal.antt =====
-- `AddECALTestResults` of src/db/DB.cpp: what one test of an ECAL adds to the document of a card and
-- to the error bits of its channels. What the document gets that is the same each time is left out.
use Prim.Native.String.{String}
use text.Mathlib.Text.{◌==◌ as str_eq}
use penn_daq.Prelude.{
  ℕ, suc, ◌+◌, ◌/◌, ◌%◌, ◌^◌, List, [], ◌∷◌, ◌++◌, map, Bool, false, Option, none, some, not, ◌==◌,
  if◌then◌else◌, bit_or, get_or, set,
}
use penn_daq.Controller.Commands.{upto}
use penn_daq.Db.Json.{Json}

-- The tests by their types, the five critical ones of `test_map` first, then those of
-- `test_map_ncrit`.
pub data Test : Type 0 where
  crate_cbal : Test
  zdisc : Test
  set_ttot : Test
  cmos_m_gtvalid : Test
  find_noise_2 : Test
  ped_run : Test
  cgt_test : Test
  get_ttot : Test
  fec_test : Test
  disc_check : Test
  ped_run_by_channel : Test

abbrev pub critical_tests : List Test
critical_tests = crate_cbal ∷ zdisc ∷ set_ttot ∷ cmos_m_gtvalid ∷ find_noise_2 ∷ []

abbrev pub other_tests : List Test
other_tests = ped_run ∷ cgt_test ∷ get_ttot ∷ fec_test ∷ disc_check ∷ ped_run_by_channel ∷ []

abbrev pub type_of : Test → String
type_of crate_cbal = "crate_cbal"
type_of zdisc = "zdisc"
type_of set_ttot = "set_ttot"
type_of cmos_m_gtvalid = "cmos_m_gtvalid"
type_of find_noise_2 = "find_noise_2"
type_of ped_run = "ped_run"
type_of cgt_test = "cgt_test"
type_of get_ttot = "get_ttot"
type_of fec_test = "fec_test"
type_of disc_check = "disc_check"
type_of ped_run_by_channel = "ped_run_by_channel"

-- The chain of `strcmp(type, ...) == 0`.
abbrev pub first_named : String → List Test → Option Test
first_named type [] = none
first_named type (t ∷ ts) =
    let rest = first_named type ts in if str_eq type (type_of t) then some t else rest

unfoldable pub test_of : String → Option Test
test_of type = first_named type (critical_tests ++ other_tests)

-- The bits of `enum Bit`; `find_noise_2` has none.
abbrev pub error_bit : Test → Option ℕ
error_bit crate_cbal = some 0
error_bit zdisc = some 1
error_bit set_ttot = some 2
error_bit cmos_m_gtvalid = some 3
error_bit find_noise_2 = none
error_bit ped_run = some 4
error_bit cgt_test = some 5
error_bit get_ttot = some 6
error_bit fec_test = some 7
error_bit disc_check = some 8
error_bit ped_run_by_channel = some 9

-- The place in `count_tests`; the tests that are not critical are not counted.
abbrev pub count_place : Test → Option ℕ
count_place crate_cbal = some 0
count_place zdisc = some 1
count_place set_ttot = some 2
count_place cmos_m_gtvalid = some 3
count_place find_noise_2 = some 4
count_place _ = none

-- `count_tests[place] += 1`
abbrev pub counted_at : Option ℕ → List ℕ → List ℕ
counted_at none counts = counts
counted_at (some place) counts = set counts place (get_or counts place 0 + 1)

-- `chan_prob_array[i] |= (1 << bit)`, for the channels from `i` on that fail.
unfoldable pub mark_from : ℕ → ℕ → (ℕ → Bool) → List ℕ → List ℕ
mark_from bit i fails [] = []
mark_from bit i fails (p ∷ problems) =
    (if fails i then bit_or p (2 ^ bit) else p) ∷ mark_from bit (suc i) fails problems

abbrev pub marked : Option ℕ → (ℕ → Bool) → List ℕ → List ℕ
marked none fails problems = problems
marked (some bit) fails problems = mark_from bit 0 fails problems

module _ (json : Json) where
  open json use {
    Node, Number, find_member, find_element, get_number, get_bool, get_string, to_int, is_positive,
  }

  -- The members that a test adds to `hw`.
  pub data HwMember : Type 0 where
    vbal : List Number → List Number → HwMember
    vthr_zero : List Number → HwMember
    tdisc : List Number → List Number → HwMember
    tcmos : Number → Number → List Number → List Number → List Number → HwMember
    vthr : List Number → HwMember

  -- The document of a card, as far as it differs from card to card.
  pub record EcalFec : Type 0 where
    pub crate : ℕ
    pub card : ℕ
    pub timestamp_ecal : String
    pub ecal_id : String
    pub board_id : String
    pub db_ids : List String
    pub vint : Number
    pub hvref : Number
    pub tr100 : Node
    pub tr20 : Node
    pub scmos : Node
    pub hw : List HwMember
    pub tests : List (String × String)
    pub problem : List ℕ

  -- The document, `chan_prob_array` and `count_tests`.
  pub record Adding : Type 0 where
    pub doc : EcalFec
    pub problems : List ℕ
    pub counts : List ℕ

  abbrev pub numbers_at : ℕ → Node → (Node → Node) → List Number
  numbers_at n array of_element = map (λ j. get_number (of_element (find_element array j))) (upto n)

  -- Whether the channel fails in the document of a test.
  unfoldable pub fails : Test → Node → ℕ → Bool
  fails crate_cbal d i = get_bool (find_member (find_element (find_member d "channels") i) "errors")
  fails zdisc d i = get_bool (find_element (find_member d "errors") i)
  fails set_ttot d i =
      to_int (
        get_number (
          find_member
            (find_element (find_member (find_element (find_member d "chips") (i / 4)) "channels")
              (i % 4))
            "errors"))
      == 2
  fails cmos_m_gtvalid d i =
      get_bool (find_member (find_element (find_member d "channels") i) "errors")
  fails find_noise_2 d i = false
  fails ped_run d i = not (to_int (get_number (find_element (find_member d "error_flags") i)) == 0)
  fails cgt_test d i = get_bool (find_element (find_member d "errors") i)
  fails get_ttot d i =
      to_int (get_number (find_member (find_element (find_member d "channels") i) "errors")) == 1
  fails fec_test d i = not (get_bool (find_element (find_member d "cmos_test_reg") i))
  fails disc_check d i =
      to_int (get_number (find_member (find_element (find_member d "channels") i) "errors")) == 1
  fails ped_run_by_channel d i = is_positive (get_number (find_element (find_member d "errors") i))

  unfoldable pub hw_members : Test → Node → List HwMember
  hw_members crate_cbal d =
      let channels = find_member d "channels" in
      vbal (numbers_at 32 channels (λ c. find_member c "vbal_high"))
        (numbers_at 32 channels (λ c. find_member c "vbal_low"))
      ∷ []
  hw_members zdisc d = vthr_zero (numbers_at 32 (find_member d "zero_dac") (λ v. v)) ∷ []
  hw_members set_ttot d =
      let chips = find_member d "chips" in
      tdisc (numbers_at 8 chips (λ c. find_member c "rmp"))
        (numbers_at 8 chips (λ c. find_member c "vsi"))
      ∷ []
  hw_members cmos_m_gtvalid d =
      tcmos (get_number (find_member d "vmax")) (get_number (find_member d "tacref"))
        (numbers_at 2 (find_member d "isetm") (λ v. v))
        (numbers_at 2 (find_member d "iseta") (λ v. v))
        (numbers_at 32 (find_member d "channels") (λ c. find_member c "tac_shift"))
      ∷ []
  hw_members find_noise_2 d =
      vthr (numbers_at 32 (find_member d "channels") (λ c. find_member c "noiseless")) ∷ []
  hw_members _ d = []

  -- A test with its document; a type that the function does not know adds its entry alone.
  abbrev pub with_test : Option Test → Node → String → String → Adding → Adding
  with_test none d type id a = record a {
    doc = record a.doc { tests = a.doc.tests ++ (type, id) ∷ []; problem = a.problems };
  }
  with_test (some t) d type id a =
      let problems = marked (error_bit t) (fails t d) a.problems in
      record {
        doc = record a.doc {
          hw = a.doc.hw ++ hw_members t d;
          tests = a.doc.tests ++ (type, id) ∷ [];
          problem = problems;
        };
        problems = problems;
        counts = counted_at (count_place t) a.counts;
      }

  abbrev pub with_id : String → Option String → Node → Adding → Option Adding
  with_id type none d a = none
  with_id type (some id) d a = some (with_test (test_of type) d type id a)

  abbrev pub with_type : Option String → Node → Adding → Option Adding
  with_type none d a = none
  with_type (some type) d a = with_id type (get_string (find_member d "_id")) d a

  -- none is a use of a text that the document does not have.
  unfoldable pub add_ecal_test_results : Node → Adding → Option Adding
  add_ecal_test_results d a = with_type (get_string (find_member d "type")) d a
