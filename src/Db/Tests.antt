-- ===== src/Db/Tests.antt =====
-- The constants and the tests of a card in some documents, and the places of some boards.
use Prim.Native.String.{String}
use penn_daq.Prelude.{
  ℕ, Bool, All, map, ◌≢◌, ◌≡◌, inr, refl, List, [], ◌∷◌, ◌++◌, true, false, Option, none, some,
  ◌==◌, if◌then◌else◌, arith, replicate, get_or, drop,
}
use penn_daq.Xl3.Packet.{swap_one_long}
use penn_daq.Boards.Discriminator.{bytes_of}
use penn_daq.Db.Constants.{Mb, parse_fec_debug, swap_fec_db}
use penn_daq.Db.Overrides.{got, Query, Uses, fec_settings, trigger_settings}
use penn_daq.Db.Layout.{mb_at}
use penn_daq.Db.Packed.{HasShape}
use penn_daq.Db.Received.{for_board, slot_payload-received}
use penn_daq.Db.Defaults.{without_views, fec_settings_defaults}
use penn_daq.Db.Sources.{HasRow, Views, chosen, fec_settings_sources}
use penn_daq.Db.Shapes.{parse_fec_debug-HasShape}
use penn_daq.Db.Ecal.{EcalFec}
use penn_daq.Db.Generate.{
  Row, row_of, rows_from, find_slot, find_config, create_fec_db_doc, generate_card,
}
use penn_daq.Db.Counting.{Surely}
use penn_daq.Db.Location.{Fec, CrateEntry, Board, id_text, remove_from_config, update_config}
use penn_daq.Db.Removed.{IsFull, without, remove_from_config-without}
use penn_daq.Db.Places.{Place}
use penn_daq.Db.Moved.{AreMoved, update_config-moves}
use penn_daq.Db.Update.{update_location, stopped, put_location, update_location_stops}
use penn_daq.Db.Posted.{IsSettled, generate_card-posts}
use penn_daq.Db.Trees.{Value, absent, num, chars, empty, member, trees}

abbrev blank : Mb
blank = record {
  mb_id = 0x1A2B;
  db_id = replicate 4 0xC0DE;
  v_bal_high = [];
  v_bal_low = [];
  v_thr = [];
  t_disc = record { rmp = []; rmpup = []; vsi = []; vli = [] };
  t_cmos = record { v_max = 0; tac_ref = 0; isetm = []; iseta = []; tac_shift = [] };
  v_int = 0;
  hv_ref = 0;
  tr100 = record { mask = []; t_delay = [] };
  tr20 = record { mask = []; t_width = []; t_delay = [] };
  s_cmos = [];
  disable_mask = 0;
}

-- A document of defaults with two members.
abbrev defaults : Value
defaults =
    member "vint" (num 205) (member "vthr" (member "" (num 300) (member "" (num 7) empty)) empty)

abbrev card : Mb
card = parse_fec_debug trees defaults blank

card-HasShape : HasShape card
card-HasShape =
    parse_fec_debug-HasShape trees defaults blank (omega arith)
      (refl, (omega arith, (omega arith, (omega arith, (omega arith, tt)))))

abbrev every_use : Uses
every_use = record {
  vbal = true;
  vthr = true;
  tdisc = true;
  tcmos = true;
  all = false;
  noise = false;
  hw = 0;
  enable_triggers = true;
  tr100_delay = 60;
  tr20_delay = 0;
  tr20_width = 300;
}

slot_payload-received_example :
    (swap_one_long true (get_or (for_board 5 every_use card (replicate 360 9)) 0 0) ≡ 5)
    × (swap_fec_db true (mb_at (drop 4 (bytes_of (for_board 5 every_use card (replicate 360 9)))))
        ≡ trigger_settings every_use card)
slot_payload-received_example =
    slot_payload-received 5 every_use card (replicate 360 9) (omega arith) card-HasShape refl

-- A database in which each view has one row with a document.
abbrev one_row : Query → Option Value
one_row query = some (member "rows" (member "" (member "value" defaults empty) empty) empty)

fec_settings_defaults_example :
    fec_settings trees one_row every_use true 0 (replicate 4 0) defaults none blank
    ≡ without_views trees one_row true 0 none (parse_fec_debug trees defaults blank)
fec_settings_defaults_example =
    fec_settings_defaults trees one_row every_use true 0 (replicate 4 0) defaults none blank
      (inr refl)

-- Flags for the thresholds of `get_zdisc`, and the views of a database with one row each.
abbrev noise_use : Uses
noise_use = record every_use { noise = true; tcmos = false }

one_row-HasRow : (query : Query) → HasRow trees one_row query defaults
one_row-HasRow query = record {
  view = member "rows" (member "" (member "value" defaults empty) empty) empty;
  more = 0;
  answered = refl;
  row_count = refl;
  value = refl;
}

abbrev one_row_views : Views trees one_row 0x1A2B (replicate 4 0xC0DE)
one_row_views = record {
  cbal = defaults;
  zero_dac = defaults;
  time_over = defaults;
  cmos_doc = defaults;
  has_cbal = one_row-HasRow _;
  has_zdisc = one_row-HasRow _;
  has_ttot = one_row-HasRow _;
  has_cmos = one_row-HasRow _;
}

fec_settings_sources_example :
    fec_settings trees one_row noise_use true 0x1A2B (replicate 4 0xC0DE) defaults none blank
    ≡ got (chosen trees one_row noise_use one_row_views (parse_fec_debug trees defaults blank))
fec_settings_sources_example =
    fec_settings_sources trees one_row noise_use 0x1A2B (replicate 4 0xC0DE) defaults none blank
      (omega arith) refl refl one_row_views

-- The document of an ECAL of one card, in slot 3 of crate 2.
abbrev config : Value
config = member "slot_id" (num 3) (
    member "mb_id" (chars "f0a1") (
      member "db0_id" (chars "d0") (
        member "db1_id" (chars "d1")
          (member "db2_id" (chars "d2") (member "db3_id" (chars "d3") empty)))))

abbrev ecal : Value
ecal = member "_id" (chars "ecal") (
    member "formatted_timestamp" (chars "today") (
      member "crates"
        (member "" (member "crate_id" (num 2) (member "slots" (member "" config empty) empty))
          empty)
        empty))

abbrev expected : EcalFec trees
expected = record {
  crate = 2;
  card = 3;
  timestamp_ecal = "today";
  ecal_id = "ecal";
  board_id = "f0a1";
  db_ids = "d0" ∷ "d1" ∷ "d2" ∷ "d3" ∷ [];
  vint = 0;
  hvref = 0;
  tr100 = absent;
  tr20 = absent;
  scmos = absent;
  hw = [];
  tests = [];
  problem = replicate 32 0;
}

-- The row of a test, and a view without a row of `find_noise_2`.
abbrev test_doc : String → ℕ → Value
test_doc type time = member "type" (chars type) (
    member "_id" (chars "id") (
      member "timestamp" (num time)
        (member "config" (member "crate_id" (num 2) (member "slot" (num 3) empty)) empty)))

abbrev in_row : Value → Value
in_row doc = member "value" doc empty

abbrev view : Value
view = member "" (in_row (test_doc "zdisc" 10)) (
    member "" (in_row (test_doc "crate_cbal" 11)) (
      member "" (in_row (test_doc "zdisc" 12)) (
        member "" (in_row (test_doc "set_ttot" 13))
          (member "" (in_row (test_doc "cmos_m_gtvalid" 14)) empty))))

abbrev card_rows : List (Row trees)
card_rows =
    row_of trees (test_doc "zdisc" 10) "zdisc"
    ∷ row_of trees (test_doc "crate_cbal" 11) "crate_cbal"
    ∷ row_of trees (test_doc "zdisc" 12) "zdisc"
    ∷ row_of trees (test_doc "set_ttot" 13) "set_ttot"
    ∷ row_of trees (test_doc "cmos_m_gtvalid" 14) "cmos_m_gtvalid"
    ∷ []

some_text : (s : String) → ◌≡◌ {A = Option String} (some s) none → ⊥
some_text s h = cc

expected_doc : create_fec_db_doc trees 2 3 ecal ≡ got expected
unfolding create_fec_db_doc find_config find_slot
expected_doc = refl

view_rows : rows_from trees 5 0 view ≡ got card_rows
unfolding rows_from
view_rows = refl

generate_card-posts_example :
    Surely (IsSettled trees 2 3 card_rows) (generate_card trees 2 3 ecal 5 view)
generate_card-posts_example =
    generate_card-posts trees 2 3 ecal expected 5 view card_rows expected_doc view_rows
      (some_text "id", (some_text "id", (some_text "id", (some_text "id", (some_text "id", tt)))))

-- A crate with a card in slot 3, of which the mother board and a daughter board now stand in slot 5,
-- where another card was.
abbrev no_card : Fec
no_card = record { id = none; dbs = replicate 4 none }

abbrev card_of : ℕ → ℕ → Fec
card_of mb db = record { id = some (id_text mb); dbs = some (id_text db) ∷ replicate 3 none }

abbrev two_cards : List CrateEntry
two_cards =
    record {
      id = 2;
      fecs =
          replicate 3 no_card
          ++ card_of 0xF0A1 0xD001 ∷ no_card ∷ card_of 0xF0A2 0xD002 ∷ replicate 10 no_card;
      pmtics = replicate 16 none;
    }
    ∷ []

abbrev moved_boards : List Board
moved_boards =
    record { id = 0xF0A1; crate = 2; slot = 5; position = 0 }
    ∷ record { id = 0xD001; crate = 2; slot = 5; position = 1 }
    ∷ []

two_cards-IsFull : All IsFull two_cards
two_cards-IsFull = (
  (
    refl,
    (
      (
        refl,
        (
          refl,
          (
            refl,
            (
              refl,
              (
                refl,
                (
                  refl,
                  (
                    refl,
                    (refl, (refl, (refl, (refl, (refl, (refl, (refl, (refl, (refl, tt))))))))),
                  ),
                ),
              ),
            ),
          ),
        ),
      ),
      refl,
    ),
  ),
  tt,
)

remove_from_config-without_example :
    remove_from_config (id_text 0xF0A1 ∷ id_text 0xD001 ∷ []) two_cards
    ≡ got (map (without (id_text 0xF0A1 ∷ id_text 0xD001 ∷ [])) two_cards)
remove_from_config-without_example =
    remove_from_config-without (id_text 0xF0A1 ∷ id_text 0xD001 ∷ []) two_cards two_cards-IsFull

apart_places : ◌≢◌ {A = Place} (Place.at_fec 5) (Place.at_db 5 0)
apart_places h = cc

update_config-moves_example : Surely (AreMoved moved_boards) (update_config moved_boards two_cards)
update_config-moves_example =
    update_config-moves moved_boards two_cards two_cards-IsFull
      ((refl, (omega arith, omega arith)), ((refl, (omega arith, omega arith)), tt))
      ((inr apart_places, tt), (tt, tt))

-- A database without the document of the daughter board.
abbrev documents : ℕ → Option Bool
documents id = if id == 0xF0A1 then some true else none

update_location_stops_example :
    update_location 1 documents (some two_cards) moved_boards
    ≡ stopped (put_location 0xF0A1 "underground" ∷ [])
update_location_stops_example =
    update_location_stops 1 documents (some two_cards)
      (record { id = 0xF0A1; crate = 2; slot = 5; position = 0 } ∷ [])
      (record { id = 0xD001; crate = 2; slot = 5; position = 1 }) [] (refl, tt) refl
