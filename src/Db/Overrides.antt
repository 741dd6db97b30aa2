-- ===== src/Db/Overrides.antt =====
-- `CrateInit` of src/xl3/XL3Cmds.cpp: what one card gets of the documents. Where the code stores a
-- `double` into a `uint8_t`, it is stored as an `int` is.
use penn_daq.Prelude.{
  ℕ, zero, suc, ◌%◌, ◌^◌, List, map, Bool, true, false, Option, none, some, not, ◌==◌, ltb, ◌&&◌,
  ◌||◌, if◌then◌else◌, set, replicate,
}
use penn_daq.Controller.Commands.{upto}
use penn_daq.Db.Json.{Json}
use penn_daq.Db.Constants.{Mb, int_of, byte_of, bytes_in, parse_fec_debug, parse_fec_hw}

-- A step of the function: it goes on, or the function returns -1, or it uses memory that is not its
-- own or was never written.
pub data Step (A : Type 0) : Type 0 where
  got : A → Step A
  given_up : Step A
  fault : Step A

infixl 10 ◌>>=◌
abbrev pub ◌>>=◌ : {A B : Type 0} → Step A → (A → Step B) → Step B
got a >>= f = f a
given_up >>= f = given_up
fault >>= f = fault

-- The addresses that are asked for; a configuration is the mother board and its daughter boards.
pub data Query : Type 0 where
  fec_by_generated : ℕ → ℕ → Query
  crate_init_doc : Query
  crate_cbal : ℕ → List ℕ → Query
  zdisc : ℕ → List ℕ → Query
  noise : ℕ → List ℕ → Query
  ttot : ℕ → List ℕ → Query
  cmos : ℕ → List ℕ → Query
  ctc_doc : Query

-- The flags and the trigger settings that the function is called with.
pub record Uses : Type 0 where
  pub vbal : Bool
  pub vthr : Bool
  pub tdisc : Bool
  pub tcmos : Bool
  pub all : Bool
  pub noise : Bool
  pub hw : ℕ
  pub enable_triggers : Bool
  pub tr100_delay : ℕ
  pub tr20_delay : ℕ
  pub tr20_width : ℕ

abbrev pub or_fault : Option Mb → Step Mb
or_fault none = fault
or_fault (some mb) = got mb

module _ (json : Json) where
  open json use {Node, find_member, find_element, num_mems}

  -- The member `key` of the elements of an array.
  abbrev pub bytes_at : Node → (Node → Node) → ℕ → List ℕ
  bytes_at array of_element n = map (λ j. byte_of json (of_element (find_element array j))) (upto n)

  abbrev pub put_cbal : Node → Mb → Step Mb
  put_cbal doc mb =
      let channels = find_member doc "channels" in
      got (record mb {
        v_bal_low = bytes_at channels (λ c. find_member c "vbal_low") 32;
        v_bal_high = bytes_at channels (λ c. find_member c "vbal_high") 32;
      })

  abbrev pub put_zdisc : Node → Mb → Step Mb
  put_zdisc doc mb = got (record mb { v_thr = bytes_in json 32 (find_member doc "upper_dac") })

  -- The loop over `n` elements from `j` on, each with the number of its channel.
  unfoldable pub put_noiseless : ℕ → ℕ → Node → List ℕ → Step (List ℕ)
  put_noiseless zero j channels v_thr = got v_thr
  put_noiseless (suc n) j channels v_thr =
      let one_chan = find_element channels j in
      let chan_num = int_of json (find_member one_chan "id") in
      let rest =
        put_noiseless n (suc j) channels
          (set v_thr chan_num (byte_of json (find_member one_chan "noiseless"))) in
      if ltb chan_num 32 then rest else fault

  abbrev pub put_noise : Node → Mb → Step Mb
  put_noise doc mb = put_noiseless 32 0 (find_member doc "channels") mb.v_thr >>= λ v_thr.
      got (record mb { v_thr = v_thr })

  abbrev pub put_ttot : Node → Mb → Step Mb
  put_ttot doc mb =
      let chips = find_member doc "chips" in
      got (record mb {
        t_disc = record mb.t_disc {
          rmp = bytes_at chips (λ c. find_member c "rmp") 8;
          vsi = bytes_at chips (λ c. find_member c "vsi") 8;
        };
      })

  abbrev pub put_cmos : Node → Mb → Step Mb
  put_cmos doc mb = got (record mb {
    t_cmos = record {
      v_max = byte_of json (find_member doc "vmax");
      tac_ref = byte_of json (find_member doc "tacref");
      isetm = bytes_in json 2 (find_member doc "isetm");
      iseta = bytes_in json 2 (find_member doc "iseta");
      tac_shift = bytes_at (find_member doc "channels") (λ c. find_member c "tac_shift") 32;
    };
  })

  -- `json_get_num_mems(viewrows) == 0`
  abbrev pub is_empty : Option ℕ → Bool
  is_empty none = false
  is_empty (some n) = n == 0

  -- What a view answers: its first row, unless it has none.
  abbrev pub first_row : (Node → Mb → Step Mb) → Mb → Option Node → Step Mb
  first_row put mb none = given_up
  first_row put mb (some doc) =
      let rows = find_member doc "rows" in
      if is_empty (num_mems rows)
      then got mb
      else put (find_member (find_element rows 0) "value") mb

  module _ (ask : Query → Option Node) where
    -- Nothing is asked for a board that is not known.
    unfoldable pub look_up : Bool → ℕ → Query → (Node → Mb → Step Mb) → Mb → Step Mb
    look_up wanted mb_id query put mb =
        if not wanted || mb_id == 0 then got mb else first_row put mb (ask query)

    -- The document of the last ECAL; none is a place of `hw_rows` that was not written.
    abbrev pub put_hw : Option Node → Mb → Step Mb
    put_hw none mb = fault
    put_hw (some rows) mb =
        or_fault (parse_fec_hw json (find_member (find_element rows 0) "value") mb)

    -- `in_mask` is `(0x1<<i) & slotMask`.
    abbrev pub with_hw : Uses → Bool → Option Node → Mb → Step Mb
    with_hw uses in_mask rows mb = if not (uses.hw == 0) && in_mask then put_hw rows mb else got mb

    -- The two sources of the thresholds.
    unfoldable pub with_thresholds : Uses → Bool → ℕ → List ℕ → Mb → Step Mb
    with_thresholds uses in_mask mb_id db_id mb =
        if (uses.noise || uses.all && not uses.vthr) && in_mask
        then look_up true mb_id (zdisc mb_id db_id) put_zdisc mb
        else look_up ((uses.vthr || uses.all && not uses.noise) && in_mask) mb_id
            (noise mb_id db_id) put_noise mb

    -- `mb_id` and `db_id` are the board as the crate reported it.
    unfoldable pub with_views : Uses → Bool → ℕ → List ℕ → Mb → Step Mb
    with_views uses in_mask mb_id db_id mb = do
      cbal ← look_up ((uses.vbal || uses.all) && in_mask) mb_id (crate_cbal mb_id db_id) put_cbal mb
      thr ← with_thresholds uses in_mask mb_id db_id cbal
      disc ← look_up ((uses.tdisc || uses.all) && in_mask) mb_id (ttot mb_id db_id) put_ttot thr
      look_up ((uses.tcmos || uses.all) && in_mask) mb_id (cmos mb_id db_id) put_cmos disc

    unfoldable pub fec_settings : Uses → Bool → ℕ → List ℕ → Node → Option Node → Mb → Step Mb
    fec_settings uses in_mask mb_id db_id debug_doc rows mb =
        with_hw uses in_mask rows (parse_fec_debug json debug_doc mb)
        >>= with_views uses in_mask mb_id db_id

-- The trigger settings, which are stored behind the swap.
abbrev pub unless_zero : ℕ → List ℕ → List ℕ
unless_zero v old = if v == 0 then old else replicate 32 (v % 2 ^ 8)

unfoldable pub trigger_settings : Uses → Mb → Mb
trigger_settings uses mb =
    let on = replicate 32 (if uses.enable_triggers then 1 else 0) in
    record mb {
      tr100 = record { mask = on; t_delay = unless_zero uses.tr100_delay mb.tr100.t_delay };
      tr20 = record {
        mask = on;
        t_width = unless_zero uses.tr20_width mb.tr20.t_width;
        t_delay = unless_zero uses.tr20_delay mb.tr20.t_delay;
      };
    }
