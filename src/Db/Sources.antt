-- ===== src/Db/Sources.antt =====
-- Which document each of the constants of a card comes from, `CrateInit` of src/xl3/XL3Cmds.cpp.
use Prim.Native.String.{String}
use penn_daq.Prelude.{
  ℕ, suc, ◌≡◌, ◌≢◌, refl, ap, ◌∙◌, List, map, Bool, true, false, not, ◌&&◌, ◌||◌, ◌==◌,
  if◌then◌else◌, Option, some, arith,
}
use penn_daq.Controller.Commands.{upto}
use penn_daq.Db.Json.{Json}
use penn_daq.Db.Constants.{Mb, byte_of, parse_fec_debug}
use penn_daq.Db.Overrides.{
  Step, ◌>>=◌, got, Query, crate_cbal, zdisc, ttot, cmos, Uses, put_cbal, put_zdisc, put_ttot,
  put_cmos, look_up, with_hw, with_thresholds, with_views, fec_settings,
}

module _ (json : Json) (ask : Query → Option json.Node) where
  open json use {Node, find_member, find_element, num_mems}

  -- The database answers a view, and the answer has a first row with a document.
  pub record HasRow (query : Query) (doc : Node) : Type 0 where
    pub view : Node
    pub more : ℕ
    pub answered : ask query ≡ some view
    pub row_count : num_mems (find_member view "rows") ≡ some (suc more)
    pub value : find_member (find_element (find_member view "rows") 0) "value" ≡ doc

  -- The documents that the views have for a board.
  pub record Views (mb_id : ℕ) (db_id : List ℕ) : Type 0 where
    pub cbal : Node
    pub zero_dac : Node
    pub time_over : Node
    pub cmos_doc : Node
    pub has_cbal : HasRow (crate_cbal mb_id db_id) cbal
    pub has_zdisc : HasRow (zdisc mb_id db_id) zero_dac
    pub has_ttot : HasRow (ttot mb_id db_id) time_over
    pub has_cmos : HasRow (cmos mb_id db_id) cmos_doc

  -- A member of the first `n` elements of an array, or the elements themselves, as bytes.
  abbrev pub bytes_of_member : Node → String → ℕ → List ℕ
  bytes_of_member array key n =
      map (λ j. byte_of json (find_member (find_element array j) key)) (upto n)

  abbrev pub bytes_of_elements : Node → ℕ → List ℕ
  bytes_of_elements array n = map (λ j. byte_of json (find_element array j)) (upto n)

  abbrev pub either : {A : Type 0} → Bool → A → A → A
  either use_view a b = if use_view then a else b

  -- The constants: each field is that of its view when its flag asks for it, and else that of the
  -- defaults. The thresholds are those of the view `get_zdisc`.
  abbrev pub chosen_by :
      {mb_id : ℕ} {db_id : List ℕ} → Bool → Bool → Bool → Views mb_id db_id → Mb → Mb
  chosen_by use_vbal use_tdisc use_tcmos v d = record d {
    v_bal_low =
        either use_vbal (bytes_of_member (find_member v.cbal "channels") "vbal_low" 32) d.v_bal_low;
    v_bal_high =
        either use_vbal (bytes_of_member (find_member v.cbal "channels") "vbal_high" 32)
          d.v_bal_high;
    v_thr = bytes_of_elements (find_member v.zero_dac "upper_dac") 32;
    t_disc = record d.t_disc {
      rmp =
          either use_tdisc (bytes_of_member (find_member v.time_over "chips") "rmp" 8) d.t_disc.rmp;
      vsi =
          either use_tdisc (bytes_of_member (find_member v.time_over "chips") "vsi" 8) d.t_disc.vsi;
    };
    t_cmos = record {
      v_max = either use_tcmos (byte_of json (find_member v.cmos_doc "vmax")) d.t_cmos.v_max;
      tac_ref = either use_tcmos (byte_of json (find_member v.cmos_doc "tacref")) d.t_cmos.tac_ref;
      isetm =
          either use_tcmos (bytes_of_elements (find_member v.cmos_doc "isetm") 2) d.t_cmos.isetm;
      iseta =
          either use_tcmos (bytes_of_elements (find_member v.cmos_doc "iseta") 2) d.t_cmos.iseta;
      tac_shift =
          either use_tcmos (bytes_of_member (find_member v.cmos_doc "channels") "tac_shift" 32)
            d.t_cmos.tac_shift;
    };
  }

  abbrev pub chosen : {mb_id : ℕ} {db_id : List ℕ} → Uses → Views mb_id db_id → Mb → Mb
  chosen uses v d =
      chosen_by (uses.vbal || uses.all) (uses.tdisc || uses.all) (uses.tcmos || uses.all) v d

  look_up_row :
      (wanted : Bool) (mb_id : ℕ) (query : Query) (doc : Node) (put : Node → Mb → Step Mb) (mb : Mb)
      → mb_id ≢ 0
      → HasRow query doc
      → look_up json ask wanted mb_id query put mb ≡ (if wanted then put doc mb else got mb)
  unfolding look_up
  look_up_row false mb_id query doc put mb known h = refl
  look_up_row true mb_id query doc put mb known h =
      rw (is_known, h.answered, h.row_count, is_some h.more, h.value) refl
    where
      is_known : (mb_id == 0) ≡ false
      is_known = ground arith

      is_some : (n : ℕ) → (suc n == 0) ≡ false
      is_some n = ground arith

  -- The constants with those of a document put over them.
  abbrev filled : (Node → Mb → Step Mb) → Node → Mb → Mb
  filled put doc mb = (elim (put doc mb) [ got m ↦ m | Step.given_up ↦ mb | Step.fault ↦ mb ])

  got_then :
      {m : Mb} {t : Step Mb} (s : Step Mb) (f : Mb → Step Mb) → s ≡ got m → f m ≡ t → (s >>= f) ≡ t
  got_then s f e h = ap (λ r. r >>= f) e ∙ h

  -- A card of the mask with a known mother board, for which the views have rows.
  module _ (uses : Uses) (mb_id : ℕ) (db_id : List ℕ) (known : mb_id ≢ 0)
      (v : Views mb_id db_id) where
    put_by_flag :
        (b : Bool) (query : Query) (doc : Node) (put : Node → Mb → Step Mb) (mb : Mb)
        → HasRow query doc
        → put doc mb ≡ got (filled put doc mb)
        → look_up json ask (b && true) mb_id query put mb ≡ got (either b (filled put doc mb) mb)
    put_by_flag true query doc put mb h e = look_up_row true mb_id query doc put mb known h ∙ e
    put_by_flag false query doc put mb h e = look_up_row false mb_id query doc put mb known h

    abbrev balanced : Bool → Mb → Mb
    balanced a mb = either a (filled (put_cbal json) v.cbal mb) mb

    abbrev set_zero : Mb → Mb
    set_zero mb = filled (put_zdisc json) v.zero_dac mb

    abbrev timed : Bool → Mb → Mb
    timed b mb = either b (filled (put_ttot json) v.time_over mb) mb

    all_chosen :
        (a b c : Bool) (d : Mb)
        → either c
            (filled (put_cmos json) v.cmos_doc (timed b (set_zero (balanced a d))))
            (timed b (set_zero (balanced a d)))
          ≡ chosen_by a b c v d
    all_chosen true true true d = refl
    all_chosen true true false d = refl
    all_chosen true false true d = refl
    all_chosen true false false d = refl
    all_chosen false true true d = refl
    all_chosen false true false d = refl
    all_chosen false false true d = refl
    all_chosen false false false d = refl

    thresholds_from_zdisc :
        (mb : Mb)
        → (uses.noise || uses.all && not uses.vthr) ≡ true
        → with_thresholds json ask uses true mb_id db_id mb ≡ got (set_zero mb)
    unfolding with_thresholds
    thresholds_from_zdisc mb wanted = rw wanted (
        look_up_row true mb_id (zdisc mb_id db_id) v.zero_dac (put_zdisc json) mb known v.has_zdisc)

    with_views-chosen :
        (d : Mb)
        → (uses.noise || uses.all && not uses.vthr) ≡ true
        → with_views json ask uses true mb_id db_id d ≡ got (chosen uses v d)
    unfolding with_views
    with_views-chosen d wanted =
        let a = uses.vbal || uses.all in
        let b = uses.tdisc || uses.all in
        let c = uses.tcmos || uses.all in
        got_then _ _
          (put_by_flag a (crate_cbal mb_id db_id) v.cbal (put_cbal json) d v.has_cbal refl)
          (got_then _ _ (thresholds_from_zdisc (balanced a d) wanted) (
            got_then _ _
              (put_by_flag b (ttot mb_id db_id) v.time_over (put_ttot json)
                (set_zero (balanced a d)) v.has_ttot refl)
              (put_by_flag c (cmos mb_id db_id) v.cmos_doc (put_cmos json)
                  (timed b (set_zero (balanced a d))) v.has_cmos refl
                ∙ ap got (all_chosen a b c d))))

  -- A card of the mask with a known mother board, for which the views have rows, when `useHw` is 0 and
  -- the flags ask for the thresholds of `get_zdisc`: each constant comes from the first row of its own
  -- view, asked for by the identifiers of the boards, when its flag is set, and from the defaults else.
  pub fec_settings_sources :
      (uses : Uses) (mb_id : ℕ) (db_id : List ℕ) (debug_doc : Node) (rows : Option Node) (mb : Mb)
      → mb_id ≢ 0
      → uses.hw ≡ 0
      → (uses.noise || uses.all && not uses.vthr) ≡ true
      → (v : Views mb_id db_id)
      → fec_settings json ask uses true mb_id db_id debug_doc rows mb
        ≡ got (chosen uses v (parse_fec_debug json debug_doc mb))
  unfolding fec_settings
  fec_settings_sources uses mb_id db_id debug_doc rows mb known no_hw from_zdisc v =
      ap (λ s. s >>= with_views json ask uses true mb_id db_id) hw_unused
      ∙ with_views-chosen uses mb_id db_id known v (parse_fec_debug json debug_doc mb) from_zdisc
    where
      hw_unused :
          with_hw json ask uses true rows (parse_fec_debug json debug_doc mb)
          ≡ got (parse_fec_debug json debug_doc mb)
      hw_unused = rw no_hw refl
