-- ===== src/Db/Constants.antt =====
-- The structures of src/db/DBTypes.h, and `ParseFECDebug`, `ParseFECHw` and `SwapFECDB` of
-- src/db/DB.cpp, which fill the one of a card. The lines that print are left out.
use Prim.Native.String.{String}
use mathlib.Core.Option
use penn_daq.Prelude.{
  ℕ, zero, suc, ◌%◌, ◌^◌, List, [], ◌∷◌, map, Bool, Option, none, some, bit_or, ◌==◌, if◌then◌else◌,
}
use penn_daq.Controller.Commands.{upto}
use penn_daq.Xl3.Packet.{swap_one_long, swap_one_short}
use penn_daq.Db.Json.{Json}

pub record TDisc : Type 0 where
  pub rmp : List ℕ
  pub rmpup : List ℕ
  pub vsi : List ℕ
  pub vli : List ℕ

pub record TCmos : Type 0 where
  pub v_max : ℕ
  pub tac_ref : ℕ
  pub isetm : List ℕ
  pub iseta : List ℕ
  pub tac_shift : List ℕ

pub record Tr100 : Type 0 where
  pub mask : List ℕ
  pub t_delay : List ℕ

pub record Tr20 : Type 0 where
  pub mask : List ℕ
  pub t_width : List ℕ
  pub t_delay : List ℕ

-- `MB`. The rows of `vBal` are two fields, `vBal[0]` and `vBal[1]`.
pub record Mb : Type 0 where
  pub mb_id : ℕ
  pub db_id : List ℕ
  pub v_bal_high : List ℕ
  pub v_bal_low : List ℕ
  pub v_thr : List ℕ
  pub t_disc : TDisc
  pub t_cmos : TCmos
  pub v_int : ℕ
  pub hv_ref : ℕ
  pub tr100 : Tr100
  pub tr20 : Tr20
  pub s_cmos : List ℕ
  pub disable_mask : ℕ

abbrev pub all_of : List (Option ℕ) → Option (List ℕ)
all_of [] = some []
all_of (none ∷ xs) = none
all_of (some x ∷ xs) = Option.map (λ rest. x ∷ rest) (all_of xs)

abbrev pub with_ids : Option (List ℕ) → Mb → Option Mb
with_ids (some (mb_id ∷ db_id)) mb = some (record mb { mb_id = mb_id; db_id = db_id })
with_ids _ mb = none

module _ (json : Json) where
  open json use {Node, find_member, find_element, get_number, get_string, to_int, hex}

  -- `(int)json_get_number`, and its stores into a `uint8_t` and a `uint16_t`.
  abbrev pub int_of : Node → ℕ
  int_of node = to_int (get_number node)

  abbrev pub byte_of : Node → ℕ
  byte_of node = int_of node % 2 ^ 8

  abbrev pub short_of : Node → ℕ
  short_of node = int_of node % 2 ^ 16

  -- The first `n` elements of an array.
  abbrev pub bytes_in : ℕ → Node → List ℕ
  bytes_in n array = map (λ j. byte_of (find_element array j)) (upto n)

  -- The loop over `n` channels from `j` on that sets the bits of those that are disabled.
  unfoldable pub disabled : ℕ → ℕ → Node → ℕ → ℕ
  disabled zero j array mask = mask
  disabled (suc n) j array mask =
      disabled n (suc j) array
        (if int_of (find_element array j) == 0 then mask else bit_or mask (2 ^ j))

  -- What both parsers read of the same members; the names of two of them differ.
  abbrev pub settings : String → String → Node → Mb → Mb
  settings tac_ref tac_shift value mb = record mb {
    v_bal_high = bytes_in 32 (find_element (find_member value "vbal") 0);
    v_bal_low = bytes_in 32 (find_element (find_member value "vbal") 1);
    v_thr = bytes_in 32 (find_member value "vthr");
    t_disc = record {
      rmp = bytes_in 8 (find_member (find_member value "tdisc") "rmp");
      rmpup = bytes_in 8 (find_member (find_member value "tdisc") "rmpup");
      vsi = bytes_in 8 (find_member (find_member value "tdisc") "vsi");
      vli = bytes_in 8 (find_member (find_member value "tdisc") "vli");
    };
    t_cmos = record {
      v_max = byte_of (find_member (find_member value "tcmos") "vmax");
      tac_ref = byte_of (find_member (find_member value "tcmos") tac_ref);
      isetm = bytes_in 2 (find_member (find_member value "tcmos") "isetm");
      iseta = bytes_in 2 (find_member (find_member value "tcmos") "iseta");
      tac_shift = bytes_in 32 (find_member (find_member value "tcmos") tac_shift);
    };
    v_int = byte_of (find_member value "vint");
    hv_ref = byte_of (find_member value "hvref");
    tr100 = record {
      mask = bytes_in 32 (find_member (find_member value "tr100") "mask");
      t_delay = bytes_in 32 (find_member (find_member value "tr100") "delay");
    };
    tr20 = record {
      mask = bytes_in 32 (find_member (find_member value "tr20") "mask");
      t_width = bytes_in 32 (find_member (find_member value "tr20") "width");
      t_delay = bytes_in 32 (find_member (find_member value "tr20") "delay");
    };
    s_cmos = map (λ j. short_of (find_element (find_member value "scmos") j)) (upto 32);
    disable_mask = disabled 32 0 (find_member value "chan_disable") 0;
  }

  unfoldable pub parse_fec_debug : Node → Mb → Mb
  parse_fec_debug value mb = settings "tacref" "tac_shift" value mb

  -- `strtoul` of a text, as it is stored into a `uint16_t`; none is a call with NULL.
  abbrev pub id_of : Node → Option ℕ
  id_of node = Option.map (λ text. hex text % 2 ^ 16) (get_string node)

  unfoldable pub parse_fec_hw : Node → Mb → Option Mb
  parse_fec_hw value mb =
      with_ids
        (all_of (
          id_of (find_member value "board_id")
          ∷ id_of (find_member (find_member value "id") "db0")
          ∷ id_of (find_member (find_member value "id") "db1")
          ∷ id_of (find_member (find_member value "id") "db2")
          ∷ id_of (find_member (find_member value "id") "db3")
          ∷ []))
        (settings "vtacref" "tac_trim" (find_member value "hw") mb)

unfoldable pub swap_fec_db : Bool → Mb → Mb
swap_fec_db need_to_swap mb = record mb {
  mb_id = swap_one_short need_to_swap mb.mb_id;
  db_id = map (swap_one_short need_to_swap) mb.db_id;
  s_cmos = map (swap_one_short need_to_swap) mb.s_cmos;
  disable_mask = swap_one_long need_to_swap mb.disable_mask;
}
