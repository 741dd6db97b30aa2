-- ===== src/Db/Layout.antt =====
-- `MB` of src/db/DBTypes.h as the bytes that it is in the memory of a little-endian host, packed.
use penn_daq.Prelude.{ℕ, ◌+◌, ◌*◌, ◌/◌, ◌%◌, ◌^◌, List, [], ◌∷◌, ◌++◌, take, drop, get_or}
use penn_daq.Db.Constants.{Mb}
use penn_daq.Xl3.Packet.{words_of}
use penn_daq.Boards.Discriminator.{bytes_of}

-- Shorts as bytes, and bytes as shorts.
abbrev pub bytes_of_shorts : List ℕ → List ℕ
bytes_of_shorts [] = []
bytes_of_shorts (x ∷ xs) = x % 2 ^ 8 ∷ x / 2 ^ 8 % 2 ^ 8 ∷ bytes_of_shorts xs

abbrev pub shorts_at : List ℕ → List ℕ
shorts_at (a ∷ b ∷ bytes) = (a + 2 ^ 8 * b) ∷ shorts_at bytes
shorts_at bytes = []

-- The fields in their order, each as its bytes.
unfoldable pub mb_fields : Mb → List (List ℕ)
mb_fields mb =
    bytes_of_shorts (mb.mb_id ∷ [])
    ∷ bytes_of_shorts mb.db_id
    ∷ mb.v_bal_high
    ∷ mb.v_bal_low
    ∷ mb.v_thr
    ∷ mb.t_disc.rmp
    ∷ mb.t_disc.rmpup
    ∷ mb.t_disc.vsi
    ∷ mb.t_disc.vli
    ∷ (mb.t_cmos.v_max ∷ mb.t_cmos.tac_ref ∷ [])
    ∷ mb.t_cmos.isetm
    ∷ mb.t_cmos.iseta
    ∷ mb.t_cmos.tac_shift
    ∷ (mb.v_int ∷ mb.hv_ref ∷ [])
    ∷ mb.tr100.mask
    ∷ mb.tr100.t_delay
    ∷ mb.tr20.mask
    ∷ mb.tr20.t_width
    ∷ mb.tr20.t_delay
    ∷ bytes_of_shorts mb.s_cmos
    ∷ bytes_of (mb.disable_mask ∷ [])
    ∷ []

-- How many bytes each field takes.
abbrev pub mb_sizes : List ℕ
mb_sizes =
    2 ∷ 8 ∷ 32 ∷ 32 ∷ 32 ∷ 8 ∷ 8 ∷ 8 ∷ 8 ∷ 2 ∷ 2 ∷ 2 ∷ 32 ∷ 2 ∷ 32 ∷ 32 ∷ 32 ∷ 32 ∷ 32 ∷ 64 ∷ 4 ∷ []

abbrev pub mb_size : ℕ
mb_size = 406

abbrev pub flat : List (List ℕ) → List ℕ
flat [] = []
flat (xs ∷ xss) = xs ++ flat xss

-- Bytes cut into pieces of given sizes.
abbrev pub pieces : List ℕ → List ℕ → List (List ℕ)
pieces [] bytes = []
pieces (n ∷ sizes) bytes = take n bytes ∷ pieces sizes (drop n bytes)

abbrev pub piece : List (List ℕ) → ℕ → List ℕ
piece fields i = get_or fields i []

-- `(MB *)` on some bytes.
unfoldable pub mb_of_fields : List (List ℕ) → Mb
mb_of_fields fields = record {
  mb_id = get_or (shorts_at (piece fields 0)) 0 0;
  db_id = shorts_at (piece fields 1);
  v_bal_high = piece fields 2;
  v_bal_low = piece fields 3;
  v_thr = piece fields 4;
  t_disc = record {
    rmp = piece fields 5;
    rmpup = piece fields 6;
    vsi = piece fields 7;
    vli = piece fields 8;
  };
  t_cmos = record {
    v_max = get_or (piece fields 9) 0 0;
    tac_ref = get_or (piece fields 9) 1 0;
    isetm = piece fields 10;
    iseta = piece fields 11;
    tac_shift = piece fields 12;
  };
  v_int = get_or (piece fields 13) 0 0;
  hv_ref = get_or (piece fields 13) 1 0;
  tr100 = record { mask = piece fields 14; t_delay = piece fields 15 };
  tr20 = record { mask = piece fields 16; t_width = piece fields 17; t_delay = piece fields 18 };
  s_cmos = shorts_at (piece fields 19);
  disable_mask = get_or (words_of (piece fields 20)) 0 0;
}

unfoldable pub mb_at : List ℕ → Mb
mb_at bytes = mb_of_fields (pieces mb_sizes bytes)

unfoldable pub mb_bytes : Mb → List ℕ
mb_bytes mb = flat (mb_fields mb)
