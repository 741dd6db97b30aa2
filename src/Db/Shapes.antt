-- ===== src/Db/Shapes.antt =====
-- Whatever the document of defaults holds, the constants of a card have the types of their structure,
-- `ParseFECDebug` of src/db/DB.cpp.
use penn_daq.Prelude.{
  ℕ, zero, suc, ◌+◌, ◌/◌, ◌%◌, ◌^◌, ◌≤◌, ◌<◌, ◌≡◌, refl, ◌∙◌, inl, inr, List, [], ◌∷◌, map, All,
  arith, length, ◌==◌, Bool-cases, bit_or, bit_or_digit, length-map, length-append,
}
use Prim.Native.String.{String}
use native.Mathlib.Nat.{two-pow-succ, pow-le-pow_right}
use penn_daq.Controller.Commands.{upto}
use penn_daq.Db.Json.{Json}
use penn_daq.Db.Constants.{
  Mb, disabled, int_of, byte_of, short_of, bytes_in, settings, parse_fec_debug,
}
use penn_daq.Db.Packed.{IsByte, IsShort, AreBytes, AreShorts, HasShape}

bit_or-lt : (k a b : ℕ) → a < 2 ^ k → b < 2 ^ k → bit_or a b < 2 ^ k
bit_or-lt zero zero zero h g = omega arith
bit_or-lt zero (suc a) b h g = absurd (omega arith)
bit_or-lt zero a (suc b) h g = absurd (omega arith)
bit_or-lt (suc k) a b h g =
    let e = two-pow-succ k in
    omega (
      arith,
      bit_or_digit a b,
      bit_or-lt k (a / 2) (b / 2) (omega (arith, e)) (omega (arith, e)),
      e,
    )

bytes_map : {A : Type 0} (f : A → ℕ) (xs : List A) → All IsByte (map (λ x. f x % 2 ^ 8) xs)
bytes_map f [] = tt
bytes_map f (x ∷ xs) = (omega arith, bytes_map f xs)

shorts_map : {A : Type 0} (f : A → ℕ) (xs : List A) → All IsShort (map (λ x. f x % 2 ^ 16) xs)
shorts_map f [] = tt
shorts_map f (x ∷ xs) = (omega arith, shorts_map f xs)

power : (j : ℕ) → j ≤ 31 → 2 ^ j < 2 ^ 32
power j h = omega (arith, pow-le-pow_right {n = 2} (omega arith) {i = j} {j = 31} h)

length-upto : (n : ℕ) → length (upto n) ≡ n
length-upto zero = refl
length-upto (suc n) = omega (arith, length-append (upto n) (n ∷ []), length-upto n)

module _ (json : Json) where
  open json use {Node, find_member, find_element, get_number, get_string, to_int, hex}

  disabled-lt :
      (n j : ℕ) (array : Node) (mask : ℕ)
      → j + n ≤ 32
      → mask < 2 ^ 32
      → disabled json n j array mask < 2 ^ 32
  unfolding disabled
  disabled-lt zero j array mask h g = g
  disabled-lt (suc n) j array mask h g =
      elim (Bool-cases (int_of json (find_element array j) == 0)) [
        | inl e ↦ rw e (disabled-lt n (suc j) array mask (omega arith) g)
        | inr e ↦ rw e (
            disabled-lt n (suc j) array (bit_or mask (2 ^ j)) (omega arith)
              (bit_or-lt 32 mask (2 ^ j) g (power j (omega arith))))
      ]

  bytes_in-AreBytes : (n : ℕ) (array : Node) → AreBytes n (bytes_in json n array)
  bytes_in-AreBytes n array = (
    length-map (upto n) (λ j. byte_of json (find_element array j)) ∙ length-upto n,
    bytes_map (λ j. int_of json (find_element array j)) (upto n),
  )

  settings-HasShape :
      (tac_ref tac_shift : String) (value : Node) (mb : Mb)
      → IsShort mb.mb_id
      → AreShorts 4 mb.db_id
      → HasShape (settings json tac_ref tac_shift value mb)
  settings-HasShape tac_ref tac_shift value mb id ids = record {
    mb_id = id;
    db_id = ids;
    v_bal_high = bytes_in-AreBytes 32 (find_element (find_member value "vbal") 0);
    v_bal_low = bytes_in-AreBytes 32 (find_element (find_member value "vbal") 1);
    v_thr = bytes_in-AreBytes 32 (find_member value "vthr");
    rmp = bytes_in-AreBytes 8 (find_member (find_member value "tdisc") "rmp");
    rmpup = bytes_in-AreBytes 8 (find_member (find_member value "tdisc") "rmpup");
    vsi = bytes_in-AreBytes 8 (find_member (find_member value "tdisc") "vsi");
    vli = bytes_in-AreBytes 8 (find_member (find_member value "tdisc") "vli");
    isetm = bytes_in-AreBytes 2 (find_member (find_member value "tcmos") "isetm");
    iseta = bytes_in-AreBytes 2 (find_member (find_member value "tcmos") "iseta");
    tac_shift = bytes_in-AreBytes 32 (find_member (find_member value "tcmos") tac_shift);
    tr100_mask = bytes_in-AreBytes 32 (find_member (find_member value "tr100") "mask");
    tr100_t_delay = bytes_in-AreBytes 32 (find_member (find_member value "tr100") "delay");
    tr20_mask = bytes_in-AreBytes 32 (find_member (find_member value "tr20") "mask");
    tr20_t_width = bytes_in-AreBytes 32 (find_member (find_member value "tr20") "width");
    tr20_t_delay = bytes_in-AreBytes 32 (find_member (find_member value "tr20") "delay");
    v_max = omega arith;
    tac_ref = omega arith;
    v_int = omega arith;
    hv_ref = omega arith;
    s_cmos = (
      length-map (upto 32) (λ j. short_of json (find_element (find_member value "scmos") j)),
      shorts_map (λ j. int_of json (find_element (find_member value "scmos") j)) (upto 32),
    );
    disable_mask =
        disabled-lt 32 0 (find_member value "chan_disable") 0 (omega arith) (omega arith);
  }

  pub parse_fec_debug-HasShape :
      (value : Node) (mb : Mb)
      → IsShort mb.mb_id
      → AreShorts 4 mb.db_id
      → HasShape (parse_fec_debug json value mb)
  unfolding parse_fec_debug
  parse_fec_debug-HasShape value mb id ids = settings-HasShape "tacref" "tac_shift" value mb id ids
