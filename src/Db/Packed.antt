-- ===== src/Db/Packed.antt =====
-- The bytes of an `MB` are read back as the `MB`.
use penn_daq.Prelude.{
  ℕ, ◌+◌, ◌*◌, ◌/◌, ◌%◌, ◌^◌, ◌<◌, ◌≡◌, refl, ap, ap₂, ◌∙◌, List, [], ◌∷◌, ◌++◌, All, arith, length,
  append_assoc,
}
use penn_daq.Db.Constants.{Mb}
use penn_daq.Db.Layout.{
  bytes_of_shorts, shorts_at, mb_fields, mb_sizes, flat, pieces, mb_of_fields, mb_at, mb_bytes,
}
use penn_daq.Stream.Bytes.{take-append, drop-append}
use penn_daq.Xl3.Packet.{words_of}

pub shorts_at-bytes_of_shorts :
    (xs : List ℕ) → All (λ x. x < 2 ^ 16) xs → shorts_at (bytes_of_shorts xs) ≡ xs
shorts_at-bytes_of_shorts [] h = refl
shorts_at-bytes_of_shorts (x ∷ xs) (small, rest) =
    ap₂ (◌∷◌) (omega (arith, small)) (shorts_at-bytes_of_shorts xs rest)

pub length-bytes_of_shorts : (xs : List ℕ) → length (bytes_of_shorts xs) ≡ 2 * length xs
length-bytes_of_shorts [] = refl
length-bytes_of_shorts (x ∷ xs) = omega (arith, length-bytes_of_shorts xs)

abbrev pub IsByte : ℕ → Type 0
IsByte b = b < 2 ^ 8

abbrev pub IsShort : ℕ → Type 0
IsShort x = x < 2 ^ 16

-- `n` bytes, or `n` shorts.
abbrev pub AreBytes : ℕ → List ℕ → Type 0
AreBytes n xs = (length xs ≡ n) × All IsByte xs

abbrev pub AreShorts : ℕ → List ℕ → Type 0
AreShorts n xs = (length xs ≡ n) × All IsShort xs

-- The fields of a card have the types of the structure.
pub record HasShape (mb : Mb) : Type 0 where
  pub mb_id : IsShort mb.mb_id
  pub db_id : AreShorts 4 mb.db_id
  pub v_bal_high : AreBytes 32 mb.v_bal_high
  pub v_bal_low : AreBytes 32 mb.v_bal_low
  pub v_thr : AreBytes 32 mb.v_thr
  pub rmp : AreBytes 8 mb.t_disc.rmp
  pub rmpup : AreBytes 8 mb.t_disc.rmpup
  pub vsi : AreBytes 8 mb.t_disc.vsi
  pub vli : AreBytes 8 mb.t_disc.vli
  pub isetm : AreBytes 2 mb.t_cmos.isetm
  pub iseta : AreBytes 2 mb.t_cmos.iseta
  pub tac_shift : AreBytes 32 mb.t_cmos.tac_shift
  pub tr100_mask : AreBytes 32 mb.tr100.mask
  pub tr100_t_delay : AreBytes 32 mb.tr100.t_delay
  pub tr20_mask : AreBytes 32 mb.tr20.mask
  pub tr20_t_width : AreBytes 32 mb.tr20.t_width
  pub tr20_t_delay : AreBytes 32 mb.tr20.t_delay
  pub v_max : IsByte mb.t_cmos.v_max
  pub tac_ref : IsByte mb.t_cmos.tac_ref
  pub v_int : IsByte mb.v_int
  pub hv_ref : IsByte mb.hv_ref
  pub s_cmos : AreShorts 32 mb.s_cmos
  pub disable_mask : mb.disable_mask < 2 ^ 32

bytes_of_shorts-All : (xs : List ℕ) → All IsByte (bytes_of_shorts xs)
bytes_of_shorts-All [] = tt
bytes_of_shorts-All (x ∷ xs) = (omega arith, (omega arith, bytes_of_shorts-All xs))

bytes_of_shorts-AreBytes :
    (n : ℕ) (xs : List ℕ) → AreShorts n xs → AreBytes (2 * n) (bytes_of_shorts xs)
bytes_of_shorts-AreBytes n xs s =
    (omega (arith, length-bytes_of_shorts xs, s.0), bytes_of_shorts-All xs)

-- The fields one after the other.
abbrev pub AllFit : List ℕ → List (List ℕ) → Type 0
AllFit [] [] = Unit
AllFit [] (xs ∷ xss) = ⊥
AllFit (n ∷ ns) [] = ⊥
AllFit (n ∷ ns) (xs ∷ xss) = AreBytes n xs × AllFit ns xss

pub mb_fields-AllFit : (mb : Mb) → HasShape mb → AllFit mb_sizes (mb_fields mb)
unfolding mb_fields
mb_fields-AllFit mb s = (
  (refl, bytes_of_shorts-All (mb.mb_id ∷ [])),
  (
    bytes_of_shorts-AreBytes 4 mb.db_id s.db_id,
    (
      s.v_bal_high,
      (
        s.v_bal_low,
        (
          s.v_thr,
          (
            s.rmp,
            (
              s.rmpup,
              (
                s.vsi,
                (
                  s.vli,
                  (
                    (refl, (s.v_max, (s.tac_ref, tt))),
                    (
                      s.isetm,
                      (
                        s.iseta,
                        (
                          s.tac_shift,
                          (
                            (refl, (s.v_int, (s.hv_ref, tt))),
                            (
                              s.tr100_mask,
                              (
                                s.tr100_t_delay,
                                (
                                  s.tr20_mask,
                                  (
                                    s.tr20_t_width,
                                    (
                                      s.tr20_t_delay,
                                      (
                                        bytes_of_shorts-AreBytes 32 mb.s_cmos s.s_cmos,
                                        (
                                          (
                                            refl,
                                            (
                                              omega arith,
                                              (omega arith, (omega arith, (omega arith, tt))),
                                            ),
                                          ),
                                          tt,
                                        ),
                                      ),
                                    ),
                                  ),
                                ),
                              ),
                            ),
                          ),
                        ),
                      ),
                    ),
                  ),
                ),
              ),
            ),
          ),
        ),
      ),
    ),
  ),
)

pub pieces-flat :
    (sizes : List ℕ) (fields : List (List ℕ)) (rest : List ℕ)
    → AllFit sizes fields
    → pieces sizes (flat fields ++ rest) ≡ fields
pieces-flat [] [] rest h = refl
pieces-flat [] (xs ∷ xss) rest h = absurd h
pieces-flat (n ∷ ns) [] rest h = absurd h
pieces-flat (n ∷ ns) (xs ∷ xss) rest (here, there) =
    rw
      (
        append_assoc xs (flat xss) rest,
        ← here.0,
        take-append xs (flat xss ++ rest),
        drop-append xs (flat xss ++ rest),
      )
      (ap (◌∷◌ xs) (pieces-flat ns xss rest there))

mb_of_fields-mb_fields : (mb : Mb) → HasShape mb → mb_of_fields (mb_fields mb) ≡ mb
unfolding mb_of_fields mb_fields words_of
mb_of_fields-mb_fields mb s =
    let id : mb.mb_id % 2 ^ 8 + 2 ^ 8 * (mb.mb_id / 2 ^ 8 % 2 ^ 8) ≡ mb.mb_id =
      omega (arith, s.mb_id) in
    let mask : mb.disable_mask % 2 ^ 8
          + 2 ^ 8 * (mb.disable_mask / 2 ^ 8 % 2 ^ 8)
          + 2 ^ 16 * (mb.disable_mask / 2 ^ 16 % 2 ^ 8)
          + 2 ^ 24 * (mb.disable_mask / 2 ^ 24 % 2 ^ 8)
        ≡ mb.disable_mask =
      omega (arith, s.disable_mask) in
    λ i. record mb {
      mb_id = id i;
      db_id = shorts_at-bytes_of_shorts mb.db_id s.db_id.1 i;
      s_cmos = shorts_at-bytes_of_shorts mb.s_cmos s.s_cmos.1 i;
      disable_mask = mask i;
    }

-- An `MB` stored and then read through a pointer is the `MB` that was stored, whatever follows it.
pub mb_at-mb_bytes : (mb : Mb) (rest : List ℕ) → HasShape mb → mb_at (mb_bytes mb ++ rest) ≡ mb
unfolding mb_at mb_bytes
mb_at-mb_bytes mb rest s =
    ap mb_of_fields (pieces-flat mb_sizes (mb_fields mb) rest (mb_fields-AllFit mb s))
    ∙ mb_of_fields-mb_fields mb s
