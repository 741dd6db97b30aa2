-- ===== src/Mtc/Shift.antt =====
-- What the shift registers of the MTC hold after the serial line has been driven.
use penn_daq.Prelude.{
  ℕ, zero, suc, ◌+◌, ◌*◌, ◌/◌, ◌%◌, ◌^◌, ◌≡◌, refl, ap, ◌∙◌, arith, [], ◌∷◌, Bool, true, false,
  ◌&&◌, ◌==◌, if◌then◌else◌, Option, bit, mod-double_high, bit_or, bit_and, bit_and-one, returned,
  ltb, ◌||◌, ◌≤◌, ◌<◌, ◌≢◌,
}
use native.Mathlib.Nat.{one-le-pow, pow-succ'}
use penn_daq.Mtc.Packet.{Sent, mtc_write_id, read_packet, write_packet}
use penn_daq.Mtc.Widths.{control_reg}
use penn_daq.Mtc.File.{
  bus, word_or, held, IsRegisterFile, reg_read-eq, reg_write-eq, changed, set_bits-eq,
  reset_bits-eq,
}
use penn_daq.Mtc.Serial.{
  serial_reg, sen, serdat, shftclkgt, shftclkps, load_engt, load_enps, Frequency, serial_bit,
  shift_in, shift_and_load, set_gt_counter, set_pulser_frequency,
}

-- A shift register behind bit `k` of the serial register: where that bit goes from 0 to 1, the data
-- bit is shifted in. Its contents, without the bits that fall out at the top.
abbrev pub shifted : (ℕ → ℕ) → ℕ → ℕ → Sent → ℕ
shifted initial k acc [] = acc
shifted initial k acc (p ∷ sent) =
    let rest = shifted initial k acc sent in
    if p.cmd_id == mtc_write_id
      && p.address == bus serial_reg
      && bit (word_or p.word 0) k == 1
      && bit (held initial sent (bus serial_reg)) k == 0
    then rest * 2 + bit (word_or p.word 0) 1
    else rest

-- The bits of the words that are written for a clock bit `k`.
record IsClock (clock k : ℕ) : Type 0 where
  low_one : bit 1 k ≡ 0
  low_three : bit 3 k ≡ 0
  high_one : bit (bit_or 1 clock) k ≡ 1
  high_three : bit (bit_or 3 clock) k ≡ 1
  data_one : bit (bit_or 1 clock) 1 ≡ 0
  data_three : bit (bit_or 3 clock) 1 ≡ 1

shftclkgt-IsClock : IsClock shftclkgt 2
shftclkgt-IsClock = record {
  low_one = refl;
  low_three = refl;
  high_one = refl;
  high_three = refl;
  data_one = refl;
  data_three = refl;
}

shftclkps-IsClock : IsClock shftclkps 5
shftclkps-IsClock = record {
  low_one = refl;
  low_three = refl;
  high_one = refl;
  high_three = refl;
  data_one = refl;
  data_three = refl;
}

module _ (answer : Sent → Option ℕ) (initial : ℕ → ℕ) (file : IsRegisterFile answer initial) where
  -- The packets of one round of the loop.
  abbrev round : ℕ → ℕ → Sent → Sent
  round clock word s =
      write_packet serial_reg (bit_or word clock)
      ∷ read_packet serial_reg
      ∷ write_packet serial_reg word
      ∷ s

  shift_in-suc :
      (clock value j : ℕ) (s : Sent)
      → shift_in answer clock value (suc j) s
        ≡ shift_in answer clock value j (round clock (serial_bit answer value j) s)
  unfolding shift_in
  shift_in-suc clock value j s =
      rw
        (
          reg_write-eq answer initial file serial_reg (serial_bit answer value j) s,
          reg_read-eq answer initial file serial_reg
              (write_packet serial_reg (serial_bit answer value j) ∷ s),
          reg_write-eq answer initial file serial_reg (bit_or (serial_bit answer value j) clock)
              (read_packet serial_reg ∷ write_packet serial_reg (serial_bit answer value j) ∷ s),
        )
        refl

  shifted-round :
      (clock k acc : ℕ)
      → IsClock clock k
      → (b : Bool) (s : Sent)
      → shifted initial k acc (round clock (if b then bit_or serdat sen else sen) s)
        ≡ shifted initial k acc s * 2 + (if b then 1 else 0)
  shifted-round clock k acc c true s = rw (c.low_three, c.high_three, c.data_three) refl
  shifted-round clock k acc c false s = rw (c.low_one, c.high_one, c.data_one) refl

  shift_in-shifted :
      (clock k acc : ℕ)
      → IsClock clock k
      → (value n : ℕ) (s : Sent)
      → ((shift_in answer clock value n s).0 ≡ returned tt)
        × (shifted initial k acc (shift_in answer clock value n s).1
            ≡ shifted initial k acc s * 2 ^ n + value % 2 ^ n)
  unfolding shift_in
  shift_in-shifted clock k acc c value zero s = (refl, omega arith)
  shift_in-shifted clock k acc c value (suc j) s =
      let later =
        shift_in-shifted clock k acc c value j (round clock (serial_bit answer value j) s) in
      rw (shift_in-suc clock value j s) (
        later.0,
        later.1 ∙ ap (λ t. t * 2 ^ j + value % 2 ^ j) here ∙ together (shifted initial k acc s),
      )
    where
      here :
          shifted initial k acc (round clock (serial_bit answer value j) s)
          ≡ shifted initial k acc s * 2 + value / 2 ^ j % 2
      here =
          shifted-round clock k acc c (bit_and (value / 2 ^ j) 0x01 == 1) s
          ∙ ap (λ t. shifted initial k acc s * 2 + t) (ground (arith, bit_and-one (value / 2 ^ j)))

      together :
          (a : ℕ)
          → (a * 2 + value / 2 ^ j % 2) * 2 ^ j + value % 2 ^ j ≡ a * 2 ^ suc j + value % 2 ^ suc j
      together a = omega (
        arith,
        mod-double_high (2 ^ j) value (one-le-pow j 2 (omega arith)),
        ap (λ (t : ℕ). value % t) (pow-succ' 2 j),
        ap (λ (t : ℕ). a * t) (pow-succ' 2 j),
      )

  -- The register after the loop, and after the load bit.
  shift_and_load-shifted :
      (clock k acc load : ℕ)
      → IsClock clock k
      → (value : ℕ) (s : Sent)
      → ((shift_and_load answer clock value load s).0 ≡ returned 0)
        × (shifted initial k acc (shift_and_load answer clock value load s).1 % 2 ^ 24
            ≡ value % 2 ^ 24)
  unfolding shift_and_load
  shift_and_load-shifted clock k acc load c value s =
      let r = shift_in-shifted clock k acc c value 24 s in
      let t : Sent = (shift_in answer clock value 24 s).1 in
      rw
        (
          r.0,
          set_bits-eq answer initial file control_reg load t,
          reset_bits-eq answer initial file control_reg load
              (changed answer initial file (λ w. bit_or w load) control_reg t),
        )
        (refl, omega (arith, r.1))

  -- `SetGTCounter` on a board that reads back what is written: it returns 0, and the shift register
  -- behind the clock line of the counter holds the low 24 bits of the count, whatever it held.
  pub set_gt_counter-shifted :
      (count acc : ℕ) (s : Sent)
      → ((set_gt_counter answer count s).0 ≡ returned 0)
        × (shifted initial 2 acc (set_gt_counter answer count s).1 % 2 ^ 24 ≡ count % 2 ^ 24)
  unfolding set_gt_counter
  set_gt_counter-shifted count acc s =
      shift_and_load-shifted shftclkgt 2 acc load_engt shftclkgt-IsClock count s

  -- `SetPulserFrequency` on such a board, with a divider from 1 to 2 ^ 24 - 1: it returns 0, and the
  -- shift register behind the clock line of the pulser holds the divider.
  pub set_pulser_frequency-shifted :
      {F : Type 0} (floats : Frequency F) (freq : F) (acc : ℕ) (s : Sent)
      → floats.is_soft freq ≡ false
      → 1 ≤ floats.divider freq
      → floats.divider freq < 2 ^ 24
      → ((set_pulser_frequency answer floats freq s).0 ≡ returned 0)
        × (shifted initial 5 acc (set_pulser_frequency answer floats freq s).1 % 2 ^ 24
            ≡ floats.divider freq)
  unfolding set_pulser_frequency
  set_pulser_frequency-shifted floats freq acc s hard low high =
      let r =
        shift_and_load-shifted shftclkps 5 acc load_enps shftclkps-IsClock (floats.divider freq)
          s in
      rw (hard, in_range) (r.0, omega (arith, r.1))
    where
      in_range : (ltb (floats.divider freq) 1 || ltb 167772216 (floats.divider freq)) ≡ false
      in_range = ground arith

  -- A divider from 2 ^ 24 to 167772216 is accepted too: the call returns 0, and the shift register
  -- holds the low 24 bits of it, which are another divider than the one asked for.
  pub set_pulser_frequency_truncates :
      {F : Type 0} (floats : Frequency F) (freq : F) (acc : ℕ) (s : Sent)
      → floats.is_soft freq ≡ false
      → 2 ^ 24 ≤ floats.divider freq
      → floats.divider freq ≤ 167772216
      → ((set_pulser_frequency answer floats freq s).0 ≡ returned 0)
        × (shifted initial 5 acc (set_pulser_frequency answer floats freq s).1 % 2 ^ 24
            ≡ floats.divider freq % 2 ^ 24)
        × (floats.divider freq % 2 ^ 24 ≢ floats.divider freq)
  unfolding set_pulser_frequency
  set_pulser_frequency_truncates floats freq acc s hard low high =
      let r =
        shift_and_load-shifted shftclkps 5 acc load_enps shftclkps-IsClock (floats.divider freq)
          s in
      rw (hard, in_range) (r.0, r.1, λ e. omega arith)
    where
      in_range : (ltb (floats.divider freq) 1 || ltb 167772216 (floats.divider freq)) ≡ false
      in_range = ground arith
