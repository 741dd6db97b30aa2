-- ===== src/Mtc/Serial.antt =====
-- The values that are shifted into the MTC bit by bit: `SetGTCounter` and `SetPulserFrequency` of
-- src/mtc/MTCModel.cpp. What the code computes with `float` is a parameter.
use penn_daq.Prelude.{
  ℕ, zero, suc, ◌/◌, ◌^◌, Bool, Option, ltb, ◌||◌, ◌==◌, if◌then◌else◌, bit_and, bit_or, Action,
  pure, ◌>>=◌, ◌>>◌,
}
use penn_daq.Mtc.Packet.{Sent, reg_write, reg_read}
use penn_daq.Mtc.Widths.{control_reg, failure, set_bits, reset_bits}

abbrev pub serial_reg : ℕ
serial_reg = 0x4

abbrev pub sen : ℕ
sen = 0x1

abbrev pub serdat : ℕ
serdat = 0x2

abbrev pub shftclkgt : ℕ
shftclkgt = 0x4

abbrev pub shftclkps : ℕ
shftclkps = 0x20

abbrev pub load_enps : ℕ
load_enps = 0x8

abbrev pub load_engt : ℕ
load_engt = 0x800

-- `freq <= 1.0e-3`, and `(uint32_t)((781250 / freq) - 1)`.
pub record Frequency (F : Type 0) : Type 0 where
  pub is_soft : F → Bool
  pub divider : F → ℕ

module _ (answer : Sent → Option ℕ) where
  abbrev pub serial_bit : ℕ → ℕ → ℕ
  serial_bit value j = if bit_and (value / 2 ^ j) 0x01 == 1 then bit_or serdat sen else sen

  -- The loop `for (j = n - 1; j >= 0; j--)`.
  unfoldable pub shift_in : ℕ → ℕ → ℕ → Action Sent Unit
  shift_in clock value zero = pure tt
  shift_in clock value (suc j) = do
    reg_write answer serial_reg (serial_bit value j)
    temp ← reg_read answer serial_reg
    reg_write answer serial_reg (bit_or temp clock)
    shift_in clock value j

  -- The loop, and the load bit of the control register set and reset.
  unfoldable pub shift_and_load : ℕ → ℕ → ℕ → Action Sent ℕ
  shift_and_load clock value load = do
    shift_in clock value 24
    set_bits answer control_reg load
    reset_bits answer control_reg load
    pure 0

  unfoldable pub set_gt_counter : ℕ → Action Sent ℕ
  set_gt_counter count = shift_and_load shftclkgt count load_engt

  unfoldable pub set_pulser_frequency : {F : Type 0} → Frequency F → F → Action Sent ℕ
  set_pulser_frequency floats freq =
      if floats.is_soft freq
      then shift_and_load shftclkps 0 load_enps
      else if ltb (floats.divider freq) 1 || ltb 167772216 (floats.divider freq)
      then pure failure
      else shift_and_load shftclkps (floats.divider freq) load_enps
