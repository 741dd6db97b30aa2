-- ===== src/Mtc/Dacs.antt =====
-- The threshold DACs of the MTC/A cards, loaded over fourteen lines at once:
-- `LoadMTCADacsByCounts` of src/mtc/MTCModel.cpp.
use penn_daq.Prelude.{
  ℕ, zero, suc, ◌^◌, List, [], ◌∷◌, Option, ◌==◌, if◌then◌else◌, bit_and, bit_or, clear_bits,
  Action, pure, ◌>>◌,
}
use penn_daq.Mtc.Packet.{Sent, reg_write}

abbrev pub dac_cnt_reg : ℕ
dac_cnt_reg = 0x8

abbrev pub dacsel : ℕ
dacsel = 0x4000

abbrev pub dacclk : ℕ
dacclk = 0x8000

-- The loop over the DACs from `di` on: line `di` of `shift_value` is bit `bi` of its count.
unfoldable pub set_lines : ℕ → List ℕ → ℕ → ℕ → ℕ
set_lines bi [] di shift_value = shift_value
set_lines bi (raw ∷ raw_dacs) di shift_value = set_lines bi raw_dacs (suc di) (
    if bit_and raw (2 ^ bi) == 0
    then clear_bits shift_value (2 ^ di)
    else bit_or shift_value (2 ^ di))

module _ (answer : Sent → Option ℕ) where
  -- `n` rounds of the loop over the dummy bits.
  unfoldable pub shift_dummies : ℕ → Action Sent Unit
  shift_dummies zero = pure tt
  shift_dummies (suc n) = do
    reg_write answer dac_cnt_reg (bit_or dacsel dacclk)
    reg_write answer dac_cnt_reg dacsel
    shift_dummies n

  -- The loop `for (bi = n - 1; bi >= 0; bi--)`.
  unfoldable pub shift_words : List ℕ → ℕ → ℕ → Action Sent Unit
  shift_words raw_dacs zero shift_value = pure tt
  shift_words raw_dacs (suc bi) shift_value = do
    reg_write answer dac_cnt_reg (bit_or (set_lines bi raw_dacs 0 shift_value) dacsel)
    reg_write answer dac_cnt_reg
        (bit_or (bit_or (set_lines bi raw_dacs 0 shift_value) dacsel) dacclk)
    reg_write answer dac_cnt_reg (bit_or (set_lines bi raw_dacs 0 shift_value) dacsel)
    shift_words raw_dacs bi (set_lines bi raw_dacs 0 shift_value)

  unfoldable pub load_mtca_dacs_by_counts : List ℕ → Action Sent ℕ
  load_mtca_dacs_by_counts raw_dacs = do
    reg_write answer dac_cnt_reg dacsel
    shift_dummies 4
    shift_words raw_dacs 12 0
    reg_write answer dac_cnt_reg 0x0
    pure 0
