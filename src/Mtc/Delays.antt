-- ===== src/Mtc/Delays.antt =====
-- The delays of src/mtc/MTCModel.cpp, the settings that use them, and `MTCInit` and the reads and writes
-- of src/mtc/MTCCmds.cpp. What the code computes with `float` is a parameter.
use Prim.Native.String.{String}
use penn_daq.Prelude.{
  ℕ, ◌+◌, ◌-◌, ◌*◌, ◌%◌, ◌^◌, List, map, Bool, Option, none, some, ◌==◌, ltb, leb, if◌then◌else◌,
  bit_and, not32, Result, returned, thrown, Action, pure, ◌>>=◌, ◌>>◌,
}
use penn_daq.Mtc.Packet.{Sent, reg_write, reg_read}
use penn_daq.Mtc.Widths.{
  failure, control_reg, load_enpw, write_and_load, set_lockout_width, set_prescale,
  set_pedestal_width, set_coarse_delay, enable_pulser, enable_pedestal, unset_gt_mask,
  unset_ped_crate_mask, unset_gt_crate_mask, set_ped_crate_mask, set_gt_crate_mask, set_gt_mask,
  reset_memory,
}
use penn_daq.Mtc.Serial.{Frequency, set_gt_counter, set_pulser_frequency}
use penn_daq.Mtc.Dacs.{load_mtca_dacs_by_counts}

abbrev pub fine_delay_reg : ℕ
fine_delay_reg = 0x18

abbrev pub maskall : ℕ
maskall = 0xFFFFFFFF

abbrev pub default_lockout_width : ℕ
default_lockout_width = 400

abbrev pub default_gt_mask : ℕ
default_gt_mask = 0x00400000

-- `(uint32_t)(delay / fAddelSlope)` and back; the whole tens of a delay above the minimum, the rest,
-- and the sum; -1.0; the threshold of a DAC in counts, and in millivolts; a whole number.
pub record Delays (F : Type 0) : Type 0 where
  pub fine_counts : F → ℕ
  pub fine_set : ℕ → F
  pub ticks : F → ℕ
  pub rest : F → F
  pub total : ℕ → F → F
  pub minus_one : F
  pub dac_counts : F → ℕ
  pub dac_millivolts : ℕ → F
  pub whole : ℕ → F

-- The fields of the document that `MTCInit` reads, as `ParseMTC` leaves them.
pub record MtcDoc (F : Type 0) : Type 0 where
  pub thresholds : List ℕ
  pub lockout_width : ℕ
  pub nhit100_lo_prescale : ℕ
  pub pulser_frequency : F
  pub pedestal_width : ℕ
  pub coarse_delay : ℕ
  pub fine_delay : F

-- `~x & 0xff` on a `uint16_t`.
abbrev pub low_complement : ℕ → ℕ
low_complement x = bit_and (not32 x) 0xFF

module _ {F : Type 0} (answer : Sent → Option ℕ) (floats : Delays F) (freqs : Frequency F) where
  unfoldable pub set_fine_delay : F → Action Sent F
  set_fine_delay delay =
      if ltb 255 (floats.fine_counts delay)
      then pure floats.minus_one
      else write_and_load answer fine_delay_reg (floats.fine_counts delay) load_enpw
        >> pure (floats.fine_set (floats.fine_counts delay))

  -- What `SetCoarseDelay` returns is not looked at.
  unfoldable pub set_gt_delay : F → Action Sent F
  set_gt_delay gtdel = do
    set_coarse_delay answer (floats.ticks gtdel * 10 % 2 ^ 16)
    fdelay_set ← set_fine_delay (floats.rest gtdel)
    pure (floats.total (floats.ticks gtdel * 10 % 2 ^ 16) fdelay_set)

  unfoldable pub load_mtca_dacs : List F → Action Sent ℕ
  load_mtca_dacs voltages =
      load_mtca_dacs_by_counts answer (map floats.dac_counts voltages) >> pure 0

  -- `if (result == 0) result += m;`
  abbrev pub unless_failed : Action Sent ℕ → ℕ → Action Sent ℕ
  unless_failed m result = if result == 0 then m else pure result

  -- What `SetFineDelay` returns is not looked at. The widths are cut to 16 bits.
  unfoldable pub setup_pedestals : Bool → F → ℕ → ℕ → ℕ → ℕ → ℕ → Action Sent ℕ
  setup_pedestals at_penn pulser_freq ped_width coarse_delay fine_delay ped_crate_mask
        gt_crate_mask =
      do
        lockout ← set_lockout_width answer default_lockout_width
        pulser ← unless_failed (set_pulser_frequency answer freqs pulser_freq) lockout
        width ← unless_failed (set_pedestal_width answer (ped_width % 2 ^ 16)) pulser
        result ← unless_failed (set_coarse_delay answer (coarse_delay % 2 ^ 16)) width
        (if result == 0
            then set_fine_delay (floats.whole fine_delay) >> start_pedestals
            else pure failure)
    where
      start_pedestals : Action Sent ℕ
      start_pedestals = do
        enable_pulser answer
        enable_pedestal answer
        unset_ped_crate_mask answer maskall
        unset_gt_crate_mask answer maskall
        set_ped_crate_mask answer at_penn ped_crate_mask
        set_gt_crate_mask answer at_penn gt_crate_mask
        set_gt_mask answer default_gt_mask
        pure 0

-- What a command of src/mtc/MTCCmds.cpp prints at its end: it was not begun (-1), it finished, with
-- errors or without, it read a value, or an exception ended it.
pub data MtcReport : Type 0 where
  not_begun : MtcReport
  finished : Bool → MtcReport
  shown : ℕ → MtcReport
  failed : String → MtcReport

abbrev pub caught : Result MtcReport × Sent → Result MtcReport × Sent
caught (returned r, sent) = (returned r, sent)
caught (thrown e, sent) = (returned (failed e), sent)

module _ {F : Type 0} (answer : Sent → Option ℕ) (floats : Delays F) (freqs : Frequency F) where
  -- The settings of the document; each result is 0 or -1, and only their sum is looked at.
  unfoldable pub init_from : MtcDoc F → Action Sent MtcReport
  init_from doc = do
    unset_gt_mask answer maskall
    unset_ped_crate_mask answer maskall
    unset_gt_crate_mask answer maskall
    load_mtca_dacs answer floats freqs (map floats.dac_millivolts doc.thresholds)
    reg_write answer control_reg 0x0
    lockout ← set_lockout_width answer (low_complement doc.lockout_width * 20)
    set_gt_counter answer 0
    prescale ← set_prescale answer ((2 ^ 16 - doc.nhit100_lo_prescale % 2 ^ 16) % 2 ^ 16)
    pulser ← set_pulser_frequency answer freqs doc.pulser_frequency
    width ← set_pedestal_width answer (low_complement doc.pedestal_width * 5)
    coarse ← set_coarse_delay answer (low_complement doc.coarse_delay * 10)
    set_fine_delay answer floats freqs doc.fine_delay
    reset_memory answer
    pure (finished (leb (2 ^ 31) ((lockout + prescale + pulser + width + coarse) % 2 ^ 32)))

  abbrev pub init_after : Option (MtcDoc F) → ℕ → Action Sent MtcReport
  init_after none errors = pure not_begun
  init_after (some doc) errors = if errors == 0 then init_from doc else pure not_begun

  -- `xilinx_load` is `XilinxLoad`, and the document what the database gave, if it gave one.
  unfoldable pub mtc_init : Bool → Action Sent ℕ → Option (MtcDoc F) → Action Sent MtcReport
  mtc_init xilinx xilinx_load doc sent =
      caught (((if xilinx then xilinx_load else pure 0) >>= init_after doc) sent)

  unfoldable pub mtc_read : ℕ → Action Sent MtcReport
  mtc_read address sent = caught ((do result ← reg_read answer address; pure (shown result)) sent)

  unfoldable pub mtc_write : ℕ → ℕ → Action Sent MtcReport
  mtc_write address data_word sent =
      caught ((reg_write answer address data_word >> pure (finished Bool.false)) sent)
