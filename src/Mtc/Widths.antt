-- ===== src/Mtc/Widths.antt =====
-- The settings of the MTC that are one register and a pulse of a load bit: `SetLockoutWidth`,
-- `SetPrescale`, `SetPedestalWidth`, `SetCoarseDelay`, with the masks, the enable bits and
-- the soft triggers, all of
-- src/mtc/MTCModel.cpp. A function that returns an `int` gives its pattern of 32 bits.
use penn_daq.Prelude.{
  ℕ, ◌-◌, ◌/◌, Bool, Option, some, ltb, ◌||◌, if◌then◌else◌, bit_and, bit_or, not32, clear_bits,
  Action, pure, ◌>>=◌, ◌>>◌,
}
use penn_daq.Mtc.Packet.{vme_packet, send_command, Sent, reg_write, reg_read}

-- The return value -1.
abbrev pub failure : ℕ
failure = 0xFFFFFFFF

abbrev pub control_reg : ℕ
control_reg = 0x0

abbrev pub ped_width_reg : ℕ
ped_width_reg = 0x10

abbrev pub coarse_delay_reg : ℕ
coarse_delay_reg = 0x14

abbrev pub pmsk_reg : ℕ
pmsk_reg = 0x20

abbrev pub scale_reg : ℕ
scale_reg = 0x24

abbrev pub bba_reg : ℕ
bba_reg = 0x2C

abbrev pub gt_lock_reg : ℕ
gt_lock_reg = 0x30

abbrev pub mask_reg : ℕ
mask_reg = 0x34

abbrev pub gmsk_reg : ℕ
gmsk_reg = 0x3C

abbrev pub oc_gt_reg : ℕ
oc_gt_reg = 0x80

abbrev pub soft_gt_reg : ℕ
soft_gt_reg = 0xC

abbrev pub ped_en : ℕ
ped_en = 0x1

abbrev pub pulse_en : ℕ
pulse_en = 0x2

abbrev pub load_enpr : ℕ
load_enpr = 0x4

abbrev pub load_enpw : ℕ
load_enpw = 0x10

abbrev pub load_enlk : ℕ
load_enlk = 0x20

abbrev pub fifo_reset : ℕ
fifo_reset = 0x10000

module _ (answer : Sent → Option ℕ) where
  -- `RegRead(reg, &temp); RegWrite(reg, temp | bits);` and the same with `temp & ~bits`.
  unfoldable pub set_bits : ℕ → ℕ → Action Sent Unit
  set_bits reg bits = do temp ← reg_read answer reg; reg_write answer reg (bit_or temp bits)

  unfoldable pub reset_bits : ℕ → ℕ → Action Sent Unit
  reset_bits reg bits = do temp ← reg_read answer reg; reg_write answer reg (clear_bits temp bits)

  -- A register is written, and a load bit of the control register is set and reset.
  unfoldable pub write_and_load : ℕ → ℕ → ℕ → Action Sent ℕ
  write_and_load reg value load = do
    reg_write answer reg value
    set_bits control_reg load
    reset_bits control_reg load
    pure 0

  unfoldable pub set_lockout_width : ℕ → Action Sent ℕ
  set_lockout_width width =
      if ltb width 20 || ltb 5100 width
      then pure failure
      else write_and_load gt_lock_reg (not32 (width / 20)) load_enlk

  unfoldable pub set_prescale : ℕ → Action Sent ℕ
  set_prescale scale =
      if ltb scale 2 then pure failure else write_and_load scale_reg (not32 (scale - 1)) load_enpr

  unfoldable pub set_pedestal_width : ℕ → Action Sent ℕ
  set_pedestal_width width =
      if ltb width 5 || ltb 1275 width
      then pure failure
      else write_and_load ped_width_reg (not32 (width / 5)) load_enpw

  unfoldable pub set_coarse_delay : ℕ → Action Sent ℕ
  set_coarse_delay delay =
      if ltb delay 10 || ltb 2550 delay
      then pure failure
      else write_and_load coarse_delay_reg (not32 (delay / 10)) load_enpw

  unfoldable pub enable_pulser : Action Sent Unit
  enable_pulser = set_bits control_reg pulse_en

  unfoldable pub disable_pulser : Action Sent Unit
  disable_pulser = reset_bits control_reg pulse_en

  unfoldable pub enable_pedestal : Action Sent Unit
  enable_pedestal = set_bits control_reg ped_en

  unfoldable pub disable_pedestal : Action Sent Unit
  disable_pedestal = reset_bits control_reg ped_en

  unfoldable pub unset_gt_mask : ℕ → Action Sent Unit
  unset_gt_mask raw_trig_types = reset_bits mask_reg raw_trig_types

  unfoldable pub set_gt_mask : ℕ → Action Sent Unit
  set_gt_mask raw_trig_types = set_bits mask_reg raw_trig_types

  unfoldable pub unset_ped_crate_mask : ℕ → Action Sent Unit
  unset_ped_crate_mask crates = reset_bits pmsk_reg crates

  unfoldable pub unset_gt_crate_mask : ℕ → Action Sent Unit
  unset_gt_crate_mask crates = reset_bits gmsk_reg crates

  -- At the test stand at Penn every crate is set: `CURRENT_LOCATION` of the configuration.
  unfoldable pub set_ped_crate_mask : Bool → ℕ → Action Sent Unit
  set_ped_crate_mask at_penn crates = set_bits pmsk_reg (if at_penn then 0xFFFFFFFF else crates)

  unfoldable pub set_gt_crate_mask : Bool → ℕ → Action Sent Unit
  set_gt_crate_mask at_penn crates = set_bits gmsk_reg (if at_penn then 0xFFFFFFFF else crates)

  unfoldable pub get_gt_count : Action Sent ℕ
  get_gt_count = do count ← reg_read answer oc_gt_reg; pure (bit_and count 0x00FFFFFFF)

  unfoldable pub reset_memory : Action Sent Unit
  reset_memory = do
    set_bits control_reg fifo_reset
    reset_bits control_reg fifo_reset
    reg_write answer bba_reg 0x0

  unfoldable pub soft_gt : Action Sent ℕ
  soft_gt = do reg_write answer soft_gt_reg 0x0; pure 0

  unfoldable pub multi_soft_gt : ℕ → Action Sent ℕ
  multi_soft_gt number = do
    send_command answer (vme_packet 0x3 0x5 soft_gt_reg number (some 0x0))
    pure 0
