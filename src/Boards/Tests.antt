-- ===== src/Boards/Tests.antt =====
-- Witnesses.
use penn_daq.Prelude.{
  ℕ, ◌≡◌, ◌↔◌, List, [], ◌∷◌, ◌++◌, Option, none, some, ◌==◌, if◌then◌else◌, true, false, refl, All,
  arith, length, replicate,
}
use penn_daq.Boards.Registers.{fec_doc}
use penn_daq.Boards.Discriminator.{zdisc_doc}
use penn_daq.Boards.Volts.{vmon_doc, check_volts, is_outside, float_lt}
use penn_daq.Boards.Ranges.{IsPassable, vmon_doc-pass}
use penn_daq.Mtc.Packet.{Sent, mtc_read_id, write_packet}
use penn_daq.Mtc.Widths.{control_reg, pmsk_reg, gmsk_reg}
use penn_daq.Mtc.File.{held, IsRegisterFile}
use penn_daq.Xl3.Cmds.{zero_packet}
use penn_daq.Boards.Pedestals.{Detector, run_pedestals_end}
use penn_daq.Boards.Stopping.{Finished, run_pedestals_end-Finished}
use penn_daq.Boards.Passing.{IsGood, fec_doc-pass, zdisc_doc-pass}

-- The register of the chip disable does not read back in slot 3.
fec_doc-pass_example : ((fec_doc 3 2 0).pass ≡ true) ↔ IsGood (fec_doc 3 2 0)
fec_doc-pass_example = fec_doc-pass 3 2 0 (omega arith)

-- The zero settings of channels 0 to 31 are 100 each.
abbrev rates : List ℕ
rates = 0 ∷ replicate 96 0x42c80000 ++ replicate 32 0x64646464

zdisc_doc-pass_example :
    (length (zdisc_doc 2 0x42c80000 rates).errors ≡ 32)
    × (((zdisc_doc 2 0x42c80000 rates).pass ≡ true)
        ↔ All (λ e. e ≡ false) (zdisc_doc 2 0x42c80000 rates).errors)
zdisc_doc-pass_example = zdisc_doc-pass 2 0x42c80000 rates

-- Every voltage of slot 5 is a NaN, and the card passes.
vmon_doc-pass_example :
    (length (vmon_doc 5 (replicate 21 0x7fc00000)).voltages ≡ 18)
    × (((vmon_doc 5 (replicate 21 0x7fc00000)).pass ≡ true)
        ↔ All IsPassable (vmon_doc 5 (replicate 21 0x7fc00000)).voltages)
vmon_doc-pass_example = vmon_doc-pass 5 (replicate 21 0x7fc00000)

passes_nan : (vmon_doc 5 (replicate 21 0x7fc00000)).pass ≡ true
unfolding vmon_doc check_volts is_outside float_lt
passes_nan = refl

-- One voltage out of its range is enough to fail.
fails_low : (vmon_doc 5 (0xc1e00000 ∷ [])).pass ≡ false
unfolding vmon_doc check_volts is_outside float_lt
fails_low = refl

-- A board that is nothing but its registers, all of them 0 at first.
abbrev blank : ℕ → ℕ
blank a = 0

abbrev mtc_board : Sent → Option ℕ
mtc_board [] = none
mtc_board (p ∷ sent) = if p.cmd_id == mtc_read_id then some (held blank sent p.address) else some 0

mtc_board-IsRegisterFile : IsRegisterFile mtc_board blank
mtc_board-IsRegisterFile = record { reads = λ reg sent. refl; writes = λ reg word sent. (0, refl) }

-- The pulser and the pedestals are on, and crates 2 and 3 in the masks.
abbrev pulsing : Detector
pulsing = record {
  xl3s = [];
  mtc = write_packet gmsk_reg 0xC ∷ write_packet pmsk_reg 0xC ∷ write_packet control_reg 3 ∷ [];
}

run_pedestals_end-Finished_example :
    Finished mtc_board blank mtc_board-IsRegisterFile pulsing
      (run_pedestals_end true zero_packet mtc_board 0xC false true pulsing)
run_pedestals_end-Finished_example =
    run_pedestals_end-Finished mtc_board blank mtc_board-IsRegisterFile true zero_packet 0xC false
      pulsing
