-- ===== src/Boards/Pedestals.antt =====
-- src/tests/RunPedestals.cpp, which works on many crates and on the MTC. The texts that it prints of
-- its settings and its progress are left out.
use Prim.Native.String.{String}
use penn_daq.Prelude.{
  ℕ, ◌+◌, ◌*◌, ◌%◌, ◌^◌, List, [], ◌∷◌, Bool, true, false, Option, none, some, get_elem?, set,
  bit_or, ◌==◌, if◌then◌else◌, Result, Action,
}
use penn_daq.Controller.Commands.{fec_sel, write_reg}
use penn_daq.Mtc.Packet.{Sent}
use penn_daq.Mtc.Serial.{Frequency}
use penn_daq.Mtc.Delays.{Delays, setup_pedestals}
use penn_daq.Xl3.Packet.{Packet}
use penn_daq.Xl3.Task.{Outcome, Task, returned, thrown, lost, ◌>>=◌, ◌>>◌, pure, lift}
use penn_daq.Xl3.Model.{Xl3Model}
use penn_daq.Xl3.Crate.{
  general_csr_r, rw_reg, deselect_fecs, change_mode, load_crate_addr, set_crate_pedestals,
}
use penn_daq.Xl3.Cmds.{init_mode, normal_mode}
use penn_daq.Boards.Registers.{slots_from, slots_of}
use penn_daq.Boards.Trigger.{unmask_crates, stop_mtc}

abbrev pub cmos_chip_disable_r : ℕ
cmos_chip_disable_r = 0x90

abbrev pub msk_tub : ℕ
msk_tub = 0x00100000

-- `xl3s` and what was sent to `mtc`.
pub record Detector : Type 0 where
  pub xl3s : List Xl3Model
  pub mtc : Sent

-- A method of `xl3s[i]`, whose state afterwards takes the place of the one before.
abbrev pub put_back : {A : Type 0} → Detector → ℕ → Outcome Xl3Model A → Outcome Detector A
put_back d i (returned a x) = returned a (record d { xl3s = set d.xl3s i x })
put_back d i (thrown e x) = thrown e (record d { xl3s = set d.xl3s i x })
put_back d i lost = lost

abbrev pub on_found :
    {A : Type 0} → Detector → ℕ → Task Xl3Model A → Option Xl3Model → Outcome Detector A
on_found d i m (some x) = put_back d i (m x)
on_found d i m none = lost

abbrev pub on_crate : {A : Type 0} → ℕ → Task Xl3Model A → Task Detector A
on_crate i m d = on_found d i m (get_elem? d.xl3s i)

-- A method of `mtc`.
abbrev pub put_mtc : {A : Type 0} → Detector → Result A × Sent → Outcome Detector A
put_mtc d (Result.returned a, sent) = returned a (record d { mtc = sent })
put_mtc d (Result.thrown e, sent) = thrown e (record d { mtc = sent })

abbrev pub on_mtc : {A : Type 0} → Action Sent A → Task Detector A
on_mtc m d = put_mtc d (m d.mtc)

-- The ends of a run: at the end of the function, at a `return -1`, or by an exception that is printed.
pub data PedestalRun : Type 0 where
  done : PedestalRun
  given_up : PedestalRun
  interrupted : String → PedestalRun

abbrev pub caught_run : Outcome Detector PedestalRun → Outcome Detector PedestalRun
caught_run (returned r d) = returned r d
caught_run (thrown e d) = returned (interrupted e) d
caught_run lost = lost

abbrev pub showing : Task Detector PedestalRun → Task Detector PedestalRun
showing m d = caught_run (m d)

-- `MAX_XL3_CON`
abbrev pub crates_of : ℕ → List ℕ
crates_of mask = slots_from 20 0 mask

module _ (need_to_swap : Bool) (stack : Packet) where
  unfoldable pub reset_fecs : List ℕ → Task Xl3Model Unit
  reset_fecs [] = pure tt
  reset_fecs (slot ∷ slots) = do
    rw_reg need_to_swap stack (cmos_chip_disable_r + fec_sel * slot + write_reg) 0xFFFFFFFF
    rw_reg need_to_swap stack (general_csr_r + fec_sel * slot + write_reg) 0x2
    rw_reg need_to_swap stack (general_csr_r + fec_sel * slot + write_reg) 0x0
    rw_reg need_to_swap stack (cmos_chip_disable_r + fec_sel * slot + write_reg) 0x0
    reset_fecs slots

  -- One crate; the result is `errors`.
  unfoldable pub prepare_crate : ℕ → ℕ → Task Xl3Model ℕ
  prepare_crate slot_mask channel_mask = do
    change_mode need_to_swap stack init_mode 0x0
    reset_fecs (slots_of slot_mask)
    deselect_fecs need_to_swap stack
    loaded ← load_crate_addr need_to_swap stack slot_mask
    set_up ← set_crate_pedestals need_to_swap stack slot_mask channel_mask
    deselect_fecs need_to_swap stack
    pure ((loaded + set_up) % 2 ^ 32)

  -- The loop over crates, which ends with true at the first that has errors.
  unfoldable pub prepare_crates : List ℕ → List ℕ → ℕ → Task Detector Bool
  prepare_crates [] slot_masks channel_mask = pure false
  prepare_crates (i ∷ is) slot_masks channel_mask = do
    slot_mask ← lift (get_elem? slot_masks i)
    errors ← on_crate i (prepare_crate slot_mask channel_mask)
    elim (errors == 0) [ true ↦ prepare_crates is slot_masks channel_mask | false ↦ pure true ]

  unfoldable pub read_crates : List ℕ → List ℕ → Task Detector Unit
  read_crates [] slot_masks = pure tt
  read_crates (i ∷ is) slot_masks = do
    slot_mask ← lift (get_elem? slot_masks i)
    on_crate i (change_mode need_to_swap stack normal_mode slot_mask)
    read_crates is slot_masks

  unfoldable pub stop_crates : List ℕ → Task Detector Unit
  stop_crates [] = pure tt
  stop_crates (i ∷ is) = do
    on_crate i (change_mode need_to_swap stack init_mode 0x0)
    on_crate i (set_crate_pedestals need_to_swap stack 0xFFFF 0x0)
    stop_crates is

  module _ {F : Type 0} (answer : Sent → Option ℕ) (floats : Delays F) (freqs : Frequency F) where
    -- The part behind the crates.
    abbrev pub start_readout : ℕ → List ℕ → Bool → Task Detector PedestalRun
    start_readout crate_mask slot_masks setup_crates =
        (if setup_crates then read_crates (crates_of crate_mask) slot_masks else pure tt)
        >> pure done

    -- `errors` of `SetupPedestals`.
    abbrev pub with_errors : ℕ → List ℕ → Bool → ℕ → Task Detector PedestalRun
    with_errors crate_mask slot_masks setup_crates errors =
        if errors == 0
        then start_readout crate_mask slot_masks setup_crates
        else on_mtc (unmask_crates answer) >> pure given_up

    abbrev pub run_from :
        Bool → ℕ → List ℕ → F → ℕ → ℕ → Bool → Bool → Bool → Task Detector PedestalRun
    run_from at_penn crate_mask slot_masks frequency gt_delay ped_width setup_crates setup_mtc
          failed =
        if failed
        then pure given_up
        else if setup_mtc
        then on_mtc (
            setup_pedestals answer floats freqs at_penn frequency ped_width gt_delay 0
              (bit_or crate_mask msk_tub) (bit_or crate_mask msk_tub))
          >>= with_errors crate_mask slot_masks setup_crates
        else start_readout crate_mask slot_masks setup_crates

    unfoldable pub run_pedestals :
        Bool → ℕ → List ℕ → ℕ → F → ℕ → ℕ → Bool → Bool → Task Detector PedestalRun
    run_pedestals at_penn crate_mask slot_masks channel_mask frequency gt_delay ped_width
          setup_crates setup_mtc =
        showing (
          (if setup_crates
            then prepare_crates (crates_of crate_mask) slot_masks channel_mask
            else pure false)
          >>= run_from at_penn crate_mask slot_masks frequency gt_delay ped_width setup_crates
              setup_mtc)

  unfoldable pub run_pedestals_end : (Sent → Option ℕ) → ℕ → Bool → Bool → Task Detector PedestalRun
  run_pedestals_end answer crate_mask setup_crates setup_mtc = showing (do
    if setup_crates then stop_crates (crates_of crate_mask) else pure tt
    if setup_mtc then on_mtc (stop_mtc answer) else pure tt
    pure done)
