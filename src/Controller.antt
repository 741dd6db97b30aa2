-- ===== src/Controller.antt =====
-- The commands of the controller, src/cont/ControllerLink.cpp `ProcessCommand`. Its chain of tests
-- on the line is the list of its branches, in order; each branch is a function of the line that takes
-- the connections to an outcome and the connections after it. The functions that a branch calls (the
-- tests and the models of the boards) are the constructors of `Call`; what they do to the
-- connections is the parameter `perform`. An exception out of a call is not modelled.
pub mod Commands
pub mod Crate
pub mod Card
pub mod Trigger
pub mod Masks
pub mod Checks
pub mod Timing
pub mod Scans
pub mod Series
pub mod Daemon
pub mod Guard
pub mod Release
pub mod Dispatch
pub mod Queues
pub mod Range
pub mod Turns
mod Tests
use Prim.Native.String.{String}
use penn_daq.Prelude.{ℕ, List, [], ◌∷◌, ◌++◌, Bool, codes, strncmp_eq, if◌then◌else◌}
use penn_daq.Locks.{Connections}
use penn_daq.Args.{Conversions}
use penn_daq.Controller.Commands.{Call, Handler, unknown}
use penn_daq.Controller.Crate.{
  do_exit, do_xl3_rw, do_crate_init, do_xr, do_xw, do_xl3_queue_rw, do_sm_reset, do_debugging_on,
  do_debugging_off, do_change_mode, do_set_relays, do_get_relays, do_check_xl3_status,
  do_read_local_voltage, do_hv_readback, do_set_alarm_level, do_set_alarm_dac,
}
use penn_daq.Controller.Card.{
  do_fr, do_fw, do_load_relays, do_read_bundle, do_setup_chinj, do_load_dac,
}
use penn_daq.Controller.Trigger.{
  do_sbc_control, do_mtc_init, do_mr, do_mw, do_mtc_read, do_mtc_write, do_mtc_delay,
  do_set_mtca_thresholds,
}
use penn_daq.Controller.Masks.{
  do_set_gt_mask, do_set_gt_crate_mask, do_set_ped_crate_mask, do_enable_pulser, do_disable_pulser,
  do_enable_pedestal, do_disable_pedestal, do_set_pulser_freq, do_send_softgt, do_multi_softgt,
}
use penn_daq.Controller.Checks.{
  do_board_id, do_cald_test, do_cgt_test, do_orphan_test, do_chinj_scan, do_crate_cbal,
  do_disc_check, do_fec_test, do_fifo_test,
}
use penn_daq.Controller.Timing.{
  do_gtvalid_test, do_measure_gtvalids, do_mb_stability_test, do_mem_test, do_ped_run,
  do_all_ped_by_channel, do_ped_by_channel,
}
use penn_daq.Controller.Scans.{
  do_see_refl, do_esum_see_refl, do_trigger_scan, do_get_ttot, do_set_ttot, do_vmon, do_local_vmon,
  do_zdisc,
}
use penn_daq.Controller.Series.{
  do_run_pedestals_end, do_run_pedestals, do_final_test, do_ecal, do_create_fec_docs, do_find_noise,
  do_dac_sweep,
}
use penn_daq.Controller.Daemon.{
  do_check_recv_queues, do_run_macro, do_reset_speed, do_help, do_clear_screen, do_start_logging,
  do_stop_logging, do_print_connected, do_set_ecal_bit,
}

-- `strncmp(input, name, name_len) == 0`, and the branch it leads to.
pub record Branch (F : Type 0) : Type 0 where
  pub name_len : ℕ
  pub name : List ℕ
  pub run : List ℕ → Handler F

module _ {F : Type 0} where
  abbrev pub branch : ℕ → String → (List ℕ → Handler F) → Branch F
  branch name_len name run = record { name_len = name_len; name = codes name; run = run }

  abbrev pub is_for : List ℕ → Branch F → Bool
  is_for input b = strncmp_eq b.name_len input b.name

  -- The chain of `else if`.
  pub dispatch : List (Branch F) → List ℕ → Handler F
  dispatch [] input c = (unknown, c)
  dispatch (b ∷ bs) input c =
      let rest = dispatch bs input c in if is_for input b then b.run input c else rest

module _ {F : Type 0} (lib : Conversions F) (perform : List (Call F) → Connections → Connections)
    (default_sshkey : List ℕ) where
  abbrev pub crate_branches : List (Branch F)
  crate_branches =
      (branch 4 "exit" (do_exit lib perform))
      ∷ (branch 6 "xl3_rw" (do_xl3_rw lib perform))
      ∷ (branch 10 "crate_init" (do_crate_init lib perform))
      ∷ (branch 2 "xr" (do_xr lib perform))
      ∷ (branch 2 "xw" (do_xw lib perform))
      ∷ (branch 12 "xl3_queue_rw" (do_xl3_queue_rw lib perform))
      ∷ (branch 8 "sm_reset" (do_sm_reset lib perform))
      ∷ (branch 12 "debugging_on" (do_debugging_on lib perform))
      ∷ (branch 13 "debugging_off" (do_debugging_off lib perform))
      ∷ (branch 11 "change_mode" (do_change_mode lib perform))
      ∷ (branch 10 "set_relays" (do_set_relays lib perform))
      ∷ (branch 10 "get_relays" (do_get_relays lib perform))
      ∷ (branch 16 "check_xl3_status" (do_check_xl3_status lib perform))
      ∷ (branch 18 "read_local_voltage" (do_read_local_voltage lib perform))
      ∷ (branch 11 "hv_readback" (do_hv_readback lib perform))
      ∷ (branch 15 "set_alarm_level" (do_set_alarm_level lib perform))
      ∷ (branch 13 "set_alarm_dac" (do_set_alarm_dac lib perform))
      ∷ []

  abbrev pub card_branches : List (Branch F)
  card_branches =
      (branch 2 "fr" (do_fr lib perform))
      ∷ (branch 2 "fw" (do_fw lib perform))
      ∷ (branch 11 "load_relays" (do_load_relays lib perform))
      ∷ (branch 11 "read_bundle" (do_read_bundle lib perform))
      ∷ (branch 11 "setup_chinj" (do_setup_chinj lib perform))
      ∷ (branch 8 "load_dac" (do_load_dac lib perform))
      ∷ []

  abbrev pub trigger_branches : List (Branch F)
  trigger_branches =
      (branch 11 "sbc_control" (do_sbc_control lib perform default_sshkey))
      ∷ (branch 8 "mtc_init" (do_mtc_init lib perform))
      ∷ (branch 2 "mr" (do_mr lib perform))
      ∷ (branch 2 "mw" (do_mw lib perform))
      ∷ (branch 8 "mtc_read" (do_mtc_read lib perform))
      ∷ (branch 9 "mtc_write" (do_mtc_write lib perform))
      ∷ (branch 9 "mtc_delay" (do_mtc_delay lib perform))
      ∷ (branch 19 "set_mtca_thresholds" (do_set_mtca_thresholds lib perform))
      ∷ []

  abbrev pub masks_branches : List (Branch F)
  masks_branches =
      (branch 11 "set_gt_mask" (do_set_gt_mask lib perform))
      ∷ (branch 17 "set_gt_crate_mask" (do_set_gt_crate_mask lib perform))
      ∷ (branch 18 "set_ped_crate_mask" (do_set_ped_crate_mask lib perform))
      ∷ (branch 13 "enable_pulser" (do_enable_pulser lib perform))
      ∷ (branch 14 "disable_pulser" (do_disable_pulser lib perform))
      ∷ (branch 15 "enable_pedestal" (do_enable_pedestal lib perform))
      ∷ (branch 16 "disable_pedestal" (do_disable_pedestal lib perform))
      ∷ (branch 15 "set_pulser_freq" (do_set_pulser_freq lib perform))
      ∷ (branch 11 "send_softgt" (do_send_softgt lib perform))
      ∷ (branch 12 "multi_softgt" (do_multi_softgt lib perform))
      ∷ []

  abbrev pub checks_branches : List (Branch F)
  checks_branches =
      (branch 8 "board_id" (do_board_id lib perform))
      ∷ (branch 9 "cald_test" (do_cald_test lib perform))
      ∷ (branch 8 "cgt_test" (do_cgt_test lib perform))
      ∷ (branch 11 "orphan_test" (do_orphan_test lib perform))
      ∷ (branch 10 "chinj_scan" (do_chinj_scan lib perform))
      ∷ (branch 10 "crate_cbal" (do_crate_cbal lib perform))
      ∷ (branch 10 "disc_check" (do_disc_check lib perform))
      ∷ (branch 8 "fec_test" (do_fec_test lib perform))
      ∷ (branch 9 "fifo_test" (do_fifo_test lib perform))
      ∷ []

  abbrev pub timing_branches : List (Branch F)
  timing_branches =
      (branch 12 "gtvalid_test" (do_gtvalid_test lib perform))
      ∷ (branch 16 "measure_gtvalids" (do_measure_gtvalids lib perform))
      ∷ (branch 17 "mb_stability_test" (do_mb_stability_test lib perform))
      ∷ (branch 8 "mem_test" (do_mem_test lib perform))
      ∷ (branch 7 "ped_run" (do_ped_run lib perform))
      ∷ (branch 18 "all_ped_by_channel" (do_all_ped_by_channel lib perform))
      ∷ (branch 14 "ped_by_channel" (do_ped_by_channel lib perform))
      ∷ []

  abbrev pub scans_branches : List (Branch F)
  scans_branches =
      (branch 8 "see_refl" (do_see_refl lib perform))
      ∷ (branch 13 "esum_see_refl" (do_esum_see_refl lib perform))
      ∷ (branch 12 "trigger_scan" (do_trigger_scan lib perform))
      ∷ (branch 8 "get_ttot" (do_get_ttot lib perform))
      ∷ (branch 8 "set_ttot" (do_set_ttot lib perform))
      ∷ (branch 4 "vmon" (do_vmon lib perform))
      ∷ (branch 10 "local_vmon" (do_local_vmon lib perform))
      ∷ (branch 5 "zdisc" (do_zdisc lib perform))
      ∷ []

  abbrev pub series_branches : List (Branch F)
  series_branches =
      (branch 17 "run_pedestals_end" (do_run_pedestals_end lib perform))
      ∷ (branch 13 "run_pedestals" (do_run_pedestals lib perform))
      ∷ (branch 10 "final_test" (do_final_test lib perform))
      ∷ (branch 4 "ecal" (do_ecal lib perform))
      ∷ (branch 14 "create_fec_docs" (do_create_fec_docs lib perform))
      ∷ (branch 10 "find_noise" (do_find_noise lib perform))
      ∷ (branch 9 "dac_sweep" (do_dac_sweep lib perform))
      ∷ []

  abbrev pub daemon_branches : List (Branch F)
  daemon_branches =
      (branch 17 "check_recv_queues" (do_check_recv_queues lib perform))
      ∷ (branch 9 "run_macro" (do_run_macro lib perform))
      ∷ (branch 11 "reset_speed" (do_reset_speed lib perform))
      ∷ (branch 4 "help" (do_help lib perform))
      ∷ (branch 12 "clear_screen" (do_clear_screen lib perform))
      ∷ (branch 13 "start_logging" (do_start_logging lib perform))
      ∷ (branch 12 "stop_logging" (do_stop_logging lib perform))
      ∷ (branch 15 "print_connected" (do_print_connected lib perform))
      ∷ (branch 12 "set_ecal_bit" (do_set_ecal_bit lib perform))
      ∷ []

  unfoldable pub branches : List (Branch F)
  branches =
      crate_branches ++ card_branches ++ trigger_branches ++ masks_branches ++ checks_branches
      ++ timing_branches ++ scans_branches ++ series_branches ++ daemon_branches

  unfoldable pub process_command : List ℕ → Handler F
  unfolding branches dispatch
  process_command input = dispatch branches input
