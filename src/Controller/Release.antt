-- ===== src/Controller/Release.antt =====
-- Lists of branches that give back the locks that they take.
pub mod Boards
pub mod Runs
pub mod Line
use penn_daq.Prelude.{
  ℕ, ◌≤◌, ◌≡◌, refl, List, [], ◌∷◌, ◌++◌, Bool, true, false, if◌then◌else◌, arith, All, codes,
  strncmp_eq, ◌≢◌,
}
use penn_daq.Locks.{Connections}
use penn_daq.Locks.Sessions.{SameLocks}
use penn_daq.Args.{Conversions}
use penn_daq.Controller.{
  Branch, is_for, dispatch, branches, process_command, crate_branches, card_branches,
  trigger_branches, masks_branches, checks_branches, timing_branches, scans_branches,
  series_branches, daemon_branches,
}
use penn_daq.Controller.Commands.{Call, Handler, fault, one_if}
use penn_daq.Controller.Guard.{
  Restores, SameLocks-refl, unless_help-Restores, with_array-Restores, guarded-Restores,
}
use penn_daq.Controller.Crate.{
  do_exit, do_xl3_rw, do_crate_init, do_xr, do_xw, do_xl3_queue_rw, do_sm_reset, do_debugging_on,
  do_debugging_off, do_change_mode, do_set_relays, do_get_relays, do_check_xl3_status,
  do_read_local_voltage, do_hv_readback, do_set_alarm_level, do_set_alarm_dac,
}
use penn_daq.Controller.Card.{
  do_fr, do_fw, do_load_relays, do_read_bundle, do_setup_chinj, do_load_dac,
}
use penn_daq.Controller.Trigger.{
  do_sbc_control, do_mtc_init, do_mr, do_mw, do_mtc_read, do_mtc_write, do_mtc_delay,
  do_set_mtca_thresholds,
}
use penn_daq.Controller.Masks.{
  do_set_gt_mask, do_set_gt_crate_mask, do_set_ped_crate_mask, do_enable_pulser, do_disable_pulser,
  do_enable_pedestal, do_disable_pedestal, do_set_pulser_freq, do_send_softgt, do_multi_softgt,
}
use penn_daq.Controller.Checks.{
  do_board_id, do_cald_test, do_cgt_test, do_orphan_test, do_chinj_scan, do_crate_cbal,
  do_disc_check, do_fec_test, do_fifo_test,
}
use penn_daq.Controller.Timing.{
  do_gtvalid_test, do_measure_gtvalids, do_mb_stability_test, do_mem_test, do_ped_run,
  do_all_ped_by_channel, do_ped_by_channel,
}
use penn_daq.Controller.Scans.{
  do_see_refl, do_esum_see_refl, do_trigger_scan, do_get_ttot, do_set_ttot, do_vmon, do_local_vmon,
  do_zdisc,
}
use penn_daq.Controller.Series.{
  do_run_pedestals_end, do_run_pedestals, do_final_test, do_ecal, do_create_fec_docs, do_find_noise,
  do_dac_sweep,
}
use penn_daq.Controller.Daemon.{
  do_check_recv_queues, do_run_macro, do_reset_speed, do_help, do_clear_screen, do_start_logging,
  do_stop_logging, do_print_connected, do_set_ecal_bit,
}

-- The names, and how much of them is compared, of the commands that take no locks, and of `sbc_control` and
-- `check_recv_queues`, which lock in ways of their own.
abbrev pub unlocked_names : List (ℕ × List ℕ)
unlocked_names =
    (4, codes "exit")
    ∷ (11, codes "sbc_control")
    ∷ (14, codes "create_fec_docs")
    ∷ (17, codes "check_recv_queues")
    ∷ (9, codes "run_macro")
    ∷ (11, codes "reset_speed")
    ∷ (4, codes "help")
    ∷ (12, codes "clear_screen")
    ∷ (13, codes "start_logging")
    ∷ (12, codes "stop_logging")
    ∷ (15, codes "print_connected")
    ∷ (12, codes "set_ecal_bit")
    ∷ []

-- A line that is for none of them.
abbrev pub IsOrdinary : List ℕ → Type 0
IsOrdinary input = All (λ n. strncmp_eq n.0 input n.1 ≡ false) unlocked_names

pub one_if_le : (b : Bool) → one_if b ≤ 1
one_if_le true = omega arith
one_if_le false = omega arith

module _ {F : Type 0} where
  abbrev pub IsRestoring : Branch F → Type 0
  IsRestoring b =
      (input : List ℕ) → is_for input b ≡ true → IsOrdinary input → Restores (b.run input)

  pub dispatch-Restores :
      (bs : List (Branch F))
      → All IsRestoring bs
      → (input : List ℕ) → IsOrdinary input
      → Restores (dispatch bs input)
  unfolding dispatch
  dispatch-Restores [] all input o = record { restores = λ c ok. SameLocks-refl c }
  dispatch-Restores (b ∷ bs) all input o = record {
    restores = by_test (dispatch-Restores bs all.1 input o) (is_for input b) refl;
  }
    where
      by_test :
          Restores (dispatch bs input)
          → (t : Bool) → is_for input b ≡ t
          → (c : Connections) → (if t then b.run input c else dispatch bs input c).0 ≢ fault
          → SameLocks c (if t then b.run input c else dispatch bs input c).1
      by_test later true e c ok = (all.0 input e o).restores c ok
      by_test later false e c ok = later.restores c ok

  pub record AllRestoring (bs : List (Branch F)) : Type 0 where
    pub all : All IsRestoring bs

  pub none_left : AllRestoring []
  none_left = record { all = tt }

  infixr 20 ◌⊕◌
  pub ◌⊕◌ :
      {b : Branch F} {bs : List (Branch F)}
      → IsRestoring b
      → AllRestoring bs
      → AllRestoring (b ∷ bs)
  p ⊕ ps = record { all = (p, ps.all) }

  pub both : (xs ys : List (Branch F)) → AllRestoring xs → AllRestoring ys → AllRestoring (xs ++ ys)
  both [] ys p q = q
  both (x ∷ xs) ys p q = record { all = (p.all.0, (both xs ys (record { all = p.all.1 }) q).all) }
