-- ===== src/Controller/Release/Runs.antt =====
-- The branches from `board_id` on give back their locks.
use penn_daq.Prelude.{ℕ, ◌≡◌, refl, List, true, arith}
use penn_daq.Locks.{Connections}
use penn_daq.Locks.Sessions.{SameLocks}
use penn_daq.Args.{Conversions}
use penn_daq.Controller.{
  checks_branches, timing_branches, scans_branches, series_branches, daemon_branches,
}
use penn_daq.Controller.Commands.{Call}
use penn_daq.Controller.Guard.{
  unless_help-Restores, with_array-Restores, guarded-Restores, on_boards,
}
use penn_daq.Controller.Checks.{
  do_board_id, do_cald_test, do_cgt_test, do_orphan_test, do_chinj_scan, do_crate_cbal,
  do_disc_check, do_fec_test, do_fifo_test,
}
use penn_daq.Controller.Timing.{
  do_gtvalid_test, do_measure_gtvalids, do_mb_stability_test, do_mem_test, do_ped_run,
  do_all_ped_by_channel, do_ped_by_channel,
}
use penn_daq.Controller.Scans.{
  do_see_refl, do_esum_see_refl, do_trigger_scan, do_get_ttot, do_set_ttot, do_vmon, do_local_vmon,
  do_zdisc,
}
use penn_daq.Controller.Series.{
  do_run_pedestals_end, do_run_pedestals, do_final_test, do_ecal, do_create_fec_docs, do_find_noise,
  do_dac_sweep,
}
use penn_daq.Controller.Daemon.{
  do_check_recv_queues, do_run_macro, do_reset_speed, do_help, do_clear_screen, do_start_logging,
  do_stop_logging, do_print_connected, do_set_ecal_bit,
}
use penn_daq.Controller.Release.{one_if_le, AllRestoring, none_left, ◌⊕◌}

module _ {F : Type 0} (lib : Conversions F) (perform : List (Call F) → Connections → Connections)
    (keeps : (calls : List (Call F)) (c : Connections)
      → on_boards calls ≡ true
      → SameLocks c (perform calls c))
    (default_sshkey : List ℕ) where
  pub checks_restoring : AllRestoring (checks_branches lib perform default_sshkey)
  unfolding do_board_id do_cald_test do_cgt_test do_orphan_test do_chinj_scan do_crate_cbal
      do_disc_check do_fec_test do_fifo_test
  checks_restoring =
      (λ input e o.
        (unless_help-Restores input (guarded-Restores perform keeps _ _ _ refl (omega arith))))
      ⊕ (λ input e o.
          (unless_help-Restores input (guarded-Restores perform keeps _ _ _ refl (omega arith))))
      ⊕ (λ input e o.
          (unless_help-Restores input (guarded-Restores perform keeps _ _ _ refl (omega arith))))
      ⊕ (λ input e o.
          (unless_help-Restores input (guarded-Restores perform keeps _ _ _ refl (omega arith))))
      ⊕ (λ input e o.
          (unless_help-Restores input (guarded-Restores perform keeps _ _ _ refl (omega arith))))
      ⊕ (λ input e o.
          (unless_help-Restores input (guarded-Restores perform keeps _ _ _ refl (omega arith))))
      ⊕ (λ input e o.
          (unless_help-Restores input (guarded-Restores perform keeps _ _ _ refl (omega arith))))
      ⊕ (λ input e o.
          (unless_help-Restores input (guarded-Restores perform keeps _ _ _ refl (omega arith))))
      ⊕ (λ input e o.
          (unless_help-Restores input (guarded-Restores perform keeps _ _ _ refl (omega arith))))
      ⊕ none_left

  pub timing_restoring : AllRestoring (timing_branches lib perform default_sshkey)
  unfolding do_gtvalid_test do_measure_gtvalids do_mb_stability_test do_mem_test do_ped_run
      do_all_ped_by_channel do_ped_by_channel
  timing_restoring =
      (λ input e o.
        (unless_help-Restores input
          (with_array-Restores _ λ a. (guarded-Restores perform keeps _ _ _ refl (omega arith)))))
      ⊕ (λ input e o.
          (unless_help-Restores input (guarded-Restores perform keeps _ _ _ refl (omega arith))))
      ⊕ (λ input e o.
          (unless_help-Restores input (guarded-Restores perform keeps _ _ _ refl (omega arith))))
      ⊕ (λ input e o.
          (unless_help-Restores input (guarded-Restores perform keeps _ _ _ refl (omega arith))))
      ⊕ (λ input e o.
          (unless_help-Restores input (guarded-Restores perform keeps _ _ _ refl (omega arith))))
      ⊕ (λ input e o.
          (unless_help-Restores input (guarded-Restores perform keeps _ _ _ refl (omega arith))))
      ⊕ (λ input e o.
          (unless_help-Restores input (guarded-Restores perform keeps _ _ _ refl (omega arith))))
      ⊕ none_left

  pub scans_restoring : AllRestoring (scans_branches lib perform default_sshkey)
  unfolding do_see_refl do_esum_see_refl do_trigger_scan do_get_ttot do_set_ttot do_vmon
      do_local_vmon do_zdisc
  scans_restoring =
      (λ input e o.
        (unless_help-Restores input (guarded-Restores perform keeps _ _ _ refl (omega arith))))
      ⊕ (λ input e o.
          (unless_help-Restores input (guarded-Restores perform keeps _ _ _ refl (omega arith))))
      ⊕ (λ input e o.
          (unless_help-Restores input
            (with_array-Restores _ λ a. (guarded-Restores perform keeps _ _ _ refl (omega arith)))))
      ⊕ (λ input e o.
          (unless_help-Restores input (guarded-Restores perform keeps _ _ _ refl (omega arith))))
      ⊕ (λ input e o.
          (unless_help-Restores input (guarded-Restores perform keeps _ _ _ refl (omega arith))))
      ⊕ (λ input e o.
          (unless_help-Restores input (guarded-Restores perform keeps _ _ _ refl (omega arith))))
      ⊕ (λ input e o.
          (unless_help-Restores input (guarded-Restores perform keeps _ _ _ refl (omega arith))))
      ⊕ (λ input e o.
          (unless_help-Restores input (guarded-Restores perform keeps _ _ _ refl (omega arith))))
      ⊕ none_left

  pub series_restoring : AllRestoring (series_branches lib perform default_sshkey)
  unfolding do_run_pedestals_end do_run_pedestals do_final_test do_ecal do_create_fec_docs
      do_find_noise do_dac_sweep
  series_restoring =
      (λ input e o.
        (unless_help-Restores input (guarded-Restores perform keeps _ _ _ refl (one_if_le _))))
      ⊕ (λ input e o.
          (unless_help-Restores input
            (with_array-Restores _ λ a. (guarded-Restores perform keeps _ _ _ refl (one_if_le _)))))
      ⊕ (λ input e o.
          (unless_help-Restores input (guarded-Restores perform keeps _ _ _ refl (omega arith))))
      ⊕ (λ input e o.
          (unless_help-Restores input (guarded-Restores perform keeps _ _ _ refl (omega arith))))
      ⊕ (λ input e o. cc)
      ⊕ (λ input e o.
          (unless_help-Restores input
            (with_array-Restores _ λ a. (guarded-Restores perform keeps _ _ _ refl (omega arith)))))
      ⊕ (λ input e o.
          (unless_help-Restores input (guarded-Restores perform keeps _ _ _ refl (omega arith))))
      ⊕ none_left

  pub daemon_restoring : AllRestoring (daemon_branches lib perform default_sshkey)
  unfolding do_check_recv_queues do_run_macro do_reset_speed do_help do_clear_screen
      do_start_logging do_stop_logging do_print_connected do_set_ecal_bit
  daemon_restoring =
      (λ input e o. cc)
      ⊕ (λ input e o. cc)
      ⊕ (λ input e o. cc)
      ⊕ (λ input e o. cc)
      ⊕ (λ input e o. cc)
      ⊕ (λ input e o. cc)
      ⊕ (λ input e o. cc)
      ⊕ (λ input e o. cc)
      ⊕ (λ input e o. cc)
      ⊕ none_left
