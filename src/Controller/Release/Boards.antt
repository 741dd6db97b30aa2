-- ===== src/Controller/Release/Boards.antt =====
-- The branches for the boards, `exit` to `multi_softgt`, give back their locks.
use penn_daq.Prelude.{[], ◌∷◌, ℕ, ◌≡◌, refl, List, true, arith}
use penn_daq.Locks.{Connections}
use penn_daq.Locks.Sessions.{SameLocks}
use penn_daq.Args.{Conversions}
use penn_daq.Controller.{crate_branches, card_branches, trigger_branches, masks_branches}
use penn_daq.Controller.Commands.{
  Call, call_mtc_set_gt_mask, call_mtc_unset_gt_mask, call_mtc_set_gt_crate_mask,
  call_mtc_unset_gt_crate_mask, call_mtc_set_ped_crate_mask, call_mtc_unset_ped_crate_mask,
}
use penn_daq.Controller.Guard.{
  unless_help-Restores, with_array-Restores, guarded-Restores, on_boards, map-AreOnBoards,
  if-AreOnBoards,
}
use penn_daq.Controller.Crate.{
  do_exit, do_xl3_rw, do_crate_init, do_xr, do_xw, do_xl3_queue_rw, do_sm_reset, do_debugging_on,
  do_debugging_off, do_change_mode, do_set_relays, do_get_relays, do_check_xl3_status,
  do_read_local_voltage, do_hv_readback, do_set_alarm_level, do_set_alarm_dac,
}
use penn_daq.Controller.Card.{
  do_fr, do_fw, do_load_relays, do_read_bundle, do_setup_chinj, do_load_dac,
}
use penn_daq.Controller.Trigger.{
  do_sbc_control, do_mtc_init, do_mr, do_mw, do_mtc_read, do_mtc_write, do_mtc_delay,
  do_set_mtca_thresholds,
}
use penn_daq.Controller.Masks.{
  do_set_gt_mask, do_set_gt_crate_mask, do_set_ped_crate_mask, do_enable_pulser, do_disable_pulser,
  do_enable_pedestal, do_disable_pedestal, do_set_pulser_freq, do_send_softgt, do_multi_softgt,
}
use penn_daq.Controller.Release.{AllRestoring, none_left, ◌⊕◌}

module _ {F : Type 0} (lib : Conversions F) (perform : List (Call F) → Connections → Connections)
    (keeps : (calls : List (Call F)) (c : Connections)
      → on_boards calls ≡ true
      → SameLocks c (perform calls c))
    (default_sshkey : List ℕ) where
  pub crate_restoring : AllRestoring (crate_branches lib perform default_sshkey)
  unfolding do_exit do_xl3_rw do_crate_init do_xr do_xw do_xl3_queue_rw do_sm_reset do_debugging_on
      do_debugging_off do_change_mode do_set_relays do_get_relays do_check_xl3_status
      do_read_local_voltage do_hv_readback do_set_alarm_level do_set_alarm_dac
  crate_restoring =
      (λ input e o. cc)
      ⊕ (λ input e o.
          (unless_help-Restores input (guarded-Restores perform keeps _ _ _ refl (omega arith))))
      ⊕ (λ input e o.
          (unless_help-Restores input (guarded-Restores perform keeps _ _ _ refl (omega arith))))
      ⊕ (λ input e o.
          (unless_help-Restores input
            (guarded-Restores perform keeps _ _ _ (map-AreOnBoards _ _ (λ a. refl)) (omega arith))))
      ⊕ (λ input e o.
          (unless_help-Restores input
            (guarded-Restores perform keeps _ _ _ (map-AreOnBoards _ _ (λ a. refl)) (omega arith))))
      ⊕ (λ input e o.
          (unless_help-Restores input (guarded-Restores perform keeps _ _ _ refl (omega arith))))
      ⊕ (λ input e o.
          (unless_help-Restores input (guarded-Restores perform keeps _ _ _ refl (omega arith))))
      ⊕ (λ input e o.
          (unless_help-Restores input (guarded-Restores perform keeps _ _ _ refl (omega arith))))
      ⊕ (λ input e o.
          (unless_help-Restores input (guarded-Restores perform keeps _ _ _ refl (omega arith))))
      ⊕ (λ input e o.
          (unless_help-Restores input (guarded-Restores perform keeps _ _ _ refl (omega arith))))
      ⊕ (λ input e o.
          (unless_help-Restores input (guarded-Restores perform keeps _ _ _ refl (omega arith))))
      ⊕ (λ input e o.
          (unless_help-Restores input (guarded-Restores perform keeps _ _ _ refl (omega arith))))
      ⊕ (λ input e o. (guarded-Restores perform keeps _ _ _ refl (omega arith)))
      ⊕ (λ input e o.
          (unless_help-Restores input (guarded-Restores perform keeps _ _ _ refl (omega arith))))
      ⊕ (λ input e o.
          (unless_help-Restores input (guarded-Restores perform keeps _ _ _ refl (omega arith))))
      ⊕ (λ input e o.
          (unless_help-Restores input (guarded-Restores perform keeps _ _ _ refl (omega arith))))
      ⊕ (λ input e o.
          (unless_help-Restores input (guarded-Restores perform keeps _ _ _ refl (omega arith))))
      ⊕ none_left

  pub card_restoring : AllRestoring (card_branches lib perform default_sshkey)
  unfolding do_fr do_fw do_load_relays do_read_bundle do_setup_chinj do_load_dac
  card_restoring =
      (λ input e o.
        (unless_help-Restores input
          (guarded-Restores perform keeps _ _ _ (map-AreOnBoards _ _ (λ a. refl)) (omega arith))))
      ⊕ (λ input e o.
          (unless_help-Restores input
            (guarded-Restores perform keeps _ _ _ (map-AreOnBoards _ _ (λ a. refl)) (omega arith))))
      ⊕ (λ input e o.
          (unless_help-Restores input
            (with_array-Restores _ λ a. (guarded-Restores perform keeps _ _ _ refl (omega arith)))))
      ⊕ (λ input e o.
          (unless_help-Restores input (guarded-Restores perform keeps _ _ _ refl (omega arith))))
      ⊕ (λ input e o.
          (unless_help-Restores input (guarded-Restores perform keeps _ _ _ refl (omega arith))))
      ⊕ (λ input e o.
          (unless_help-Restores input (guarded-Restores perform keeps _ _ _ refl (omega arith))))
      ⊕ none_left

  pub trigger_restoring : AllRestoring (trigger_branches lib perform default_sshkey)
  unfolding do_sbc_control do_mtc_init do_mr do_mw do_mtc_read do_mtc_write do_mtc_delay
      do_set_mtca_thresholds
  trigger_restoring =
      (λ input e o. cc)
      ⊕ (λ input e o.
          (unless_help-Restores input (guarded-Restores perform keeps _ _ _ refl (omega arith))))
      ⊕ (λ input e o.
          (unless_help-Restores input
            (guarded-Restores perform keeps _ _ _ (map-AreOnBoards _ _ (λ a. refl)) (omega arith))))
      ⊕ (λ input e o.
          (unless_help-Restores input
            (guarded-Restores perform keeps _ _ _ (map-AreOnBoards _ _ (λ a. refl)) (omega arith))))
      ⊕ (λ input e o.
          (unless_help-Restores input (guarded-Restores perform keeps _ _ _ refl (omega arith))))
      ⊕ (λ input e o.
          (unless_help-Restores input (guarded-Restores perform keeps _ _ _ refl (omega arith))))
      ⊕ (λ input e o.
          (unless_help-Restores input (guarded-Restores perform keeps _ _ _ refl (omega arith))))
      ⊕ (λ input e o.
          (unless_help-Restores input
            (with_array-Restores _ λ a. (guarded-Restores perform keeps _ _ _ refl (omega arith)))))
      ⊕ none_left

  pub masks_restoring : AllRestoring (masks_branches lib perform default_sshkey)
  unfolding do_set_gt_mask do_set_gt_crate_mask do_set_ped_crate_mask do_enable_pulser
      do_disable_pulser do_enable_pedestal do_disable_pedestal do_set_pulser_freq do_send_softgt
      do_multi_softgt
  masks_restoring =
      (λ input e o.
        (unless_help-Restores input (
          guarded-Restores perform keeps _ _ _
            (if-AreOnBoards _ (call_mtc_set_gt_mask _ ∷ [])
              (call_mtc_unset_gt_mask _ ∷ call_mtc_set_gt_mask _ ∷ []) refl refl)
            (omega arith))))
      ⊕ (λ input e o.
          (unless_help-Restores input (
            guarded-Restores perform keeps _ _ _
              (if-AreOnBoards _ (call_mtc_set_gt_crate_mask _ ∷ [])
                (call_mtc_unset_gt_crate_mask _ ∷ call_mtc_set_gt_crate_mask _ ∷ []) refl refl)
              (omega arith))))
      ⊕ (λ input e o.
          (unless_help-Restores input (
            guarded-Restores perform keeps _ _ _
              (if-AreOnBoards _ (call_mtc_set_ped_crate_mask _ ∷ [])
                (call_mtc_unset_ped_crate_mask _ ∷ call_mtc_set_ped_crate_mask _ ∷ []) refl refl)
              (omega arith))))
      ⊕ (λ input e o.
          (unless_help-Restores input (guarded-Restores perform keeps _ _ _ refl (omega arith))))
      ⊕ (λ input e o.
          (unless_help-Restores input (guarded-Restores perform keeps _ _ _ refl (omega arith))))
      ⊕ (λ input e o.
          (unless_help-Restores input (guarded-Restores perform keeps _ _ _ refl (omega arith))))
      ⊕ (λ input e o.
          (unless_help-Restores input (guarded-Restores perform keeps _ _ _ refl (omega arith))))
      ⊕ (λ input e o.
          (unless_help-Restores input (guarded-Restores perform keeps _ _ _ refl (omega arith))))
      ⊕ (λ input e o.
          (unless_help-Restores input (guarded-Restores perform keeps _ _ _ refl (omega arith))))
      ⊕ (λ input e o.
          (unless_help-Restores input (guarded-Restores perform keeps _ _ _ refl (omega arith))))
      ⊕ none_left
