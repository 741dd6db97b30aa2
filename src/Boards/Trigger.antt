-- ===== src/Boards/Trigger.antt =====
-- What the ends of src/tests/RunPedestals.cpp ask of the MTC.
use penn_daq.Prelude.{ℕ, Option, Action, ◌>>◌}
use penn_daq.Mtc.Packet.{Sent}
use penn_daq.Mtc.Widths.{
  disable_pulser, disable_pedestal, unset_ped_crate_mask, unset_gt_crate_mask,
}
use penn_daq.Mtc.Delays.{maskall}

module _ (answer : Sent → Option ℕ) where
  -- All crates are removed from both masks.
  unfoldable pub unmask_crates : Action Sent Unit
  unmask_crates = unset_ped_crate_mask answer maskall >> unset_gt_crate_mask answer maskall

  unfoldable pub stop_mtc : Action Sent Unit
  stop_mtc = disable_pulser answer >> (disable_pedestal answer >> unmask_crates)
