-- ===== src/Controller/Release/Line.antt =====
-- Every command that takes locks, but two, gives back the locks that it takes.
use penn_daq.Prelude.{ℕ, ◌≡◌, List, true, ◌≢◌}
use penn_daq.Controller.Guard.{on_boards}
use penn_daq.Locks.{Connections}
use penn_daq.Locks.Sessions.{SameLocks}
use penn_daq.Args.{Conversions}
use penn_daq.Controller.{branches, process_command}
use penn_daq.Controller.Commands.{Call, fault}
use penn_daq.Controller.Release.{IsOrdinary, both, dispatch-Restores}
use penn_daq.Controller.Release.Boards.{
  crate_restoring, card_restoring, trigger_restoring, masks_restoring,
}
use penn_daq.Controller.Release.Runs.{
  checks_restoring, timing_restoring, scans_restoring, series_restoring, daemon_restoring,
}

module _ {F : Type 0} (lib : Conversions F) (perform : List (Call F) → Connections → Connections)
    (keeps : (calls : List (Call F)) (c : Connections)
      → on_boards calls ≡ true
      → SameLocks c (perform calls c))
    (default_sshkey : List ℕ) where
  -- Whatever line comes in for a command that takes locks, but `sbc_control` and `check_recv_queues`:
  -- the locks after the command are those before it, if the functions that work on boards keep the
  -- locks, and if it does not read or write past an array.
  pub process_command-keeps_locks :
      (input : List ℕ)
      → IsOrdinary input
      → (c : Connections) → (process_command lib perform default_sshkey input c).0 ≢ fault
      → SameLocks c (process_command lib perform default_sshkey input c).1
  unfolding process_command branches
  process_command-keeps_locks input o c ok =
      (dispatch-Restores (branches lib perform default_sshkey)
          ((both _ _ (crate_restoring lib perform keeps default_sshkey) (
            both _ _ (card_restoring lib perform keeps default_sshkey) (
              both _ _ (trigger_restoring lib perform keeps default_sshkey) (
                both _ _ (masks_restoring lib perform keeps default_sshkey) (
                  both _ _ (checks_restoring lib perform keeps default_sshkey) (
                    both _ _ (timing_restoring lib perform keeps default_sshkey) (
                      both _ _ (scans_restoring lib perform keeps default_sshkey) (
                        both _ _ (series_restoring lib perform keeps default_sshkey)
                          (daemon_restoring lib perform keeps default_sshkey)))))))))).all
          input o).restores
        c ok
