-- ===== src/Controller/Daemon.antt =====
-- The commands on the program itself, `check_recv_queues` to `set_ecal_bit`: branches of `ProcessCommand`,
-- src/cont/ControllerLink.cpp.
use penn_daq.Prelude.{
  ℕ, zero, suc, List, [], ◌∷◌, ◌++◌, Bool, not, ◌&&◌, ◌==◌, if◌then◌else◌, codes,
}
use penn_daq.Locks.{Connections, lock_connections, unlock_connections}
use penn_daq.Args.{Conversions, get_uint, get_flag, get_string}
use penn_daq.Controller.Commands.{
  Handler, done, rejected, one_shift, max_xl3_con, unless_help, direct, Call, call_clear_screen,
  call_mtc_check_queue, call_parse_macro, call_print_connected, call_print_help, call_reset_speed,
  call_set_ecal_bit, call_start_logging, call_stop_logging, call_xl3_check_queue,
}

module _ {F : Type 0} (lib : Conversions F)
    (perform : List (Call F) → Connections → Connections) where
  -- `if (LockConnections(sbc, mask)) { ... }`: the body runs when the call returns a code.
  unfoldable pub check_queue :
      ℕ → ℕ → Call F → List (Call F) × Connections → List (Call F) × Connections
  check_queue sbc mask call s =
      let r = lock_connections sbc mask s.1 in
      if r.0 == 0
      then (s.0, r.1)
      else (s.0 ++ call ∷ [], (unlock_connections sbc mask (perform (call ∷ []) r.1)).1)

  -- The loop over the crates from `i` on, `n` of them.
  unfoldable pub check_crates :
      Bool → ℕ → ℕ → List (Call F) × Connections → List (Call F) × Connections
  unfolding check_queue
  check_crates empty zero i s = s
  check_crates empty (suc n) i s =
      check_crates empty n (suc i) (check_queue 0 (one_shift i) (call_xl3_check_queue i empty) s)

  unfoldable pub do_check_recv_queues : List ℕ → Handler F
  do_check_recv_queues input c =
      let empty : Bool = get_flag input b'e' in
      let s =
        check_crates empty max_xl3_con 0 (check_queue 1 0x0 (call_mtc_check_queue empty) ([], c)) in
      (done s.0, s.1)

  unfoldable pub do_run_macro : List ℕ → Handler F
  do_run_macro input =
      unless_help input (direct perform (call_parse_macro (get_string input b'f' []) ∷ []))

  unfoldable pub do_reset_speed : List ℕ → Handler F
  do_reset_speed input = direct perform (call_reset_speed ∷ [])

  unfoldable pub do_help : List ℕ → Handler F
  do_help input = direct perform (call_print_help input ∷ [])

  unfoldable pub do_clear_screen : List ℕ → Handler F
  do_clear_screen input = direct perform (call_clear_screen ∷ [])

  unfoldable pub do_start_logging : List ℕ → Handler F
  do_start_logging input = direct perform (call_start_logging ∷ [])

  unfoldable pub do_stop_logging : List ℕ → Handler F
  do_stop_logging input = direct perform (call_stop_logging ∷ [])

  unfoldable pub do_print_connected : List ℕ → Handler F
  do_print_connected input = direct perform (call_print_connected ∷ [])

  unfoldable pub do_set_ecal_bit : List ℕ → Handler F
  do_set_ecal_bit input = unless_help input (
      let b : ℕ = get_uint lib input (codes "b") 0 1 in
      if not (b == 0) && not (b == 1) then rejected else direct perform (call_set_ecal_bit b ∷ []))
