-- ===== src/Controller/Trigger.antt =====
-- The commands on the MTC, `sbc_control` to `set_mtca_thresholds`: branches of `ProcessCommand`,
-- src/cont/ControllerLink.cpp.
use penn_daq.Prelude.{ℕ, List, [], ◌∷◌, some, Bool, not, ◌&&◌, ◌||◌, get_elem?, codes}
use mathlib.Core.Option
use penn_daq.Locks.{Connections}
use penn_daq.Args.{Conversions, get_int, get_uint, get_flag, get_float, get_multi_float, get_string}
use penn_daq.Controller.Commands.{
  Handler, unless_help, with_array, guarded, mtc_reg_addresses, Call, call_mtc_delay, call_mtc_init,
  call_mtc_load_mtca_dacs, call_mtc_read, call_mtc_write, call_sbc_control,
}

module _ {F : Type 0} (lib : Conversions F)
    (perform : List (Call F) → Connections → Connections) where
  unfoldable pub do_sbc_control : List ℕ → List ℕ → Handler F
  do_sbc_control default_sshkey input = unless_help input (
      let reconnect : Bool =
        get_flag input b'r'
        || (not (get_flag input b'c') && not (get_flag input b'k') && not (get_flag input b'r')) in
      let connect : Bool = get_flag input b'c' || reconnect in
      let kill : Bool = get_flag input b'k' || reconnect in
      let manual_start : Bool = get_flag input b'm' in
      let id_file : List ℕ = get_string input b'i' default_sshkey in
      guarded perform 2 0x0 (some (call_sbc_control connect kill manual_start id_file ∷ [])) 1 0x0)

  unfoldable pub do_mtc_init : List ℕ → Handler F
  do_mtc_init input = unless_help input (
      let xilinx : Bool = get_flag input b'x' in
      guarded perform 1 0x0 (some (call_mtc_init xilinx ∷ [])) 1 0x0)

  unfoldable pub do_mr : List ℕ → Handler F
  do_mr input = unless_help input (
      let reg : ℕ = get_int lib input b'r' 0 in
      guarded perform 1 0x0
        (Option.map (λ base. call_mtc_read base ∷ []) (get_elem? mtc_reg_addresses reg)) 1 0x0)

  unfoldable pub do_mw : List ℕ → Handler F
  do_mw input = unless_help input (
      let reg : ℕ = get_int lib input b'r' 0 in
      let word : ℕ = get_uint lib input (codes "d") 0x0 1 in
      guarded perform 1 0x0
        (Option.map (λ base. call_mtc_write base word ∷ []) (get_elem? mtc_reg_addresses reg)) 1
        0x0)

  unfoldable pub do_mtc_read : List ℕ → Handler F
  do_mtc_read input = unless_help input (
      let address : ℕ = get_uint lib input (codes "a") 0x0 1 in
      guarded perform 1 0x0 (some (call_mtc_read address ∷ [])) 1 0x0)

  unfoldable pub do_mtc_write : List ℕ → Handler F
  do_mtc_write input = unless_help input (
      let address : ℕ = get_uint lib input (codes "a") 0x0 1 in
      let word : ℕ = get_uint lib input (codes "d") 0x0 1 in
      guarded perform 1 0x0 (some (call_mtc_write address word ∷ [])) 1 0x0)

  unfoldable pub do_mtc_delay : List ℕ → Handler F
  do_mtc_delay input = unless_help input (
      let delaytime : F = get_float lib input b't' (lib.strtod (codes "200")) in
      guarded perform 1 0x0 (some (call_mtc_delay delaytime ∷ [])) 1 0x0)

  unfoldable pub do_set_mtca_thresholds : List ℕ → Handler F
  do_set_mtca_thresholds input = unless_help input (
      with_array (get_multi_float lib input 14 b'v' (lib.strtod (codes "-4.9")))
        λ voltages. guarded perform 1 0x0 (some (call_mtc_load_mtca_dacs voltages ∷ [])) 1 0x0)
