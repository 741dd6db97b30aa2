-- ===== src/Controller/Crate.antt =====
-- The commands on the XL3 of a crate, `exit` and `xl3_rw` to `set_alarm_dac`: branches of `ProcessCommand`,
-- src/cont/ControllerLink.cpp.
use penn_daq.Prelude.{ℕ, ◌+◌, ◌%◌, ◌^◌, List, [], ◌∷◌, some, Bool, if◌then◌else◌, get_elem?, codes}
use mathlib.Core.Option
use penn_daq.Locks.{Connections}
use penn_daq.Args.{Conversions, get_int, get_uint, get_ulonglong, get_flag, get_float}
use penn_daq.Controller.Commands.{
  Handler, one_shift, unless_help, direct, guarded, xl3_reg_addresses, read_reg, write_reg, Call,
  call_change_mode, call_check_xl3_status, call_crate_init, call_debugging_mode, call_get_relays,
  call_hv_readback, call_raise_sigint, call_read_local_voltage, call_set_alarm_dac,
  call_set_alarm_level, call_set_relays, call_sm_reset, call_xl3_queue_rw, call_xl3_rw,
}

module _ {F : Type 0} (lib : Conversions F)
    (perform : List (Call F) → Connections → Connections) where
  unfoldable pub do_exit : List ℕ → Handler F
  do_exit input = direct perform (call_raise_sigint ∷ [])

  unfoldable pub do_xl3_rw : List ℕ → Handler F
  do_xl3_rw input = unless_help input (
      let crate_num : ℕ = get_int lib input b'c' 2 in
      let address : ℕ = get_uint lib input (codes "a") 0x12000007 1 in
      let word : ℕ = get_uint lib input (codes "d") 0x0 1 in
      guarded perform 0 (one_shift crate_num) (some (call_xl3_rw crate_num address word ∷ [])) 0
        (one_shift crate_num))

  unfoldable pub do_crate_init : List ℕ → Handler F
  do_crate_init input = unless_help input (
      let crate_num : ℕ = get_int lib input b'c' 2 in
      let xilinx_load_normal : Bool = get_flag input b'x' in
      let xilinx_load_cald : Bool = get_flag input b'X' in
      let slot_mask : ℕ = get_uint lib input (codes "s") 0xFFFF 1 in
      let use_vbal : Bool = get_flag input b'B' in
      let use_vthr : Bool = get_flag input b'T' in
      let use_tdisc : Bool = get_flag input b'D' in
      let use_tcmos : Bool = get_flag input b'C' in
      let use_all : Bool = get_flag input b'A' in
      let use_noise : Bool = get_flag input b'N' in
      let use_hw : Bool = get_flag input b'e' in
      let enable_triggers : Bool = get_flag input b't' in
      let n100width : ℕ = get_int lib input b'w' 0 in
      let n20delay : ℕ = get_int lib input b'd' 0 in
      let n20width : ℕ = get_int lib input b'v' 0 in
      let xilinx_load : ℕ = if xilinx_load_normal then 1 else if xilinx_load_cald then 2 else 0 in
      guarded perform 0 (one_shift crate_num)
        (some (
          call_crate_init crate_num slot_mask xilinx_load use_vbal use_vthr use_tdisc use_tcmos
            use_all use_noise use_hw enable_triggers n100width n20delay n20width
          ∷ []))
        0 (one_shift crate_num))

  unfoldable pub do_xr : List ℕ → Handler F
  do_xr input = unless_help input (
      let crate_num : ℕ = get_int lib input b'c' 2 in
      let reg : ℕ = get_int lib input b'c' 2 in
      guarded perform 0 (one_shift crate_num)
        (Option.map (λ base. call_xl3_rw crate_num ((base + read_reg) % 2 ^ 32) 0x0 ∷ [])
          (get_elem? xl3_reg_addresses reg))
        0 (one_shift crate_num))

  unfoldable pub do_xw : List ℕ → Handler F
  do_xw input = unless_help input (
      let crate_num : ℕ = get_int lib input b'c' 2 in
      let reg : ℕ = get_int lib input b'r' 0 in
      let word : ℕ = get_uint lib input (codes "d") 0x0 1 in
      guarded perform 0 (one_shift crate_num)
        (Option.map (λ base. call_xl3_rw crate_num ((base + write_reg) % 2 ^ 32) word ∷ [])
          (get_elem? xl3_reg_addresses reg))
        0 (one_shift crate_num))

  unfoldable pub do_xl3_queue_rw : List ℕ → Handler F
  do_xl3_queue_rw input = unless_help input (
      let crate_num : ℕ = get_int lib input b'c' 2 in
      let address : ℕ = get_uint lib input (codes "a") 0x0 1 in
      let word : ℕ = get_uint lib input (codes "d") 0x0 1 in
      guarded perform 0 (one_shift crate_num) (some (call_xl3_queue_rw crate_num address word ∷ []))
        0 (one_shift crate_num))

  unfoldable pub do_sm_reset : List ℕ → Handler F
  do_sm_reset input = unless_help input (
      let crate_num : ℕ = get_int lib input b'c' 2 in
      guarded perform 0 (one_shift crate_num) (some (call_sm_reset crate_num ∷ [])) 0
        (one_shift crate_num))

  unfoldable pub do_debugging_on : List ℕ → Handler F
  do_debugging_on input = unless_help input (
      let crate_num : ℕ = get_int lib input b'c' 2 in
      guarded perform 0 (one_shift crate_num) (some (call_debugging_mode crate_num 1 ∷ [])) 0
        (one_shift crate_num))

  unfoldable pub do_debugging_off : List ℕ → Handler F
  do_debugging_off input = unless_help input (
      let crate_num : ℕ = get_int lib input b'c' 2 in
      guarded perform 0 (one_shift crate_num) (some (call_debugging_mode crate_num 0 ∷ [])) 0
        (one_shift crate_num))

  unfoldable pub do_change_mode : List ℕ → Handler F
  do_change_mode input = unless_help input (
      let crate_num : ℕ = get_int lib input b'c' 2 in
      let mode : Bool = get_flag input b'n' in
      let data_avail_mask : ℕ = get_uint lib input (codes "s") 0xFFFF 1 in
      guarded perform 0 (one_shift crate_num)
        (some (call_change_mode crate_num mode data_avail_mask ∷ [])) 0 (one_shift crate_num))

  unfoldable pub do_set_relays : List ℕ → Handler F
  do_set_relays input = unless_help input (
      let crate_num : ℕ = get_int lib input b'c' 2 in
      let mask : ℕ = get_ulonglong lib input (codes "m") 0x0 1 in
      guarded perform 0 (one_shift crate_num) (some (call_set_relays crate_num mask ∷ [])) 0
        (one_shift crate_num))

  unfoldable pub do_get_relays : List ℕ → Handler F
  do_get_relays input = unless_help input (
      let crate_num : ℕ = get_int lib input b'c' 2 in
      guarded perform 0 (one_shift crate_num) (some (call_get_relays crate_num ∷ [])) 0
        (one_shift crate_num))

  unfoldable pub do_check_xl3_status : List ℕ → Handler F
  do_check_xl3_status input =
      let crate_num : ℕ = get_int lib input b'c' 2 in
      guarded perform 0 (one_shift crate_num) (some (call_check_xl3_status crate_num ∷ [])) 0
        (one_shift crate_num)

  unfoldable pub do_read_local_voltage : List ℕ → Handler F
  do_read_local_voltage input = unless_help input (
      let crate_num : ℕ = get_int lib input b'c' 2 in
      let voltage : ℕ = get_int lib input b'v' 0 in
      guarded perform 0 (one_shift crate_num)
        (some (call_read_local_voltage crate_num voltage ∷ [])) 0 (one_shift crate_num))

  unfoldable pub do_hv_readback : List ℕ → Handler F
  do_hv_readback input = unless_help input (
      let crate_num : ℕ = get_int lib input b'c' 2 in
      guarded perform 0 (one_shift crate_num) (some (call_hv_readback crate_num ∷ [])) 0
        (one_shift crate_num))

  unfoldable pub do_set_alarm_level : List ℕ → Handler F
  do_set_alarm_level input = unless_help input (
      let crate_num : ℕ = get_int lib input b'c' 2 in
      let low_alarm : F = get_float lib input b'l' (lib.strtod (codes "-999.0")) in
      let high_alarm : F = get_float lib input b'u' (lib.strtod (codes "-999.0")) in
      let low_dac : ℕ = get_int lib input b'L' 0xFFFFFFFF in
      let high_dac : ℕ = get_int lib input b'U' 0xFFFFFFFF in
      let alarm : ℕ = get_int lib input b'a' 0 in
      guarded perform 0 (one_shift crate_num)
        (some (call_set_alarm_level crate_num low_alarm high_alarm low_dac high_dac alarm ∷ [])) 0
        (one_shift crate_num))

  unfoldable pub do_set_alarm_dac : List ℕ → Handler F
  do_set_alarm_dac input = unless_help input (
      let crate_num : ℕ = get_int lib input b'c' 2 in
      let dac_0 : ℕ = get_uint lib input (codes "0") 0xFFFFFFFF 1 in
      let dac_1 : ℕ = get_uint lib input (codes "1") 0xFFFFFFFF 1 in
      let dac_2 : ℕ = get_uint lib input (codes "2") 0xFFFFFFFF 1 in
      guarded perform 0 (one_shift crate_num)
        (some (call_set_alarm_dac crate_num (dac_0 ∷ dac_1 ∷ dac_2 ∷ []) ∷ [])) 0
        (one_shift crate_num))
