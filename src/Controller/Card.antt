-- ===== src/Controller/Card.antt =====
-- The commands on front-end cards, `fr` to `load_dac`: branches of `ProcessCommand`,
-- src/cont/ControllerLink.cpp.
use penn_daq.Prelude.{ℕ, ◌+◌, ◌*◌, ◌%◌, ◌^◌, List, [], ◌∷◌, some, Bool, get_elem?, codes}
use mathlib.Core.Option
use penn_daq.Locks.{Connections}
use penn_daq.Args.{Conversions, get_int, get_uint, get_flag, get_multi_uint}
use penn_daq.Controller.Commands.{
  Handler, one_shift, unless_help, with_array, guarded, fec_reg_addresses, read_reg, write_reg,
  fec_sel, Call, call_load_relays, call_read_bundle, call_xl3_loads_dac, call_xl3_rw,
  call_xl3_setup_charge_injection,
}

module _ {F : Type 0} (lib : Conversions F)
    (perform : List (Call F) → Connections → Connections) where
  unfoldable pub do_fr : List ℕ → Handler F
  do_fr input = unless_help input (
      let crate_num : ℕ = get_int lib input b'c' 2 in
      let slot_num : ℕ = get_int lib input b's' 13 in
      let reg : ℕ = get_int lib input b'r' 2 in
      guarded perform 0 (one_shift crate_num)
        (Option.map
          (λ base. call_xl3_rw crate_num ((base + read_reg + fec_sel * slot_num) % 2 ^ 32) 0x0 ∷ [])
          (get_elem? fec_reg_addresses reg))
        0 (one_shift crate_num))

  unfoldable pub do_fw : List ℕ → Handler F
  do_fw input = unless_help input (
      let crate_num : ℕ = get_int lib input b'c' 2 in
      let slot_num : ℕ = get_int lib input b's' 13 in
      let reg : ℕ = get_int lib input b'r' 0 in
      let word : ℕ = get_uint lib input (codes "d") 0x0 1 in
      guarded perform 0 (one_shift crate_num)
        (Option.map
          (λ base.
            call_xl3_rw crate_num ((base + write_reg + fec_sel * slot_num) % 2 ^ 32) word ∷ [])
          (get_elem? fec_reg_addresses reg))
        0 (one_shift crate_num))

  unfoldable pub do_load_relays : List ℕ → Handler F
  do_load_relays input = unless_help input (
      let crate_num : ℕ = get_int lib input b'c' 2 in
      with_array (get_multi_uint lib input 16 b'p' 0xF) λ patterns.
        guarded perform 0 (one_shift crate_num) (some (call_load_relays crate_num patterns ∷ [])) 0
          (one_shift crate_num))

  unfoldable pub do_read_bundle : List ℕ → Handler F
  do_read_bundle input = unless_help input (
      let crate_num : ℕ = get_int lib input b'c' 2 in
      let quiet : Bool = get_flag input b'q' in
      let slot_num : ℕ = get_int lib input b's' 13 in
      guarded perform 0 (one_shift crate_num)
        (some (call_read_bundle crate_num slot_num quiet ∷ [])) 0 (one_shift crate_num))

  unfoldable pub do_setup_chinj : List ℕ → Handler F
  do_setup_chinj input = unless_help input (
      let crate_num : ℕ = get_int lib input b'c' 2 in
      let slot_mask : ℕ = get_uint lib input (codes "s") 0xFFFF 1 in
      let chan_mask : ℕ = get_uint lib input (codes "p") 0xFFFFFFFF 1 in
      let dac_value : ℕ = get_int lib input b'd' 255 in
      guarded perform 0 (one_shift crate_num)
        (some (call_xl3_setup_charge_injection crate_num slot_mask chan_mask dac_value ∷ [])) 0
        (one_shift crate_num))

  unfoldable pub do_load_dac : List ℕ → Handler F
  do_load_dac input = unless_help input (
      let crate_num : ℕ = get_int lib input b'c' 2 in
      let slot_num : ℕ = get_int lib input b's' 13 in
      let dac_num : ℕ = get_int lib input b'd' 0 in
      let dac_value : ℕ = get_int lib input b'v' 255 in
      guarded perform 0 (one_shift crate_num)
        (some (call_xl3_loads_dac crate_num dac_num dac_value slot_num ∷ [])) 0
        (one_shift crate_num))
