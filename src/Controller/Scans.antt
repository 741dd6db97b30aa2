-- ===== src/Controller/Scans.antt =====
-- The commands that start a test, `see_refl` to `zdisc`: branches of `ProcessCommand`,
-- src/cont/ControllerLink.cpp.
use penn_daq.Prelude.{ℕ, List, [], ◌∷◌, some, Bool, codes}
use penn_daq.Locks.{Connections}
use penn_daq.Args.{Conversions, get_int, get_uint, get_flag, get_float, get_multi_uint, get_string}
use penn_daq.Controller.Commands.{
  Handler, one_shift, max_xl3_con, unless_help, with_array, guarded, Call, call_get_ttot,
  call_local_vmon, call_see_reflection, call_see_reflection_esum, call_set_ttot, call_trigger_scan,
  call_vmon, call_zdisc,
}

module _ {F : Type 0} (lib : Conversions F)
    (perform : List (Call F) → Connections → Connections) where
  unfoldable pub do_see_refl : List ℕ → Handler F
  do_see_refl input = unless_help input (
      let crate_num : ℕ = get_int lib input b'c' 2 in
      let slot_mask : ℕ = get_uint lib input (codes "s") 0xFFFF 1 in
      let channel_mask : ℕ = get_uint lib input (codes "p") 0xFFFFFFFF 1 in
      let dac_value : ℕ = get_int lib input b'v' 255 in
      let frequency : F = get_float lib input b'f' (lib.strtod (codes "10")) in
      let update : Bool = get_flag input b'd' in
      let detectorupdate : Bool = get_flag input b'z' in
      guarded perform 1 (one_shift crate_num)
        (some (
          call_see_reflection crate_num slot_mask channel_mask dac_value frequency update
            detectorupdate
          ∷ []))
        1 (one_shift crate_num))

  unfoldable pub do_esum_see_refl : List ℕ → Handler F
  do_esum_see_refl input = unless_help input (
      let crate_num : ℕ = get_int lib input b'c' 2 in
      let slot_mask : ℕ = get_uint lib input (codes "s") 0xFFFF 1 in
      let channel_mask : ℕ = get_uint lib input (codes "p") 0xFFFFFFFF 1 in
      let dac_value : ℕ = get_int lib input b'v' 255 in
      let frequency : F = get_float lib input b'f' (lib.strtod (codes "10")) in
      let update : Bool = get_flag input b'd' in
      guarded perform 1 (one_shift crate_num)
        (some (call_see_reflection_esum crate_num slot_mask dac_value frequency update ∷ [])) 1
        (one_shift crate_num))

  unfoldable pub do_trigger_scan : List ℕ → Handler F
  do_trigger_scan input = unless_help input (
      let crate_mask : ℕ = get_uint lib input (codes "c") 0x4 1 in
      with_array (get_multi_uint lib input max_xl3_con b's' 0xFFFF) λ slot_masks.
        let nhit_max : ℕ = get_int lib input b'n' 0 in
        let thresh_min : ℕ = get_int lib input b'm' 0 in
        let trigger_select : ℕ = get_int lib input b't' 0 in
        let dac_select : ℕ = get_int lib input b'd' 0xFFFFFFFF in
        let quick : Bool = get_flag input b'q' in
        let tub : Bool = get_flag input b'b' in
        let file_name : List ℕ = get_string input b'f' (codes "word/triggerscan.dat") in
        guarded perform 1 crate_mask
          (some (
            call_trigger_scan crate_mask slot_masks trigger_select dac_select nhit_max thresh_min
              file_name quick tub
            ∷ []))
          1 crate_mask)

  unfoldable pub do_get_ttot : List ℕ → Handler F
  do_get_ttot input = unless_help input (
      let crate_num : ℕ = get_int lib input b'c' 2 in
      let slot_mask : ℕ = get_uint lib input (codes "s") 0xFFFF 1 in
      let target_time : ℕ = get_int lib input b't' 400 in
      let update : Bool = get_flag input b'd' in
      guarded perform 1 (one_shift crate_num)
        (some (call_get_ttot crate_num slot_mask target_time update ∷ [])) 1 (one_shift crate_num))

  unfoldable pub do_set_ttot : List ℕ → Handler F
  do_set_ttot input = unless_help input (
      let crate_num : ℕ = get_int lib input b'c' 2 in
      let slot_mask : ℕ = get_uint lib input (codes "s") 0xFFFF 1 in
      let target_time : ℕ = get_int lib input b't' 400 in
      let update : Bool = get_flag input b'd' in
      guarded perform 1 (one_shift crate_num)
        (some (call_set_ttot crate_num slot_mask target_time update ∷ [])) 1 (one_shift crate_num))

  unfoldable pub do_vmon : List ℕ → Handler F
  do_vmon input = unless_help input (
      let crate_num : ℕ = get_int lib input b'c' 2 in
      let slot_mask : ℕ = get_uint lib input (codes "s") 0xFFFF 1 in
      let update : Bool = get_flag input b'd' in
      guarded perform 0 (one_shift crate_num) (some (call_vmon crate_num slot_mask update ∷ [])) 0
        (one_shift crate_num))

  unfoldable pub do_local_vmon : List ℕ → Handler F
  do_local_vmon input = unless_help input (
      let crate_num : ℕ = get_int lib input b'c' 2 in
      guarded perform 0 (one_shift crate_num) (some (call_local_vmon crate_num ∷ [])) 0
        (one_shift crate_num))

  unfoldable pub do_zdisc : List ℕ → Handler F
  do_zdisc input = unless_help input (
      let crate_num : ℕ = get_int lib input b'c' 2 in
      let slot_mask : ℕ = get_uint lib input (codes "s") 0xFFFF 1 in
      let offset : ℕ = get_int lib input b'o' 0 in
      let rate : F = get_float lib input b'r' (lib.strtod (codes "10000")) in
      let update : Bool = get_flag input b'd' in
      let detectorupdate : Bool = get_flag input b'z' in
      guarded perform 0 (one_shift crate_num)
        (some (call_zdisc crate_num slot_mask rate offset update detectorupdate ∷ [])) 0
        (one_shift crate_num))
