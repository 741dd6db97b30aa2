-- ===== src/Controller/Timing.antt =====
-- The commands that start a test, `gtvalid_test` to `ped_by_channel`: branches of `ProcessCommand`,
-- src/cont/ControllerLink.cpp.
use penn_daq.Prelude.{ℕ, List, [], ◌∷◌, some, Bool, codes}
use penn_daq.Locks.{Connections}
use penn_daq.Args.{Conversions, get_int, get_uint, get_flag, get_float, get_multi_uint}
use penn_daq.Controller.Commands.{
  Handler, one_shift, max_xl3_con, unless_help, with_array, guarded, Call,
  call_all_ped_run_by_channel, call_gtvalid_test, call_mb_stability_test, call_measure_gtvalid_only,
  call_mem_test, call_ped_run, call_ped_run_by_channel,
}

module _ {F : Type 0} (lib : Conversions F)
    (perform : List (Call F) → Connections → Connections) where
  unfoldable pub do_gtvalid_test : List ℕ → Handler F
  do_gtvalid_test input = unless_help input (
      let crate_num : ℕ = get_int lib input b'c' 2 in
      with_array (get_multi_uint lib input max_xl3_con b's' 0xFFFF) λ slot_masks.
        let channel_mask : ℕ = get_uint lib input (codes "p") 0xFFFFFFFF 1 in
        let gt_cutoff : F = get_float lib input b'g' (lib.strtod (codes "410")) in
        let twiddle_on : Bool = get_flag input b't' in
        let update : Bool = get_flag input b'd' in
        let detectorupdate : Bool = get_flag input b'z' in
        let set_only : Bool = get_flag input b'q' in
        guarded perform 1 (one_shift crate_num)
          (some (
            call_gtvalid_test (one_shift crate_num) slot_masks channel_mask gt_cutoff twiddle_on
              set_only update detectorupdate
            ∷ []))
          1 (one_shift crate_num))

  unfoldable pub do_measure_gtvalids : List ℕ → Handler F
  do_measure_gtvalids input = unless_help input (
      let crate_num : ℕ = get_int lib input b'c' 2 in
      let slot_mask : ℕ = get_uint lib input (codes "s") 0xFFFF 1 in
      let isetm1 : ℕ = get_int lib input b'e' 170 in
      let isetm2 : ℕ = get_int lib input b'f' 170 in
      let max_gtvalid : F = get_float lib input b'm' (lib.strtod (codes "500.0")) in
      let max_isetm : ℕ = get_int lib input b'i' 80 in
      guarded perform 1 (one_shift crate_num)
        (some
          (call_measure_gtvalid_only crate_num slot_mask isetm1 isetm2 max_gtvalid max_isetm ∷ []))
        1 (one_shift crate_num))

  unfoldable pub do_mb_stability_test : List ℕ → Handler F
  do_mb_stability_test input = unless_help input (
      let crate_num : ℕ = get_int lib input b'c' 2 in
      let slot_mask : ℕ = get_uint lib input (codes "s") 0xFFFF 1 in
      let num_peds : ℕ = get_int lib input b'n' 50 in
      let update : Bool = get_flag input b'd' in
      guarded perform 1 (one_shift crate_num)
        (some (call_mb_stability_test crate_num slot_mask num_peds update ∷ [])) 1
        (one_shift crate_num))

  unfoldable pub do_mem_test : List ℕ → Handler F
  do_mem_test input = unless_help input (
      let crate_num : ℕ = get_int lib input b'c' 2 in
      let slot_num : ℕ = get_int lib input b's' 13 in
      let update : Bool = get_flag input b'd' in
      guarded perform 0 (one_shift crate_num) (some (call_mem_test crate_num slot_num update ∷ []))
        0 (one_shift crate_num))

  unfoldable pub do_ped_run : List ℕ → Handler F
  do_ped_run input = unless_help input (
      let crate_num : ℕ = get_int lib input b'c' 2 in
      let slot_mask : ℕ = get_uint lib input (codes "s") 0xFFFF 1 in
      let channel_mask : ℕ = get_uint lib input (codes "p") 0xFFFFFFFF 1 in
      let lower : ℕ = get_int lib input b'l' 300 in
      let upper : ℕ = get_int lib input b'u' 1000 in
      let frequency : F = get_float lib input b'f' (lib.strtod (codes "0")) in
      let num_peds : ℕ = get_int lib input b'n' 50 in
      let gt_delay : ℕ = get_int lib input b't' 150 in
      let ped_width : ℕ = get_int lib input b'w' 25 in
      let update : Bool = get_flag input b'd' in
      guarded perform 1 (one_shift crate_num)
        (some (
          call_ped_run crate_num slot_mask channel_mask frequency gt_delay ped_width num_peds upper
            lower update
          ∷ []))
        1 (one_shift crate_num))

  unfoldable pub do_all_ped_by_channel : List ℕ → Handler F
  do_all_ped_by_channel input = unless_help input (
      let crate_num : ℕ = get_int lib input b'c' 2 in
      let slot_mask : ℕ = get_uint lib input (codes "s") 0x0 1 in
      let channel_mask : ℕ = get_uint lib input (codes "p") 0xFFFFFFFF 1 in
      let frequency : F = get_float lib input b'f' (lib.strtod (codes "0")) in
      let num_peds : ℕ = get_int lib input b'n' 50 in
      let lower : ℕ = get_int lib input b'l' 300 in
      let upper : ℕ = get_int lib input b'u' 1000 in
      let gt_delay : ℕ = get_int lib input b't' 150 in
      let ped_width : ℕ = get_int lib input b'w' 25 in
      let update : Bool = get_flag input b'd' in
      let update_detector_db : Bool = get_flag input b'z' in
      guarded perform 1 (one_shift crate_num)
        (some (
          call_all_ped_run_by_channel crate_num slot_mask channel_mask frequency gt_delay ped_width
            num_peds upper lower update update_detector_db 0
          ∷ []))
        1 (one_shift crate_num))

  unfoldable pub do_ped_by_channel : List ℕ → Handler F
  do_ped_by_channel input = unless_help input (
      let crate_num : ℕ = get_int lib input b'c' 2 in
      let slot_num : ℕ = get_int lib input b's' 0 in
      let channel_num : ℕ = get_int lib input b'p' 0 in
      let frequency : F = get_float lib input b'f' (lib.strtod (codes "0")) in
      let num_peds : ℕ = get_int lib input b'n' 50 in
      let lower : ℕ = get_int lib input b'l' 300 in
      let upper : ℕ = get_int lib input b'u' 1000 in
      let gt_delay : ℕ = get_int lib input b't' 150 in
      let ped_width : ℕ = get_int lib input b'w' 25 in
      let update : Bool = get_flag input b'd' in
      guarded perform 1 (one_shift crate_num)
        (some (
          call_ped_run_by_channel crate_num slot_num channel_num frequency gt_delay ped_width
            num_peds upper lower update
          ∷ []))
        1 (one_shift crate_num))
