-- ===== src/Controller/Series.antt =====
-- The commands that start a series of tests, `run_pedestals_end` to `dac_sweep`: branches of `ProcessCommand`,
-- src/cont/ControllerLink.cpp.
use penn_daq.Prelude.{ℕ, ◌*◌, List, [], ◌∷◌, map, some, Bool, not, codes, strncmp_eq}
use penn_daq.Locks.{Connections}
use penn_daq.Args.{Conversions, get_int, get_uint, get_flag, get_float, get_multi_uint, get_string}
use penn_daq.Controller.Commands.{
  Handler, one_shift, one_if, max_xl3_con, unless_help, with_array, direct, guarded, decimal, upto,
  Call, call_create_fec_docs, call_dac_sweep, call_ecal, call_final_test, call_find_noise,
  call_run_pedestals, call_run_pedestals_end,
}

module _ {F : Type 0} (lib : Conversions F)
    (perform : List (Call F) → Connections → Connections) where
  unfoldable pub do_run_pedestals_end : List ℕ → Handler F
  do_run_pedestals_end input =
      let crate : Bool = not (strncmp_eq 21 input (codes "run_pedestals_end_mtc")) in
      let mtc : Bool = not (strncmp_eq 23 input (codes "run_pedestals_end_crate")) in
      unless_help input (
        let crate_mask : ℕ = get_uint lib input (codes "c") 0x4 1 in
        guarded perform (one_if mtc) (crate_mask * one_if crate)
          (some (call_run_pedestals_end crate_mask crate mtc ∷ [])) (one_if mtc)
          (crate_mask * one_if crate))

  unfoldable pub do_run_pedestals : List ℕ → Handler F
  do_run_pedestals input =
      let crate : Bool = not (strncmp_eq 17 input (codes "run_pedestals_mtc")) in
      let mtc : Bool = not (strncmp_eq 19 input (codes "run_pedestals_crate")) in
      unless_help input (
        let crate_mask : ℕ = get_uint lib input (codes "c") 0x4 1 in
        with_array (get_multi_uint lib input max_xl3_con b's' 0xFFFF) λ slot_masks.
          let channel_mask : ℕ = get_uint lib input (codes "p") 0xFFFFFFFF 1 in
          let frequency : F = get_float lib input b'f' (lib.strtod (codes "1000.0")) in
          let gt_delay : ℕ = get_int lib input b't' 150 in
          let ped_width : ℕ = get_int lib input b'w' 25 in
          guarded perform (one_if mtc) (crate_mask * one_if crate)
            (some (
              call_run_pedestals crate_mask slot_masks channel_mask frequency gt_delay ped_width
                crate mtc
              ∷ []))
            (one_if mtc) (crate_mask * one_if crate))

  unfoldable pub do_final_test : List ℕ → Handler F
  do_final_test input = unless_help input (
      let crate_num : ℕ = get_int lib input b'c' 2 in
      let slot_mask : ℕ = get_uint lib input (codes "s") 0xFFFF 1 in
      let test_mask : ℕ = get_uint lib input (codes "t") 0xFFFFFFFF 1 in
      let skip : Bool = get_flag input b'q' in
      guarded perform 1 (one_shift crate_num)
        (some (call_final_test crate_num slot_mask test_mask skip ∷ [])) 1 (one_shift crate_num))

  unfoldable pub do_ecal : List ℕ → Handler F
  do_ecal input = unless_help input (
      let crate_mask : ℕ = get_uint lib input (codes "c") 0x0 1 in
      let slot_mask : ℕ = get_uint lib input (codes "s") 0x0 1 in
      let slot_masks : List ℕ =
        map (λ i. get_uint lib input (decimal i) slot_mask 2) (upto max_xl3_con) in
      let test_mask : ℕ = get_uint lib input (codes "t") 0xFFFFFFFF 1 in
      let quick_flag : Bool = get_flag input b'q' in
      let detector_flag : Bool = get_flag input b'z' in
      let load_ecal : List ℕ = get_string input b'l' [] in
      guarded perform 1 crate_mask
        (some (call_ecal crate_mask slot_masks test_mask quick_flag load_ecal detector_flag ∷ [])) 1
        crate_mask)

  unfoldable pub do_create_fec_docs : List ℕ → Handler F
  do_create_fec_docs input = unless_help input (
      let crate_mask : ℕ = get_uint lib input (codes "c") 0x0 1 in
      with_array (get_multi_uint lib input max_xl3_con b's' 0x0) λ slot_masks.
        let load_ecal : List ℕ = get_string input b'l' [] in
        direct perform (call_create_fec_docs crate_mask slot_masks load_ecal ∷ []))

  unfoldable pub do_find_noise : List ℕ → Handler F
  do_find_noise input = unless_help input (
      let crate_mask : ℕ = get_uint lib input (codes "c") 0x4 1 in
      with_array (get_multi_uint lib input max_xl3_con b's' 0xFFFF) λ slot_masks.
        let frequency : F = get_float lib input b'f' (lib.strtod (codes "200")) in
        let channel_tuning : Bool = get_flag input b'i' in
        let plus_one : Bool = get_flag input b'o' in
        let update_db : Bool = get_flag input b'd' in
        guarded perform 1 crate_mask
          (some (
            call_find_noise crate_mask slot_masks frequency 1 channel_tuning plus_one update_db
            ∷ []))
          1 crate_mask)

  unfoldable pub do_dac_sweep : List ℕ → Handler F
  do_dac_sweep input = unless_help input (
      let crate_num : ℕ = get_int lib input b'c' 2 in
      let slot_mask : ℕ = get_uint lib input (codes "s") 0xFFFF 1 in
      let dac_mask : ℕ = get_uint lib input (codes "m") 0xFFFFFFFF 1 in
      let update_db : Bool = get_flag input b'd' in
      let dac_num : ℕ = get_int lib input b'n' 0xFFFFFFFF in
      guarded perform 0 (one_shift crate_num)
        (some (call_dac_sweep crate_num slot_mask dac_mask dac_num update_db ∷ [])) 0
        (one_shift crate_num))
