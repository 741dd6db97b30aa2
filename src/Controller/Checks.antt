-- ===== src/Controller/Checks.antt =====
-- The commands that start a test, `board_id` to `fifo_test`: branches of `ProcessCommand`,
-- src/cont/ControllerLink.cpp.
use penn_daq.Prelude.{ℕ, List, [], ◌∷◌, some, Bool, codes}
use penn_daq.Locks.{Connections}
use penn_daq.Args.{Conversions, get_int, get_uint, get_flag, get_float}
use penn_daq.Controller.Commands.{
  Handler, one_shift, unless_help, guarded, Call, call_board_id, call_cald_test, call_cgt_test,
  call_chinj_scan, call_crate_cbal, call_disc_check, call_fec_test, call_fifo_test,
  call_orphan_test,
}

module _ {F : Type 0} (lib : Conversions F)
    (perform : List (Call F) → Connections → Connections) where
  unfoldable pub do_board_id : List ℕ → Handler F
  do_board_id input = unless_help input (
      let crate_num : ℕ = get_int lib input b'c' 2 in
      let slot_mask : ℕ = get_uint lib input (codes "s") 0xFFFF 1 in
      let update_location : Bool = get_flag input b'l' in
      guarded perform 0 (one_shift crate_num)
        (some (call_board_id crate_num slot_mask update_location ∷ [])) 0 (one_shift crate_num))

  unfoldable pub do_cald_test : List ℕ → Handler F
  do_cald_test input = unless_help input (
      let crate_num : ℕ = get_int lib input b'c' 2 in
      let slot_mask : ℕ = get_uint lib input (codes "s") 0xFFFF 1 in
      let upper : ℕ = get_int lib input b'u' 3500 in
      let lower : ℕ = get_int lib input b'l' 750 in
      let num : ℕ = get_int lib input b'n' 200 in
      let samples : ℕ = get_int lib input b'p' 1 in
      let update : Bool = get_flag input b'd' in
      guarded perform 0 (one_shift crate_num)
        (some (call_cald_test crate_num slot_mask upper lower num samples update ∷ [])) 0
        (one_shift crate_num))

  unfoldable pub do_cgt_test : List ℕ → Handler F
  do_cgt_test input = unless_help input (
      let crate_num : ℕ = get_int lib input b'c' 2 in
      let slot_mask : ℕ = get_uint lib input (codes "s") 0xFFFF 1 in
      let channel_mask : ℕ = get_uint lib input (codes "p") 0xFFFFFFFF 1 in
      let update : Bool = get_flag input b'd' in
      guarded perform 1 (one_shift crate_num)
        (some (call_cgt_test crate_num slot_mask channel_mask update ∷ [])) 1 (one_shift crate_num))

  unfoldable pub do_orphan_test : List ℕ → Handler F
  do_orphan_test input = unless_help input (
      let crate_num : ℕ = get_int lib input b'c' 2 in
      let slot_mask : ℕ = get_uint lib input (codes "s") 0xFFFF 1 in
      let channel_mask : ℕ = get_uint lib input (codes "p") 0xFFFFFFFF 1 in
      let update : Bool = get_flag input b'd' in
      guarded perform 1 (one_shift crate_num)
        (some (call_orphan_test crate_num slot_mask channel_mask update ∷ [])) 1
        (one_shift crate_num))

  unfoldable pub do_chinj_scan : List ℕ → Handler F
  do_chinj_scan input = unless_help input (
      let crate_num : ℕ = get_int lib input b'c' 2 in
      let slot_mask : ℕ = get_uint lib input (codes "s") 0xFFFF 1 in
      let channel_mask : ℕ = get_uint lib input (codes "p") 0xFFFFFFFF 1 in
      let freq : F = get_float lib input b'f' (lib.strtod (codes "0")) in
      let gt_delay : ℕ = get_int lib input b't' 150 in
      let ped_width : ℕ = get_int lib input b'w' 25 in
      let num_peds : ℕ = get_int lib input b'n' 10 in
      let lower : F = get_float lib input b'l' (lib.strtod (codes "200")) in
      let upper : F = get_float lib input b'u' (lib.strtod (codes "3000")) in
      let ped_on : ℕ = get_int lib input b'e' 1 in
      let quick_on : Bool = get_flag input b'o' in
      let update : Bool = get_flag input b'd' in
      guarded perform 1 (one_shift crate_num)
        (some (
          call_chinj_scan crate_num slot_mask channel_mask freq gt_delay ped_width num_peds upper
            lower ped_on quick_on update
          ∷ []))
        1 (one_shift crate_num))

  unfoldable pub do_crate_cbal : List ℕ → Handler F
  do_crate_cbal input = unless_help input (
      let crate_num : ℕ = get_int lib input b'c' 2 in
      let slot_mask : ℕ = get_uint lib input (codes "s") 0xFFFF 1 in
      let channel_mask : ℕ = get_uint lib input (codes "p") 0xFFFFFFFF 1 in
      let update : Bool = get_flag input b'd' in
      guarded perform 1 (one_shift crate_num)
        (some (call_crate_cbal crate_num slot_mask channel_mask update ∷ [])) 1
        (one_shift crate_num))

  unfoldable pub do_disc_check : List ℕ → Handler F
  do_disc_check input = unless_help input (
      let crate_num : ℕ = get_int lib input b'c' 2 in
      let slot_mask : ℕ = get_uint lib input (codes "s") 0xFFFF 1 in
      let num_peds : ℕ = get_int lib input b'n' 100000 in
      let update : Bool = get_flag input b'd' in
      guarded perform 1 (one_shift crate_num)
        (some (call_disc_check crate_num slot_mask num_peds update ∷ [])) 1 (one_shift crate_num))

  unfoldable pub do_fec_test : List ℕ → Handler F
  do_fec_test input = unless_help input (
      let crate_num : ℕ = get_int lib input b'c' 2 in
      let update : Bool = get_flag input b'd' in
      let slot_mask : ℕ = get_uint lib input (codes "s") 0xFFFF 1 in
      guarded perform 0 (one_shift crate_num) (some (call_fec_test crate_num slot_mask update ∷ []))
        0 (one_shift crate_num))

  unfoldable pub do_fifo_test : List ℕ → Handler F
  do_fifo_test input = unless_help input (
      let crate_num : ℕ = get_int lib input b'c' 2 in
      let slot_mask : ℕ = get_uint lib input (codes "s") 0xFFFF 1 in
      let update : Bool = get_flag input b'd' in
      guarded perform 1 (one_shift crate_num)
        (some (call_fifo_test crate_num slot_mask update ∷ [])) 1 (one_shift crate_num))
