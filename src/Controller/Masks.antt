-- ===== src/Controller/Masks.antt =====
-- The commands on the MTC, `set_gt_mask` to `multi_softgt`: branches of `ProcessCommand`,
-- src/cont/ControllerLink.cpp.
use penn_daq.Prelude.{ℕ, List, [], ◌∷◌, some, Bool, if◌then◌else◌, codes}
use penn_daq.Locks.{Connections}
use penn_daq.Args.{Conversions, get_int, get_uint, get_flag, get_float}
use penn_daq.Controller.Commands.{
  Handler, unless_help, guarded, Call, call_mtc_disable_pedestal, call_mtc_disable_pulser,
  call_mtc_enable_pedestal, call_mtc_enable_pulser, call_mtc_multi_soft_gt,
  call_mtc_set_gt_crate_mask, call_mtc_set_gt_mask, call_mtc_set_ped_crate_mask,
  call_mtc_set_pulser_frequency, call_mtc_soft_gt, call_mtc_unset_gt_crate_mask,
  call_mtc_unset_gt_mask, call_mtc_unset_ped_crate_mask,
}

module _ {F : Type 0} (lib : Conversions F)
    (perform : List (Call F) → Connections → Connections) where
  unfoldable pub do_set_gt_mask : List ℕ → Handler F
  do_set_gt_mask input = unless_help input (
      let mask : ℕ = get_uint lib input (codes "m") 0x0 1 in
      let ored : Bool = get_flag input b'o' in
      guarded perform 1 0x0
        (some (
          if ored
          then call_mtc_set_gt_mask mask ∷ []
          else call_mtc_unset_gt_mask 0xFFFFFFFF ∷ call_mtc_set_gt_mask mask ∷ []))
        1 0x0)

  unfoldable pub do_set_gt_crate_mask : List ℕ → Handler F
  do_set_gt_crate_mask input = unless_help input (
      let mask : ℕ = get_uint lib input (codes "m") 0x0 1 in
      let ored : Bool = get_flag input b'o' in
      guarded perform 1 0x0
        (some (
          if ored
          then call_mtc_set_gt_crate_mask mask ∷ []
          else call_mtc_unset_gt_crate_mask 0xFFFFFFFF ∷ call_mtc_set_gt_crate_mask mask ∷ []))
        1 0x0)

  unfoldable pub do_set_ped_crate_mask : List ℕ → Handler F
  do_set_ped_crate_mask input = unless_help input (
      let mask : ℕ = get_uint lib input (codes "m") 0x0 1 in
      let ored : Bool = get_flag input b'o' in
      guarded perform 1 0x0
        (some (
          if ored
          then call_mtc_set_ped_crate_mask mask ∷ []
          else call_mtc_unset_ped_crate_mask 0xFFFFFFFF ∷ call_mtc_set_ped_crate_mask mask ∷ []))
        1 0x0)

  unfoldable pub do_enable_pulser : List ℕ → Handler F
  do_enable_pulser input =
      unless_help input (guarded perform 1 0x0 (some (call_mtc_enable_pulser ∷ [])) 1 0x0)

  unfoldable pub do_disable_pulser : List ℕ → Handler F
  do_disable_pulser input =
      unless_help input (guarded perform 1 0x0 (some (call_mtc_disable_pulser ∷ [])) 1 0x0)

  unfoldable pub do_enable_pedestal : List ℕ → Handler F
  do_enable_pedestal input =
      unless_help input (guarded perform 1 0x0 (some (call_mtc_enable_pedestal ∷ [])) 1 0x0)

  unfoldable pub do_disable_pedestal : List ℕ → Handler F
  do_disable_pedestal input =
      unless_help input (guarded perform 1 0x0 (some (call_mtc_disable_pedestal ∷ [])) 1 0x0)

  unfoldable pub do_set_pulser_freq : List ℕ → Handler F
  do_set_pulser_freq input = unless_help input (
      let freq : F = get_float lib input b'f' (lib.strtod (codes "1")) in
      guarded perform 1 0x0 (some (call_mtc_set_pulser_frequency freq ∷ [])) 1 0x0)

  unfoldable pub do_send_softgt : List ℕ → Handler F
  do_send_softgt input =
      unless_help input (guarded perform 1 0x0 (some (call_mtc_soft_gt ∷ [])) 1 0x0)

  unfoldable pub do_multi_softgt : List ℕ → Handler F
  do_multi_softgt input = unless_help input (
      let num : ℕ = get_int lib input b'n' 10 in
      guarded perform 1 0x0 (some (call_mtc_multi_soft_gt num ∷ [])) 1 0x0)
