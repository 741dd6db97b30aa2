-- ===== src/Controller/Commands.antt =====
-- What the branches of `ProcessCommand` share, src/cont/ControllerLink.cpp: the help text, the locks
-- around a call, the tables of register addresses (src/xl3/XL3Registers.h, src/mtc/MTCRegisters.h),
-- and the functions that the branches call.
use penn_daq.Prelude.{
  ℕ, zero, suc, ◌+◌, ◌/◌, ◌%◌, ◌^◌, List, [], ◌∷◌, ◌++◌, Option, none, some, Bool, ◌==◌, ltb,
  if◌then◌else◌,
}
use penn_daq.Locks.{Connections, lock_connections, unlock_connections}
use penn_daq.Args.{get_flag}

abbrev pub max_xl3_con : ℕ
max_xl3_con = 20

-- `READ_REG`, `WRITE_REG` and `FEC_SEL`.
abbrev pub read_reg : ℕ
read_reg = 0x10000000

abbrev pub write_reg : ℕ
write_reg = 0x00000000

abbrev pub fec_sel : ℕ
fec_sel = 0x00100000

abbrev pub xl3_reg_addresses : List ℕ
xl3_reg_addresses =
    0x02000000 ∷ 0x02000001 ∷ 0x02000002 ∷ 0x02000003 ∷ 0x02000004 ∷ 0x02000005 ∷ 0x02000006
    ∷ 0x02000007 ∷ 0x02000008 ∷ 0x02000009 ∷ 0x0200000A ∷ 0x0200000B ∷ 0x0200000C ∷ 0x0200000E ∷ []

abbrev pub fec_reg_addresses : List ℕ
fec_reg_addresses =
    0x20 ∷ 0x21 ∷ 0x22 ∷ 0x23 ∷ 0x24 ∷ 0x25 ∷ 0x26 ∷ 0x2A ∷ 0x2B ∷ 0x2C ∷ 0x2D ∷ 0x80 ∷ 0x84 ∷ 0x88
    ∷ 0x8C ∷ 0x90 ∷ 0x94 ∷ 0x9c ∷ 0x9d ∷ 0x9e ∷ 0x100 ∷ 0x101 ∷ 0x102 ∷ 0x103 ∷ 0x104 ∷ 0x105
    ∷ 0x106 ∷ 0x107 ∷ []

abbrev pub mtc_reg_addresses : List ℕ
mtc_reg_addresses =
    0x0 ∷ 0x4 ∷ 0x8 ∷ 0xC ∷ 0x10 ∷ 0x14 ∷ 0x18 ∷ 0x1C ∷ 0x20 ∷ 0x24 ∷ 0x28 ∷ 0x2C ∷ 0x30 ∷ 0x34
    ∷ 0x38 ∷ 0x3C ∷ 0x80 ∷ 0x84 ∷ 0x88 ∷ 0x8C ∷ 0x90 ∷ []

-- `0x1<<crateNum`; a shift by 32 or more, or by a negative count, is not defined in C.
abbrev pub one_shift : ℕ → ℕ
one_shift crate_num = 2 ^ crate_num % 2 ^ 32

abbrev pub one_if : Bool → ℕ
one_if b = if b then 1 else 0

-- `snprintf(crates,3,"%i",i)` for a crate's number.
abbrev pub decimal : ℕ → List ℕ
decimal i = if ltb i 10 then (i + 48) ∷ [] else (i / 10 + 48) ∷ (i % 10 + 48) ∷ []

-- The numbers below `n`.
abbrev pub upto : ℕ → List ℕ
upto zero = []
upto (suc n) = upto n ++ n ∷ []

-- The functions that the branches call, with the values of their arguments.
pub data Call (F : Type 0) : Type 0 where
  call_xl3_rw : ℕ → ℕ → ℕ → Call F
  call_crate_init :
      ℕ → ℕ → ℕ → Bool → Bool → Bool → Bool → Bool → Bool → Bool → Bool → ℕ → ℕ → ℕ → Call F
  call_xl3_queue_rw : ℕ → ℕ → ℕ → Call F
  call_sm_reset : ℕ → Call F
  call_debugging_mode : ℕ → ℕ → Call F
  call_change_mode : ℕ → Bool → ℕ → Call F
  call_set_relays : ℕ → ℕ → Call F
  call_get_relays : ℕ → Call F
  call_check_xl3_status : ℕ → Call F
  call_read_local_voltage : ℕ → ℕ → Call F
  call_hv_readback : ℕ → Call F
  call_set_alarm_level : ℕ → F → F → ℕ → ℕ → ℕ → Call F
  call_set_alarm_dac : ℕ → List ℕ → Call F
  call_load_relays : ℕ → List ℕ → Call F
  call_read_bundle : ℕ → ℕ → Bool → Call F
  call_xl3_setup_charge_injection : ℕ → ℕ → ℕ → ℕ → Call F
  call_xl3_loads_dac : ℕ → ℕ → ℕ → ℕ → Call F
  call_mtc_init : Bool → Call F
  call_mtc_read : ℕ → Call F
  call_mtc_write : ℕ → ℕ → Call F
  call_mtc_delay : F → Call F
  call_mtc_load_mtca_dacs : List F → Call F
  call_mtc_enable_pulser : Call F
  call_mtc_disable_pulser : Call F
  call_mtc_enable_pedestal : Call F
  call_mtc_disable_pedestal : Call F
  call_mtc_set_pulser_frequency : F → Call F
  call_mtc_soft_gt : Call F
  call_mtc_multi_soft_gt : ℕ → Call F
  call_board_id : ℕ → ℕ → Bool → Call F
  call_cald_test : ℕ → ℕ → ℕ → ℕ → ℕ → ℕ → Bool → Call F
  call_cgt_test : ℕ → ℕ → ℕ → Bool → Call F
  call_orphan_test : ℕ → ℕ → ℕ → Bool → Call F
  call_chinj_scan : ℕ → ℕ → ℕ → F → ℕ → ℕ → ℕ → F → F → ℕ → Bool → Bool → Call F
  call_crate_cbal : ℕ → ℕ → ℕ → Bool → Call F
  call_disc_check : ℕ → ℕ → ℕ → Bool → Call F
  call_fec_test : ℕ → ℕ → Bool → Call F
  call_fifo_test : ℕ → ℕ → Bool → Call F
  call_gtvalid_test : ℕ → List ℕ → ℕ → F → Bool → Bool → Bool → Bool → Call F
  call_measure_gtvalid_only : ℕ → ℕ → ℕ → ℕ → F → ℕ → Call F
  call_mb_stability_test : ℕ → ℕ → ℕ → Bool → Call F
  call_mem_test : ℕ → ℕ → Bool → Call F
  call_ped_run : ℕ → ℕ → ℕ → F → ℕ → ℕ → ℕ → ℕ → ℕ → Bool → Call F
  call_all_ped_run_by_channel : ℕ → ℕ → ℕ → F → ℕ → ℕ → ℕ → ℕ → ℕ → Bool → Bool → ℕ → Call F
  call_ped_run_by_channel : ℕ → ℕ → ℕ → F → ℕ → ℕ → ℕ → ℕ → ℕ → Bool → Call F
  call_see_reflection : ℕ → ℕ → ℕ → ℕ → F → Bool → Bool → Call F
  call_see_reflection_esum : ℕ → ℕ → ℕ → F → Bool → Call F
  call_trigger_scan : ℕ → List ℕ → ℕ → ℕ → ℕ → ℕ → List ℕ → Bool → Bool → Call F
  call_get_ttot : ℕ → ℕ → ℕ → Bool → Call F
  call_set_ttot : ℕ → ℕ → ℕ → Bool → Call F
  call_vmon : ℕ → ℕ → Bool → Call F
  call_local_vmon : ℕ → Call F
  call_zdisc : ℕ → ℕ → F → ℕ → Bool → Bool → Call F
  call_final_test : ℕ → ℕ → ℕ → Bool → Call F
  call_find_noise : ℕ → List ℕ → F → ℕ → Bool → Bool → Bool → Call F
  call_dac_sweep : ℕ → ℕ → ℕ → ℕ → Bool → Call F
  call_raise_sigint : Call F
  call_sbc_control : Bool → Bool → Bool → List ℕ → Call F
  call_mtc_set_gt_mask : ℕ → Call F
  call_mtc_unset_gt_mask : ℕ → Call F
  call_mtc_set_gt_crate_mask : ℕ → Call F
  call_mtc_unset_gt_crate_mask : ℕ → Call F
  call_mtc_set_ped_crate_mask : ℕ → Call F
  call_mtc_unset_ped_crate_mask : ℕ → Call F
  call_run_pedestals_end : ℕ → Bool → Bool → Call F
  call_run_pedestals : ℕ → List ℕ → ℕ → F → ℕ → ℕ → Bool → Bool → Call F
  call_ecal : ℕ → List ℕ → ℕ → Bool → List ℕ → Bool → Call F
  call_create_fec_docs : ℕ → List ℕ → List ℕ → Call F
  call_mtc_check_queue : Bool → Call F
  call_xl3_check_queue : ℕ → Bool → Call F
  call_parse_macro : List ℕ → Call F
  call_reset_speed : Call F
  call_print_help : List ℕ → Call F
  call_clear_screen : Call F
  call_start_logging : Call F
  call_stop_logging : Call F
  call_print_connected : Call F
  call_set_ecal_bit : ℕ → Call F

-- How a command ends: the help text, a refusal (a board is not connected, or in use, or an argument
-- is rejected), the calls it made, an access past the end of an array, or no such command.
pub data Outcome (F : Type 0) : Type 0 where
  usage : Outcome F
  not_connected : Outcome F
  in_use : Outcome F
  bad_argument : Outcome F
  done : List (Call F) → Outcome F
  fault : Outcome F
  unknown : Outcome F

abbrev pub Handler : Type 0 → Type 0
Handler F = Connections → Outcome F × Connections

module _ {F : Type 0} where
  unfoldable pub unless_help : List ℕ → Handler F → Handler F
  unless_help input h c = if get_flag input b'h' then (usage, c) else h c

  unfoldable pub with_array {ℓ} : {A : Type ℓ} → Option A → (A → Handler F) → Handler F
  with_array none h c = (fault, c)
  with_array (some a) h c = h a c

  unfoldable pub rejected : Handler F
  rejected c = (bad_argument, c)

  -- What the calls do to the connections is a parameter.
  module _ (perform : List (Call F) → Connections → Connections) where
    unfoldable pub direct : List (Call F) → Handler F
    direct calls c = (done calls, perform calls c)

    abbrev pub run_calls : Option (List (Call F)) → ℕ → ℕ → Connections → Outcome F × Connections
    run_calls none sbc mask c = (fault, c)
    run_calls (some calls) sbc mask c =
        (done calls, (unlock_connections sbc mask (perform calls c)).1)

    -- `LockConnections`, the calls, `UnlockConnections`. The calls are none if their arguments read
    -- past the end of a table.
    unfoldable pub guarded : ℕ → ℕ → Option (List (Call F)) → ℕ → ℕ → Handler F
    guarded sbc mask calls unlock_sbc unlock_mask c =
        let r = lock_connections sbc mask c in
        if r.0 == 0
        then run_calls calls unlock_sbc unlock_mask r.1
        else (if ltb 9 r.0 then not_connected else in_use, r.1)
