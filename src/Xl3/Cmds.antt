-- ===== src/Xl3/Cmds.antt =====
-- The commands of src/xl3/XL3Cmds.cpp on one crate, `CrateInit` and the conversions of voltages left
-- out. A command prints what it found and returns 0, also when an exception ended it; what it prints
-- is its result here.
use Prim.Native.String.{String}
use penn_daq.Prelude.{
  ℕ, zero, suc, ◌+◌, ◌*◌, ◌/◌, ◌%◌, ◌^◌, List, [], ◌∷◌, ◌++◌, Bool, ◌==◌, ltb, ◌&&◌, not,
  if◌then◌else◌, take, replicate, get_or, set,
}
use penn_daq.Swap.{swap_long_block}
use penn_daq.Bundle.{
  Words, crate_id, board_id, channel_id, cell_id, gt8_id, gt16_id, cmos_es16, cgt_es16, cgt_es24,
  nc_cc, my_qlx, qhs, qhl, tac,
}
use penn_daq.Locks.{selected}
use penn_daq.Controller.Commands.{fec_sel, write_reg}
use penn_daq.Xl3.Packet.{Packet, swap_one_long, low_short, put_words}
use penn_daq.Xl3.Task.{Outcome, Task, returned, thrown, lost, ◌>>=◌, ◌>>◌, pure, lift, get}
use penn_daq.Xl3.Model.{Xl3Model, send_command, last_command_num, get_multi_fc_results}
use penn_daq.Xl3.Crate.{rw_reg, ask, typed, change_mode_id, set_alarm_dacs}

pub data Report : Type 0 where
  shown : List ℕ → Report
  bus_errors : ℕ → Report
  failed : String → Report

-- `catch(const char* s)`, with a handler that prints.
abbrev pub caught : Outcome Xl3Model Report → Outcome Xl3Model Report
caught (returned r x) = returned r x
caught (thrown e x) = returned (failed e) x
caught lost = lost

abbrev pub catching : Task Xl3Model Report → Task Xl3Model Report
catching m x = caught (m x)

abbrev pub queue_cmds_id : ℕ
queue_cmds_id = 0x22

abbrev pub state_machine_reset_id : ℕ
state_machine_reset_id = 0x03

abbrev pub debugging_mode_id : ℕ
debugging_mode_id = 0x04

abbrev pub check_xl3_state_id : ℕ
check_xl3_state_id = 0x06

abbrev pub read_local_voltage_id : ℕ
read_local_voltage_id = 0x2D

abbrev pub set_alarm_levels_id : ℕ
set_alarm_levels_id = 0x30

abbrev pub set_hv_relays_id : ℕ
set_hv_relays_id = 0x40

abbrev pub get_hv_relays_id : ℕ
get_hv_relays_id = 0x41

abbrev pub hv_readback_id : ℕ
hv_readback_id = 0x42

abbrev pub init_mode : ℕ
init_mode = 0x1

abbrev pub normal_mode : ℕ
normal_mode = 0x2

abbrev pub xl_relay_r : ℕ
xl_relay_r = 0x02000005

abbrev pub read_mem : ℕ
read_mem = 0x30000000

-- `memset(&packet, 0, sizeof(XL3Packet))`
abbrev pub zero_packet : Packet
zero_packet = record { packet_num = 0; packet_type = 0; num_bundles = 0; payload = replicate 360 0 }

-- What the code computes with `float`: the bits of one, `== -999.0`, and a whole constant.
pub record LevelFloats (F : Type 0) : Type 0 where
  pub bits : F → ℕ
  pub is_unset : F → Bool
  pub positive : ℕ → F
  pub negative : ℕ → F

-- The levels that all six alarms are set to: the high ones, then the low ones.
abbrev pub standard_levels : {F : Type 0} → LevelFloats F → List F
standard_levels floats =
    floats.positive 7
    ∷ floats.negative 2
    ∷ floats.positive 28
    ∷ floats.negative 20
    ∷ floats.positive 5
    ∷ floats.positive 60
    ∷ floats.positive 2
    ∷ floats.negative 7
    ∷ floats.positive 20
    ∷ floats.negative 28
    ∷ floats.negative 5
    ∷ floats.positive 0
    ∷ []

abbrev pub map_bits : {F : Type 0} → LevelFloats F → List F → List ℕ
map_bits floats [] = []
map_bits floats (x ∷ xs) = floats.bits x ∷ map_bits floats xs

-- One bound of one alarm: a level given wins over a dac setting.
unfoldable pub set_bound : {F : Type 0} → LevelFloats F → ℕ → ℕ → F → ℕ → List ℕ → List ℕ
set_bound floats level_place dac_place voltage dac words =
    if floats.is_unset voltage && not (dac == 0xFFFFFFFF)
    then set words dac_place dac
    else if not (floats.is_unset voltage)
    then set words level_place (floats.bits voltage)
    else words

-- `SetAlarmLevelsArgs`: six high levels, six low levels, six high dacs and six low dacs. An alarm
-- that is not 0 to 5 sets all levels.
unfoldable pub alarm_args : {F : Type 0} → LevelFloats F → F → F → ℕ → ℕ → ℕ → List ℕ
alarm_args floats low_voltage high_voltage low_dac high_dac alarm =
    let unset = replicate 12 (floats.bits (floats.negative 999)) ++ replicate 12 0xFFFFFFFF in
    if ltb alarm 6
    then set_bound floats alarm (12 + alarm) high_voltage high_dac
        (set_bound floats (6 + alarm) (18 + alarm) low_voltage low_dac unset)
    else map_bits floats (standard_levels floats) ++ replicate 12 0xFFFFFFFF

-- The fields of a bundle as they are printed.
abbrev pub bundle_fields : Words → List ℕ
bundle_fields w =
    crate_id w
    ∷ board_id w
    ∷ channel_id w
    ∷ cell_id w
    ∷ gt8_id w
    ∷ gt16_id w
    ∷ cmos_es16 w
    ∷ cgt_es16 w
    ∷ cgt_es24 w
    ∷ nc_cc w
    ∷ my_qlx w
    ∷ qhs w
    ∷ qhl w
    ∷ tac w
    ∷ []

module _ (need_to_swap : Bool) (stack : Packet) where
  abbrev pub report_rw : ℕ → ℕ × ℕ → Report
  report_rw address answer =
      if answer.0 == 0 then shown (address ∷ answer.1 ∷ []) else bus_errors answer.0

  unfoldable pub xl3_rw : ℕ → ℕ → Task Xl3Model Report
  xl3_rw address data_word =
      catching
        (do answer ← rw_reg need_to_swap stack address data_word; pure (report_rw address answer))

  unfoldable pub xl3_queue_rw : ℕ → ℕ → Task Xl3Model Report
  xl3_queue_rw address data_word = catching (do
    send_command need_to_swap (
        typed need_to_swap stack queue_cmds_id (
          put_words 2
            (low_short (get_or stack.payload 2 0)
              ∷ swap_one_long need_to_swap address
              ∷ swap_one_long need_to_swap data_word
              ∷ [])
            (set stack.payload 0 (swap_one_long need_to_swap 1))))
    x ← get
    result ← get_multi_fc_results need_to_swap 1 (last_command_num x) 2 (0 ∷ [])
    pure (shown result))

  unfoldable pub sm_reset : Task Xl3Model Report
  sm_reset = catching (
      send_command need_to_swap (typed need_to_swap stack state_machine_reset_id stack.payload)
      >> pure (shown []))

  unfoldable pub debugging_mode : ℕ → Task Xl3Model Report
  debugging_mode on =
      catching (ask need_to_swap stack debugging_mode_id (on ∷ []) 1 >> pure (shown []))

  -- The two words of a 64-bit mask.
  unfoldable pub set_relays : ℕ → Task Xl3Model Report
  set_relays mask = catching (do
    reply ←
        ask need_to_swap zero_packet set_hv_relays_id (mask % 2 ^ 32 ∷ mask / 2 ^ 32 % 2 ^ 32 ∷ [])
          2
    pure
        (if get_or reply.payload 0 0 == 0 then shown [] else bus_errors (get_or reply.payload 0 0)))

  -- Nothing is shown when the relays are not known.
  unfoldable pub get_relays : Task Xl3Model Report
  get_relays = catching (do
    reply ← ask need_to_swap zero_packet get_hv_relays_id [] 0
    results ← lift (swap_long_block need_to_swap reply.payload 3)
    pure (shown (if get_or results 2 0 == 0 then [] else take 2 results)))

  unfoldable pub change_mode_command : ℕ → ℕ → Task Xl3Model Report
  change_mode_command mode data_avail_mask = catching (
      ask need_to_swap stack change_mode_id
        ((if mode == 0 then init_mode else normal_mode) ∷ data_avail_mask ∷ []) 2
      >> pure (shown []))

  -- The bits of a `float`.
  unfoldable pub read_local_voltage : ℕ → Task Xl3Model Report
  read_local_voltage voltage = catching (do
    reply ← ask need_to_swap stack read_local_voltage_id (voltage ∷ []) 1
    results ← lift (swap_long_block need_to_swap reply.payload 2)
    pure (shown (get_or results 1 0 ∷ [])))

  -- The bits of four `float`s.
  unfoldable pub hv_readback : Task Xl3Model Report
  hv_readback = catching (do
    reply ← ask need_to_swap stack hv_readback_id [] 0
    results ← lift (swap_long_block need_to_swap reply.payload 5)
    pure (shown (take 4 results)))

  unfoldable pub set_alarm_dac : List ℕ → Task Xl3Model Report
  set_alarm_dac dacs = catching (set_alarm_dacs need_to_swap stack dacs >> pure (shown []))

  unfoldable pub set_alarm_level :
      {F : Type 0} → LevelFloats F → F → F → ℕ → ℕ → ℕ → Task Xl3Model Report
  set_alarm_level floats low_voltage high_voltage low_dac high_dac alarm = catching (
      ask need_to_swap stack set_alarm_levels_id
        (alarm_args floats low_voltage high_voltage low_dac high_dac alarm) 24
      >> pure (shown []))

  abbrev pub write_relay : ℕ → Task Xl3Model (ℕ × ℕ)
  write_relay v = rw_reg need_to_swap stack (xl_relay_r + write_reg) v

  -- One bit: data in 0x2, clock in 0x8.
  abbrev pub clock_relay : Bool → Task Xl3Model (ℕ × ℕ)
  clock_relay on =
      if on
      then write_relay 0x2 >> write_relay 0xA >> write_relay 0x2
      else write_relay 0x0 >> write_relay 0x8 >> write_relay 0x0

  -- The loop over `n` bits of a pattern, from bit `j` on.
  unfoldable pub clock_bits : ℕ → ℕ → ℕ → Task Xl3Model Unit
  clock_bits zero j pattern = pure tt
  clock_bits (suc n) j pattern = clock_relay (selected pattern j) >> clock_bits n (suc j) pattern

  -- The loop over the patterns; none past the end of the array.
  unfoldable pub clock_patterns : ℕ → List ℕ → Task Xl3Model Unit
  clock_patterns zero patterns = pure tt
  clock_patterns (suc n) [] = λ x. lost
  clock_patterns (suc n) (p ∷ patterns) = clock_bits 4 0 p >> clock_patterns n patterns

  unfoldable pub load_relays : List ℕ → Task Xl3Model Report
  load_relays patterns = catching (clock_patterns 16 patterns >> write_relay 0x4 >> pure (shown []))

  -- Bus errors return -1.
  unfoldable pub read_bundle : ℕ → Bool → Task Xl3Model Report
  read_bundle slot_num quiet = catching (do
    first ← rw_reg need_to_swap stack (read_mem + slot_num * fec_sel) 0x0
    second ← rw_reg need_to_swap stack (read_mem + slot_num * fec_sel) 0x0
    third ← rw_reg need_to_swap stack (read_mem + slot_num * fec_sel) 0x0
    pure (
        if first.0 + second.0 + third.0 == 0
        then shown (
            first.1
            ∷ second.1
            ∷ third.1
            ∷ (if quiet
                then []
                else bundle_fields (record { word0 = first.1; word1 = second.1; word2 = third.1 })))
        else bus_errors (first.0 + second.0 + third.0)))

  -- The answer is printed as it came: mode, debugging mode, mask, both words of the clock, and
  -- whether the board is initialised.
  unfoldable pub check_xl3_status : Task Xl3Model Report
  check_xl3_status = catching (do
    reply ← send_command need_to_swap (typed need_to_swap stack check_xl3_state_id stack.payload)
    pure (shown (take 6 reply.payload)))
