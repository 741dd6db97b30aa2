-- ===== src/Xl3/Readout.antt =====
-- `XL3Model::ReadOutBundles` of src/xl3/XL3Model.cpp. Its counters are 32-bit words; an `int` is
-- negative from 2 ^ 31 on.
use penn_daq.Prelude.{
  ℕ, zero, suc, ◌+◌, ◌-◌, ◌*◌, ◌/◌, ◌%◌, ◌^◌, List, [], ◌∷◌, ◌++◌, Bool, Option, none, some, ◌==◌,
  ltb, leb, ◌&&◌, if◌then◌else◌, length, take, drop, bit_and,
}
use penn_daq.Controller.Commands.{fec_sel, read_reg}
use penn_daq.Xl3.Packet.{Packet}
use penn_daq.Xl3.Task.{Task, lost, ◌>>=◌, ◌>>◌, pure, lift, get}
use penn_daq.Xl3.Model.{Xl3Model, last_command_num, get_multi_fc_results}
use penn_daq.Xl3.Crate.{rw_reg, deselect_fecs, ask, first_result}

abbrev pub fifo_diff_ptr_r : ℕ
fifo_diff_ptr_r = 0x9e

abbrev pub read_pedestals_id : ℕ
read_pedestals_id = 0x2A

abbrev pub max_fec_commands : ℕ
max_fec_commands = 60000

-- How many reads are asked for: `readsLeft > MAX_FEC_COMMANDS-1000` compares `int`s.
abbrev pub next_read : ℕ → ℕ
next_read reads_left =
    if ltb (max_fec_commands - 1000) reads_left && ltb reads_left (2 ^ 31)
    then max_fec_commands - 1000
    else reads_left

-- The words to read: a whole number of bundles, and with `checkLimit` no more than `limit` of them.
abbrev pub words_to_read : ℕ → ℕ → Bool → ℕ
words_to_read level limit check_limit =
    let memory = bit_and level 0xFFFFF in
    let diff = memory - memory % 3 in
    if check_limit && ltb (3 * limit % 2 ^ 32) diff then 3 * limit % 2 ^ 32 else diff

-- `GetMultiFCResults` into `pmtBuffer` from a place on; none past the end.
abbrev pub from_place : ℕ → List ℕ → Option (List ℕ)
from_place place buffer = if leb place (length buffer) then some (drop place buffer) else none

module _ (need_to_swap : Bool) (stack : Packet) where
  -- One round; `more` is the next one, on the reads left and the buffer.
  abbrev pub read_round :
      (ℕ → List ℕ → Task Xl3Model (List ℕ)) → ℕ → ℕ → ℕ → List ℕ → Task Xl3Model (List ℕ)
  read_round more slot_num diff reads_left buffer = do
    reply ← ask need_to_swap stack read_pedestals_id (slot_num ∷ next_read reads_left ∷ []) 2
    this_read ← first_result need_to_swap stack 1 reply
    (if ltb 0 this_read && ltb this_read (2 ^ 31)
        then (do
          x ← get
          rest ← lift (from_place ((diff + 2 ^ 32 - reads_left) % 2 ^ 32) buffer)
          results ← get_multi_fc_results need_to_swap this_read (last_command_num x) 2 rest
          more ((reads_left + 2 ^ 32 - this_read) % 2 ^ 32)
              (take ((diff + 2 ^ 32 - reads_left) % 2 ^ 32) buffer ++ results))
        else more reads_left buffer)

  -- `while (readsLeft != 0)`
  unfoldable pub readout_loop : ℕ → ℕ → ℕ → ℕ → List ℕ → Task Xl3Model (List ℕ)
  readout_loop zero slot_num diff reads_left buffer = λ x. lost
  readout_loop (suc fuel) slot_num diff reads_left buffer =
      if reads_left == 0
      then pure buffer
      else read_round (readout_loop fuel slot_num diff) slot_num diff reads_left buffer

  -- The count of bundles and the buffer; the loop has as many rounds as answers can come, and one
  -- more.
  unfoldable pub read_out_bundles : ℕ → List ℕ → ℕ → Bool → Task Xl3Model (ℕ × List ℕ)
  read_out_bundles slot_num pmt_buffer limit check_limit = do
    level ← rw_reg need_to_swap stack (fifo_diff_ptr_r + fec_sel * slot_num + read_reg) 0x0
    x ← get
    buffer ←
        readout_loop (suc (suc (length x.link.recv_queue + length x.link.arriving))) slot_num
          (words_to_read level.1 limit check_limit) (words_to_read level.1 limit check_limit)
          pmt_buffer
    deselect_fecs need_to_swap stack
    pure (words_to_read level.1 limit check_limit / 3, buffer)
