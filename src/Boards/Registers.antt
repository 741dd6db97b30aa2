-- ===== src/Boards/Registers.antt =====
-- src/tests/FECTest.cpp and src/tests/MemTest.cpp.
use Prim.Native.String.{String}
use penn_daq.Prelude.{
  ℕ, zero, suc, ◌+◌, ◌^◌, List, [], ◌∷◌, ◌++◌, map, Bool, true, Option, none, some, not, ◌==◌, ◌&&◌,
  if◌then◌else◌, get_or,
}
use penn_daq.Swap.{swap_long_block}
use penn_daq.Locks.{selected}
use penn_daq.Controller.Commands.{upto}
use penn_daq.Xl3.Packet.{Packet, put_words}
use penn_daq.Xl3.Task.{Outcome, Task, returned, thrown, lost, ◌>>=◌, ◌>>◌, pure, lift, change}
use penn_daq.Xl3.Model.{Xl3Model, send_command_with}
use penn_daq.Xl3.Crate.{ask, typed, update_crate_config}
use penn_daq.Xl3.Cmds.{zero_packet}

-- What a test comes to: the documents it posts, and the exception that it prints.
pub record Tested (D : Type 0) : Type 0 where
  pub docs : List D
  pub ended_by : Option String

abbrev pub posted : {D : Type 0} → List D → Tested D
posted docs = record { docs = docs; ended_by = none }

abbrev pub tested : {D : Type 0} → Outcome Xl3Model (Tested D) → Outcome Xl3Model (Tested D)
tested (returned r x) = returned r x
tested (thrown e x) = returned (record { docs = []; ended_by = some e }) x
tested lost = lost

abbrev pub testing : {D : Type 0} → Task Xl3Model (Tested D) → Task Xl3Model (Tested D)
testing m x = tested (m x)

-- The slots of a mask from `i` on, of the next `n`.
abbrev pub slots_from : ℕ → ℕ → ℕ → List ℕ
slots_from zero i mask = []
slots_from (suc n) i mask =
    let rest = slots_from n (suc i) mask in if selected mask i then i ∷ rest else rest

abbrev pub slots_of : ℕ → List ℕ
slots_of mask = slots_from 16 0 mask

abbrev pub fec_test_id : ℕ
fec_test_id = 0x60

abbrev pub mem_test_id : ℕ
mem_test_id = 0x61

-- The document `fec_test`: which registers read back what was written.
pub record FecDoc : Type 0 where
  pub slot : ℕ
  pub pedestal : Bool
  pub chip_disable : Bool
  pub lgi_select : Bool
  pub cmos_prog_low : Bool
  pub cmos_prog_high : Bool
  pub cmos_test_reg : List Bool
  pub pass : Bool

-- `!(errors & (0x1 << k))`
abbrev pub bit_clear : ℕ → ℕ → Bool
bit_clear errors k = not (selected errors k)

unfoldable pub fec_doc : ℕ → ℕ → ℕ → FecDoc
fec_doc slot discrete cmos = record {
  slot = slot;
  pedestal = bit_clear discrete 0;
  chip_disable = bit_clear discrete 1;
  lgi_select = bit_clear discrete 2;
  cmos_prog_low = bit_clear discrete 3;
  cmos_prog_high = bit_clear discrete 4;
  cmos_test_reg = map (bit_clear cmos) (upto 32) ++ (cmos == 0) ∷ [];
  pass = (discrete == 0) && (cmos == 0);
}

-- `FECTestResults`: a word of flags, then the discrete and the cmos errors of each slot.
abbrev pub fec_docs : ℕ → List ℕ → List FecDoc
fec_docs slot_mask results =
    map (λ slot. fec_doc slot (get_or results (1 + slot) 0) (get_or results (17 + slot) 0))
      (slots_of slot_mask)

-- The document `mem_test`.
pub record MemDoc : Type 0 where
  pub slot : ℕ
  pub address_test_ok : List Bool
  pub error : Bool
  pub error_location : ℕ
  pub expected_data : ℕ
  pub read_data : ℕ
  pub pass : Bool

-- `MemTestResults`: a word of flags, the address bits that failed, where, what was expected and read.
unfoldable pub mem_doc : ℕ → List ℕ → MemDoc
mem_doc slot results = record {
  slot = slot;
  address_test_ok = map (bit_clear (get_or results 1 0)) (upto 20);
  error = not (get_or results 2 0 == 0xFFFFFFFF);
  error_location = get_or results 2 0;
  expected_data = get_or results 3 0;
  read_data = get_or results 4 0;
  pass = (get_or results 1 0 == 0) && (get_or results 2 0 == 0xFFFFFFFF);
}

module _ (need_to_swap : Bool) (stack : Packet) where
  -- `crate_init` is what the call of `CrateInit` at the end does, which catches its exceptions.
  unfoldable pub fec_test : ℕ → Bool → (Xl3Model → Xl3Model) → Task Xl3Model (Tested FecDoc)
  fec_test slot_mask update_db crate_init = testing (do
    reply ← ask need_to_swap zero_packet fec_test_id (slot_mask ∷ []) 1
    results ← lift (swap_long_block need_to_swap reply.payload 33)
    change crate_init
    pure (posted (if update_db then fec_docs slot_mask results else [])))

  unfoldable pub mem_test : ℕ → Bool → Task Xl3Model (Tested MemDoc)
  mem_test slot_num update_db = testing (do
    update_crate_config need_to_swap stack (2 ^ slot_num)
    args ← lift (swap_long_block need_to_swap (slot_words slot_num) 1)
    reply ← send_command_with need_to_swap true 30 (typed need_to_swap stack mem_test_id args)
    results ← lift (swap_long_block need_to_swap reply.payload 5)
    pure (posted (if update_db then mem_doc slot_num results ∷ [] else [])))
    where
      slot_words : ℕ → List ℕ
      slot_words slot_num = put_words 0 (slot_num ∷ []) stack.payload
