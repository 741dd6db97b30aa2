-- ===== src/Boards/Identity.antt =====
-- src/tests/BoardID.cpp: the identity of each board in the slots of a mask.
use penn_daq.Prelude.{
  ℕ, zero, suc, ◌-◌, ◌%◌, ◌^◌, List, [], ◌∷◌, ◌++◌, Bool, not, ◌==◌, ltb, ◌&&◌, if◌then◌else◌,
  get_or, bit_and,
}
use penn_daq.Swap.{swap_long_block}
use penn_daq.Xl3.Packet.{Packet, put_words}
use penn_daq.Xl3.Task.{Task, ◌>>=◌, pure, lift}
use penn_daq.Xl3.Model.{Xl3Model, send_command}
use penn_daq.Xl3.Cmds.{zero_packet}
use penn_daq.Boards.Registers.{Tested, posted, testing, slots_of}

abbrev pub board_id_read_id : ℕ
board_id_read_id = 0x63

-- `ids`, `slots` and `positions` of one board that was found.
pub record Found : Type 0 where
  pub id : ℕ
  pub slot : ℕ
  pub position : ℕ

-- The chip 1 is the mother board, 2 to 5 the daughter boards, 6 the PMT interface card.
unfoldable pub is_board : ℕ → ℕ → Bool
is_board chip id =
    if chip == 1
    then bit_and id 0xF000 == 0xF000 && not (id == 0xFFFF)
    else if ltb chip 6
    then bit_and id 0xF000 == 0xD000
    else bit_and id 0xF000 == 0xE000

module _ (need_to_swap : Bool) where
  -- The packet is used again with the words that the last answer left in it.
  unfoldable pub read_id : ℕ → ℕ → Packet → Task Xl3Model Packet
  read_id slot chip packet = do
    args ←
        lift (swap_long_block need_to_swap (put_words 0 (slot ∷ chip ∷ 15 ∷ []) packet.payload) 3)
    reply ←
        send_command need_to_swap (record packet { packet_type = board_id_read_id; payload = args })
    results ← lift (swap_long_block need_to_swap reply.payload 2)
    pure (record reply { payload = results })

  -- The loop over `n` chips from `chip` on, with the boards found so far.
  unfoldable pub read_chips : ℕ → ℕ → ℕ → Packet → List Found → Task Xl3Model (Packet × List Found)
  read_chips zero slot chip packet found = pure (packet, found)
  read_chips (suc n) slot chip packet found = do
    reply ← read_id slot chip packet
    read_chips n slot (suc chip) reply (
        if is_board chip (get_or reply.payload 0 0)
        then found
          ++ record { id = get_or reply.payload 0 0 % 2 ^ 16; slot = slot; position = chip - 1 }
            ∷ []
        else found)

  unfoldable pub read_slots : List ℕ → Packet → List Found → Task Xl3Model (List Found)
  read_slots [] packet found = pure found
  read_slots (slot ∷ slots) packet found = do
    next ← read_chips 6 slot 1 packet found
    read_slots slots next.0 next.1

  -- The boards whose locations are updated.
  unfoldable pub board_id : ℕ → Bool → Task Xl3Model (Tested Found)
  board_id slot_mask update_location = testing (do
    found ← read_slots (slots_of slot_mask) zero_packet []
    pure (posted (if update_location then found else [])))
