-- ===== src/Mtc/Packet.antt =====
-- Packets to the single-board computer that drives the MTC, src/net/MTCPacketTypes.h, and
-- `SendCommand`, `RegWrite` and `RegRead` of src/mtc/MTCModel.cpp. The packets sent so far, newest
-- first, are the state. What `GetNextPacket` finds in the queue is a parameter: given the packets
-- sent, the word at the place of the first data word of the answer, or none if the wait times out.
use penn_daq.Prelude.{
  ℕ, ◌+◌, ◌%◌, ◌^◌, List, ◌∷◌, Option, none, some, returned, thrown, Action, pure, ◌>>◌,
}

-- `SBCPacket` with a `SBCVmeWriteBlockStruct` or a `SBCVmeReadBlockStruct` as its payload; `word` is
-- the data word behind the block, none where the program leaves what `malloc` gave. The message,
-- and the error code of the block, are not set by the program.
pub record SbcPacket : Type 0 where
  pub num_bytes : ℕ
  pub destination : ℕ
  pub cmd_id : ℕ
  pub number_bytes_in_payload : ℕ
  pub address : ℕ
  pub address_modifier : ℕ
  pub address_space : ℕ
  pub unit_size : ℕ
  pub num_items : ℕ
  pub word : Option ℕ

abbrev pub Sent : Type 0
Sent = List SbcPacket

-- `sizeof(SBCVmeWriteBlockStruct)` and `sizeof(SBCVmeReadBlockStruct)`.
abbrev pub block_size : ℕ
block_size = 24

abbrev pub mtc_reg_address_base : ℕ
mtc_reg_address_base = 0x00007000

abbrev pub mtc_reg_address_mod : ℕ
mtc_reg_address_mod = 0x29

abbrev pub mtc_reg_address_space : ℕ
mtc_reg_address_space = 0x01

abbrev pub mtc_read_id : ℕ
mtc_read_id = 0x2

abbrev pub mtc_write_id : ℕ
mtc_write_id = 0x3

-- A packet to a register; `SendPacket` fills in `num_bytes`.
abbrev pub vme_packet : ℕ → ℕ → ℕ → ℕ → Option ℕ → SbcPacket
vme_packet destination cmd_id address num_items word = record {
  num_bytes = block_size + 4 + 4 + 12 + 256;
  destination = destination;
  cmd_id = cmd_id;
  number_bytes_in_payload = block_size + 4;
  address = (address + mtc_reg_address_base) % 2 ^ 32;
  address_modifier = mtc_reg_address_mod;
  address_space = mtc_reg_address_space;
  unit_size = 4;
  num_items = num_items;
  word = word;
}

abbrev pub write_packet : ℕ → ℕ → SbcPacket
write_packet address word = vme_packet 0x1 mtc_write_id address 1 (some word)

abbrev pub read_packet : ℕ → SbcPacket
read_packet address = vme_packet 0x1 mtc_read_id address 1 none

module _ (answer : Sent → Option ℕ) where
  -- `SendCommand` with its default of a response: the packet is sent, and the answer replaces it.
  unfoldable pub send_command : SbcPacket → Action Sent ℕ
  send_command packet sent = elim (answer (packet ∷ sent)) [
    | none ↦ (thrown "Time out waiting for GetNextPacket", packet ∷ sent)
    | some word ↦ (returned word, packet ∷ sent)
  ]

  unfoldable pub reg_write : ℕ → ℕ → Action Sent Unit
  unfolding send_command
  reg_write address word = do send_command (write_packet address word); pure tt

  unfoldable pub reg_read : ℕ → Action Sent ℕ
  unfolding send_command
  reg_read address = send_command (read_packet address)
