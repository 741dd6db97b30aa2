-- ===== src/Xl3/Model.antt =====
-- The state of src/xl3/XL3Model.cpp, and the functions that send a packet and take what comes back:
-- `SendCommand`, `GetMultiFCResults`, `GetCaldTestResults`.
use penn_daq.Prelude.{
  ℕ, zero, suc, ◌+◌, ◌-◌, ◌%◌, List, [], ◌∷◌, Bool, true, false, Option, none, some, ◌==◌, ltb,
  ◌&&◌, not, if◌then◌else◌, length, set, get_or,
}
use penn_daq.Xl3.Packet.{Packet, Command, swap_one_long}
use penn_daq.Xl3.Task.{
  Outcome, Task, returned, thrown, lost, ◌>>=◌, ◌>>◌, pure, throw, lift, get, change,
}
use penn_daq.Xl3.Link.{Xl3Link, cmd_ack, kind_of, send_packet, get_next_packet, get_next_cmd_ack}

-- `FECConfiguration`.
pub record FecConfiguration : Type 0 where
  pub mb_id : ℕ
  pub db_id : List ℕ
  pub pmtic_id : ℕ

-- `XL3Model`.
pub record Xl3Model : Type 0 where
  pub crate_num : ℕ
  pub fecs : List FecConfiguration
  pub command_num : ℕ
  pub link : Xl3Link

abbrev pub back : {A : Type 0} → Xl3Model → Outcome Xl3Link A → Outcome Xl3Model A
back x (returned a l) = returned a (record x { link = l })
back x (thrown e l) = thrown e (record x { link = l })
back x lost = lost

abbrev pub on_link : {A : Type 0} → Task Xl3Link A → Task Xl3Model A
on_link m x = back x (m x.link)

abbrev pub max_tries : ℕ
max_tries = 100

-- `packetNum > recvCommandNum && ((65536-packetNum) + recvCommandNum < 5000)`
abbrev pub is_too_high : ℕ → ℕ → Bool
is_too_high packet_num recv_command_num =
    ltb recv_command_num packet_num && ltb (65536 - packet_num + recv_command_num) 5000

-- `GetLastCommandNum`, the command number less one; none stands for -1.
abbrev pub number_before : ℕ → Option ℕ
number_before zero = none
number_before (suc n) = some n

abbrev pub last_command_num : Xl3Model → Option ℕ
last_command_num x = number_before x.command_num

-- `packetNum %= 65536` and the comparison with a `uint16_t`.
abbrev pub same_num : Option ℕ → ℕ → Bool
same_num none n = false
same_num (some packet_num) n = packet_num % 65536 == n

-- A store at place `i` of the caller's array.
abbrev pub store : List ℕ → ℕ → ℕ → Option (List ℕ)
store result i v = if ltb i (length result) then some (set result i v) else none

module _ (need_to_swap : Bool) where
  -- One answer: `more` is the next round. The last one is not looked at.
  abbrev pub on_reply : Task Xl3Link Packet → ℕ → ℕ → Option Packet → Task Xl3Link Packet
  on_reply more type num none = throw "SendCommand: GetNextPacket timed out"
  on_reply more type num (some p) =
      if is_too_high p.packet_num num
      then throw "SendCommand: Packet Num too high"
      else if p.packet_type == type && p.packet_num == num
      then pure p
      else more

  abbrev pub on_last : Option Packet → Task Xl3Link Packet
  on_last none = throw "SendCommand: GetNextPacket timed out"
  on_last (some p) = throw "SendCommand: Got too many wrong packet types"

  -- The loop that waits for the answer, with `tries` packets left that it looks at.
  unfoldable pub reply_loop : ℕ → ℕ → ℕ → ℕ → Task Xl3Link Packet
  reply_loop zero type num timeout = get_next_packet need_to_swap timeout >>= on_last
  reply_loop (suc tries) type num timeout =
      get_next_packet need_to_swap timeout >>= on_reply (reply_loop tries type num timeout) type num

  -- The packet comes back overwritten by the answer.
  unfoldable pub send_command_with : Bool → ℕ → Packet → Task Xl3Model Packet
  send_command_with with_response timeout packet = do
    x ← get
    change (λ y. record y { command_num = suc y.command_num % 65536 })
    sent ← on_link (send_packet need_to_swap (record packet { packet_num = x.command_num }))
    (if with_response
        then on_link (reply_loop max_tries packet.packet_type (x.command_num % 65536) timeout)
        else pure sent)

  abbrev pub send_command : Packet → Task Xl3Model Packet
  send_command = send_command_with true 2

  -- One answer: `more` is the next round, with the command number and the array that it starts from.
  abbrev pub on_ack :
      (ℕ → List ℕ → Task Xl3Link (List ℕ))
      → Option ℕ
      → ℕ
      → List ℕ
      → Option Command
      → Task Xl3Link (List ℕ)
  on_ack more packet_num cmd_num result none = throw "GetMultiFCResults: GetNextCmdAck timed out"
  on_ack more packet_num cmd_num result (some c) =
      if not (same_num packet_num c.packet_num)
      then more cmd_num result
      else if not (c.cmd_num == cmd_num)
      then throw "GetMultiFCResults: Got wrong command number"
      else do written ← lift (store result cmd_num c.data_word); more (suc cmd_num) written

  -- The loop of `GetMultiFCResults`; `started` stays 0 in it.
  unfoldable pub ack_loop : ℕ → ℕ → Option ℕ → ℕ → ℕ → List ℕ → Task Xl3Link (List ℕ)
  ack_loop zero num_cmds packet_num timeout cmd_num result = λ l. lost
  ack_loop (suc fuel) num_cmds packet_num timeout cmd_num result =
      if ltb cmd_num num_cmds
      then get_next_cmd_ack need_to_swap timeout
        >>= on_ack (ack_loop fuel num_cmds packet_num timeout) packet_num cmd_num result
      else pure result

  -- The acknowledgements that can come: those in the queue and those of the packets to arrive.
  abbrev pub acks_in : Option Packet → ℕ
  acks_in none = 0
  acks_in (some p) = elim (kind_of p.packet_type) [
    | cmd_ack ↦ swap_one_long need_to_swap (get_or p.payload 0 0)
    | _ ↦ 0
  ]

  abbrev pub acks_ahead : List (Option Packet) → ℕ
  acks_ahead [] = 0
  acks_ahead (a ∷ arriving) = acks_in a + acks_ahead arriving

  abbrev pub acks_to_come : Xl3Link → ℕ
  acks_to_come l = length l.recv_cmd_queue + acks_ahead l.arriving

  -- Each round takes an acknowledgement, so that their count and one more is fuel enough.
  unfoldable pub get_multi_fc_results : ℕ → Option ℕ → ℕ → List ℕ → Task Xl3Model (List ℕ)
  get_multi_fc_results num_cmds packet_num timeout result =
      on_link (λ l. ack_loop (suc (acks_to_come l)) num_cmds packet_num timeout 0 result l)
