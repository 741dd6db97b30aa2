-- ===== src/Xl3/Link.antt =====
-- src/xl3/XL3Link.cpp below `RecvCallback`: `ProcessPacket`, `SendPacket`, `GetNextPacket`,
-- `GetNextCmdAck` and `CheckQueue`. What is only printed is left out, the times too.
use penn_daq.Prelude.{
  ℕ, zero, suc, ◌+◌, ◌*◌, List, [], ◌∷◌, ◌++◌, Bool, true, false, Option, none, some, ◌==◌, ltb,
  ◌&&◌, if◌then◌else◌, drop, get_or, bit_and,
}
use mathlib.Core.Option
use penn_daq.Swap.{swap_long_block}
use penn_daq.Xl3.Packet.{Packet, packet_of, Command, command_at, swap_one_long, swap_one_short}
use penn_daq.Xl3.Task.{Outcome, Task, returned, lost}
use penn_daq.Xl3.Mega.{Walk, mini_loop}

-- The link: `arriving` is what the receiving thread will do while somebody waits, a packet that it
-- processes or a wait that runs out; `written` has the packets written to the socket, newest first.
pub record Xl3Link : Type 0 where
  pub connected : Bool
  pub print_out : Bool
  pub recv_queue : List Packet
  pub recv_cmd_queue : List Command
  pub mega_bundle_count : ℕ
  pub recv_bytes : ℕ
  pub written : List Packet
  pub arriving : List (Option Packet)

abbrev pub ping_id : ℕ
ping_id = 0xBB

abbrev pub pong_id : ℕ
pong_id = 0x01

abbrev pub message_id : ℕ
message_id = 0xEE

abbrev pub cmd_ack_id : ℕ
cmd_ack_id = 0xDD

abbrev pub mega_bundle_id : ℕ
mega_bundle_id = 0xCC

abbrev pub error_id : ℕ
error_id = 0xFE

abbrev pub screwed_id : ℕ
screwed_id = 0xFF

-- The cases of the `switch`.
pub data PacketKind : Type 0 where
  ping : PacketKind
  message : PacketKind
  cmd_ack : PacketKind
  mega : PacketKind
  error : PacketKind
  screwed : PacketKind
  other : PacketKind

unfoldable pub kind_of : ℕ → PacketKind
kind_of packet_type =
    if packet_type == ping_id
    then ping
    else if packet_type == message_id
    then message
    else if packet_type == cmd_ack_id
    then cmd_ack
    else if packet_type == mega_bundle_id
    then mega
    else if packet_type == error_id
    then error
    else if packet_type == screwed_id
    then screwed
    else other

module _ (need_to_swap : Bool) where
  -- The body of the loop over `commands->cmd`.
  abbrev pub swapped_command : Command → Command
  swapped_command c = record c {
    cmd_num = swap_one_long need_to_swap c.cmd_num;
    packet_num = swap_one_short need_to_swap c.packet_num;
    data_word = swap_one_long need_to_swap c.data_word;
  }

  -- The loop, on `howMany` commands.
  unfoldable pub ack_commands : ℕ → List ℕ → Option (List Command)
  ack_commands zero words = some []
  ack_commands (suc n) words = elim (command_at words) [
    | none ↦ none
    | some c ↦ Option.map (λ cs. swapped_command c ∷ cs) (ack_commands n (drop 4 words))
  ]

  abbrev pub acks_of : List ℕ → Option (List Command)
  acks_of [] = none
  acks_of (how_many ∷ words) = ack_commands (swap_one_long need_to_swap how_many) words

  unfoldable pub command_ack : List ℕ → Xl3Link → Option Xl3Link
  command_ack payload l =
      Option.map (λ cs. record l { recv_cmd_queue = l.recv_cmd_queue ++ cs }) (acks_of payload)

  -- What a walk leaves of the counts; `recvBytes` restarts with the first megabundle counted.
  abbrev pub counted : Walk → Xl3Link → Xl3Link
  counted w l =
      let before = if l.mega_bundle_count == 0 then 0 else l.recv_bytes in
      record l {
        recv_bytes = if ltb 0 w.num_bundles then before + w.num_bundles * 12 else before;
        mega_bundle_count =
            if ltb 0 w.num_bundles then suc l.mega_bundle_count else l.mega_bundle_count;
      }

  abbrev pub words_left : List ℕ → ℕ
  words_left words = bit_and (get_or words 0 0) 0xFFFFFF

  -- Both swaps and the walk.
  unfoldable pub walk_mega : List ℕ → Option Walk
  walk_mega payload = elim (swap_long_block need_to_swap payload 3) [
    | none ↦ none
    | some words ↦ elim (swap_long_block need_to_swap (drop 3 words) (words_left words)) [
      | none ↦ none
      | some minis ↦ mini_loop (words_left words) minis (words_left words) 0
    ]
  ]

  unfoldable pub mega_bundle : List ℕ → Xl3Link → Option Xl3Link
  mega_bundle payload l =
      if l.print_out then Option.map (λ w. counted w l) (walk_mega payload) else some l

  -- None is an access past the end of the packet.
  unfoldable pub process_as : PacketKind → Packet → Xl3Link → Option Xl3Link
  process_as ping p l = some (record l { written = record p { packet_type = pong_id } ∷ l.written })
  process_as message p l = some l
  process_as cmd_ack p l = command_ack p.payload l
  process_as mega p l = mega_bundle p.payload l
  process_as error p l = some l
  process_as screwed p l = some l
  process_as other p l = some (record l { recv_queue = l.recv_queue ++ p ∷ [] })

  unfoldable pub process_packet : Packet → Xl3Link → Option Xl3Link
  process_packet p l = process_as (kind_of p.packet_type) p l

  -- `ProcessPacket` on the bytes that `RecvCallback` hands it.
  abbrev pub process_bytes : List ℕ → Option Xl3Link → Option Xl3Link
  process_bytes bytes none = none
  process_bytes bytes (some l) = process_packet (packet_of bytes) l

  -- It returns 0 on both branches; a link that is not connected sends nothing.
  unfoldable pub send_packet : Packet → Task Xl3Link Packet
  send_packet p l =
      let sent = record p { packet_num = swap_one_short need_to_swap p.packet_num } in
      if l.connected then returned sent (record l { written = sent ∷ l.written }) else returned p l

  -- Waiting on the condition until `take` finds something. With `bounded` the wait runs out, at the
  -- latest when nothing arrives any more; otherwise it goes on.
  module _ {A : Type 0} (take_front : Xl3Link → Option (A × Xl3Link)) (bounded : Bool) where
    abbrev pub found : List (Option Packet) → A × Xl3Link → Outcome Xl3Link (Option A)
    found arriving taken = returned (some taken.0) (record taken.1 { arriving = arriving })

    unfoldable pub wait_loop : List (Option Packet) → Task Xl3Link (Option A)
    wait_loop [] l = elim (take_front l) [
      | some taken ↦ found [] taken
      | none ↦ (if bounded then returned none (record l { arriving = [] }) else lost)
    ]
    wait_loop (none ∷ arriving) l =
        let rest = wait_loop arriving l in
        elim (take_front l) [
          | some taken ↦ found (none ∷ arriving) taken
          | none ↦ (if bounded then returned none (record l { arriving = arriving }) else rest)
        ]
    wait_loop (some p ∷ arriving) l = elim (take_front l) [
      | some taken ↦ found (some p ∷ arriving) taken
      | none ↦ elim (process_packet p l) [ none ↦ lost | some l' ↦ wait_loop arriving l' ]
    ]

  abbrev pub front_packet : Xl3Link → Option (Packet × Xl3Link)
  front_packet l = elim l.recv_queue [
    | [] ↦ none
    | p ∷ ps ↦ some (
      record p { packet_num = swap_one_short need_to_swap p.packet_num },
      record l { recv_queue = ps },
    )
  ]

  abbrev pub front_command : Xl3Link → Option (Command × Xl3Link)
  front_command l = elim l.recv_cmd_queue [
    | [] ↦ none
    | c ∷ cs ↦ some (c, record l { recv_cmd_queue = cs })
  ]

  -- None is the return value 1, some packet the value 0.
  unfoldable pub get_next_packet : ℕ → Task Xl3Link (Option Packet)
  get_next_packet wait_seconds l =
      if l.connected
      then wait_loop front_packet (ltb 0 wait_seconds) l.arriving l
      else returned none l

  unfoldable pub get_next_cmd_ack : ℕ → Task Xl3Link (Option Command)
  get_next_cmd_ack wait_seconds l =
      if l.connected
      then wait_loop front_command (ltb 0 wait_seconds) l.arriving l
      else returned none l

-- The values 0, -1, -2 and -3 that `CheckQueue` returns.
pub data QueueCheck : Type 0 where
  nothing_left : QueueCheck
  emptied : QueueCheck
  not_empty : QueueCheck
  bytes_pending : QueueCheck

abbrev pub is_empty : {A : Type 0} → List A → Bool
is_empty [] = true
is_empty (x ∷ xs) = false

-- `fBytesLeft` belongs to the receiver.
unfoldable pub check_queue : ℕ → Bool → Xl3Link → QueueCheck × Xl3Link
check_queue bytes_left empty l =
    if is_empty l.recv_queue && is_empty l.recv_cmd_queue
    then ((if ltb 0 bytes_left then bytes_pending else nothing_left), l)
    else if empty
    then (emptied, record l { recv_queue = []; recv_cmd_queue = [] })
    else (not_empty, l)
