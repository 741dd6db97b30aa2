-- ===== src/Xl3/Fetch.antt =====
-- `GetNextPacket` and `GetNextCmdAck` of src/xl3/XL3Link.cpp take the packets and the acknowledgements
-- in the order of their arrival.
use penn_daq.Prelude.{ℕ, ◌<◌, ◌≡◌, refl, subst, sym, List, [], ◌∷◌, Bool, true, Option, All, lt→ltb}
use penn_daq.Xl3.Packet.{Packet, Command, swap_one_short}
use penn_daq.Xl3.Task.{Outcome}
use penn_daq.Xl3.Link.{
  Xl3Link, wait_loop, front_packet, front_command, get_next_packet, get_next_cmd_ack,
}
use penn_daq.Xl3.Arrivals.{IsWhole, packets_as, commands_as}
use penn_daq.Xl3.Waiting.{to_come, Front, no_front, a_front, Waited, wait_loop-Waited}

module _ (need_to_swap : Bool) where
  -- The packet as `GetNextPacket` hands it on.
  abbrev pub numbered : Packet → Packet
  numbered p = record p { packet_num = swap_one_short need_to_swap p.packet_num }

  -- The packets and the acknowledgements to come, in order.
  abbrev pub packets_to_come : Xl3Link → List Packet
  packets_to_come =
      to_come need_to_swap (λ l. l.recv_queue) (packets_as need_to_swap) numbered
        (front_packet need_to_swap)

  abbrev pub commands_to_come : Xl3Link → List Command
  commands_to_come =
      to_come need_to_swap (λ l. l.recv_cmd_queue) (commands_as need_to_swap) (λ c. c)
        (front_command need_to_swap)

  abbrev pub PacketWaited : Xl3Link → Outcome Xl3Link (Option Packet) → Type 0
  PacketWaited l o =
      Waited need_to_swap (λ l. l.recv_queue) (packets_as need_to_swap) numbered
        (front_packet need_to_swap) l.arriving l o

  abbrev pub CommandWaited : Xl3Link → Outcome Xl3Link (Option Command) → Type 0
  CommandWaited l o =
      Waited need_to_swap (λ l. l.recv_cmd_queue) (commands_as need_to_swap) (λ c. c)
        (front_command need_to_swap) l.arriving l o

  -- `GetNextPacket` with a time limit always comes back, when the packets that arrive are read to
  -- their end; it hands on the oldest packet that is neither a ping nor a message nor any other that
  -- the link keeps for itself, and leaves all others in their order.
  pub get_next_packet-Waited :
      (wait_seconds : ℕ) (l : Xl3Link)
      → 0 < wait_seconds
      → l.connected ≡ true
      → All (IsWhole need_to_swap) l.arriving
      → PacketWaited l (get_next_packet need_to_swap wait_seconds l)
  unfolding get_next_packet
  get_next_packet-Waited wait_seconds l pos c h =
      subst (λ o. PacketWaited l o) (sym waits)
        (wait_loop-Waited need_to_swap (λ l. l.recv_queue) (packets_as need_to_swap) numbered
          (front_packet need_to_swap) packet_front (λ l arriving. refl) (λ k p l d. d.packets)
          l.arriving l h)
    where
      waits :
          get_next_packet need_to_swap wait_seconds l
          ≡ wait_loop need_to_swap (front_packet need_to_swap) true l.arriving l
      waits = rw (get_next_packet, c, lt→ltb 0 wait_seconds pos) refl

      packet_front :
          (l : Xl3Link)
          → Front need_to_swap
              (λ l. l.recv_queue)
              (packets_as need_to_swap)
              numbered
              (front_packet need_to_swap)
              l
      packet_front l = from l.recv_queue refl
        where
          from :
              (q : List Packet)
              → l.recv_queue ≡ q
              → Front need_to_swap
                  (λ l. l.recv_queue)
                  (packets_as need_to_swap)
                  numbered
                  (front_packet need_to_swap)
                  l
          from [] e = no_front (rw e refl) e
          from (p ∷ ps) e = a_front p (record l { recv_queue = ps }) (rw e refl) e refl

  -- The same of `GetNextCmdAck`, for the acknowledgements of all packets that carry some.
  pub get_next_cmd_ack-Waited :
      (wait_seconds : ℕ) (l : Xl3Link)
      → 0 < wait_seconds
      → l.connected ≡ true
      → All (IsWhole need_to_swap) l.arriving
      → CommandWaited l (get_next_cmd_ack need_to_swap wait_seconds l)
  unfolding get_next_cmd_ack
  get_next_cmd_ack-Waited wait_seconds l pos c h =
      subst (λ o. CommandWaited l o) (sym waits)
        (wait_loop-Waited need_to_swap (λ l. l.recv_cmd_queue) (commands_as need_to_swap) (λ c. c)
          (front_command need_to_swap) command_front (λ l arriving. refl) (λ k p l d. d.commands)
          l.arriving l h)
    where
      waits :
          get_next_cmd_ack need_to_swap wait_seconds l
          ≡ wait_loop need_to_swap (front_command need_to_swap) true l.arriving l
      waits = rw (get_next_cmd_ack, c, lt→ltb 0 wait_seconds pos) refl

      command_front :
          (l : Xl3Link)
          → Front need_to_swap
              (λ l. l.recv_cmd_queue)
              (commands_as need_to_swap)
              (λ c. c)
              (front_command need_to_swap)
              l
      command_front l = from l.recv_cmd_queue refl
        where
          from :
              (q : List Command)
              → l.recv_cmd_queue ≡ q
              → Front need_to_swap
                  (λ l. l.recv_cmd_queue)
                  (commands_as need_to_swap)
                  (λ c. c)
                  (front_command need_to_swap)
                  l
          from [] e = no_front (rw e refl) e
          from (c ∷ cs) e = a_front c (record l { recv_cmd_queue = cs }) (rw e refl) e refl
