-- ===== src/Xl3/Sending.antt =====
-- `XL3Model::SendCommand` of src/xl3/XL3Model.cpp, on a connected link.
use Prim.Native.String.{String}
use penn_daq.Prelude.{
  ℕ, suc, ◌+◌, ◌-◌, ◌%◌, ◌≤◌, ◌<◌, ◌≡◌, refl, ap, subst, ◌∙◌, sym, List, ◌∷◌, ◌++◌, Bool, true,
  false, length, All, arith,
}
use penn_daq.Xl3.Packet.{Packet, swap_one_short}
use penn_daq.Xl3.Task.{Outcome, returned, thrown}
use penn_daq.Xl3.Link.{Xl3Link, send_packet}
use penn_daq.Xl3.Model.{Xl3Model, back, is_too_high, reply_loop, max_tries, send_command_with}
use penn_daq.Xl3.Arrivals.{IsWhole, has_expiry}
use penn_daq.Xl3.Fetch.{numbered, packets_to_come}
use penn_daq.Xl3.Replies.{
  is_answer, IsSkipped, Replied, answered, refused, reply_loop-Replied, reply_loop-Answered,
  reply_loop-high,
}

too_high :
    (packet_num num : ℕ)
    → num < packet_num
    → 65536 - packet_num + num < 5000
    → is_too_high packet_num num ≡ true
too_high packet_num num above near = ground arith

module _ (need_to_swap : Bool) where
  -- The packet as it is written, and the link once it is.
  abbrev pub sent_packet : Packet → Xl3Model → Packet
  sent_packet packet x = record packet { packet_num = swap_one_short need_to_swap x.command_num }

  abbrev pub sent_link : Packet → Xl3Model → Xl3Link
  sent_link packet x = record x.link { written = sent_packet packet x ∷ x.link.written }

  abbrev pub next_model : Xl3Model → Xl3Link → Xl3Model
  next_model x l = record x { command_num = suc x.command_num % 65536; link = l }

  pub send_command-waits :
      (timeout : ℕ) (packet : Packet) (x : Xl3Model)
      → x.link.connected ≡ true
      → send_command_with need_to_swap true timeout packet x
        ≡ back (next_model x x.link) (
            reply_loop need_to_swap max_tries packet.packet_type
              (x.command_num % 65536)
              timeout
              (sent_link packet x))
  unfolding send_command_with send_packet
  send_command-waits timeout packet x c = rw (send_packet, c) refl

  -- How a command ends: with the first packet of its type and number, behind fewer than a hundred
  -- others, or with an exception after at most 101 packets. The next command has the next number.
  pub data Ended (packet : Packet) (x : Xl3Model) (o : Outcome Xl3Model Packet) : Type 0 where
    got_answer :
        (skipped : List Packet) (p : Packet) (l : Xl3Link)
        → o ≡ returned (numbered need_to_swap p) (next_model x l)
        → is_answer packet.packet_type (x.command_num % 65536) (numbered need_to_swap p) ≡ true
        → All (IsSkipped need_to_swap packet.packet_type (x.command_num % 65536)) skipped
        → packets_to_come need_to_swap x.link ≡ skipped ++ p ∷ packets_to_come need_to_swap l
        → length skipped < max_tries
        → Ended packet x o
    got_exception :
        (read : List Packet) (e : String) (l : Xl3Link)
        → o ≡ thrown e (next_model x l)
        → packets_to_come need_to_swap x.link ≡ read ++ packets_to_come need_to_swap l
        → length read ≤ suc max_tries
        → Ended packet x o

  -- `SendCommand` comes back, when the packets that arrive are read to their end: with the first
  -- packet of the command's type and number, or with an exception. It reads at most 101 packets, and
  -- counts its number up modulo 65536 in either case.
  pub send_command-Ended :
      (timeout : ℕ) (packet : Packet) (x : Xl3Model)
      → 0 < timeout
      → x.link.connected ≡ true
      → All (IsWhole need_to_swap) x.link.arriving
      → Ended packet x (send_command_with need_to_swap true timeout packet x)
  send_command-Ended timeout packet x pos c h =
      subst (λ o. Ended packet x o) (sym (send_command-waits timeout packet x c))
        (ended (
          reply_loop-Replied need_to_swap packet.packet_type (x.command_num % 65536) timeout pos
            max_tries (sent_link packet x) c h))
    where
      ended :
          {o : Outcome Xl3Link Packet}
          → Replied need_to_swap packet.packet_type
              (x.command_num % 65536)
              timeout
              pos
              max_tries
              (sent_link packet x)
              o
          → Ended packet x (back (next_model x x.link) o)
      ended (answered skipped p l e a all q n) =
          got_answer skipped p l (ap (λ t. back (next_model x x.link) t) e) a all q n
      ended (refused read e l t q n) =
          got_exception read e l (ap (λ t. back (next_model x x.link) t) t) q n

  -- A command gets its answer: when all packets that arrive are read to their end, no wait runs out,
  -- and the packet with the command's type and number comes behind fewer than a hundred others, none
  -- of them an answer or refused for its number, `SendCommand` returns it and leaves what comes behind.
  pub send_command-answered :
      (timeout : ℕ) (packet : Packet) (x : Xl3Model) (skipped : List Packet) (r : Packet)
      (rest : List Packet)
      → 0 < timeout
      → x.link.connected ≡ true
      → All (IsWhole need_to_swap) x.link.arriving
      → has_expiry x.link.arriving ≡ false
      → All (IsSkipped need_to_swap packet.packet_type (x.command_num % 65536)) skipped
      → is_too_high (numbered need_to_swap r).packet_num (x.command_num % 65536) ≡ false
      → is_answer packet.packet_type (x.command_num % 65536) (numbered need_to_swap r) ≡ true
      → packets_to_come need_to_swap x.link ≡ skipped ++ r ∷ rest
      → length skipped < max_tries
      → (l : Xl3Link) × (send_command_with need_to_swap true timeout packet x
          ≡ returned (numbered need_to_swap r) (next_model x l))
        × (packets_to_come need_to_swap l ≡ rest)
  send_command-answered timeout packet x skipped r rest pos c h e s low a q n =
      let d =
        reply_loop-Answered need_to_swap packet.packet_type (x.command_num % 65536) timeout pos
          skipped max_tries (sent_link packet x) r rest c h e s low a q n in
      (
        d.out,
        send_command-waits timeout packet x c ∙ ap (λ t. back (next_model x x.link) t) d.returns,
        d.kept,
      )

  -- After the numbers have wrapped, a late answer ends a command: when the first packet to come has
  -- the number of one of the last 4999 commands, sent before the numbers wrapped, `SendCommand` throws
  -- that its number is too high. (No wait runs out, and the packets that arrive are read to their end.)
  pub send_command_refuses_late :
      (timeout : ℕ) (packet : Packet) (x : Xl3Model) (late : Packet) (rest : List Packet) (ago : ℕ)
      → 0 < timeout
      → x.link.connected ≡ true
      → All (IsWhole need_to_swap) x.link.arriving
      → has_expiry x.link.arriving ≡ false
      → packets_to_come need_to_swap x.link ≡ late ∷ rest
      → ago < 5000
      → x.command_num % 65536 < ago
      → (numbered need_to_swap late).packet_num + ago ≡ 65536 + x.command_num % 65536
      → (l : Xl3Link) × (send_command_with need_to_swap true timeout packet x
          ≡ thrown "SendCommand: Packet Num too high" (next_model x l))
  send_command_refuses_late timeout packet x late rest ago pos c h e q few wrapped num =
      let (l, t) =
        reply_loop-high need_to_swap packet.packet_type (x.command_num % 65536) timeout pos 99
          (sent_link packet x) late rest c h e high q in
      (l, send_command-waits timeout packet x c ∙ ap (λ t. back (next_model x x.link) t) t)
    where
      high : is_too_high (numbered need_to_swap late).packet_num (x.command_num % 65536) ≡ true
      high =
          too_high (swap_one_short need_to_swap late.packet_num) (x.command_num % 65536)
            (omega arith) (omega arith)
