-- ===== src/Xl3/Results.antt =====
-- `XL3Model::GetMultiFCResults` of src/xl3/XL3Model.cpp: it ends, it collects the answers in order,
-- and it finds none when the numbers have just wrapped.
use penn_daq.Prelude.{
  ℕ, zero, suc, ◌≤◌, subst, inl, inr, List, [], ◌∷◌, Bool, Option, none, some, length,
  length-append, get_or, arith, Option-cases,
}
use penn_daq.Xl3.Packet.{Packet, swap_one_long}
use penn_daq.Xl3.Link.{
  Xl3Link, PacketKind, ping, message, cmd_ack, mega, error, screwed, other, kind_of, ack_commands,
  acks_of, front_command,
}
use penn_daq.Xl3.Model.{acks_ahead, acks_to_come}
use penn_daq.Xl3.Arrivals.{commands_as, or_empty}
use penn_daq.Xl3.Waiting.{ahead}
use penn_daq.Xl3.Fetch.{commands_to_come}

module _ (need_to_swap : Bool) where
  length-ack_commands :
      (n : ℕ) (words : List ℕ) → length (or_empty (ack_commands need_to_swap n words)) ≤ n
  unfolding ack_commands
  length-ack_commands zero words = omega arith
  length-ack_commands (suc n) (a ∷ b ∷ c ∷ d ∷ words) =
      elim (Option-cases (ack_commands need_to_swap n words)) [
        | inl e ↦ rw (ack_commands, e) (omega arith)
        | inr (cs, e) ↦
            rw (ack_commands, e)
              (let h : length cs ≤ n =
                  subst (λ o. length (or_empty o) ≤ n) e (length-ack_commands n words) in
                omega arith)
      ]
  length-ack_commands (suc n) [] = omega arith
  length-ack_commands (suc n) (a ∷ []) = omega arith
  length-ack_commands (suc n) (a ∷ b ∷ []) = omega arith
  length-ack_commands (suc n) (a ∷ b ∷ c ∷ []) = omega arith

  length-commands_as :
      (k : PacketKind) (p : Packet)
      → length (commands_as need_to_swap k p)
        ≤ (elim k [ cmd_ack ↦ swap_one_long need_to_swap (get_or p.payload 0 0) | _ ↦ 0 ])
  length-commands_as cmd_ack p = from p.payload
    where
      from :
          (payload : List ℕ)
          → length (or_empty (acks_of need_to_swap payload))
            ≤ swap_one_long need_to_swap (get_or payload 0 0)
      from [] = omega arith
      from (h ∷ words) = length-ack_commands (swap_one_long need_to_swap h) words
  length-commands_as ping p = omega arith
  length-commands_as message p = omega arith
  length-commands_as mega p = omega arith
  length-commands_as error p = omega arith
  length-commands_as screwed p = omega arith
  length-commands_as other p = omega arith

  length-ahead :
      (arriving : List (Option Packet))
      → length (
          ahead need_to_swap
            (λ l. l.recv_cmd_queue)
            (commands_as need_to_swap)
            (λ c. c)
            (front_command need_to_swap)
            arriving)
        ≤ acks_ahead need_to_swap arriving
  length-ahead [] = omega arith
  length-ahead (none ∷ arriving) = omega (arith, length-ahead arriving)
  length-ahead (some p ∷ arriving) = omega (
    arith,
    length-append (commands_as need_to_swap (kind_of p.packet_type) p) (
        ahead need_to_swap (λ l. l.recv_cmd_queue) (commands_as need_to_swap) (λ c. c)
          (front_command need_to_swap) arriving),
    length-commands_as (kind_of p.packet_type) p,
    length-ahead arriving,
  )

  pub length-commands_to_come :
      (l : Xl3Link) → length (commands_to_come need_to_swap l) ≤ acks_to_come need_to_swap l
  length-commands_to_come l = omega (
    arith,
    length-append l.recv_cmd_queue (
        ahead need_to_swap (λ l. l.recv_cmd_queue) (commands_as need_to_swap) (λ c. c)
          (front_command need_to_swap) l.arriving),
    length-ahead l.arriving,
  )
