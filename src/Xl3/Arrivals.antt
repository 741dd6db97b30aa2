-- ===== src/Xl3/Arrivals.antt =====
-- What a packet adds to the queues of the link, src/xl3/XL3Link.cpp `ProcessPacket`.
use penn_daq.Prelude.{
  ◌≡◌, refl, ap, ◌∙◌, sym, ◌⊎◌, inl, inr, List, [], ◌∷◌, ◌++◌, Bool, true, false, Option, none,
  some, arith, append-nil, Bool-cases, Option-cases,
}
use penn_daq.Xl3.Packet.{Packet, Command}
use penn_daq.Xl3.Link.{
  Xl3Link, PacketKind, ping, message, cmd_ack, mega, error, screwed, other, kind_of, acks_of,
  command_ack, walk_mega, mega_bundle, process_as, counted,
}

abbrev pub is_some : {A : Type 0} → Option A → Bool
is_some none = false
is_some (some a) = true

abbrev pub or_empty : {A : Type 0} → Option (List A) → List A
or_empty none = []
or_empty (some xs) = xs

-- A wait that runs out while these arrive.
abbrev pub has_expiry : List (Option Packet) → Bool
has_expiry [] = false
has_expiry (none ∷ arriving) = true
has_expiry (some p ∷ arriving) = has_expiry arriving

-- With no wait that runs out and an element to come, a wait does not end without one.
pub still_coming :
    {A : Type 0} (arriving : List (Option Packet)) (to_come : List A) (a : A) (rest : List A)
    → has_expiry arriving ≡ false
    → to_come ≡ a ∷ rest
    → ¬ ((has_expiry arriving ≡ true) ⊎ (to_come ≡ []))
still_coming arriving to_come a rest x q why = elim why [
  | inl y ↦ ground arith
  | inr y ↦ (let z : a ∷ rest ≡ [] = sym q ∙ y in ground arith)
]

module _ (need_to_swap : Bool) where
  -- The packet is read to its end without an access past it.
  abbrev pub is_whole_as : PacketKind → Packet → Bool
  is_whole_as cmd_ack p = is_some (acks_of need_to_swap p.payload)
  is_whole_as mega p = is_some (walk_mega need_to_swap p.payload)
  is_whole_as k p = true

  abbrev pub IsWhole : Option Packet → Type 0
  IsWhole none = Unit
  IsWhole (some p) = is_whole_as (kind_of p.packet_type) p ≡ true

  -- What a packet adds to the queue of packets, and to that of acknowledgements.
  abbrev pub packets_as : PacketKind → Packet → List Packet
  packets_as other p = p ∷ []
  packets_as k p = []

  abbrev pub commands_as : PacketKind → Packet → List Command
  commands_as cmd_ack p = or_empty (acks_of need_to_swap p.payload)
  commands_as k p = []

  abbrev pub packets_in : Packet → List Packet
  packets_in p = packets_as (kind_of p.packet_type) p

  abbrev pub commands_in : Packet → List Command
  commands_in p = commands_as (kind_of p.packet_type) p

  pub record Processed (k : PacketKind) (p : Packet) (l : Xl3Link) : Type 0 where
    pub out : Xl3Link
    pub returns : process_as need_to_swap k p l ≡ some out
    pub packets : out.recv_queue ≡ l.recv_queue ++ packets_as k p
    pub commands : out.recv_cmd_queue ≡ l.recv_cmd_queue ++ commands_as k p
    pub same : out.connected ≡ l.connected

  quiet :
      (k : PacketKind) (p : Packet) (l out : Xl3Link)
      → process_as need_to_swap k p l ≡ some out
      → out.recv_queue ≡ l.recv_queue
      → out.recv_cmd_queue ≡ l.recv_cmd_queue
      → out.connected ≡ l.connected
      → packets_as k p ≡ []
      → commands_as k p ≡ []
      → Processed k p l
  quiet k p l out e q c s np nc = record {
    out = out;
    returns = e;
    packets = q ∙ sym (append-nil l.recv_queue) ∙ ap (λ t. l.recv_queue ++ t) (sym np);
    commands = c ∙ sym (append-nil l.recv_cmd_queue) ∙ ap (λ t. l.recv_cmd_queue ++ t) (sym nc);
    same = s;
  }

  pub process_as-Processed :
      (k : PacketKind) (p : Packet) (l : Xl3Link) → is_whole_as k p ≡ true → Processed k p l
  unfolding process_as command_ack mega_bundle
  process_as-Processed ping p l h = quiet ping p l _ refl refl refl refl refl refl
  process_as-Processed message p l h = quiet message p l _ refl refl refl refl refl refl
  process_as-Processed error p l h = quiet error p l _ refl refl refl refl refl refl
  process_as-Processed screwed p l h = quiet screwed p l _ refl refl refl refl refl refl
  process_as-Processed other p l h = record {
    out = _;
    returns = refl;
    packets = refl;
    commands = sym (append-nil l.recv_cmd_queue);
    same = refl;
  }
  process_as-Processed cmd_ack p l h = elim (Option-cases (acks_of need_to_swap p.payload)) [
    | inl e ↦ absurd (ground arith)
    | inr (cs, e) ↦ record {
      out = record l { recv_cmd_queue = l.recv_cmd_queue ++ cs };
      returns = rw (command_ack, e) refl;
      packets = sym (append-nil l.recv_queue);
      commands = rw e refl;
      same = refl;
    }
  ]
  process_as-Processed mega p l h = elim (Option-cases (walk_mega need_to_swap p.payload)) [
    | inl e ↦ absurd (ground arith)
    | inr (w, e) ↦ elim (Bool-cases l.print_out) [
      | inl q ↦
          quiet mega p l (counted need_to_swap w l) (rw (mega_bundle, q, e) refl) refl refl refl
            refl refl
      | inr q ↦ quiet mega p l l (rw (mega_bundle, q) refl) refl refl refl refl refl
    ]
  ]
