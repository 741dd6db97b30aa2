-- ===== src/Xl3/Waiting.antt =====
-- Waiting for the next element of a queue: nothing is lost, repeated or taken out of order, whatever
-- else arrives in between.
use penn_daq.Prelude.{
  ℕ, suc, ◌≡◌, refl, ap, ◌∙◌, sym, ◌⊎◌, inl, inr, List, [], ◌∷◌, ◌++◌, Bool, true, Option, none,
  some, drop, All, append_assoc,
}
use penn_daq.Xl3.Packet.{Packet}
use penn_daq.Xl3.Task.{Outcome, returned}
use penn_daq.Xl3.Link.{Xl3Link, PacketKind, kind_of, process_packet, wait_loop, found}
use penn_daq.Xl3.Arrivals.{IsWhole, Processed, process_as-Processed, has_expiry}

module _ (need_to_swap : Bool) where
  -- Waiting, for a queue `queue` whose elements `take_front` takes in order and that packets add
  -- `gain` to.
  module _ {X A : Type 0} (queue : Xl3Link → List X) (gain : PacketKind → Packet → List X)
      (shape : X → A) (take_front : Xl3Link → Option (A × Xl3Link)) where
    -- The elements to come, in order.
    abbrev pub ahead : List (Option Packet) → List X
    ahead [] = []
    ahead (none ∷ arriving) = ahead arriving
    ahead (some p ∷ arriving) = gain (kind_of p.packet_type) p ++ ahead arriving

    abbrev pub to_come : Xl3Link → List X
    to_come l = queue l ++ ahead l.arriving

    -- What a wait does: it ends in either way, and what is to come is what was to come, without the
    -- element that it returns.
    pub data Waited (arriving : List (Option Packet)) (l : Xl3Link) (o : Outcome Xl3Link (Option A))
        : Type 0 where
      ran_out :
          (l' : Xl3Link)
          → o ≡ returned none l'
          → to_come l' ≡ queue l ++ ahead arriving
          → (has_expiry arriving ≡ true) ⊎ (queue l ++ ahead arriving ≡ [])
          → l'.connected ≡ l.connected
          → (n : ℕ) × (l'.arriving ≡ drop n arriving)
          → Waited arriving l o
      taken :
          (x : X) (l' : Xl3Link)
          → o ≡ returned (some (shape x)) l'
          → queue l ++ ahead arriving ≡ x ∷ to_come l'
          → l'.connected ≡ l.connected
          → (n : ℕ) × (l'.arriving ≡ drop n arriving)
          → Waited arriving l o

    -- The front of the queue.
    pub data Front (l : Xl3Link) : Type 0 where
      no_front : take_front l ≡ none → queue l ≡ [] → Front l
      a_front :
          (x : X) (l' : Xl3Link)
          → take_front l ≡ some (shape x, l')
          → queue l ≡ x ∷ queue l'
          → l'.connected ≡ l.connected
          → Front l

    module _ (front : (l : Xl3Link) → Front l)
        (same_queue : (l : Xl3Link) (arriving : List (Option Packet))
          → queue (record l { arriving = arriving }) ≡ queue l)
        (gains : (k : PacketKind) (p : Packet) (l : Xl3Link) (d : (Processed need_to_swap) k p l)
          → queue d.out ≡ queue l ++ gain k p) where
      here :
          (arriving : List (Option Packet)) (l : Xl3Link) (x : X) (l' : Xl3Link)
          → queue l ≡ x ∷ queue l'
          → l'.connected ≡ l.connected
          → {o : Outcome Xl3Link (Option A)}
          → o ≡ found need_to_swap take_front true arriving (shape x, l')
          → Waited arriving l o
      here arriving l x l' q c e =
          taken x (record l' { arriving = arriving }) e
            (ap (λ t. t ++ ahead arriving) q
              ∙ ap (λ t. x ∷ (t ++ ahead arriving)) (sym (same_queue l' arriving)))
            c (0, refl)

      expired :
          (arriving rest : List (Option Packet)) (l : Xl3Link)
          → ahead arriving ≡ ahead rest
          → queue l ≡ []
          → (has_expiry arriving ≡ true) ⊎ (ahead arriving ≡ [])
          → (n : ℕ) × (rest ≡ drop n arriving)
          → {o : Outcome Xl3Link (Option A)} → o ≡ returned none (record l { arriving = rest })
          → Waited arriving l o
      expired arriving rest l same q why n e =
          ran_out (record l { arriving = rest }) e
            (ap (λ t. t ++ ahead rest) (same_queue l rest) ∙ ap (λ t. queue l ++ t) (sym same))
            (elim why [ inl x ↦ inl x | inr x ↦ inr (rw (q, x) refl) ]) refl n

      moved :
          (p : Packet) (arriving : List (Option Packet)) (l : Xl3Link)
          (d : (Processed need_to_swap) (kind_of p.packet_type) p l)
          → queue d.out ++ ahead arriving ≡ queue l ++ ahead (some p ∷ arriving)
      moved p arriving l d =
          ap (λ t. t ++ ahead arriving) (gains (kind_of p.packet_type) p l d)
          ∙ append_assoc (queue l) (gain (kind_of p.packet_type) p) (ahead arriving)

      later :
          (p : Packet) (arriving : List (Option Packet)) (l : Xl3Link)
          (d : (Processed need_to_swap) (kind_of p.packet_type) p l)
          {o : Outcome Xl3Link (Option A)}
          → Waited arriving d.out o
          → Waited (some p ∷ arriving) l o
      later p arriving l d (ran_out l' e q why c n) =
          ran_out l' e (q ∙ moved p arriving l d)
            (elim why [ inl x ↦ inl x | inr x ↦ inr (sym (moved p arriving l d) ∙ x) ]) (c ∙ d.same)
            (suc n.0, n.1)
      later p arriving l d (taken x l' e q c n) =
          taken x l' e (sym (moved p arriving l d) ∙ q) (c ∙ d.same) (suc n.0, n.1)

      pub wait_loop-Waited :
          (arriving : List (Option Packet)) (l : Xl3Link)
          → All (IsWhole need_to_swap) arriving
          → Waited arriving l (wait_loop need_to_swap take_front true arriving l)
      unfolding wait_loop process_packet
      wait_loop-Waited [] l h = elim (front l) [
        | no_front e q ↦ expired [] [] l refl q (inr refl) (0, refl) (rw (wait_loop, e) refl)
        | a_front x l' e q c ↦ here [] l x l' q c (rw (wait_loop, e) refl)
      ]
      wait_loop-Waited (none ∷ arriving) l h = elim (front l) [
        | no_front e q ↦
            expired (none ∷ arriving) arriving l refl q (inl refl) (1, refl)
              (rw (wait_loop, e) refl)
        | a_front x l' e q c ↦ here (none ∷ arriving) l x l' q c (rw (wait_loop, e) refl)
      ]
      wait_loop-Waited (some p ∷ arriving) l h = elim (front l) [
        | no_front e q ↦
            let d = process_as-Processed need_to_swap (kind_of p.packet_type) p l h.0 in
            later p arriving l d
              (rw (wait_loop, e, d.returns) (wait_loop-Waited arriving d.out h.1))
        | a_front x l' e q c ↦ here (some p ∷ arriving) l x l' q c (rw (wait_loop, e) refl)
      ]
