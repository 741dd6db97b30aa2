-- ===== src/Xl3/Replies.antt =====
-- `XL3Model::SendCommand` of src/xl3/XL3Model.cpp always comes back, and with the answer when it comes.
use Prim.Native.String.{String}
use penn_daq.Prelude.{
  ℕ, zero, suc, ◌≤◌, ◌<◌, ◌≡◌, refl, ap, subst, ◌∙◌, sym, inl, inr, List, [], ◌∷◌, ◌++◌, Bool, true,
  false, not, ◌&&◌, ◌==◌, Option, none, some, drop, length, All, arith, uncons, Bool-cases,
}
use penn_daq.Xl3.Packet.{Packet}
use penn_daq.Xl3.Task.{Outcome, returned, thrown}
use penn_daq.Xl3.Link.{Xl3Link}
use penn_daq.Xl3.Model.{is_too_high, on_reply, reply_loop}
use penn_daq.Xl3.Arrivals.{IsWhole, has_expiry, still_coming}
use penn_daq.Xl3.Waiting.{ran_out, taken}
use penn_daq.Xl3.Fetch.{numbered, packets_to_come, get_next_packet-Waited}

pub drop-IsWhole :
    (need_to_swap : Bool) (n : ℕ) (arriving : List (Option Packet))
    → All (IsWhole need_to_swap) arriving
    → All (IsWhole need_to_swap) (drop n arriving)
drop-IsWhole need_to_swap zero arriving h = h
drop-IsWhole need_to_swap (suc n) [] h = h
drop-IsWhole need_to_swap (suc n) (a ∷ arriving) h = drop-IsWhole need_to_swap n arriving h.1

pub drop-has_expiry :
    (n : ℕ) (arriving : List (Option Packet))
    → has_expiry arriving ≡ false
    → has_expiry (drop n arriving) ≡ false
drop-has_expiry zero arriving h = h
drop-has_expiry (suc n) [] h = h
drop-has_expiry (suc n) (none ∷ arriving) h = absurd (ground arith)
drop-has_expiry (suc n) (some p ∷ arriving) h = drop-has_expiry n arriving h

-- The tests of the loop on a packet that has come.
abbrev pub is_answer : ℕ → ℕ → Packet → Bool
is_answer type num p = p.packet_type == type && p.packet_num == num

abbrev pub is_skipped : ℕ → ℕ → Packet → Bool
is_skipped type num p = not (is_too_high p.packet_num num) && not (is_answer type num p)

abbrev pub IsSkipped : Bool → ℕ → ℕ → Packet → Type 0
IsSkipped need_to_swap type num p = is_skipped type num (numbered need_to_swap p) ≡ true

module _ (need_to_swap : Bool) (type num timeout : ℕ) (pos : 0 < timeout) where
  abbrev pub ahead_of : Xl3Link → List Packet
  ahead_of = packets_to_come need_to_swap

  -- How the loop ends: with the answer, or an exception, after at most so many packets.
  pub data Replied (tries : ℕ) (l : Xl3Link) (o : Outcome Xl3Link Packet) : Type 0 where
    answered :
        (skipped : List Packet) (p : Packet) (l' : Xl3Link)
        → o ≡ returned (numbered need_to_swap p) l'
        → is_answer type num (numbered need_to_swap p) ≡ true
        → All (IsSkipped need_to_swap type num) skipped
        → ahead_of l ≡ skipped ++ p ∷ ahead_of l'
        → length skipped < tries
        → Replied tries l o
    refused :
        (read : List Packet) (e : String) (l' : Xl3Link)
        → o ≡ thrown e l'
        → ahead_of l ≡ read ++ ahead_of l'
        → length read ≤ suc tries
        → Replied tries l o

  once_more :
      (tries : ℕ) (l l' : Xl3Link) (p : Packet) {o : Outcome Xl3Link Packet}
      → IsSkipped need_to_swap type num p
      → ahead_of l ≡ p ∷ ahead_of l'
      → Replied tries l' o
      → Replied (suc tries) l o
  once_more tries l l' p s q (answered skipped r l'' e a all q' n) =
      answered (p ∷ skipped) r l'' e a (s, all) (q ∙ ap (λ t. p ∷ t) q') (omega arith)
  once_more tries l l' p s q (refused read e l'' t q' n) =
      refused (p ∷ read) e l'' t (q ∙ ap (λ t. p ∷ t) q') (omega arith)

  one_reply :
      (tries : ℕ) (l l' : Xl3Link) (p : Packet)
      → ahead_of l ≡ p ∷ ahead_of l'
      → (more : Xl3Link → Outcome Xl3Link Packet) → Replied tries l' (more l')
      → Replied
          (suc tries)
          l
          (on_reply need_to_swap more type num (some (numbered need_to_swap p)) l')
  one_reply tries l l' p q more r =
      elim (Bool-cases (is_too_high (numbered need_to_swap p).packet_num num)) [
        | inl high ↦
            refused (p ∷ []) "SendCommand: Packet Num too high" l' (rw high refl) q (omega arith)
        | inr low ↦ elim (Bool-cases (is_answer type num (numbered need_to_swap p))) [
          | inl a ↦ answered [] p l' (rw (low, a) refl) a tt q (omega arith)
          | inr other ↦ rw (low, other) (once_more tries l l' p (rw (low, other) refl) q r)
        ]
      ]

  pub reply_loop-Replied :
      (tries : ℕ) (l : Xl3Link)
      → l.connected ≡ true
      → All (IsWhole need_to_swap) l.arriving
      → Replied tries l (reply_loop need_to_swap tries type num timeout l)
  unfolding reply_loop
  reply_loop-Replied zero l c h = elim (get_next_packet-Waited need_to_swap timeout l pos c h) [
    | ran_out l' e q why s n ↦
        refused [] "SendCommand: GetNextPacket timed out" l' (rw (reply_loop, e) refl) (sym q)
          (omega arith)
    | taken p l' e q s n ↦
        refused (p ∷ []) "SendCommand: Got too many wrong packet types" l' (rw (reply_loop, e) refl)
          q (omega arith)
  ]
  reply_loop-Replied (suc tries) l c h =
      elim (get_next_packet-Waited need_to_swap timeout l pos c h) [
        | ran_out l' e q why s n ↦
            refused [] "SendCommand: GetNextPacket timed out" l' (rw (reply_loop, e) refl) (sym q)
              (omega arith)
        | taken p l' e q s n ↦
            rw (reply_loop, e)
              (one_reply tries l l' p q (reply_loop need_to_swap tries type num timeout) (
                reply_loop-Replied tries l' (s ∙ c) (
                  subst (λ t. All (IsWhole need_to_swap) t) (sym n.1)
                    (drop-IsWhole need_to_swap n.0 l.arriving h))))
      ]

  passes :
      (p : Packet) (more : Xl3Link → Outcome Xl3Link Packet) (l : Xl3Link)
      → IsSkipped need_to_swap type num p
      → on_reply need_to_swap more type num (some (numbered need_to_swap p)) l ≡ more l
  passes p more l s = elim (Bool-cases (is_too_high (numbered need_to_swap p).packet_num num)) [
    | inl high ↦ absurd (clash high)
    | inr low ↦ elim (Bool-cases (is_answer type num (numbered need_to_swap p))) [
      | inl a ↦ absurd (clash' low a)
      | inr other ↦ rw (low, other) refl
    ]
  ]
    where
      clash : is_too_high (numbered need_to_swap p).packet_num num ≡ true → ⊥
      clash high = let s' : false ≡ true = rw high at s in ground arith

      clash' :
          is_too_high (numbered need_to_swap p).packet_num num ≡ false
          → is_answer type num (numbered need_to_swap p) ≡ true
          → ⊥
      clash' low a = let s' : false ≡ true = rw (low, a) at s in ground arith

  -- The loop's end with an answer, when there is one before a hundred others.
  pub record Answered (r : Packet) (rest : List Packet) (l : Xl3Link) (o : Outcome Xl3Link Packet)
      : Type 0 where
    pub out : Xl3Link
    pub returns : o ≡ returned (numbered need_to_swap r) out
    pub kept : ahead_of out ≡ rest

  pub reply_loop-Answered :
      (skipped : List Packet) (tries : ℕ) (l : Xl3Link) (r : Packet) (rest : List Packet)
      → l.connected ≡ true
      → All (IsWhole need_to_swap) l.arriving
      → has_expiry l.arriving ≡ false
      → All (IsSkipped need_to_swap type num) skipped
      → is_too_high (numbered need_to_swap r).packet_num num ≡ false
      → is_answer type num (numbered need_to_swap r) ≡ true
      → ahead_of l ≡ skipped ++ r ∷ rest
      → length skipped < tries
      → Answered r rest l (reply_loop need_to_swap tries type num timeout l)
  unfolding reply_loop
  reply_loop-Answered skipped zero l r rest c h x s low a q n = absurd (omega arith)
  reply_loop-Answered [] (suc tries) l r rest c h x s low a q n =
      elim (get_next_packet-Waited need_to_swap timeout l pos c h) [
        | ran_out l' e q' why same n ↦ absurd (still_coming l.arriving _ r rest x q why)
        | taken p l' e q' same n ↦
            let (first, kept) = uncons (sym q' ∙ q) in
            record { out = l'; returns = rw (reply_loop, e, first, low, a) refl; kept = kept }
      ]
  reply_loop-Answered (k ∷ skipped) (suc tries) l r rest c h x s low a q n =
      elim (get_next_packet-Waited need_to_swap timeout l pos c h) [
        | ran_out l' e q' why same n ↦
            absurd (still_coming l.arriving _ k (skipped ++ r ∷ rest) x q why)
        | taken p l' e q' same n' ↦
            let (first, kept) = uncons (sym q' ∙ q) in
            let d =
              reply_loop-Answered skipped tries l' r rest (same ∙ c)
                (subst (λ t. All (IsWhole need_to_swap) t) (sym n'.1)
                  (drop-IsWhole need_to_swap n'.0 l.arriving h))
                (ap has_expiry n'.1 ∙ drop-has_expiry n'.0 l.arriving x) s.1 low a kept
                (omega arith) in
            record {
              out = d.out;
              returns = rw (reply_loop, e, first) (passes k _ l' s.0 ∙ d.returns);
              kept = d.kept;
            }
      ]

  -- The first packet to come is refused for its number.
  pub reply_loop-high :
      (tries : ℕ) (l : Xl3Link) (p : Packet) (rest : List Packet)
      → l.connected ≡ true
      → All (IsWhole need_to_swap) l.arriving
      → has_expiry l.arriving ≡ false
      → is_too_high (numbered need_to_swap p).packet_num num ≡ true
      → ahead_of l ≡ p ∷ rest
      → (l' : Xl3Link) × (reply_loop need_to_swap (suc tries) type num timeout l
          ≡ thrown "SendCommand: Packet Num too high" l')
  unfolding reply_loop
  reply_loop-high tries l p rest c h x high q =
      elim (get_next_packet-Waited need_to_swap timeout l pos c h) [
        | ran_out l' e q' why same n ↦ absurd (still_coming l.arriving _ p rest x q why)
        | taken p' l' e q' same n ↦ (l', rw (reply_loop, e, (uncons (sym q' ∙ q)).0, high) refl)
      ]
