-- ===== src/Mtc/File.antt =====
-- The registers as the packets sent leave them, for a board that answers and reads back what was
-- written.
use penn_daq.Prelude.{
  ℕ, ◌+◌, ◌%◌, ◌^◌, ◌≡◌, refl, ap, ◌∙◌, [], ◌∷◌, ◌&&◌, ◌==◌, if◌then◌else◌, Option, none, some,
  bit_or, clear_bits, returned, Action, pure, ◌>>◌,
}
use penn_daq.Mtc.Packet.{
  SbcPacket, Sent, mtc_reg_address_base, mtc_write_id, read_packet, write_packet, send_command,
  reg_write, reg_read,
}
use penn_daq.Mtc.Widths.{set_bits, reset_bits}

-- The address of a register on the bus.
abbrev pub bus : ℕ → ℕ
bus reg = (reg + mtc_reg_address_base) % 2 ^ 32

abbrev pub word_or : Option ℕ → ℕ → ℕ
word_or none d = d
word_or (some w) d = w

-- What a register holds: the last word written to it.
abbrev pub held : (ℕ → ℕ) → Sent → ℕ → ℕ
held initial [] a = initial a
held initial (p ∷ sent) a =
    let rest = held initial sent a in
    if p.cmd_id == mtc_write_id && p.address == a then word_or p.word rest else rest

abbrev pub update : (ℕ → ℕ) → ℕ → ℕ → ℕ → ℕ
update g a v b = if a == b then v else g b

-- The board answers each packet, a read with what the register holds.
pub record IsRegisterFile (answer : Sent → Option ℕ) (initial : ℕ → ℕ) : Type 0 where
  pub reads :
      (reg : ℕ) (sent : Sent) → answer (read_packet reg ∷ sent) ≡ some (held initial sent (bus reg))
  pub writes :
      (reg word : ℕ) (sent : Sent) → (w : ℕ) × (answer (write_packet reg word ∷ sent) ≡ some w)

module _ (answer : Sent → Option ℕ) (initial : ℕ → ℕ) (file : IsRegisterFile answer initial) where
  answered :
      (p : SbcPacket) (s : Sent) (w : ℕ)
      → answer (p ∷ s) ≡ some w
      → send_command answer p s ≡ (returned w, p ∷ s)
  unfolding send_command
  answered p s w h = rw (h, send_command) refl

  pub reg_read-eq :
      (reg : ℕ) (s : Sent)
      → reg_read answer reg s ≡ (returned (held initial s (bus reg)), read_packet reg ∷ s)
  unfolding reg_read
  reg_read-eq reg s = answered (read_packet reg) s (held initial s (bus reg)) (file.reads reg s)

  pub reg_write-eq :
      (reg word : ℕ) (s : Sent)
      → reg_write answer reg word s ≡ (returned tt, write_packet reg word ∷ s)
  unfolding reg_write
  reg_write-eq reg word s =
      let (w, e) = file.writes reg word s in rw (answered (write_packet reg word) s w e) refl

  -- An action returns `r` and changes the registers by `f`.
  pub record Runs {A : Type 0} (m : Action Sent A) (r : A) (f : (ℕ → ℕ) → ℕ → ℕ) : Type 0 where
    pub run : (s : Sent) → ((m s).0 ≡ returned r) × (held initial (m s).1 ≡ f (held initial s))

  pub then-Runs :
      {A B : Type 0} {m : Action Sent A} {k : Action Sent B} {r : A} {r' : B}
      {f g : (ℕ → ℕ) → ℕ → ℕ}
      → Runs m r f
      → Runs k r' g
      → Runs (m >> k) r' (λ x. g (f x))
  then-Runs {m} {g} p q = record {
    run = λ s. rw ((p.run s).0) ((q.run (m s).1).0, (q.run (m s).1).1 ∙ ap g (p.run s).1);
  }

  pub pure-Runs : {A : Type 0} (r : A) → Runs (pure r) r (λ x. x)
  pure-Runs r = record { run = λ s. (refl, refl) }

  pub reg_write-Runs :
      (reg word : ℕ) → Runs (reg_write answer reg word) tt (λ g. update g (bus reg) word)
  reg_write-Runs reg word = record { run = λ s. rw (reg_write-eq reg word s) (refl, refl) }

  abbrev pub changed : (ℕ → ℕ) → ℕ → Sent → Sent
  changed change reg s = write_packet reg (change (held initial s (bus reg))) ∷ read_packet reg ∷ s

  pub set_bits-eq :
      (reg bits : ℕ) (s : Sent)
      → set_bits answer reg bits s ≡ (returned tt, changed (λ t. bit_or t bits) reg s)
  unfolding set_bits
  set_bits-eq reg bits s =
      rw
        (
          reg_read-eq reg s,
          reg_write-eq reg (bit_or (held initial s (bus reg)) bits) (read_packet reg ∷ s),
        )
        refl

  pub reset_bits-eq :
      (reg bits : ℕ) (s : Sent)
      → reset_bits answer reg bits s ≡ (returned tt, changed (λ t. clear_bits t bits) reg s)
  unfolding reset_bits
  reset_bits-eq reg bits s =
      rw
        (
          reg_read-eq reg s,
          reg_write-eq reg (clear_bits (held initial s (bus reg)) bits) (read_packet reg ∷ s),
        )
        refl

  pub set_bits-Runs :
      (reg bits : ℕ)
      → Runs (set_bits answer reg bits) tt (λ g. update g (bus reg) (bit_or (g (bus reg)) bits))
  set_bits-Runs reg bits = record { run = λ s. rw (set_bits-eq reg bits s) (refl, refl) }

  pub reset_bits-Runs :
      (reg bits : ℕ)
      → Runs
          (reset_bits answer reg bits)
          tt
          (λ g. update g (bus reg) (clear_bits (g (bus reg)) bits))
  reset_bits-Runs reg bits = record { run = λ s. rw (reset_bits-eq reg bits s) (refl, refl) }
