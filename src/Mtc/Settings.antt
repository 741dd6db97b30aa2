-- ===== src/Mtc/Settings.antt =====
-- What the settings of the MTC program into it.
use penn_daq.Prelude.{
  Bool, bit_and-zero, bit_or_comm, bit_or-zero, ℕ, ◌-◌, ◌/◌, ◌^◌, ◌≤◌, ◌<◌, ◌≡◌, ◌≢◌, ap, ◌∙◌,
  arith, min, max, ltb, ◌||◌, Option, bit, bit_or, clear_bits, not32, bit-bit_or, bit-clear_bits,
  bit-le-one, returned, Action, ◌>>◌, pure, true, false, if◌then◌else◌,
}
use penn_daq.Mtc.Packet.{Sent}
use penn_daq.Mtc.Widths.{
  failure, control_reg, ped_width_reg, coarse_delay_reg, scale_reg, gt_lock_reg, load_enlk,
  load_enpr, load_enpw, write_and_load, set_lockout_width, set_prescale, set_pedestal_width,
  set_coarse_delay, set_ped_crate_mask, unset_ped_crate_mask, pmsk_reg,
}
use penn_daq.Mtc.File.{
  bus, held, update, IsRegisterFile, Runs, then-Runs, pure-Runs, reg_write-Runs, set_bits-Runs,
  reset_bits-Runs,
}

-- The registers after a setting: the register has its value, the load bits of the control register
-- are 0 and its other bits are as before, and no other register has changed.
pub record IsProgrammed (before after : ℕ → ℕ) (reg value load : ℕ) : Type 0 where
  pub written : after (bus reg) ≡ value
  pub loaded : (k : ℕ) → k < 32 → bit load k ≡ 1 → bit (after (bus control_reg)) k ≡ 0
  pub kept :
      (k : ℕ)
      → k < 32
      → bit load k ≡ 0
      → bit (after (bus control_reg)) k ≡ bit (before (bus control_reg)) k
  pub others : (a : ℕ) → a ≢ bus reg → a ≢ bus control_reg → after a ≡ before a

-- The registers after a value is written and a load bit pulsed.
abbrev pulsed : (ℕ → ℕ) → ℕ → ℕ → ℕ → ℕ → ℕ
pulsed g reg value load =
    let g1 = update g (bus reg) value in
    let g2 = update g1 (bus control_reg) (bit_or (g1 (bus control_reg)) load) in
    update g2 (bus control_reg) (clear_bits (g2 (bus control_reg)) load)

programmed :
    (g : ℕ → ℕ) (reg value load : ℕ)
    → reg ≢ control_reg
    → reg < 2 ^ 31
    → load < 2 ^ 32
    → IsProgrammed g (pulsed g reg value load) reg value load
programmed g reg value load ne small fits = record {
  written = ground arith;
  loaded = λ k lt on. ap (λ t. bit t k) control ∙ omega (arith, bit_after k lt);
  kept = λ k lt off.
      ap (λ t. bit t k) control ∙ omega (arith, bit_after k lt, bit-le-one (g (bus control_reg)) k);
  others = λ a p q. ground arith;
}
  where
    apart : bus reg ≢ bus control_reg
    apart e = ne (omega arith)

    control :
        pulsed g reg value load (bus control_reg)
        ≡ clear_bits (bit_or (g (bus control_reg)) load) load
    control = ground arith

    bit_after :
        (k : ℕ)
        → k < 32
        → bit (clear_bits (bit_or (g (bus control_reg)) load) load) k
          ≡ min (max (bit (g (bus control_reg)) k) (bit load k)) (1 - bit load k)
    bit_after k lt =
        bit-clear_bits (bit_or (g (bus control_reg)) load) load k fits lt
        ∙ ap (λ t. min t (1 - bit load k)) (bit-bit_or (g (bus control_reg)) load k)

module _ (answer : Sent → Option ℕ) (initial : ℕ → ℕ) (file : IsRegisterFile answer initial) where
  write_and_load-Runs :
      (reg value load : ℕ)
      → Runs answer initial file (write_and_load answer reg value load) 0 (λ g.
        let g1 = update g (bus reg) value in
        let g2 = update g1 (bus control_reg) (bit_or (g1 (bus control_reg)) load) in
        update g2 (bus control_reg) (clear_bits (g2 (bus control_reg)) load))
  unfolding write_and_load
  write_and_load-Runs reg value load =
      then-Runs answer initial file (reg_write-Runs answer initial file reg value) (
        then-Runs answer initial file (set_bits-Runs answer initial file control_reg load) (
          then-Runs answer initial file (reset_bits-Runs answer initial file control_reg load)
            (pure-Runs answer initial file 0)))

  -- Writing a value and pulsing a load bit programs the register.
  programs :
      (reg value load : ℕ) (s : Sent)
      → reg ≢ control_reg
      → reg < 2 ^ 31
      → load < 2 ^ 32
      → ((write_and_load answer reg value load s).0 ≡ returned 0)
        × IsProgrammed
            (held initial s)
            (held initial (write_and_load answer reg value load s).1)
            reg
            value
            load
  programs reg value load s ne small fits =
      let run = (write_and_load-Runs reg value load).run s in
      (run.0, rw (run.1) (programmed (held initial s) reg value load ne small fits))

  -- A call that returns 0 and programs a register.
  abbrev pub IsSetting : Sent → Action Sent ℕ → ℕ → ℕ → ℕ → Type 0
  IsSetting s m reg value load =
      ((m s).0 ≡ returned 0) × IsProgrammed (held initial s) (held initial (m s).1) reg value load

  accepted :
      (out_of_range : Bool)
      → out_of_range ≡ false
      → (s : Sent) (reg value load : ℕ) → reg ≢ control_reg
      → reg < 2 ^ 31
      → load < 2 ^ 32
      → IsSetting s
          (if out_of_range then pure failure else write_and_load answer reg value load)
          reg
          value
          load
  accepted true e s reg value load = cc
  accepted false e s reg value load = programs reg value load s

  -- `SetLockoutWidth` of 20 to 5100 ns, on a board that reads back what is written: it returns 0, the
  -- lockout register has the complement of the width in steps of 20 ns, the load bit is 0 again, and
  -- nothing else has changed.
  pub set_lockout_width_lem :
      (width : ℕ) (s : Sent)
      → 20 ≤ width
      → width ≤ 5100
      → IsSetting s (set_lockout_width answer width) gt_lock_reg (not32 (width / 20)) load_enlk
  unfolding set_lockout_width
  set_lockout_width_lem width s p q =
      accepted (ltb width 20 || ltb 5100 width) (ground arith) s gt_lock_reg (not32 (width / 20))
        load_enlk (λ e. omega arith) (omega arith) (omega arith)

  -- `SetPrescale` of 2 or more, on such a board: it returns 0, the prescale register has the complement
  -- of the scale less one, the load bit is 0 again, and nothing else has changed.
  pub set_prescale_lem :
      (scale : ℕ) (s : Sent)
      → 2 ≤ scale
      → IsSetting s (set_prescale answer scale) scale_reg (not32 (scale - 1)) load_enpr
  unfolding set_prescale
  set_prescale_lem scale s p =
      accepted (ltb scale 2) (ground arith) s scale_reg (not32 (scale - 1)) load_enpr
        (λ e. omega arith) (omega arith) (omega arith)

  -- `SetPedestalWidth` of 5 to 1275 ns, on such a board: it returns 0, the width register has the
  -- complement of the width in steps of 5 ns, the load bit is 0 again, and nothing else has changed.
  pub set_pedestal_width_lem :
      (width : ℕ) (s : Sent)
      → 5 ≤ width
      → width ≤ 1275
      → IsSetting s (set_pedestal_width answer width) ped_width_reg (not32 (width / 5)) load_enpw
  unfolding set_pedestal_width
  set_pedestal_width_lem width s p q =
      accepted (ltb width 5 || ltb 1275 width) (ground arith) s ped_width_reg (not32 (width / 5))
        load_enpw (λ e. omega arith) (omega arith) (omega arith)

  -- `SetCoarseDelay` of 10 to 2550 ns, on such a board: it returns 0, the delay register has the
  -- complement of the delay in steps of 10 ns, the load bit is 0 again, and nothing else has changed.
  pub set_coarse_delay_lem :
      (delay : ℕ) (s : Sent)
      → 10 ≤ delay
      → delay ≤ 2550
      → IsSetting s (set_coarse_delay answer delay) coarse_delay_reg (not32 (delay / 10)) load_enpw
  unfolding set_coarse_delay
  set_coarse_delay_lem delay s p q =
      accepted (ltb delay 10 || ltb 2550 delay) (ground arith) s coarse_delay_reg
        (not32 (delay / 10)) load_enpw (λ e. omega arith) (omega arith) (omega arith)

  -- Setting the pedestal mask, as `SetupPedestals` does: all crates are removed and those of a mask
  -- added. The mask register has exactly the mask, at the test stand at Penn all crates.
  pub set_ped_crate_mask-unset_ped_crate_mask :
      (at_penn : Bool) (crates : ℕ) (s : Sent)
      → held initial
          ((unset_ped_crate_mask answer 0xFFFFFFFF >> set_ped_crate_mask answer at_penn crates) s).1
          (bus pmsk_reg)
        ≡ (if at_penn then 0xFFFFFFFF else crates)
  unfolding unset_ped_crate_mask set_ped_crate_mask
  set_ped_crate_mask-unset_ped_crate_mask at_penn crates s =
      ap (λ g. g (bus pmsk_reg))
        ((then-Runs answer initial file (reset_bits-Runs answer initial file pmsk_reg 0xFFFFFFFF) (
            set_bits-Runs answer initial file pmsk_reg
              (if at_penn then 0xFFFFFFFF else crates))).run
          s).1
      ∙ ap (λ t. bit_or t mask) (bit_and-zero (held initial s (bus pmsk_reg)))
      ∙ bit_or_comm 0 mask
      ∙ bit_or-zero mask
    where
      mask : ℕ
      mask = if at_penn then 0xFFFFFFFF else crates
