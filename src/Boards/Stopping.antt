-- ===== src/Boards/Stopping.antt =====
-- What is left of a pedestal run on the MTC after src/tests/RunPedestals.cpp ended it.
use penn_daq.Prelude.{
  ℕ, ◌≡◌, ◌≢◌, refl, ◌∙◌, Option, clear_bits, bit, bit-clear_bits, bit_and-zero, List, [], ◌∷◌,
  Bool, true, false, none, some, get_elem?, arith,
}
use penn_daq.Mtc.Packet.{Sent}
use penn_daq.Mtc.Widths.{
  control_reg, pmsk_reg, gmsk_reg, ped_en, pulse_en, disable_pulser, disable_pedestal,
  unset_ped_crate_mask, unset_gt_crate_mask,
}
use penn_daq.Mtc.Delays.{maskall}
use penn_daq.Mtc.File.{bus, held, update, IsRegisterFile, Runs, then-Runs, reset_bits-Runs}
use penn_daq.Xl3.Packet.{Packet}
use penn_daq.Xl3.Task.{Outcome, Task, returned, thrown, lost, after, ◌>>◌, pure}
use penn_daq.Xl3.Model.{Xl3Model}
use penn_daq.Boards.Pedestals.{
  Detector, PedestalRun, done, given_up, interrupted, put_back, on_found, on_crate, on_mtc,
  caught_run, crates_of, stop_crates, run_pedestals_end,
}
use penn_daq.Boards.Trigger.{unmask_crates, stop_mtc}

-- Neither the pulser nor the pedestals are enabled, no crate is in a mask, and no other register has
-- changed.
pub record IsStopped (before after : ℕ → ℕ) : Type 0 where
  pub control :
      after (bus control_reg) ≡ clear_bits (clear_bits (before (bus control_reg)) pulse_en) ped_en
  pub pulser : bit (after (bus control_reg)) 1 ≡ 0
  pub pedestal : bit (after (bus control_reg)) 0 ≡ 0
  pub ped_mask : after (bus pmsk_reg) ≡ 0
  pub gt_mask : after (bus gmsk_reg) ≡ 0
  pub others :
      (a : ℕ) → a ≢ bus control_reg → a ≢ bus pmsk_reg → a ≢ bus gmsk_reg → after a ≡ before a

abbrev cleared : ℕ → ℕ → (ℕ → ℕ) → ℕ → ℕ
cleared reg bits g = update g (bus reg) (clear_bits (g (bus reg)) bits)

abbrev stopped : (ℕ → ℕ) → ℕ → ℕ
stopped g =
    cleared gmsk_reg maskall
      (cleared pmsk_reg maskall (cleared control_reg ped_en (cleared control_reg pulse_en g)))

stopped-IsStopped : (g : ℕ → ℕ) → IsStopped g (stopped g)
stopped-IsStopped g = record {
  control = refl;
  pulser = omega (
    arith,
    bit-clear_bits (clear_bits (g (bus control_reg)) pulse_en) ped_en 1 (omega arith) (omega arith),
    bit-clear_bits (g (bus control_reg)) pulse_en 1 (omega arith) (omega arith),
  );
  pedestal = omega (
    arith,
    bit-clear_bits (clear_bits (g (bus control_reg)) pulse_en) ped_en 0 (omega arith) (omega arith),
    bit-clear_bits (g (bus control_reg)) pulse_en 0 (omega arith) (omega arith),
  );
  ped_mask = bit_and-zero (g (bus pmsk_reg));
  gt_mask = bit_and-zero (g (bus gmsk_reg));
  others = λ a c p m. ground (arith, c, p, m);
}

-- A task leaves the MTC as it was.
abbrev Keeps : {A : Type 0} → Detector → Outcome Detector A → Type 0
Keeps d (returned a d') = d'.mtc ≡ d.mtc
Keeps d (thrown e d') = d'.mtc ≡ d.mtc
Keeps d lost = Unit

then-Keeps :
    {A B : Type 0} (d : Detector) (o : Outcome Detector A) (f : A → Task Detector B)
    → Keeps d o
    → ((a : A) (d' : Detector) → Keeps d' (f a d'))
    → Keeps d (after o f)
then-Keeps {B = B} d (returned a d') f k next = onward (f a d') (next a d')
  where
    onward : (o : Outcome Detector B) → Keeps d' o → Keeps d o
    onward (returned b d'') h = h ∙ k
    onward (thrown e d'') h = h ∙ k
    onward lost h = tt
then-Keeps d (thrown e d') f k next = k
then-Keeps d lost f k next = tt

on_found-Keeps :
    {A : Type 0} (d : Detector) (i : ℕ) (m : Task Xl3Model A) (x : Option Xl3Model)
    → Keeps d (on_found d i m x)
on_found-Keeps {A = A} d i m (some x) = back (m x)
  where
    back : (o : Outcome Xl3Model A) → Keeps d (put_back d i o)
    back (returned a y) = refl
    back (thrown e y) = refl
    back lost = tt
on_found-Keeps d i m none = tt

on_crate-Keeps :
    {A : Type 0} (i : ℕ) (m : Task Xl3Model A) (d : Detector) → Keeps d (on_crate i m d)
on_crate-Keeps i m d = on_found-Keeps d i m (get_elem? d.xl3s i)

stop_crates-Keeps :
    (need_to_swap : Bool) (stack : Packet) (is : List ℕ) (d : Detector)
    → Keeps d (stop_crates need_to_swap stack is d)
unfolding stop_crates
stop_crates-Keeps need_to_swap stack [] d = refl
stop_crates-Keeps need_to_swap stack (i ∷ is) d = then-Keeps d _ _ (on_crate-Keeps i _ d) λ a d'.
    then-Keeps d' _ _ (on_crate-Keeps i _ d') λ b d''. stop_crates-Keeps need_to_swap stack is d''

module _ (answer : Sent → Option ℕ) (initial : ℕ → ℕ) (file : IsRegisterFile answer initial) where
  stop_mtc-Runs : Runs answer initial file (stop_mtc answer) tt stopped
  unfolding stop_mtc unmask_crates disable_pulser disable_pedestal unset_ped_crate_mask
      unset_gt_crate_mask
  stop_mtc-Runs =
      then-Runs answer initial file (reset_bits-Runs answer initial file control_reg pulse_en) (
        then-Runs answer initial file (reset_bits-Runs answer initial file control_reg ped_en) (
          then-Runs answer initial file (reset_bits-Runs answer initial file pmsk_reg maskall)
            (reset_bits-Runs answer initial file gmsk_reg maskall)))

  -- How `RunPedestalsEnd` ends: the MTC is stopped, or an exception of a crate left it as it was.
  abbrev pub Finished : Detector → Outcome Detector PedestalRun → Type 0
  Finished d (returned done d') = IsStopped (held initial d.mtc) (held initial d'.mtc)
  Finished d (returned given_up d') = ⊥
  Finished d (returned (interrupted e) d') = d'.mtc ≡ d.mtc
  Finished d (thrown e d') = ⊥
  Finished d lost = Unit

  finish :
      (d : Detector) (o : Outcome Detector Unit)
      → Keeps d o
      → Finished d (caught_run (after o (λ _. on_mtc (stop_mtc answer) >> pure done)))
  finish d (returned a d') k =
      let runs = stop_mtc-Runs.run d'.mtc in
      rw (runs.0, runs.1, k) (stopped-IsStopped (held initial d.mtc))
  finish d (thrown e d') k = k
  finish d lost k = tt

  -- `RunPedestalsEnd` with the MTC, on a board that reads back what is written. Unless it accesses
  -- something past the end of an array or waits forever: when it comes to its end neither the pulser nor
  -- the pedestals are enabled, no crate is in a mask, and no other register has changed; when a crate
  -- throws, the exception is printed and the MTC is left as it was.
  pub run_pedestals_end-Finished :
      (need_to_swap : Bool) (stack : Packet) (crate_mask : ℕ) (setup_crates : Bool) (d : Detector)
      → Finished d (run_pedestals_end need_to_swap stack answer crate_mask setup_crates true d)
  unfolding run_pedestals_end
  run_pedestals_end-Finished need_to_swap stack crate_mask true d =
      finish d _ (stop_crates-Keeps need_to_swap stack (crates_of crate_mask) d)
  run_pedestals_end-Finished need_to_swap stack crate_mask false d = finish d (returned tt d) refl
