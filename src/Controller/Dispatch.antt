-- ===== src/Controller/Dispatch.antt =====
-- Each command's name leads to its own branch.
use penn_daq.Prelude.{ℕ, ◌≡◌, refl, All, List, [], ◌∷◌, ◌++◌, strncmp_eq}
use penn_daq.Locks.{Connections}
use penn_daq.Args.{Conversions}
use penn_daq.Controller.{
  Branch, dispatch, branches, process_command, crate_branches, card_branches, trigger_branches,
  masks_branches, checks_branches, timing_branches, scans_branches, series_branches,
  daemon_branches,
}
use penn_daq.Controller.Commands.{Call, Handler}

module _ {F : Type 0} where
  abbrev pub line_of : Branch F → List ℕ → List ℕ
  line_of b args = b.name ++ b' ' ∷ args

  -- The chain runs each branch of `bs` on its name, a space and any arguments.
  record AllReached (chain : List ℕ → Handler F) (bs : List (Branch F)) : Type 0 where
    each : All (λ b. (args : List ℕ) → chain (line_of b args) ≡ b.run (line_of b args)) bs

  none_left : {chain : List ℕ → Handler F} → AllReached chain []
  none_left = record { each = tt }

  infixr 20 ◌⊕◌
  ◌⊕◌ :
      {chain : List ℕ → Handler F} {b : Branch F} {bs : List (Branch F)}
      → ((args : List ℕ) → chain (line_of b args) ≡ b.run (line_of b args))
      → AllReached chain bs
      → AllReached chain (b ∷ bs)
  p ⊕ ps = record { each = (p, ps.each) }

  both :
      {chain : List ℕ → Handler F} (xs ys : List (Branch F))
      → AllReached chain xs
      → AllReached chain ys
      → AllReached chain (xs ++ ys)
  both [] ys p q = q
  both (x ∷ xs) ys p q = record {
    each = (p.each.0, (both xs ys (record { each = p.each.1 }) q).each);
  }

module _ {F : Type 0} (lib : Conversions F) (perform : List (Call F) → Connections → Connections)
    (default_sshkey : List ℕ) where
  abbrev chain : List ℕ → Handler F
  unfolding branches
  chain input = dispatch (branches lib perform default_sshkey) input

  crate_reached : AllReached chain (crate_branches lib perform default_sshkey)
  unfolding dispatch branches strncmp_eq
  crate_reached =
      (λ args. refl)
      ⊕ (λ args. refl)
      ⊕ (λ args. refl)
      ⊕ (λ args. refl)
      ⊕ (λ args. refl)
      ⊕ (λ args. refl)
      ⊕ (λ args. refl)
      ⊕ (λ args. refl)
      ⊕ (λ args. refl)
      ⊕ (λ args. refl)
      ⊕ (λ args. refl)
      ⊕ (λ args. refl)
      ⊕ (λ args. refl)
      ⊕ (λ args. refl)
      ⊕ (λ args. refl)
      ⊕ (λ args. refl)
      ⊕ (λ args. refl)
      ⊕ none_left

  card_reached : AllReached chain (card_branches lib perform default_sshkey)
  unfolding dispatch branches strncmp_eq
  card_reached =
      (λ args. refl)
      ⊕ (λ args. refl)
      ⊕ (λ args. refl)
      ⊕ (λ args. refl)
      ⊕ (λ args. refl)
      ⊕ (λ args. refl)
      ⊕ none_left

  trigger_reached : AllReached chain (trigger_branches lib perform default_sshkey)
  unfolding dispatch branches strncmp_eq
  trigger_reached =
      (λ args. refl)
      ⊕ (λ args. refl)
      ⊕ (λ args. refl)
      ⊕ (λ args. refl)
      ⊕ (λ args. refl)
      ⊕ (λ args. refl)
      ⊕ (λ args. refl)
      ⊕ (λ args. refl)
      ⊕ none_left

  masks_reached : AllReached chain (masks_branches lib perform default_sshkey)
  unfolding dispatch branches strncmp_eq
  masks_reached =
      (λ args. refl)
      ⊕ (λ args. refl)
      ⊕ (λ args. refl)
      ⊕ (λ args. refl)
      ⊕ (λ args. refl)
      ⊕ (λ args. refl)
      ⊕ (λ args. refl)
      ⊕ (λ args. refl)
      ⊕ (λ args. refl)
      ⊕ (λ args. refl)
      ⊕ none_left

  checks_reached : AllReached chain (checks_branches lib perform default_sshkey)
  unfolding dispatch branches strncmp_eq
  checks_reached =
      (λ args. refl)
      ⊕ (λ args. refl)
      ⊕ (λ args. refl)
      ⊕ (λ args. refl)
      ⊕ (λ args. refl)
      ⊕ (λ args. refl)
      ⊕ (λ args. refl)
      ⊕ (λ args. refl)
      ⊕ (λ args. refl)
      ⊕ none_left

  timing_reached : AllReached chain (timing_branches lib perform default_sshkey)
  unfolding dispatch branches strncmp_eq
  timing_reached =
      (λ args. refl)
      ⊕ (λ args. refl)
      ⊕ (λ args. refl)
      ⊕ (λ args. refl)
      ⊕ (λ args. refl)
      ⊕ (λ args. refl)
      ⊕ (λ args. refl)
      ⊕ none_left

  scans_reached : AllReached chain (scans_branches lib perform default_sshkey)
  unfolding dispatch branches strncmp_eq
  scans_reached =
      (λ args. refl)
      ⊕ (λ args. refl)
      ⊕ (λ args. refl)
      ⊕ (λ args. refl)
      ⊕ (λ args. refl)
      ⊕ (λ args. refl)
      ⊕ (λ args. refl)
      ⊕ (λ args. refl)
      ⊕ none_left

  series_reached : AllReached chain (series_branches lib perform default_sshkey)
  unfolding dispatch branches strncmp_eq
  series_reached =
      (λ args. refl)
      ⊕ (λ args. refl)
      ⊕ (λ args. refl)
      ⊕ (λ args. refl)
      ⊕ (λ args. refl)
      ⊕ (λ args. refl)
      ⊕ (λ args. refl)
      ⊕ none_left

  daemon_reached : AllReached chain (daemon_branches lib perform default_sshkey)
  unfolding dispatch branches strncmp_eq
  daemon_reached =
      (λ args. refl)
      ⊕ (λ args. refl)
      ⊕ (λ args. refl)
      ⊕ (λ args. refl)
      ⊕ (λ args. refl)
      ⊕ (λ args. refl)
      ⊕ (λ args. refl)
      ⊕ (λ args. refl)
      ⊕ (λ args. refl)
      ⊕ none_left

  -- A line that is the name of a command, a space and any arguments runs the branch of that command:
  -- no name is taken for an earlier one that it starts with.
  pub process_command-dispatch :
      All
        (λ b.
          (args : List ℕ)
          → process_command lib perform default_sshkey (line_of b args) ≡ b.run (line_of b args))
        (branches lib perform default_sshkey)
  unfolding process_command branches
  process_command-dispatch =
      ((both _ _ crate_reached (
        both _ _ card_reached (
          both _ _ trigger_reached (
            both _ _ masks_reached (
              both _ _ checks_reached (
                both _ _ timing_reached
                  (both _ _ scans_reached (both _ _ series_reached daemon_reached))))))))).each
