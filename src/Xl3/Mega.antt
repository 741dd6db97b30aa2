-- ===== src/Xl3/Mega.antt =====
-- The walk over the minibundles of a megabundle, in `XL3Link::ProcessPacket` of src/xl3/XL3Link.cpp.
use penn_daq.Prelude.{
  ℕ, zero, suc, ◌+◌, ◌-◌, ◌/◌, List, [], ◌∷◌, Bool, Option, none, some, ◌==◌, ltb, if◌then◌else◌,
  drop, bit_and,
}

-- `numBundles`, and whether the loop left by its `break`.
pub record Walk : Type 0 where
  pub num_bundles : ℕ
  pub corrupted : Bool

-- `mini->info & 0xFFFFFF` and `mini->info & 0x80000000`.
abbrev pub mini_size : ℕ → ℕ
mini_size info = bit_and info 0xFFFFFF

abbrev pub is_passcur : ℕ → Bool
is_passcur info = if bit_and info 0x80000000 == 0 then Bool.false else Bool.true

-- The branch that prints: a passcur minibundle's word is read, else the bundles are counted.
unfoldable pub count_mini : ℕ → List ℕ → ℕ → Option ℕ
count_mini info words num_bundles =
    if is_passcur info
    then (elim words [ [] ↦ none | _ ∷ _ ↦ some num_bundles ])
    else some (num_bundles + mini_size info / 3)

-- The loop. `words` starts at `mini`; none is a read past the packet's end, or fuel used up.
unfoldable pub mini_loop : ℕ → List ℕ → ℕ → ℕ → Option Walk
mini_loop fuel words zero num_bundles =
    some (record { num_bundles = num_bundles; corrupted = Bool.false })
mini_loop zero words (suc left) num_bundles = none
mini_loop (suc fuel) [] (suc left) num_bundles = none
mini_loop (suc fuel) (info ∷ words) (suc left) num_bundles =
    elim (count_mini info words num_bundles) [
      | none ↦ none
      | some counted ↦ elim (ltb left (mini_size info)) [
        | Bool.true ↦ some (record { num_bundles = counted; corrupted = Bool.true })
        | Bool.false ↦ mini_loop fuel (drop (mini_size info) words) (left - mini_size info) counted
      ]
    ]
