-- ===== src/Db/Moved.antt =====
-- What `UpdateLocation` makes of the configuration.
use penn_daq.Prelude.{ℕ, ◌≡◌, refl, sym, subst, ap, ◌∙◌, List, [], ◌∷◌, map, none, All}
use mathlib.Core.Option
use penn_daq.Db.Overrides.{got, ◌>>=◌}
use penn_daq.Db.Counting.{Surely}
use penn_daq.Db.Location.{
  Text, CrateEntry, Board, id_text, Placing, cleared, remove_olds, place_boards, update_config,
}
use penn_daq.Db.Removed.{IsFull, without, remove_from_config-without}
use penn_daq.Db.Places.{Place, place_of}
use penn_daq.Db.Crates.{look}
use penn_daq.Db.Standing.{steps, HasPlace, All-map, place_boards-steps}
use penn_daq.Db.Cleared.{
  look-without, is_in-without, without-IsFull, IsNew, IsFree, cleared-IsFree, still-IsFree,
  cleared_nil, cleared_kept, IsNew-All,
}
use penn_daq.Db.Steps.{
  Apart, AreApart, StandsIn, AllFree, steps_other, steps-StandsIn, steps-IsFull, steps-IsNew,
}

-- The removal of what was replaced.
remove_olds-look :
    (olds : List Text) (crates : List CrateEntry)
    → All IsFull crates
    → (new : List CrateEntry) × ((remove_olds olds crates ≡ got new)
        × ((n : ℕ) (q : Place) → look new n q ≡ Option.map (cleared olds) (look crates n q)))
remove_olds-look [] crates full = (crates, (refl, λ n q. sym (cleared_nil (look crates n q))))
remove_olds-look (old ∷ olds) crates full = (
  map (without (old ∷ olds)) crates,
  (remove_from_config-without (old ∷ olds) crates full, look-without (old ∷ olds) crates),
)

abbrev pub ids_of : List Board → List Text
ids_of boards = map (λ b. id_text b.id) boards

All-ids_of :
    (P : Text → Type 0) (bs : List Board) → All P (ids_of bs) → All (λ b. P (id_text b.id)) bs
All-ids_of P [] all = tt
All-ids_of P (b ∷ bs) all = (all.0, All-ids_of P bs all.1)

still-StandsIn :
    (olds : List Text) (old_crates new : List CrateEntry) (bs : List Board)
    → ((n : ℕ) (q : Place) → look new n q ≡ Option.map (cleared olds) (look old_crates n q))
    → All (λ b. IsNew olds (id_text b.id)) bs
    → All (StandsIn old_crates) bs
    → All (StandsIn new) bs
still-StandsIn olds old_crates new [] same kept stand = tt
still-StandsIn olds old_crates new (b ∷ bs) same kept stand = (
  same b.crate (place_of b)
      ∙ ap (Option.map (cleared olds)) stand.0
      ∙ cleared_kept olds (id_text b.id) kept.0,
  still-StandsIn olds old_crates new bs same kept.1 stand.1,
)

-- Every board stands at its place, and at no other place stands one of them.
abbrev pub AreMoved : List Board → List CrateEntry → Type 0
AreMoved boards config =
    All (StandsIn config) boards
    × ((n : ℕ) (q : Place) → All (Apart n q) boards → IsFree (ids_of boards) (look config n q))

abbrev first_placing : List Board → List CrateEntry → Placing
first_placing boards config = record { olds = []; crates = map (without (ids_of boards)) config }

module _ (boards : List Board) (config : List CrateEntry) (full : All IsFull config)
    (here : All (HasPlace config) boards) (apart : AreApart boards) where
  abbrev p : Placing
  p = first_placing boards config

  abbrev done : Placing
  done = steps boards p

  p-IsFull : All IsFull p.crates
  p-IsFull = without-IsFull (ids_of boards) config full

  p-HasPlace : All (HasPlace p.crates) boards
  p-HasPlace =
      All-map (HasPlace config) (HasPlace p.crates) boards
        (λ b h. (is_in-without (ids_of boards) b.crate config ∙ h.0, h.1)) here

  p-IsFree : (n : ℕ) (q : Place) → IsFree (ids_of boards) (look p.crates n q)
  p-IsFree n q =
      subst (IsFree (ids_of boards)) (sym (look-without (ids_of boards) config n q))
        (cleared-IsFree (ids_of boards) (look config n q))

  all_free : (bs : List Board) → AllFree (ids_of boards) p.crates bs
  all_free [] = tt
  all_free (b ∷ bs) = (p-IsFree b.crate (place_of b), all_free bs)

  olds-IsNew : All (λ b. IsNew done.olds (id_text b.id)) boards
  olds-IsNew = All-ids_of (IsNew done.olds) boards (
      IsNew-All (ids_of boards) done.olds
        (steps-IsNew (ids_of boards) boards p (all_free boards) tt apart))

  finish :
      (new : List CrateEntry)
      → ((n : ℕ) (q : Place) → look new n q ≡ Option.map (cleared done.olds) (look done.crates n q))
      → AreMoved boards new
  finish new same = (
    still-StandsIn done.olds done.crates new boards same olds-IsNew
        (steps-StandsIn boards p p-IsFull p-HasPlace apart),
    λ n q other.
        subst (IsFree (ids_of boards))
          (sym (same n q ∙ ap (Option.map (cleared done.olds)) (steps_other n q boards p other)))
          (still-IsFree (ids_of boards) done.olds (look p.crates n q) (p-IsFree n q)),
  )

-- When the arrays of the configuration have their full lengths, and the boards have places of their
-- own in crates of it, the configuration is made to its end: every board stands at its place, and no
-- other place holds the identifier of one of them.
pub update_config-moves :
    (boards : List Board) (config : List CrateEntry)
    → All IsFull config
    → All (HasPlace config) boards
    → AreApart boards
    → Surely (AreMoved boards) (update_config boards config)
unfolding update_config
update_config-moves boards config full here apart =
    let last =
      remove_olds-look done.olds done.crates
        (steps-IsFull boards start (p-IsFull boards config full here apart)) in
    subst (Surely (AreMoved boards))
      (sym (
        ap
          (λ s. s >>= λ crates.
            place_boards boards none (record { olds = []; crates = crates }) >>= λ q.
            remove_olds q.olds q.crates)
          (remove_from_config-without (ids_of boards) config full)
        ∙ ap (λ s. s >>= λ q. remove_olds q.olds q.crates)
            (place_boards-steps boards none start (p-IsFull boards config full here apart)
              (p-HasPlace boards config full here apart))
        ∙ last.1.0))
      (finish boards config full here apart last.0 last.1.1)
  where
    start : Placing
    start = first_placing boards config

    done : Placing
    done = steps boards start
