-- ===== src/Db/Update.antt =====
-- `UpdateLocation` of src/db/DB.cpp: the documents that it puts into the database, of the boards and of
-- the configuration. What the database answers to that is printed and not looked at.
use Prim.Native.String.{String}
use penn_daq.Prelude.{
  ℕ, ◌^◌, ◌-◌, ◌≤◌, ◌≡◌, refl, sym, ap, subst, ==_iff, ◌∙◌, List, [], ◌∷◌, ◌++◌, map, append-nil,
  append_assoc, Bool, true, false, Option, none, some, ◌==◌, ltb, if◌then◌else◌, length, All, arith,
}
use penn_daq.Boards.Identity.{Found}
use penn_daq.Db.Overrides.{Step, got, fault, ◌>>=◌}
use penn_daq.Db.Location.{CrateEntry, Board, update_config}

abbrev pub located : ℕ → Found → Board
located crate found = record {
  id = found.id;
  crate = crate;
  slot = found.slot;
  position = found.position;
}

abbrev pub underground : ℕ
underground = 1

abbrev pub location_text : ℕ → String
location_text location =
    if location == 2 then "penn" else if location == 0 then "surface" else "underground"

-- What is put: the location of the board with an identifier, or the configuration.
pub data Put : Type 0 where
  put_location : ℕ → String → Put
  put_config : List CrateEntry → Put

-- The code that is returned, and what was put until then.
pub record Updated : Type 0 where
  pub code : ℕ
  pub puts : List Put

abbrev pub stopped : List Put → Step Updated
stopped puts = got (record { code = 2 ^ 32 - 1; puts = puts })

-- `documents` says of an identifier whether the database has its document, and whether that has a
-- location: to take away one that is not there follows a NULL pointer.
abbrev pub with_document : Option Bool → List Put → Step Updated → Step Updated
with_document none puts rest = stopped puts
with_document (some false) puts rest = fault
with_document (some true) puts rest = rest

unfoldable pub update_boards :
    ℕ → (ℕ → Option Bool) → List Board → List Put → (List Put → Step Updated) → Step Updated
update_boards location documents [] puts next = next puts
update_boards location documents (b ∷ bs) puts next = with_document (documents b.id) puts (
    update_boards location documents bs (puts ++ put_location b.id (location_text location) ∷ [])
      next)

abbrev pub update_crates : List Board → Option (List CrateEntry) → List Put → Step Updated
update_crates boards none puts = stopped puts
update_crates boards (some config) puts =
    if ltb 96 (length boards)
    then fault
    else update_config boards config >>= λ new.
        got (record { code = 0; puts = puts ++ put_config new ∷ [] })

unfoldable pub update_location :
    ℕ → (ℕ → Option Bool) → Option (List CrateEntry) → List Board → Step Updated
update_location location documents config boards =
    update_boards location documents boards [] λ puts.
      if location == underground
      then update_crates boards config puts
      else got (record { code = 0; puts = puts })

module _ (location : ℕ) (documents : ℕ → Option Bool) where
  abbrev HasDocument : Board → Type 0
  HasDocument b = documents b.id ≡ some true

  abbrev new_location : Board → Put
  new_location b = put_location b.id (location_text location)

  update_boards_lem :
      (done rest : List Board) (puts : List Put) (next : List Put → Step Updated)
      → All HasDocument done
      → update_boards location documents (done ++ rest) puts next
        ≡ update_boards location documents rest (puts ++ map new_location done) next
  unfolding update_boards
  update_boards_lem [] rest puts next all =
      ap (λ p. update_boards location documents rest p next) (sym (append-nil puts))
  update_boards_lem (b ∷ done) rest puts next all =
      ap
        (λ d.
          with_document d puts
            (update_boards location documents (done ++ rest) (puts ++ new_location b ∷ []) next))
        all.0
      ∙ update_boards_lem done rest (puts ++ new_location b ∷ []) next all.1
      ∙ ap (λ p. update_boards location documents rest p next)
          (append_assoc puts (new_location b ∷ []) (map new_location done))

  -- A board without a document ends the update with -1: the boards before it have their new location,
  -- those behind it and the configuration are as they were.
  pub update_location_stops :
      (config : Option (List CrateEntry)) (done : List Board) (b : Board) (rest : List Board)
      → All HasDocument done
      → documents b.id ≡ none
      → update_location location documents config (done ++ b ∷ rest)
        ≡ stopped (map new_location done)
  unfolding update_location update_boards
  update_location_stops config done b rest all lost =
      update_boards_lem done (b ∷ rest) [] finish all
      ∙ ap
          (λ d. with_document d (map new_location done) (
            update_boards location documents rest (map new_location done ++ new_location b ∷ [])
              finish))
          lost
    where
      finish : List Put → Step Updated
      finish puts =
          if location == underground
          then update_crates (done ++ b ∷ rest) config puts
          else got (record { code = 0; puts = puts })

  -- Underground, when every board has its document and there are at most 96, the locations of all boards
  -- are put, and behind them the configuration once.
  pub update_location_lem :
      (config : List CrateEntry) (boards : List Board)
      → All HasDocument boards
      → length boards ≤ 96
      → location ≡ underground
      → update_location location documents (some config) boards ≡ (
          update_config boards config >>= λ new.
          got (record { code = 0; puts = map new_location boards ++ put_config new ∷ [] }))
  unfolding update_location update_boards
  update_location_lem config boards all few here =
      subst
        (λ bs.
          update_boards location documents bs [] finish ≡ update_config boards config >>= put_last)
        (append-nil boards)
        (update_boards_lem boards [] [] finish all
          ∙ rw ((==_iff location underground).1 here, ltb-few) refl)
    where
      put_last : List CrateEntry → Step Updated
      put_last new =
          got (record { code = 0; puts = map new_location boards ++ put_config new ∷ [] })

      finish : List Put → Step Updated
      finish puts =
          if location == underground
          then update_crates boards (some config) puts
          else got (record { code = 0; puts = puts })

      ltb-few : ltb 96 (length boards) ≡ false
      ltb-few = ground arith
