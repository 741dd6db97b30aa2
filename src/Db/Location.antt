-- ===== src/Db/Location.antt =====
-- `UpdateLocation` and `RemoveFromConfig` of src/db/DB.cpp: where the boards of the detector stand in
-- the document of its configuration. A card of the document has an identifier, which may be null.
use penn_daq.Prelude.{
  ℕ, zero, suc, ◌+◌, ◌/◌, ◌%◌, ◌^◌, List, [], ◌∷◌, ◌++◌, map, Bool, false, Option, none, some, ◌==◌,
  ◌||◌, ltb, if◌then◌else◌, get_elem?, set, take, drop, length, strncmp_eq,
}
use penn_daq.Db.Overrides.{Step, got, fault, ◌>>=◌}

-- A text as its codes; a place without a board has null.
abbrev pub Text : Type 0
Text = List ℕ

pub record Fec : Type 0 where
  pub id : Option Text
  pub dbs : List (Option Text)

pub record CrateEntry : Type 0 where
  pub id : ℕ
  pub fecs : List Fec
  pub pmtics : List (Option Text)

-- What is done to element `k` of the first `n` of an array: they are all taken out and put back in
-- at its end, one of them another. With fewer than `n` elements a pointer that is NULL is followed.
abbrev pub replace_in : {A : Type 0} → ℕ → ℕ → A → List A → Step (List A)
replace_in n k new xs =
    if ltb (length xs) n then fault else got (drop n xs ++ set (take n xs) k new)

-- The loops over the boards that are removed, for an element that held `old`.
unfoldable pub clear_same :
    ℕ → ℕ → Text → List Text → List (Option Text) → Step (List (Option Text))
clear_same n k old [] xs = got xs
clear_same n k old (id ∷ ids) xs =
    (if strncmp_eq 4 id old then replace_in n k none xs else got xs) >>= clear_same n k old ids

abbrev pub clear_text :
    ℕ → ℕ → Option (Option Text) → List Text → List (Option Text) → Step (List (Option Text))
clear_text n k (some (some old)) ids xs = clear_same n k old ids xs
clear_text n k _ ids xs = got xs

unfoldable pub clear_from : ℕ → ℕ → ℕ → List Text → List (Option Text) → Step (List (Option Text))
clear_from zero k n ids xs = got xs
clear_from (suc rounds) k n ids xs =
    clear_text n k (get_elem? xs k) ids xs >>= clear_from rounds (suc k) n ids

unfoldable pub any_same : Text → List Text → Bool
any_same old [] = false
any_same old (id ∷ ids) = strncmp_eq 4 id old || any_same old ids

abbrev pub cleared : List Text → Option Text → Option Text
cleared ids none = none
cleared ids (some old) = if any_same old ids then none else some old

unfoldable pub remove_fecs : ℕ → List Text → List Fec → Step (List Fec)
remove_fecs zero ids fecs = got fecs
remove_fecs (suc n) ids [] = got []
remove_fecs (suc n) ids (fec ∷ fecs) = do
  dbs ← clear_from 4 0 4 ids fec.dbs
  rest ← remove_fecs n ids fecs
  got (record { id = cleared ids fec.id; dbs = dbs } ∷ rest)

unfoldable pub remove_from_config : List Text → List CrateEntry → Step (List CrateEntry)
remove_from_config ids [] = got []
remove_from_config ids (crate ∷ crates) = do
  fecs ← remove_fecs 16 ids crate.fecs
  pmtics ← clear_from 16 0 16 ids crate.pmtics
  rest ← remove_from_config ids crates
  got (record { id = crate.id; fecs = fecs; pmtics = pmtics } ∷ rest)

-- A board as `BoardID` found it: its identifier, and where it stands.
pub record Board : Type 0 where
  pub id : ℕ
  pub crate : ℕ
  pub slot : ℕ
  pub position : ℕ

-- `sprintf("%04x")` of a `uint16_t`.
abbrev pub hex_digit : ℕ → ℕ
hex_digit d = if ltb d 10 then 48 + d else 87 + d

abbrev pub id_text : ℕ → Text
id_text id =
    hex_digit (id / 2 ^ 12 % 16)
    ∷ hex_digit (id / 2 ^ 8 % 16)
    ∷ hex_digit (id / 2 ^ 4 % 16)
    ∷ hex_digit (id % 16)
    ∷ []

-- The boards that were replaced, and the crates.
pub record Placing : Type 0 where
  pub olds : List Text
  pub crates : List CrateEntry

abbrev pub noted : Option (Option Text) → List Text → List Text
noted (some (some old)) olds = olds ++ old ∷ []
noted _ olds = olds

-- The change of a crate for one board, with the text that it replaces.
abbrev pub put_id :
    Board → ℕ → Fec → List Fec → CrateEntry → Step (Option (Option Text) × CrateEntry)
put_id b zero fec fecs crate =
    got (
      some fec.id,
      record crate { fecs = set fecs b.slot (record fec { id = some (id_text b.id) }) },
    )
put_id b (suc k) fec fecs crate = do
  dbs ← replace_in 4 k (some (id_text b.id)) fec.dbs
  got (get_elem? fec.dbs k, record crate { fecs = set fecs b.slot (record fec { dbs = dbs }) })

abbrev pub put_fec : Board → Option Fec → CrateEntry → Step (Option (Option Text) × CrateEntry)
put_fec b none crate = fault
put_fec b (some fec) crate = put_id b b.position fec crate.fecs crate

abbrev pub put_pmtic : Board → CrateEntry → Step (Option (Option Text) × CrateEntry)
put_pmtic b crate = do
  pmtics ← replace_in 16 b.slot (some (id_text b.id)) crate.pmtics
  got (
    (if ltb b.slot 16 then get_elem? crate.pmtics b.slot else none),
    record crate { pmtics = pmtics },
  )

unfoldable pub put_board : Board → CrateEntry → Step (Option (Option Text) × CrateEntry)
put_board b crate =
    if ltb b.position 5
    then put_fec b (get_elem? crate.fecs b.slot) crate
    else if b.position == 5
    then put_pmtic b crate
    else got (none, crate)

-- The place of the first crate with a number, which stays that of the board before when there is none.
unfoldable pub find_crate : ℕ → ℕ → List CrateEntry → Option ℕ → Option ℕ
find_crate number i [] found = found
find_crate number i (crate ∷ crates) found =
    let rest = find_crate number (suc i) crates found in if crate.id == number then some i else rest

abbrev pub place_in : Board → ℕ → Option CrateEntry → Placing → Step Placing
place_in b i none p = fault
place_in b i (some crate) p = do
  put ← put_board b crate
  got (record { olds = noted put.0 p.olds; crates = set p.crates i put.1 })

abbrev pub place_at : Board → Option ℕ → Placing → Step Placing
place_at b none p = fault
place_at b (some i) p = place_in b i (get_elem? p.crates i) p

unfoldable pub place_boards : List Board → Option ℕ → Placing → Step Placing
place_boards [] found p = got p
place_boards (b ∷ bs) found p =
    let this_crate = find_crate b.crate 0 p.crates found in
    place_at b this_crate p >>= place_boards bs this_crate

abbrev pub remove_olds : List Text → List CrateEntry → Step (List CrateEntry)
remove_olds [] crates = got crates
remove_olds (old ∷ olds) crates = remove_from_config (old ∷ olds) crates

-- The document that is put, of the one that was got.
unfoldable pub update_config : List Board → List CrateEntry → Step (List CrateEntry)
update_config boards config = do
  crates ← remove_from_config (map (λ b. id_text b.id) boards) config
  p ← place_boards boards none (record { olds = []; crates = crates })
  remove_olds p.olds p.crates
