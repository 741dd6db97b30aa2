-- ===== src/Locks/Laws.antt =====
-- What the loops over the crates compute.
use penn_daq.Prelude.{
  ℕ, zero, suc, ◌+◌, ◌*◌, ◌^◌, ◌≤◌, ◌≡◌, refl, ap, ap₂, subst, ◌∙◌, List, [], ◌∷◌, Bool, true,
  false, not, arith, ◌==◌, if◌then◌else◌, some, get_elem?, ◌↔◌, bit, bit_and, bit_and_comm,
  bit_and-field, shift-bit, bit-le-one, bit-zero,
}
use mathlib.Core.Option
use native.Mathlib.Nat.{one-le-pow}
use mathlib.Core.Option.{some-injective}
use penn_daq.Locks.{Link, set_lock, selected, Flags, note_check, check_xl3s, set_xl3s}

-- A mask names crate `i` exactly when its bit `i` is set.
pub selected_iff : (mask i : ℕ) → (selected mask i ≡ true) ↔ (bit mask i ≡ 1)
unfolding selected
selected_iff mask i = by_value (bit mask i) (bit-le-one mask i) field
  where
    field : bit_and (1 * 2 ^ i) mask ≡ bit mask i * 2 ^ i
    field =
        bit_and_comm (1 * 2 ^ i) mask
        ∙ bit_and-field i 1 mask
        ∙ ap (λ (t : ℕ). t * 2 ^ i) (shift-bit mask i)

    by_value :
        (t : ℕ)
        → t ≤ 1
        → bit_and (1 * 2 ^ i) mask ≡ t * 2 ^ i
        → (not (bit_and (1 * 2 ^ i) mask == 0) ≡ true) ↔ (t ≡ 1)
    by_value zero le e = ground (arith, e)
    by_value (suc zero) le e = let p = one-le-pow i 2 in ground (arith, e, one-le-pow i 2)
    by_value (suc (suc t)) le e = absurd (omega arith)

abbrev pub IsFree : Link → Type 0
IsFree l = (l.connected ≡ true) × (l.locked ≡ false)

-- `P` holds of each link that the mask names; the links are numbered from `i` on.
abbrev pub EachSelected : (Link → Type 0) → ℕ → ℕ → List Link → Type 0
EachSelected P mask i [] = Unit
EachSelected P mask i (l ∷ ls) = (selected mask i ≡ true → P l) × EachSelected P mask (suc i) ls

abbrev pub IsClear : Flags → Type 0
IsClear f = (f.busy ≡ 0) × (f.nc ≡ 0)

note_check-IsClear : (l : Link) (f : Flags) → IsClear (note_check l f) ↔ (IsClear f × IsFree l)
unfolding note_check
note_check-IsClear l f = ground arith

note_selected-IsClear :
    (b : Bool) (l : Link) (f : Flags)
    → IsClear (if b then note_check l f else f) ↔ (IsClear f × (b ≡ true → IsFree l))
note_selected-IsClear true l f =
    let e = note_check-IsClear l f in (λ h. ((e.0 h).0, λ _. (e.0 h).1), λ h. e.1 (h.0, h.1 refl))
note_selected-IsClear false l f = (λ h. (h, λ e. cc), λ h. h.0)

-- No flag is set exactly when none was set and each selected link is connected and free.
pub check_xl3s-IsClear :
    (mask i : ℕ) (ls : List Link) (f : Flags)
    → IsClear (check_xl3s mask i ls f) ↔ (IsClear f × EachSelected IsFree mask i ls)
unfolding check_xl3s
check_xl3s-IsClear mask i [] f = (λ h. (h, tt), λ h. h.0)
check_xl3s-IsClear mask i (l ∷ ls) f =
    let f' : Flags = if selected mask i then note_check l f else f in
    let here = note_selected-IsClear (selected mask i) l f in
    let there = check_xl3s-IsClear mask (suc i) ls f' in
    (
      λ h. let c = here.0 (there.0 h).0 in (c.0, (c.1, (there.0 h).1)),
      λ h. there.1 (here.1 (h.0, h.1.0), h.1.1),
    )

abbrev pub IsConnected : Link → Type 0
IsConnected l = l.connected ≡ true

note_check_nc :
    (b : Bool) (l : Link) (f : Flags)
    → ((if b then note_check l f else f).nc ≡ 0) ↔ ((f.nc ≡ 0) × (b ≡ true → IsConnected l))
unfolding note_check
note_check_nc true l f = (λ h. ground arith, λ h. let k = h.1 refl in ground arith)
note_check_nc false l f = (λ h. (h, λ e. cc), λ h. h.0)

-- The flag for a missing connection alone.
pub check_xl3s_nc :
    (mask i : ℕ) (ls : List Link) (f : Flags)
    → ((check_xl3s mask i ls f).nc ≡ 0) ↔ ((f.nc ≡ 0) × EachSelected IsConnected mask i ls)
unfolding check_xl3s
check_xl3s_nc mask i [] f = (λ h. (h, tt), λ h. h.0)
check_xl3s_nc mask i (l ∷ ls) f =
    let f' : Flags = if selected mask i then note_check l f else f in
    let here = note_check_nc (selected mask i) l f in
    let there = check_xl3s_nc mask (suc i) ls f' in
    (
      λ h. let c = here.0 (there.0 h).0 in (c.0, (c.1, (there.0 h).1)),
      λ h. there.1 (here.1 (h.0, h.1.0), h.1.1),
    )

abbrev pub Small : Flags → Type 0
Small f = (f.busy ≤ 1) × (f.nc ≤ 1)

note_check-Small :
    (b : Bool) (l : Link) (f : Flags) → Small f → Small (if b then note_check l f else f)
unfolding note_check
note_check-Small b l f h = ground arith

pub check_xl3s-Small :
    (mask i : ℕ) (ls : List Link) (f : Flags) → Small f → Small (check_xl3s mask i ls f)
unfolding check_xl3s
check_xl3s-Small mask i [] f h = h
check_xl3s-Small mask i (l ∷ ls) f h =
    check_xl3s-Small mask (suc i) ls (if selected mask i then note_check l f else f)
      (note_check-Small (selected mask i) l f h)

-- Each link after the setting loop.
pub get_elem?-set_xl3s :
    (b : Bool) (mask i k : ℕ) (ls : List Link)
    → get_elem? (set_xl3s b mask i ls) k
      ≡ Option.map (λ l. if selected mask (i + k) then set_lock b l else l) (get_elem? ls k)
unfolding set_xl3s
get_elem?-set_xl3s b mask i k [] = refl
get_elem?-set_xl3s b mask i zero (l ∷ ls) =
    ap (λ n. some (if selected mask n then set_lock b l else l)) (omega arith)
get_elem?-set_xl3s b mask i (suc k) (l ∷ ls) =
    get_elem?-set_xl3s b mask (suc i) k ls
    ∙ ap (λ n. Option.map (λ l. if selected mask n then set_lock b l else l) (get_elem? ls k))
        (omega arith)

-- Locking and unlocking the same free links gives them back.
pub set_xl3s-undo :
    (mask i : ℕ) (ls : List Link)
    → EachSelected IsFree mask i ls
    → set_xl3s false mask i (set_xl3s true mask i ls) ≡ ls
unfolding set_xl3s
set_xl3s-undo mask i [] h = refl
set_xl3s-undo mask i (l ∷ ls) h =
    ap₂ ◌∷◌ (undo (selected mask i) h.0) (set_xl3s-undo mask (suc i) ls h.1)
  where
    undo :
        (b : Bool)
        → (b ≡ true → IsFree l)
        → (if b
            then set_lock false (if b then set_lock true l else l)
            else (if b then set_lock true l else l))
          ≡ l
    undo true free = let f = free refl in ground arith
    undo false free = refl

-- A mask of no crates.
pub none_selected : (P : Link → Type 0) (i : ℕ) (ls : List Link) → EachSelected P 0 i ls
none_selected P i [] = tt
none_selected P i (l ∷ ls) =
    (λ e. absurd (omega (arith, (selected_iff 0 i).0 e, bit-zero i)), none_selected P (suc i) ls)

pub get_selected :
    (P : Link → Type 0) (mask i k : ℕ) (ls : List Link) (l : Link)
    → EachSelected P mask i ls
    → get_elem? ls k ≡ some l
    → selected mask (i + k) ≡ true
    → P l
get_selected P mask i k [] l h e s = cc
get_selected P mask i zero (x ∷ ls) l h e s =
    subst P (some-injective x l e) (h.0 (ap (selected mask) (omega arith) ∙ s))
get_selected P mask i (suc k) (x ∷ ls) l h e s =
    get_selected P mask (suc i) k ls l h.1 e (ap (selected mask) (omega arith) ∙ s)
