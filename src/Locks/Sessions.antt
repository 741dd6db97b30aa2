-- ===== src/Locks/Sessions.antt =====
-- Commands that run at the same time, each between its `LockConnections` and its
-- `UnlockConnections`: a step relation, and that no board has two of them.
use penn_daq.Prelude.{
  ℕ, zero, suc, ◌+◌, ◌≤◌, ◌≡◌, refl, ap, ◌∙◌, List, [], ◌∷◌, ◌++◌, Bool, true, false, arith, ◌==◌,
  if◌then◌else◌, Option, none, some, get_elem?, sym,
}
use mathlib.Core.Option
use penn_daq.Locks.{
  Link, set_lock, set_mtc, selected, Connections, set_xl3s, lock_connections, unlock_connections,
}
use penn_daq.Locks.Laws.{IsFree, get_elem?-set_xl3s, get_selected}
use penn_daq.Locks.Calls.{lock_granted, lock_connections_iff, IsGranted, MtcFree}

pub record Request : Type 0 where
  pub sbc : ℕ
  pub mask : ℕ

-- The links, and the commands that hold locks.
pub record System : Type 0 where
  pub links : Connections
  pub running : List Request

-- The same locks; connections come and go.
pub record SameLocks (c d : Connections) : Type 0 where
  pub mtc : d.mtc.locked ≡ c.mtc.locked
  pub xl3s :
      (k : ℕ)
      → Option.map (λ (l : Link). l.locked) (get_elem? d.xl3s k)
        ≡ Option.map (λ (l : Link). l.locked) (get_elem? c.xl3s k)

-- The steps of the commands that lock with `sbc` 0 or 1, and unlock what they were granted.
pub data Step : System → System → Type 0 where
  start :
      (r : Request) (s : System)
      → r.sbc ≤ 1
      → (lock_connections r.sbc r.mask s.links).0 ≡ 0
      → Step s
          (record { links = (lock_connections r.sbc r.mask s.links).1; running = r ∷ s.running })
  finish :
      (before : List Request) (r : Request) (after : List Request) (s : System)
      → s.running ≡ before ++ r ∷ after
      → Step s (record {
        links = (unlock_connections r.sbc r.mask s.links).1;
        running = before ++ after;
      })
  reconnect : (c : Connections) (s : System) → SameLocks s.links c → Step s (record s { links = c })

pub data Reach (s : System) : System → Type 0 where
  here : Reach s s
  next : {t u : System} → Reach s t → Step t u → Reach s u

-- How many of the commands hold a board.
abbrev pub holders : (Request → Bool) → List Request → ℕ
holders uses [] = 0
holders uses (r ∷ rs) = (if uses r then 1 else 0) + holders uses rs

abbrev pub uses_mtc : Request → Bool
uses_mtc r = if r.sbc == 0 then false else true

abbrev pub uses_crate : ℕ → Request → Bool
uses_crate k r = selected r.mask k

abbrev pub one_if : Bool → ℕ
one_if b = if b then 1 else 0

-- The lock of a board is set exactly while one command holds it.
pub record IsExclusive (s : System) : Type 0 where
  pub mtc : holders uses_mtc s.running ≡ one_if s.links.mtc.locked
  pub crate :
      (k : ℕ) (l : Link)
      → get_elem? s.links.xl3s k ≡ some l
      → holders (uses_crate k) s.running ≡ one_if l.locked

holders-append :
    (uses : Request → Bool) (xs ys : List Request)
    → holders uses (xs ++ ys) ≡ holders uses xs + holders uses ys
holders-append uses [] ys = omega arith
holders-append uses (x ∷ xs) ys = omega (arith, holders-append uses xs ys)

map-some :
    {A B : Type 0} (f : A → B) (o : Option A) (b : B)
    → Option.map f o ≡ some b
    → (a : A) × (o ≡ some a) × (b ≡ f a)
map-some f none b e = cc
map-some f (some a) b e = (a, refl, cc)

-- The crate as it was before all the locks of a mask were set to `b`.
before_set :
    (b : Bool) (mask k : ℕ) (ls : List Link) (l : Link)
    → get_elem? (set_xl3s b mask 0 ls) k ≡ some l
    → (a : Link) × (get_elem? ls k ≡ some a)
      × (l.locked ≡ (if selected mask k then b else a.locked))
before_set b mask k ls l e =
    let (a, there, same) =
      map-some _ (get_elem? ls k) l (sym (get_elem?-set_xl3s b mask 0 k ls) ∙ e) in
    (
      a,
      there,
      ap (λ (t : Link). t.locked)
            (same ∙ ap (λ n. if selected mask n then set_lock b a else a) (omega arith))
          ∙ read_lock (selected mask k) a,
    )
  where
    read_lock :
        (t : Bool) (a : Link) → (if t then set_lock b a else a).locked ≡ (if t then b else a.locked)
    read_lock true a = refl
    read_lock false a = refl

start-IsExclusive :
    (r : Request) (s : System)
    → r.sbc ≤ 1
    → (lock_connections r.sbc r.mask s.links).0 ≡ 0
    → IsExclusive s
    → IsExclusive
        (record { links = (lock_connections r.sbc r.mask s.links).1; running = r ∷ s.running })
start-IsExclusive r s le e x = rw (lock_granted r.sbc r.mask s.links e) (record {
  mtc = mtc_start r.sbc le s.links.mtc granted.0 x.mtc;
  crate = λ k l at.
      let (a, was, locked) = before_set true r.mask k s.links.xl3s l at in
      crate_start (selected r.mask k) (x.crate k a was)
        (λ sel.
          (get_selected IsFree r.mask 0 k s.links.xl3s a granted.1 was
            (ap (selected r.mask) (omega arith) ∙ sel)).1)
        locked;
})
  where
    granted : IsGranted r.sbc r.mask s.links
    granted = (lock_connections_iff r.sbc r.mask s.links).0 e

    mtc_start :
        (sbc : ℕ)
        → sbc ≤ 1
        → (m : Link) → MtcFree sbc m
        → holders uses_mtc s.running ≡ one_if m.locked
        → (if (if sbc == 0 then false else true) then 1 else 0) + holders uses_mtc s.running
          ≡ one_if (set_mtc true sbc m).locked
    mtc_start zero h m f e = omega arith
    mtc_start (suc zero) h m f e = ground arith
    mtc_start (suc (suc n)) h m f e = absurd (omega arith)

    crate_start :
        (t : Bool) {n : ℕ} {was now : Bool}
        → n ≡ one_if was
        → (t ≡ true → was ≡ false)
        → now ≡ (if t then true else was)
        → (if t then 1 else 0) + n ≡ one_if now
    crate_start true h free e = let f = free refl in ground arith
    crate_start false h free e = ground arith

finish-IsExclusive :
    (before : List Request) (r : Request) (after : List Request) (s : System)
    → s.running ≡ before ++ r ∷ after
    → IsExclusive s
    → IsExclusive
        (record { links = (unlock_connections r.sbc r.mask s.links).1; running = before ++ after })
unfolding unlock_connections
finish-IsExclusive before r after s e x = record {
  mtc = mtc_finish r.sbc s.links.mtc (counted uses_mtc ∙ x.mtc);
  crate = λ k l at.
      let (a, was, locked) = before_set false r.mask k s.links.xl3s l at in
      crate_finish (selected r.mask k) a.locked l.locked (counted (uses_crate k) ∙ x.crate k a was)
        locked;
}
  where
    counted :
        (uses : Request → Bool)
        → (if uses r then 1 else 0) + holders uses (before ++ after) ≡ holders uses s.running
    counted uses = omega (
      arith,
      ap (holders uses) e,
      holders-append uses before after,
      holders-append uses before (r ∷ after),
    )

    crate_finish :
        (t was now : Bool) {n : ℕ}
        → (if t then 1 else 0) + n ≡ one_if was
        → now ≡ (if t then false else was)
        → n ≡ one_if now
    crate_finish true was now h e = ground arith
    crate_finish false was now h e = ground arith

    mtc_finish :
        (sbc : ℕ) (m : Link) {n : ℕ}
        → (if (if sbc == 0 then false else true) then 1 else 0) + n ≡ one_if m.locked
        → n ≡ one_if (set_mtc false sbc m).locked
    mtc_finish sbc m h = ground arith

reconnect-IsExclusive :
    (c : Connections) (s : System)
    → SameLocks s.links c
    → IsExclusive s
    → IsExclusive (record s { links = c })
reconnect-IsExclusive c s same x = record {
  mtc = omega (arith, x.mtc, ap one_if same.mtc);
  crate = λ k l at.
      let (a, was, locked) =
        map-some _ (get_elem? s.links.xl3s k) l.locked
          (sym (same.xl3s k) ∙ ap (Option.map (λ (t : Link). t.locked)) at) in
      omega (arith, x.crate k a was, ap one_if locked);
}

Step-IsExclusive : {s t : System} → Step s t → IsExclusive s → IsExclusive t
Step-IsExclusive (start r s le e) x = start-IsExclusive r s le e x
Step-IsExclusive (finish before r after s e) x = finish-IsExclusive before r after s e x
Step-IsExclusive (reconnect c s same) x = reconnect-IsExclusive c s same x

Reach-IsExclusive : {s t : System} → IsExclusive s → Reach s t → IsExclusive t
Reach-IsExclusive x here = x
Reach-IsExclusive x (next r st) = Step-IsExclusive st (Reach-IsExclusive x r)

-- Before the first command no lock is set.
pub record IsIdle (s : System) : Type 0 where
  pub none_running : s.running ≡ []
  pub mtc : s.links.mtc.locked ≡ false
  pub crates : (k : ℕ) (l : Link) → get_elem? s.links.xl3s k ≡ some l → l.locked ≡ false

-- Mutual exclusion among the commands that lock with `sbc` 0 or 1 and unlock what they were granted,
-- which are those but `sbc_control` and `check_recv_queues`. However such commands start and finish and
-- whatever connections come and go, from a system with no lock set and no command running on: no board
-- is held by two of them, and its lock is set exactly while one holds it.
pub mutual_exclusion :
    {s t : System}
    → IsIdle s
    → Reach s t
    → (holders uses_mtc t.running ≡ one_if t.links.mtc.locked)
      × ((k : ℕ) (l : Link)
          → get_elem? t.links.xl3s k ≡ some l
          → holders (uses_crate k) t.running ≡ one_if l.locked)
mutual_exclusion {s} idle r = let x = Reach-IsExclusive start_exclusive r in (x.mtc, x.crate)
  where
    start_exclusive : IsExclusive s
    start_exclusive = record {
      mtc = ap (holders uses_mtc) idle.none_running ∙ ap one_if (sym idle.mtc);
      crate = λ k l at.
          ap (holders (uses_crate k)) idle.none_running ∙ ap one_if (sym (idle.crates k l at));
    }
