-- ===== src/Controller/Guard.antt =====
-- What the locks around a call promise.
use penn_daq.Args.{get_flag}
use penn_daq.Prelude.{
  ℕ, suc, ◌+◌, ◌≤◌, ◌≡◌, ◌≢◌, refl, ap, ◌∙◌, sym, subst, List, Bool, true, false, arith, ◌==◌, ltb,
  if◌then◌else◌, [], ◌∷◌, ◌&&◌, Option, none, some, get_elem?, zero,
}
use mathlib.Core.Option
use penn_daq.Locks.{
  Link, set_lock, set_mtc, selected, Connections, set_xl3s, lock_connections, unlock_connections,
}
use penn_daq.Locks.Laws.{IsFree, get_elem?-set_xl3s, get_selected}
use penn_daq.Locks.Calls.{lock_granted, lock_connections_iff, lock_connections-state, MtcFree}
use penn_daq.Locks.Sessions.{SameLocks}
use penn_daq.Controller.Commands.{
  Call, Handler, Outcome, fault, not_connected, in_use, usage, unless_help, with_array, guarded,
  run_calls, call_raise_sigint, call_sbc_control, call_create_fec_docs, call_mtc_check_queue,
  call_xl3_check_queue, call_parse_macro, call_reset_speed, call_print_help, call_clear_screen,
  call_start_logging, call_stop_logging, call_print_connected, call_set_ecal_bit,
}

pub SameLocks-refl : (c : Connections) → SameLocks c c
SameLocks-refl c = record { mtc = refl; xl3s = λ k. refl }

abbrev locks_of : Option Link → Option Bool
locks_of = Option.map (λ (l : Link). l.locked)

abbrev locking : Bool → Bool → Link → Link
locking b value l = if b then set_lock value l else l

option_back :
    (b : Bool) (before after : Option Link)
    → ((l : Link) → before ≡ some l → b ≡ true → l.locked ≡ false)
    → locks_of after ≡ locks_of (Option.map (locking b true) before)
    → locks_of (Option.map (locking b false) after) ≡ locks_of before
option_back b none none free e = refl
option_back b none (some a) free e = cc
option_back b (some l) none free e = cc
option_back true (some l) (some a) free e = ap some (sym (free l refl refl))
option_back false (some l) (some a) free e = e

-- A lock taken, kept and given back.
crate_back :
    (mask : ℕ) (c d : Connections)
    → ((k : ℕ) (l : Link) → get_elem? c.xl3s k ≡ some l → selected mask k ≡ true → l.locked ≡ false)
    → ((k : ℕ)
        → locks_of (get_elem? d.xl3s k) ≡ locks_of (get_elem? (set_xl3s true mask 0 c.xl3s) k))
    → (k : ℕ)
    → locks_of (get_elem? (set_xl3s false mask 0 d.xl3s) k) ≡ locks_of (get_elem? c.xl3s k)
crate_back mask c d free kept k =
    ap locks_of (get_elem?-set_xl3s false mask 0 k d.xl3s)
    ∙ option_back (selected mask (0 + k)) (get_elem? c.xl3s k) (get_elem? d.xl3s k)
        (λ l at sel. free k l at (ap (selected mask) (omega arith) ∙ sel))
        (kept k ∙ ap locks_of (get_elem?-set_xl3s true mask 0 k c.xl3s))

mtc_back :
    (sbc : ℕ) (m d : Link)
    → sbc ≤ 1
    → MtcFree sbc m
    → d.locked ≡ (set_mtc true sbc m).locked
    → (set_mtc false sbc d).locked ≡ m.locked
mtc_back zero m d le free e = e
mtc_back (suc zero) m d le free e = sym free.1
mtc_back (suc (suc n)) m d le free e = absurd (omega arith)

-- The locks after `LockConnections`, work that keeps the locks, and `UnlockConnections` are those
-- before.
lock_work_unlock :
    (sbc mask : ℕ) (c d : Connections)
    → sbc ≤ 1
    → (lock_connections sbc mask c).0 ≡ 0
    → SameLocks (lock_connections sbc mask c).1 d
    → SameLocks c (unlock_connections sbc mask d).1
unfolding unlock_connections
lock_work_unlock sbc mask c d le e kept =
    let g = (lock_connections_iff sbc mask c).0 e in
    let k = subst (λ t. SameLocks t d) (lock_granted sbc mask c e) kept in
    record {
      mtc = mtc_back sbc c.mtc d.mtc le g.0 k.mtc;
      xl3s =
          crate_back mask c d
            (λ n l at sel.
              (get_selected IsFree mask 0 n c.xl3s l g.1 at
                (ap (selected mask) (omega arith) ∙ sel)).1)
            k.xl3s;
    }

-- The calls of the commands that take no locks, and of `sbc_control` and `check_recv_queues`. The calls of
-- all other commands work on the boards that the command has locked.
abbrev pub on_board : {F : Type 0} → Call F → Bool
on_board call_raise_sigint = false
on_board (call_sbc_control _ _ _ _) = false
on_board (call_create_fec_docs _ _ _) = false
on_board (call_mtc_check_queue _) = false
on_board (call_xl3_check_queue _ _) = false
on_board (call_parse_macro _) = false
on_board call_reset_speed = false
on_board (call_print_help _) = false
on_board call_clear_screen = false
on_board call_start_logging = false
on_board call_stop_logging = false
on_board call_print_connected = false
on_board (call_set_ecal_bit _) = false
on_board _ = true

abbrev pub on_boards : {F : Type 0} → List (Call F) → Bool
on_boards [] = true
on_boards (x ∷ xs) = on_board x && on_boards xs

abbrev pub AreOnBoards : {F : Type 0} → Option (List (Call F)) → Type 0
AreOnBoards none = Unit
AreOnBoards (some calls) = on_boards calls ≡ true

pub map-AreOnBoards :
    {F : Type 0} {A : Type 0} (f : A → List (Call F)) (o : Option A)
    → ((a : A) → on_boards (f a) ≡ true)
    → AreOnBoards (Option.map f o)
map-AreOnBoards f none h = tt
map-AreOnBoards f (some a) h = h a

pub if-AreOnBoards :
    {F : Type 0} (b : Bool) (xs ys : List (Call F))
    → on_boards xs ≡ true
    → on_boards ys ≡ true
    → AreOnBoards (some (if b then xs else ys))
if-AreOnBoards true xs ys p q = p
if-AreOnBoards false xs ys p q = q

module _ {F : Type 0} where
  -- A command that leaves every lock as it found it, unless it reads or writes past an array.
  pub record Restores (h : Handler F) : Type 0 where
    pub restores : (c : Connections) → (h c).0 ≢ fault → SameLocks c (h c).1

  pub unless_help-Restores :
      (input : List ℕ) {h : Handler F} → Restores h → Restores (unless_help input h)
  unfolding unless_help
  unless_help-Restores input {h} r = record {
    restores = λ c ok. by_flag c (get_flag input b'h') ok;
  }
    where
      by_flag :
          (c : Connections) (b : Bool)
          → (if b then (usage, c) else h c).0 ≢ fault
          → SameLocks c (if b then (usage, c) else h c).1
      by_flag c true ok = SameLocks-refl c
      by_flag c false ok = r.restores c ok

  pub with_array-Restores {ℓ} :
      {A : Type ℓ} (o : Option A) {h : A → Handler F}
      → ((a : A) → Restores (h a))
      → Restores (with_array o h)
  unfolding with_array
  with_array-Restores none r = record { restores = λ c ok. SameLocks-refl c }
  with_array-Restores (some a) r = r a

  module _ (perform : List (Call F) → Connections → Connections)
      (keeps : (calls : List (Call F)) (c : Connections)
        → on_boards calls ≡ true
        → SameLocks c (perform calls c)) where
    pub guarded-Restores :
        (sbc mask : ℕ) (calls : Option (List (Call F)))
        → AreOnBoards calls
        → sbc ≤ 1
        → Restores (guarded perform sbc mask calls sbc mask)
    unfolding guarded
    guarded-Restores sbc mask calls on le = record {
      restores = λ c ok. by_lock c ((lock_connections sbc mask c).0 == 0) refl calls on ok;
    }
      where
        code : Connections → Outcome F
        code c = if ltb 9 (lock_connections sbc mask c).0 then not_connected else in_use

        by_lock :
            (c : Connections) (b : Bool)
            → ((lock_connections sbc mask c).0 == 0) ≡ b
            → (calls : Option (List (Call F))) → AreOnBoards calls
            → (if b
                then run_calls perform calls sbc mask (lock_connections sbc mask c).1
                else (code c, (lock_connections sbc mask c).1)).0
              ≢ fault
            → SameLocks c
                (if b
                  then run_calls perform calls sbc mask (lock_connections sbc mask c).1
                  else (code c, (lock_connections sbc mask c).1)).1
        by_lock c true e none on ok = absurd (ok refl)
        by_lock c true e (some cs) on ok =
            lock_work_unlock sbc mask c (perform cs (lock_connections sbc mask c).1) le
              (ground arith) (keeps cs (lock_connections sbc mask c).1 on)
        by_lock c false e calls on ok =
            subst (λ t. SameLocks c t) (sym ((lock_connections-state sbc mask c).1 (ground arith)))
              (SameLocks-refl c)
