-- ===== src/Locks/Calls.antt =====
-- What a call of `LockConnections` or `UnlockConnections` promises.
use penn_daq.Prelude.{
  ℕ, zero, suc, ◌≤◌, ◌≡◌, ◌≢◌, refl, ap, ◌∙◌, Bool, true, false, arith, if◌then◌else◌, Option,
  get_elem?, ◌↔◌, ◌⊎◌, inl,
}
use mathlib.Core.Option
use penn_daq.Locks.{
  Link, set_lock, set_mtc, selected, Flags, Connections, check_mtc, set_xl3s, flags_of,
  lock_connections, unlock_connections,
}
use penn_daq.Locks.Laws.{
  none_selected, IsFree, IsConnected, check_xl3s_nc, EachSelected, IsClear, Small,
  check_xl3s-IsClear, check_xl3s-Small, get_elem?-set_xl3s, set_xl3s-undo,
}

-- What each value of `sbc` asks of the link to the MTC.
abbrev pub MtcFree : ℕ → Link → Type 0
MtcFree zero m = Unit
MtcFree (suc zero) m = IsFree m
MtcFree (suc (suc zero)) m = (m.connected ≡ false) ⊎ (m.locked ≡ false)
MtcFree (suc (suc (suc _))) m = Unit

abbrev pub IsGranted : ℕ → ℕ → Connections → Type 0
IsGranted sbc mask c = MtcFree sbc c.mtc × EachSelected IsFree mask 0 c.xl3s

abbrev no_flags : Flags
no_flags = record { busy = 0; nc = 0 }

check_mtc-IsClear : (sbc : ℕ) (m : Link) → IsClear (check_mtc sbc m no_flags) ↔ MtcFree sbc m
unfolding check_mtc
check_mtc-IsClear zero m = (λ h. tt, λ h. (refl, refl))
check_mtc-IsClear (suc zero) m = ground arith
check_mtc-IsClear (suc (suc zero)) m = ground arith
check_mtc-IsClear (suc (suc (suc n))) m = (λ h. tt, λ h. ground arith)

check_mtc-Small : (sbc : ℕ) (m : Link) → Small (check_mtc sbc m no_flags)
unfolding check_mtc
check_mtc-Small sbc m = ground arith

flags-IsClear :
    (sbc mask : ℕ) (c : Connections) → IsClear (flags_of sbc mask c) ↔ IsGranted sbc mask c
unfolding flags_of
flags-IsClear sbc mask c =
    let crates = check_xl3s-IsClear mask 0 c.xl3s (check_mtc sbc c.mtc no_flags) in
    let mtc = check_mtc-IsClear sbc c.mtc in
    (λ h. (mtc.0 (crates.0 h).0, (crates.0 h).1), λ h. crates.1 (mtc.1 h.0, h.1))

flags-Small : (sbc mask : ℕ) (c : Connections) → Small (flags_of sbc mask c)
unfolding flags_of
flags-Small sbc mask c =
    check_xl3s-Small mask 0 c.xl3s (check_mtc sbc c.mtc no_flags) (check_mtc-Small sbc c.mtc)

-- `LockConnections` returns 0 exactly when every crate of the mask is connected and free and the
-- link to the MTC is as `sbc` asks: connected and free for 1, not both connected and locked for 2.
pub lock_connections_iff :
    (sbc mask : ℕ) (c : Connections) → ((lock_connections sbc mask c).0 ≡ 0) ↔ IsGranted sbc mask c
unfolding lock_connections
lock_connections_iff sbc mask c =
    let e = flags-IsClear sbc mask c in (λ h. e.0 (omega arith), λ h. let k = e.1 h in omega arith)

-- The state after a call that is granted.
abbrev pub granted_state : ℕ → ℕ → Connections → Connections
granted_state sbc mask c = record {
  mtc = set_mtc true sbc c.mtc;
  xl3s = set_xl3s true mask 0 c.xl3s;
}

pub lock_granted :
    (sbc mask : ℕ) (c : Connections)
    → (lock_connections sbc mask c).0 ≡ 0
    → (lock_connections sbc mask c).1 ≡ granted_state sbc mask c
unfolding lock_connections
lock_granted sbc mask c h = ground arith

lock_refused :
    (sbc mask : ℕ) (c : Connections)
    → (lock_connections sbc mask c).0 ≢ 0
    → (lock_connections sbc mask c).1 ≡ c
unfolding lock_connections
lock_refused sbc mask c h = ground arith

abbrev pub crate_after : Bool → ℕ → Connections → ℕ → Option Link
crate_after b mask c k =
    Option.map (λ l. if selected mask k then set_lock b l else l) (get_elem? c.xl3s k)

-- A call that returns 0 has locked what it asked for, each crate of the mask and the MTC unless
-- `sbc` is 0, and nothing else; any other call has changed nothing.
pub lock_connections-state :
    (sbc mask : ℕ) (c : Connections)
    → ((lock_connections sbc mask c).0 ≡ 0
        → ((lock_connections sbc mask c).1.mtc ≡ set_mtc true sbc c.mtc)
          × ((k : ℕ)
              → get_elem? (lock_connections sbc mask c).1.xl3s k ≡ crate_after true mask c k))
      × ((lock_connections sbc mask c).0 ≢ 0 → (lock_connections sbc mask c).1 ≡ c)
lock_connections-state sbc mask c = (
  λ h.
      let e = lock_granted sbc mask c h in
      (
        ap (λ (d : Connections). d.mtc) e,
        λ k.
            ap (λ (d : Connections). get_elem? d.xl3s k) e
            ∙ get_elem?-set_xl3s true mask 0 k c.xl3s
            ∙ ap (λ n. crate_at n k) (omega arith),
      ),
  λ h. lock_refused sbc mask c h,
)
  where
    crate_at : ℕ → ℕ → Option Link
    crate_at n k =
        Option.map (λ l. if selected mask n then set_lock true l else l) (get_elem? c.xl3s k)

abbrev pub MtcConnected : ℕ → Link → Type 0
MtcConnected sbc m = sbc ≡ 1 → IsConnected m

check_mtc_nc : (sbc : ℕ) (m : Link) → ((check_mtc sbc m no_flags).nc ≡ 0) ↔ MtcConnected sbc m
unfolding check_mtc
check_mtc_nc sbc m = (λ h e. ground arith, λ h. ground arith)

-- The code that a call returns is 0, 1, 10 or 11, and it is at most 9 exactly when every crate of
-- the mask is connected and, for `sbc` 1, the MTC is: above 9 a caller says that a board has not
-- been connected.
pub lock_connections-code :
    (sbc mask : ℕ) (c : Connections)
    → let r = (lock_connections sbc mask c).0 in
      ((r ≡ 0) ⊎ (r ≡ 1) ⊎ (r ≡ 10) ⊎ (r ≡ 11))
      × ((r ≤ 9) ↔ (MtcConnected sbc c.mtc × EachSelected IsConnected mask 0 c.xl3s))
unfolding lock_connections flags_of
lock_connections-code sbc mask c =
    let s = flags-Small sbc mask c in
    let crates = check_xl3s_nc mask 0 c.xl3s (check_mtc sbc c.mtc no_flags) in
    let mtc = check_mtc_nc sbc c.mtc in
    (
      ground arith,
      (
        λ h. let k = crates.0 (omega arith) in (mtc.0 k.0, k.1),
        λ h. let k = crates.1 (mtc.1 h.0, h.1) in omega arith,
      ),
    )

mtc_undo :
    (sbc : ℕ) (m : Link) → sbc ≤ 1 → MtcFree sbc m → set_mtc false sbc (set_mtc true sbc m) ≡ m
mtc_undo zero m h f = refl
mtc_undo (suc zero) m h f = ground arith
mtc_undo (suc (suc n)) m h f = absurd (omega arith)

-- Unlocking after a lock that was granted gives the state back, for a request with `sbc` 0 or 1.
pub unlock-lock :
    (sbc mask : ℕ) (c : Connections)
    → sbc ≤ 1
    → (lock_connections sbc mask c).0 ≡ 0
    → (unlock_connections sbc mask (lock_connections sbc mask c).1).1 ≡ c
unfolding unlock_connections
unlock-lock sbc mask c h e =
    let free = (lock_connections_iff sbc mask c).0 e in
    rw (lock_granted sbc mask c e) λ i. record {
      mtc = mtc_undo sbc c.mtc h free.0 i;
      xl3s = set_xl3s-undo mask 0 c.xl3s free.1 i;
    }

-- A request with `sbc` 2, as `sbc_control` makes it, does not respect the lock of an MTC that is not
-- connected: it is granted although another command holds it.
pub lock_connections_regrants :
    (c : Connections)
    → c.mtc.connected ≡ false
    → c.mtc.locked ≡ true
    → (lock_connections 2 0 c).0 ≡ 0
lock_connections_regrants c off held =
    (lock_connections_iff 2 0 c).1 (inl off, none_selected IsFree 0 c.xl3s)
