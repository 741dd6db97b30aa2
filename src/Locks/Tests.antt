-- ===== src/Locks/Tests.antt =====
-- Locks on concrete connections: an MTC and three crates, of which the last is not connected.
use penn_daq.Prelude.{
  ℕ, zero, suc, ◌≡◌, ◌≢◌, refl, [], ◌∷◌, Bool, true, false, some, arith, get_elem?, ◌↔◌,
}
use penn_daq.Locks.{
  Link, selected, set_mtc, Connections, lock_connections, unlock_connections, flags_of,
}
use penn_daq.Locks.Calls.{
  IsGranted, crate_after, lock_connections_iff, lock_connections-state, unlock-lock,
  lock_connections_regrants,
}
use penn_daq.Locks.Sessions.{
  System, start, here, next, Reach, IsIdle, holders, uses_mtc, uses_crate, one_if, mutual_exclusion,
}

abbrev link : Bool → Bool → Link
link connected locked = record { connected = connected; locked = locked }

abbrev some_links : Connections
some_links = record {
  mtc = link true false;
  xl3s = link true false ∷ link true false ∷ link false false ∷ [];
}

abbrev lost_mtc : Connections
lost_mtc = record { mtc = link false true; xl3s = link true false ∷ [] }

lock_connections_iff_example : ((lock_connections 1 3 some_links).0 ≡ 0) ↔ IsGranted 1 3 some_links
lock_connections_iff_example = lock_connections_iff 1 3 some_links

lock_connections-state_example :
    ((lock_connections 1 3 some_links).0 ≡ 0
      → ((lock_connections 1 3 some_links).1.mtc ≡ set_mtc true 1 some_links.mtc)
        × ((k : ℕ)
            → get_elem? (lock_connections 1 3 some_links).1.xl3s k
              ≡ crate_after true 3 some_links k))
    × ((lock_connections 1 3 some_links).0 ≢ 0 → (lock_connections 1 3 some_links).1 ≡ some_links)
lock_connections-state_example = lock_connections-state 1 3 some_links

granted : (lock_connections 1 3 some_links).0 ≡ 0
unfolding lock_connections flags_of selected
granted = refl

unlock-lock_example : (unlock_connections 1 3 (lock_connections 1 3 some_links).1).1 ≡ some_links
unlock-lock_example = unlock-lock 1 3 some_links (omega arith) granted

lock_connections_regrants_example : (lock_connections 2 0 lost_mtc).0 ≡ 0
lock_connections_regrants_example = lock_connections_regrants lost_mtc refl refl

abbrev idle_system : System
idle_system = record { links = some_links; running = [] }

idle_system-IsIdle : IsIdle idle_system
idle_system-IsIdle = record { none_running = refl; mtc = refl; crates = crates_free }
  where
    crates_free : (k : ℕ) (l : Link) → get_elem? some_links.xl3s k ≡ some l → l.locked ≡ false
    crates_free zero l e = cc
    crates_free (suc zero) l e = cc
    crates_free (suc (suc zero)) l e = cc
    crates_free (suc (suc (suc k))) l e = cc

abbrev one_running : System
one_running = record {
  links = (lock_connections 1 3 some_links).1;
  running = record { sbc = 1; mask = 3 } ∷ [];
}

one_running-Reach : Reach idle_system one_running
one_running-Reach =
    next here (start (record { sbc = 1; mask = 3 }) idle_system (omega arith) granted)

mutual_exclusion_example :
    (holders uses_mtc one_running.running ≡ one_if one_running.links.mtc.locked)
    × ((k : ℕ) (l : Link)
        → get_elem? one_running.links.xl3s k ≡ some l
        → holders (uses_crate k) one_running.running ≡ one_if l.locked)
mutual_exclusion_example = mutual_exclusion idle_system-IsIdle one_running-Reach
