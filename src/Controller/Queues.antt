-- ===== src/Controller/Queues.antt =====
-- `check_recv_queues`, whose test of `LockConnections` is the wrong way round.
use penn_daq.Prelude.{
  ℕ, zero, suc, ◌≡◌, refl, ◌∙◌, sym, List, [], ◌∷◌, Bool, true, false, not, ◌==◌, arith, Bool-cases,
  inl, inr,
}
use penn_daq.Locks.{Link, set_mtc, Connections, lock_connections, unlock_connections}
use penn_daq.Locks.Laws.{IsFree, none_selected}
use penn_daq.Locks.Calls.{lock_granted, lock_connections_iff, lock_connections-state}
use penn_daq.Locks.Sessions.{SameLocks}
use penn_daq.Args.{Conversions, get_flag}
use penn_daq.Controller.Commands.{
  Call, one_shift, max_xl3_con, call_mtc_check_queue, call_xl3_check_queue,
}
use penn_daq.Controller.Daemon.{check_queue, check_crates, do_check_recv_queues}

module _ {F : Type 0} (lib : Conversions F) (perform : List (Call F) → Connections → Connections)
    (keeps : (calls : List (Call F)) (c : Connections) → SameLocks c (perform calls c)) where
  -- The lock of the MTC after a check of a queue.
  checked_lock :
      (sbc mask : ℕ) (call : Call F) (s : List (Call F) × Connections)
      → (check_queue lib perform sbc mask call s).1.mtc.locked
        ≡ (set_mtc ((lock_connections sbc mask s.1).0 == 0) sbc s.1.mtc).locked
  unfolding check_queue unlock_connections
  checked_lock sbc mask call s = elim (Bool-cases ((lock_connections sbc mask s.1).0 == 0)) [
    | inl e ↦ rw (e, lock_granted sbc mask s.1 (ground arith)) refl
    | inr e ↦
        rw (e, (lock_connections-state sbc mask s.1).1 (ground arith))
          (cleared sbc (perform (call ∷ []) s.1).mtc s.1.mtc (keeps (call ∷ []) s.1).mtc)
  ]
    where
      cleared :
          (sbc : ℕ) (m n : Link)
          → m.locked ≡ n.locked
          → (set_mtc false sbc m).locked ≡ (set_mtc false sbc n).locked
      cleared sbc m n e = ground arith

  crates_lock :
      (empty : Bool) (n i : ℕ) (s : List (Call F) × Connections)
      → (check_crates lib perform empty n i s).1.mtc.locked ≡ s.1.mtc.locked
  unfolding check_crates
  crates_lock empty zero i s = refl
  crates_lock empty (suc n) i s =
      crates_lock empty n (suc i)
        (check_queue lib perform 0 (one_shift i) (call_xl3_check_queue i empty) s)
      ∙ checked_lock 0 (one_shift i) (call_xl3_check_queue i empty) s

  -- The lock of a connected MTC is left the opposite of how it was found: a free MTC stays locked
  -- after the command, and the lock of a running command is taken away. The functions called keep
  -- the locks.
  pub check_recv_queues-flips :
      (input : List ℕ) (c : Connections)
      → c.mtc.connected ≡ true
      → (do_check_recv_queues lib perform input c).1.mtc.locked ≡ not c.mtc.locked
  unfolding do_check_recv_queues
  check_recv_queues-flips input c on =
      crates_lock (get_flag input b'e') max_xl3_con 0
        (check_queue lib perform 1 0 (call_mtc_check_queue (get_flag input b'e')) ([], c))
      ∙ checked_lock 1 0 (call_mtc_check_queue (get_flag input b'e')) ([], c)
      ∙ flipped c.mtc.locked refl ((lock_connections 1 0 c).0 == 0) refl
    where
      granted : c.mtc.locked ≡ false → (lock_connections 1 0 c).0 ≡ 0
      granted free = (lock_connections_iff 1 0 c).1 ((on, free), none_selected IsFree 0 c.xl3s)

      flipped :
          (l : Bool)
          → c.mtc.locked ≡ l
          → (b : Bool) → ((lock_connections 1 0 c).0 == 0) ≡ b
          → (set_mtc b 1 c.mtc).locked ≡ not l
      flipped true e true t = cc (sym e ∙ ((lock_connections_iff 1 0 c).0 (ground arith)).0.1)
      flipped true e false t = refl
      flipped false e true t = refl
      flipped false e false t = let z = granted e in ground arith
