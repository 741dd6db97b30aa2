-- ===== src/Controller/Turns.antt =====
-- A branch of `ProcessCommand` between its `LockConnections` and its `UnlockConnections`, as steps of
-- the commands that run at the same time: src/cont/ControllerLink.cpp.
use penn_daq.Prelude.{◌≤◌, ◌≡◌, refl, List, [], some, true, arith, ◌==◌}
use penn_daq.Locks.{Connections, lock_connections}
use penn_daq.Locks.Sessions.{
  Request, System, SameLocks, Reach, here, next, start, finish, reconnect,
}
use penn_daq.Controller.Commands.{Call, guarded}
use penn_daq.Controller.Guard.{on_boards}

-- A branch that is granted what it asks for starts, lets the connections change while its calls run,
-- and finishes: the commands that ran before it run on.
pub guarded-Reach :
    {F : Type 0} (perform : List (Call F) → Connections → Connections)
    (keeps : (calls : List (Call F)) (c : Connections)
      → on_boards calls ≡ true
      → SameLocks c (perform calls c))
    (r : Request) (calls : List (Call F)) (s : System)
    → on_boards calls ≡ true
    → r.sbc ≤ 1
    → (lock_connections r.sbc r.mask s.links).0 ≡ 0
    → Reach s (record {
      links = (guarded perform r.sbc r.mask (some calls) r.sbc r.mask s.links).1;
      running = s.running;
    })
unfolding guarded
guarded-Reach perform keeps r calls s on le granted =
    let is_granted : ((lock_connections r.sbc r.mask s.links).0 == 0) ≡ true = ground arith in
    rw is_granted (
      next
        (next (next here (start r s le granted)) (
          reconnect (perform calls (lock_connections r.sbc r.mask s.links).1) _ (keeps calls _ on)))
        (finish [] r s.running _ refl))
