-- ===== src/Locks.antt =====
-- The locks that keep two commands from driving one board: `LockConnections` and
-- `UnlockConnections` of src/core/Globals.cpp, `CheckLock` of XL3Model and MTCModel, and the flags of
-- src/net/GenericLink.h. Both functions run under the mutex `startTestLock`, so a call is one step.
pub mod Laws
pub mod Calls
pub mod Sessions
mod Tests
use penn_daq.Prelude.{
  ℕ, zero, suc, ◌+◌, ◌*◌, ◌^◌, List, [], ◌∷◌, Bool, true, false, not, ◌&&◌, ◌||◌, bit_and, ◌==◌,
  if◌then◌else◌,
}

-- `fConnected` and `fLock`, which hold 0 or 1.
pub record Link : Type 0 where
  pub connected : Bool
  pub locked : Bool

abbrev pub no_connection_flag : ℕ
no_connection_flag = 1

abbrev pub busy_connection_flag : ℕ
busy_connection_flag = 2

unfoldable pub check_lock : Link → ℕ
check_lock l =
    if not l.connected then no_connection_flag else if l.locked then busy_connection_flag else 0

abbrev pub set_lock : Bool → Link → Link
set_lock b l = record l { locked = b }

-- `mtc` and the array `xl3s`, one for each crate.
pub record Connections : Type 0 where
  pub mtc : Link
  pub xl3s : List Link

-- `(0x1<<i) & xl3List`
unfoldable pub selected : ℕ → ℕ → Bool
selected xl3_list i = not (bit_and (1 * 2 ^ i) xl3_list == 0)

-- `busyFlag` and `ncFlag`.
pub record Flags : Type 0 where
  pub busy : ℕ
  pub nc : ℕ

abbrev flag_if : Bool → ℕ → ℕ
flag_if b old = if b then 1 else old

-- The check of one link: each flag is set or left alone.
unfoldable pub note_check : Link → Flags → Flags
unfolding check_lock
note_check l f = record {
  busy = flag_if (check_lock l == busy_connection_flag) f.busy;
  nc = flag_if (check_lock l == no_connection_flag) f.nc;
}

unfoldable pub check_mtc : ℕ → Link → Flags → Flags
unfolding note_check
check_mtc sbc mtc f =
    if sbc == 1
    then note_check mtc f
    else if sbc == 2
    then record f { busy = flag_if (check_lock mtc == busy_connection_flag) f.busy }
    else f

-- The loop over the crates from number `i` on.
unfoldable pub check_xl3s : ℕ → ℕ → List Link → Flags → Flags
check_xl3s xl3_list i [] f = f
check_xl3s xl3_list i (l ∷ ls) f =
    check_xl3s xl3_list (suc i) ls (if selected xl3_list i then note_check l f else f)

unfoldable pub set_xl3s : Bool → ℕ → ℕ → List Link → List Link
set_xl3s b xl3_list i [] = []
set_xl3s b xl3_list i (l ∷ ls) =
    (if selected xl3_list i then set_lock b l else l) ∷ set_xl3s b xl3_list (suc i) ls

abbrev pub set_mtc : Bool → ℕ → Link → Link
set_mtc b sbc mtc = if sbc == 0 then mtc else set_lock b mtc

unfoldable pub flags_of : ℕ → ℕ → Connections → Flags
unfolding check_mtc check_xl3s
flags_of sbc xl3_list c =
    check_xl3s xl3_list 0 c.xl3s (check_mtc sbc c.mtc (record { busy = 0; nc = 0 }))

unfoldable pub lock_connections : ℕ → ℕ → Connections → ℕ × Connections
lock_connections sbc xl3_list c =
    let f = flags_of sbc xl3_list c in
    (
      f.busy + 10 * f.nc,
      if f.busy == 0 && f.nc == 0
          then record { mtc = set_mtc true sbc c.mtc; xl3s = set_xl3s true xl3_list 0 c.xl3s }
          else c,
    )

unfoldable pub unlock_connections : ℕ → ℕ → Connections → ℕ × Connections
unlock_connections sbc xl3_list c =
    (0, record { mtc = set_mtc false sbc c.mtc; xl3s = set_xl3s false xl3_list 0 c.xl3s })
