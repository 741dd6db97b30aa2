-- ===== src/Controller/Tests.antt =====
-- Concrete commands.
use penn_daq.Prelude.{
  ℕ, ◌≡◌, ◌≢◌, refl, List, [], ◌∷◌, Bool, true, false, not, All, ap, sym, ◌∙◌, strncmp_eq, codes,
  length,
}
use penn_daq.Locks.{Link, Connections, lock_connections, flags_of, selected}
use penn_daq.Locks.Sessions.{SameLocks}
use penn_daq.Args.{
  Conversions, get_int, get_uint, get_flag, tokens, is_flag, find_value, is_long_flag,
}
use penn_daq.Controller.{branches, process_command}
use penn_daq.Controller.Commands.{Call, Outcome, fault, guarded, unless_help}
use penn_daq.Controller.Checks.{do_fec_test}
use penn_daq.Controller.Daemon.{do_check_recv_queues}
use penn_daq.Controller.Guard.{SameLocks-refl, on_boards}
use penn_daq.Controller.Release.{IsOrdinary}
use penn_daq.Controller.Release.Line.{process_command-keeps_locks}
use penn_daq.Controller.Dispatch.{line_of, process_command-dispatch}
use penn_daq.Controller.Queues.{check_recv_queues-flips}

abbrev lengths : Conversions ℕ
lengths = record { atoi = length; strtoul = length; strtoull = length; strtod = length }

-- Functions that leave the connections alone.
abbrev nothing : List (Call ℕ) → Connections → Connections
nothing calls c = c

nothing_keeps : (calls : List (Call ℕ)) (c : Connections) → SameLocks c (nothing calls c)
nothing_keeps calls c = SameLocks-refl c

nothing-on_boards_keeps :
    (calls : List (Call ℕ)) (c : Connections)
    → on_boards calls ≡ true
    → SameLocks c (nothing calls c)
nothing-on_boards_keeps calls c on = SameLocks-refl c

abbrev free_link : Link
free_link = record { connected = true; locked = false }

abbrev three_crates : Connections
three_crates = record { mtc = free_link; xl3s = free_link ∷ free_link ∷ free_link ∷ [] }

abbrev line : List ℕ
line = codes "fec_test -c 0"

abbrev is_fault : Outcome ℕ → Bool
is_fault fault = true
is_fault _ = false

line_runs : is_fault (process_command lengths nothing [] line three_crates).0 ≡ false
unfolding process_command branches strncmp_eq do_fec_test unless_help guarded lock_connections
    flags_of selected get_flag tokens is_flag get_int get_uint find_value is_long_flag
line_runs = refl

no_fault : (process_command lengths nothing [] line three_crates).0 ≢ fault
no_fault e = let f = sym line_runs ∙ ap is_fault e in cc

line-IsOrdinary : IsOrdinary line
unfolding strncmp_eq
line-IsOrdinary = (
  refl,
  (refl, (refl, (refl, (refl, (refl, (refl, (refl, (refl, (refl, (refl, (refl, tt))))))))))),
)

process_command-keeps_locks_example :
    SameLocks three_crates (process_command lengths nothing [] line three_crates).1
process_command-keeps_locks_example =
    process_command-keeps_locks lengths nothing nothing-on_boards_keeps [] line line-IsOrdinary
      three_crates no_fault

process_command-dispatch_example :
    All
      (λ b.
        (args : List ℕ)
        → process_command lengths nothing [] (line_of b args) ≡ b.run (line_of b args))
      (branches lengths nothing [])
process_command-dispatch_example = process_command-dispatch lengths nothing []

check_recv_queues-flips_example :
    (do_check_recv_queues lengths nothing (codes "check_recv_queues") three_crates).1.mtc.locked
    ≡ not false
check_recv_queues-flips_example =
    check_recv_queues-flips lengths nothing nothing_keeps (codes "check_recv_queues") three_crates
      refl
