-- ===== src/Mtc/Tests.antt =====
-- A board that is nothing but its registers, and the settings on it.
use penn_daq.Prelude.{
  ◌≢◌, replicate, List, ◌∷◌, ℕ, ◌%◌, ◌^◌, ◌≡◌, refl, arith, [], ◌++◌, map, ◌∷◌, ◌==◌, if◌then◌else◌,
  Option, none, some, returned,
}
use penn_daq.Mtc.Packet.{Sent, mtc_read_id}
use penn_daq.Mtc.Dacs.{load_mtca_dacs_by_counts}
use penn_daq.Mtc.Load.{dac_shifted, load_mtca_dacs_by_counts-shifted}
use penn_daq.Mtc.File.{held, IsRegisterFile}
use penn_daq.Mtc.Serial.{Frequency, set_gt_counter, set_pulser_frequency}
use penn_daq.Mtc.Shift.{shifted, set_gt_counter-shifted, set_pulser_frequency_truncates}
use penn_daq.Mtc.Link.{MtcReceiver, again, mtc_loop, mtc_recv_callback}
use penn_daq.Mtc.Framing.{padded, joined, idle}
use penn_daq.Mtc.Reading.{mtc_recv_callback-splits, mtc_loop_stuck, turns}

abbrev zeros : ℕ → ℕ
zeros a = 0

abbrev board : Sent → Option ℕ
board [] = none
board (p ∷ sent) = if p.cmd_id == mtc_read_id then some (held zeros sent p.address) else some 0

board-IsRegisterFile : IsRegisterFile board zeros
board-IsRegisterFile = record { reads = λ reg sent. refl; writes = λ reg word sent. (0, refl) }

set_gt_counter-shifted_example :
    ((set_gt_counter board 0x123456 []).0 ≡ returned 0)
    × (shifted zeros 2 0 (set_gt_counter board 0x123456 []).1 % 2 ^ 24 ≡ 0x123456 % 2 ^ 24)
set_gt_counter-shifted_example =
    set_gt_counter-shifted board zeros board-IsRegisterFile 0x123456 0 []

-- Frequencies given by their dividers.
abbrev dividers : Frequency ℕ
dividers = record { is_soft = λ f. f == 0; divider = λ f. f }

set_pulser_frequency_truncates_example :
    ((set_pulser_frequency board dividers 20000000 []).0 ≡ returned 0)
    × (shifted zeros 5 0 (set_pulser_frequency board dividers 20000000 []).1 % 2 ^ 24
        ≡ 20000000 % 2 ^ 24)
    × (20000000 % 2 ^ 24 ≢ 20000000)
set_pulser_frequency_truncates_example =
    set_pulser_frequency_truncates board zeros board-IsRegisterFile dividers 20000000 0 [] refl
      (omega arith) (omega arith)

abbrev some_dacs : List ℕ
some_dacs = 4095 ∷ 1 ∷ 2 ∷ 3 ∷ 4 ∷ 5 ∷ 6 ∷ 7 ∷ 8 ∷ 9 ∷ 10 ∷ 11 ∷ 2048 ∷ 13 ∷ []

load_mtca_dacs_by_counts-shifted_example :
    ((load_mtca_dacs_by_counts board some_dacs []).0 ≡ returned 0)
    × (dac_shifted zeros 12 0 (load_mtca_dacs_by_counts board some_dacs []).1 % 2 ^ 16
        ≡ 2048 % 2 ^ 12)
load_mtca_dacs_by_counts-shifted_example =
    load_mtca_dacs_by_counts-shifted board zeros board-IsRegisterFile some_dacs 12 2048 0 [] refl
      refl (omega arith)

-- Packets of five, six and four bytes in a buffer of eight; the second is split behind four bytes.
mtc_recv_callback-splits_example :
    (r : MtcReceiver) × (mtc_recv_callback 8 100
        ((joined ((5 ∷ 0 ∷ 0 ∷ 0 ∷ 9 ∷ []) ∷ []) ++ 6 ∷ 0 ∷ 0 ∷ 0 ∷ []) ∷ [])
        (idle 8 (omega arith) [])
      ≡ some r)
    × (mtc_recv_callback 8 100 ((7 ∷ 8 ∷ joined ((4 ∷ 0 ∷ 0 ∷ 0 ∷ []) ∷ [])) ∷ []) r
        ≡ some (
            idle 8 (omega arith) (
              []
              ++ map (padded 8) (
                  (5 ∷ 0 ∷ 0 ∷ 0 ∷ 9 ∷ [])
                  ∷ (6 ∷ 0 ∷ 0 ∷ 0 ∷ 7 ∷ 8 ∷ [])
                  ∷ (4 ∷ 0 ∷ 0 ∷ 0 ∷ [])
                  ∷ []))))
mtc_recv_callback-splits_example =
    mtc_recv_callback-splits 8 (omega arith) 100 ((5 ∷ 0 ∷ 0 ∷ 0 ∷ 9 ∷ []) ∷ [])
      ((4 ∷ 0 ∷ 0 ∷ 0 ∷ []) ∷ []) (6 ∷ 0 ∷ 0 ∷ 0 ∷ []) (7 ∷ 8 ∷ []) []
      (record { framed = refl; header = omega arith; holds = omega arith }, tt)
      (record { framed = refl; header = omega arith; holds = omega arith })
      (record { framed = refl; header = omega arith; holds = omega arith }, tt) (omega arith)
      (omega arith) (omega arith) (omega arith)

mtc_loop_stuck_example :
    (turns 8 (omega arith) 3 (0 ∷ 0 ∷ 0 ∷ 0 ∷ 1 ∷ []) 5 (idle 8 (omega arith) [])
      ≡ again (0 ∷ 0 ∷ 0 ∷ 0 ∷ 1 ∷ []) 5 (idle 8 (omega arith) (replicate 3 (replicate 8 0))))
    × (mtc_loop 8 3 (0 ∷ 0 ∷ 0 ∷ 0 ∷ 1 ∷ []) 5 (idle 8 (omega arith) []) ≡ none)
mtc_loop_stuck_example =
    mtc_loop_stuck 8 (omega arith) 3 (0 ∷ 0 ∷ 0 ∷ 0 ∷ 1 ∷ []) 5 [] (omega arith) refl
