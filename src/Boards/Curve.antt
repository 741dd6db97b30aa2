-- ===== src/Boards/Curve.antt =====
-- src/tests/CaldTest.cpp: the calibration curves of the slots of a mask.
use penn_daq.Prelude.{
  ℕ, zero, suc, ◌+◌, ◌*◌, List, [], ◌∷◌, map, Bool, false, not, ◌==◌, ltb, ◌&&◌, if◌then◌else◌,
  replicate, get_or,
}
use penn_daq.Swap.{swap_long_block}
use penn_daq.Xl3.Packet.{put_words}
use penn_daq.Xl3.Task.{Task, ◌>>=◌, ◌>>◌, pure, lift}
use penn_daq.Xl3.Model.{Xl3Model, send_command_with}
use penn_daq.Xl3.Calibration.{Curves, cald_test_id, get_cald_test_results}
use penn_daq.Xl3.Crate.{typed}
use penn_daq.Xl3.Cmds.{zero_packet}
use penn_daq.Boards.Registers.{Tested, posted, testing, slots_of}

abbrev pub max_samples : ℕ
max_samples = 10000

-- One point: the value of the DAC and the four ADCs.
pub record CurvePoint : Type 0 where
  pub dac_value : ℕ
  pub adcs : List ℕ

-- The document `cald_test`.
pub record CaldDoc : Type 0 where
  pub slot : ℕ
  pub points : List CurvePoint

abbrev pub point_at : Curves → ℕ → ℕ → CurvePoint
point_at c slot iter = record {
  dac_value = get_or c.point_buf (slot * max_samples + iter) 0;
  adcs =
      get_or c.adc_buf (slot * 4 * max_samples + iter * 4) 0
      ∷ get_or c.adc_buf (slot * 4 * max_samples + iter * 4 + 1) 0
      ∷ get_or c.adc_buf (slot * 4 * max_samples + iter * 4 + 2) 0
      ∷ get_or c.adc_buf (slot * 4 * max_samples + iter * 4 + 3) 0
      ∷ [];
}

-- `while(iter<=MAX_SAMPLES && iter < total_points)`, which ends at a point that is 0 but the first.
-- A place past the array, after the last slot, reads as 0 here.
unfoldable pub curve_points : ℕ → Curves → ℕ → ℕ → List CurvePoint
curve_points zero c slot iter = []
curve_points (suc n) c slot iter =
    let rest = curve_points n c slot (suc iter) in
    if not (iter == 0) && get_or c.point_buf (slot * max_samples + iter) 0 == 0
    then []
    else point_at c slot iter ∷ rest

-- The rounds that the test of the loop allows.
abbrev pub rounds : Curves → ℕ
rounds c = if ltb max_samples c.point_count then suc max_samples else c.point_count

abbrev pub cald_docs : Curves → ℕ → List CaldDoc
cald_docs c slot_mask =
    map (λ slot. record { slot = slot; points = curve_points (rounds c) c slot 0 })
      (slots_of slot_mask)

module _ (need_to_swap : Bool) where
  unfoldable pub cald_test : ℕ → ℕ → ℕ → ℕ → ℕ → Bool → Task Xl3Model (Tested CaldDoc)
  cald_test slot_mask upper lower num_points samples update_db = testing (do
    args ← lift (
        swap_long_block need_to_swap
          (put_words 0 (slot_mask ∷ num_points ∷ samples ∷ upper ∷ lower ∷ []) zero_packet.payload)
          5)
    send_command_with need_to_swap false 20 (typed need_to_swap zero_packet cald_test_id args)
    curves ←
        get_cald_test_results need_to_swap (replicate (16 * max_samples) 0)
          (replicate (16 * 4 * max_samples) 0)
    pure (posted (if update_db then cald_docs curves slot_mask else [])))
