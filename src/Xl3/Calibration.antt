-- ===== src/Xl3/Calibration.antt =====
-- `XL3Model::GetCaldTestResults` of src/xl3/XL3Model.cpp: the points of a calibration run, which
-- arrive in packets until one of the type of the test says that it is over.
use penn_daq.Prelude.{
  ℕ, zero, suc, ◌+◌, ◌*◌, List, Bool, true, Option, none, some, ◌==◌, ltb, if◌then◌else◌, length,
  drop, get_or,
}
use penn_daq.Swap.{swap_short_block}
use penn_daq.Xl3.Packet.{Packet, shorts_of}
use penn_daq.Xl3.Task.{Task, lost, ◌>>=◌, pure, throw, lift}
use penn_daq.Xl3.Link.{Xl3Link, get_next_packet}
use penn_daq.Xl3.Model.{Xl3Model, on_link, last_command_num, store}

-- The locals of the function and its two arrays.
pub record Curves : Type 0 where
  pub point_count : ℕ
  pub current_slot : ℕ
  pub current_point : ℕ
  pub point_buf : List ℕ
  pub adc_buf : List ℕ

abbrev pub cald_response_id : ℕ
cald_response_id = 0xAA

abbrev pub cald_test_id : ℕ
cald_test_id = 0x65

-- `packetNum > (fCommandNum-1)`, of `int`s.
abbrev pub is_above : Option ℕ → ℕ → Bool
is_above none packet_num = true
is_above (some last) packet_num = ltb last packet_num

-- The five arrays of the response from the place of one point on.
abbrev pub store_adcs : ℕ → ℕ → List ℕ → List ℕ → Option (List ℕ)
store_adcs zero at from adc_buf = some adc_buf
store_adcs (suc n) at from adc_buf = elim (store adc_buf at (get_or from 0 0)) [
  | none ↦ none
  | some stored ↦ store_adcs n (suc at) (drop 100 from) stored
]

abbrev pub with_adcs : Curves → List ℕ → Option (List ℕ) → Option Curves
with_adcs c points none = none
with_adcs c points (some adcs) = some (record c {
  point_buf = points;
  adc_buf = adcs;
  current_point = suc c.current_point;
  point_count = suc c.point_count;
})

-- A point that is not 0 is stored; every point is also stored at place 0 of `point_buf`.
unfoldable pub store_point : List ℕ → Curves → Option Curves
store_point from c =
    if get_or from 0 0 == 0
    then some c
    else (elim (store c.point_buf (c.current_slot * 10000 + c.current_point) (get_or from 0 0)) [
      | none ↦ none
      | some stored ↦ elim (store stored 0 (get_or from 0 0)) [
        | none ↦ none
        | some again ↦ with_adcs c again (
            store_adcs 4 (c.current_slot * 4 * 10000 + c.current_point * 4) (drop 100 from)
              c.adc_buf)
      ]
    ])

-- The loop over the 100 points of a response, from `point` on.
unfoldable pub store_points : ℕ → List ℕ → Curves → Option Curves
store_points zero from c = some c
store_points (suc n) from c = elim (store_point from c) [
  | none ↦ none
  | some stored ↦ store_points n (drop 1 from) stored
]

abbrev pub at_slot : ℕ → Curves → Curves
at_slot slot c =
    if slot == c.current_slot then c else record c { current_slot = slot; current_point = 0 }

module _ (need_to_swap : Bool) where
  -- A response, its words swapped.
  unfoldable pub store_response : Packet → Curves → Option Curves
  store_response p c = elim (swap_short_block need_to_swap (shorts_of p.payload) 501) [
    | none ↦ none
    | some shorts ↦ store_points 100 (drop 1 shorts) (at_slot (get_or shorts 0 0) c)
  ]

  -- One packet: `more` is the next round.
  abbrev pub on_point :
      (Curves → Task Xl3Link Curves) → Option ℕ → Curves → Option Packet → Task Xl3Link Curves
  on_point more last c none = throw "GetCaldTestResults: GetNextPacket timed out"
  on_point more last c (some p) =
      if is_above last p.packet_num
      then throw "GetCaldTestResults: Packet num too high"
      else if p.packet_type == cald_response_id
      then lift (store_response p c) >>= more
      else if p.packet_type == cald_test_id
      then pure c
      else more c

  unfoldable pub cald_loop : ℕ → Option ℕ → Curves → Task Xl3Link Curves
  cald_loop zero last c = λ l. lost
  cald_loop (suc fuel) last c =
      get_next_packet need_to_swap 20 >>= on_point (cald_loop fuel last) last c

  -- Each round takes a packet, so that as many as can come and one more are fuel enough.
  unfoldable pub get_cald_test_results : List ℕ → List ℕ → Task Xl3Model Curves
  get_cald_test_results point_buf adc_buf x =
      on_link
        (λ l.
          cald_loop (suc (length l.recv_queue + length l.arriving)) (last_command_num x)
            (record {
              point_count = 0;
              current_slot = 0;
              current_point = 0;
              point_buf = point_buf;
              adc_buf = adc_buf;
            })
            l)
        x
