-- ===== src/Mtc/Link.antt =====
-- src/mtc/MTCLink.cpp: `RecvCallback`, whose packets carry their length, and the queue of packets.
use penn_daq.Prelude.{
  ℕ, zero, suc, ◌+◌, ◌-◌, ◌*◌, ◌^◌, List, [], ◌∷◌, ◌++◌, Bool, true, false, Option, none, some,
  ◌==◌, ltb, leb, if◌then◌else◌, replicate, drop, get_or,
}
use penn_daq.Stream.Bytes.{read_bytes, copy_bytes}
use penn_daq.Stream.Reader.{fresh_input, read_loop}

-- `SBCPACKET_SIZE`, the size of `fTempPacket`.
abbrev pub sbcpacket_size : ℕ
sbcpacket_size = 1024 * 400 + 256 + 12

-- `fRecvQueue`, the bytes of each packet as they stand in `fTempPacket`, and the counts.
pub record MtcReceiver : Type 0 where
  pub recv_queue : List (List ℕ)
  pub bytes_left : ℕ
  pub temp_bytes : ℕ
  pub temp_packet : List ℕ

-- `((SBCPacket *) inputP)->numBytes`; the bytes past those received are zeros or older ones.
abbrev pub num_this_packet : List ℕ → ℕ
num_this_packet input =
    get_or input 0 0
    + 2 ^ 8 * get_or input 1 0
    + 2 ^ 16 * get_or input 2 0
    + 2 ^ 24 * get_or input 3 0

pub data MtcRound : Type 0 where
  stop : MtcReceiver → MtcRound
  again : List ℕ → ℕ → MtcReceiver → MtcRound
  fault : MtcRound

module _ (size : ℕ) where
  -- `memcpy(fTempPacket+fTempBytes,inputP,n)`.
  abbrev pub copied : List ℕ → ℕ → ℕ → List ℕ → Option (List ℕ)
  copied temp off n input = elim (read_bytes input n) [
    | none ↦ none
    | some part ↦ copy_bytes temp off part
  ]

  -- The packet is complete: it is queued and the buffer cleared.
  abbrev pub push_packet : List ℕ → ℕ → ℕ → MtcReceiver → Option (List ℕ) → MtcRound
  push_packet input total n r none = fault
  push_packet input total n r (some temp) = again (drop n input) (total - n) (record {
    recv_queue = r.recv_queue ++ temp ∷ [];
    bytes_left = 0;
    temp_bytes = 0;
    temp_packet = replicate size 0;
  })

  -- The packet goes on in the next callback.
  abbrev pub keep_part : ℕ → ℕ → MtcReceiver → Option (List ℕ) → MtcRound
  keep_part left count r none = fault
  keep_part left count r (some temp) =
      stop (record r { temp_packet = temp; bytes_left = left; temp_bytes = count })

  -- One round. `numThisPacket` is an `int`, and a negative length is no length of a copy.
  unfoldable pub mtc_round : List ℕ → ℕ → MtcReceiver → MtcRound
  mtc_round input total r =
      if r.temp_bytes == 0
      then (if leb (2 ^ 31) (num_this_packet input)
          then fault
          else if ltb total (num_this_packet input)
          then keep_part (num_this_packet input - total) total r
              (copied r.temp_packet 0 total input)
          else push_packet input total (num_this_packet input) r
              (copied r.temp_packet 0 (num_this_packet input) input))
      else if ltb total r.bytes_left
      then keep_part (r.bytes_left - total) (r.temp_bytes + total) r
          (copied r.temp_packet r.temp_bytes total input)
      else push_packet input total r.bytes_left r
          (copied r.temp_packet r.temp_bytes r.bytes_left input)

  -- `while (totalLength > 0)`
  unfoldable pub mtc_loop : ℕ → List ℕ → ℕ → MtcReceiver → Option MtcReceiver
  mtc_loop zero input total r = none
  mtc_loop (suc fuel) input total r =
      if total == 0 then some r else (elim (mtc_round input total r) [
        | stop r' ↦ some r'
        | again input' total' r' ↦ mtc_loop fuel input' total' r'
        | fault ↦ none
      ])

  -- A packet of no bytes makes the loop go round forever; otherwise each round takes a byte.
  unfoldable pub mtc_recv_callback : ℕ → List (List ℕ) → MtcReceiver → Option MtcReceiver
  mtc_recv_callback capacity chunks r = elim (read_loop chunks (fresh_input capacity)) [
    | none ↦ none
    | some i ↦ mtc_loop (suc i.total) i.buffer i.total r
  ]

-- The values 0, -1 and -2 that `CheckQueue` returns.
pub data MtcQueueCheck : Type 0 where
  nothing_left : MtcQueueCheck
  emptied : MtcQueueCheck
  not_empty : MtcQueueCheck

abbrev check_packets : Bool → List (List ℕ) → MtcReceiver → MtcQueueCheck × MtcReceiver
check_packets empty [] r = (nothing_left, r)
check_packets true (p ∷ ps) r = (emptied, record r { recv_queue = [] })
check_packets false (p ∷ ps) r = (not_empty, r)

unfoldable pub mtc_check_queue : Bool → MtcReceiver → MtcQueueCheck × MtcReceiver
mtc_check_queue empty r = check_packets empty r.recv_queue r

-- The loop of `SendXilinxPacket` over the packets that come: whether as many bytes came back as were
-- sent before the wait ran out, and the packets left.
unfoldable pub xilinx_loop : ℕ → ℕ → List (List ℕ) → Bool × List (List ℕ)
xilinx_loop to_send received [] = (false, [])
xilinx_loop to_send received (p ∷ ps) =
    let rest = xilinx_loop to_send (received + num_this_packet p) ps in
    if leb to_send (received + num_this_packet p) then (true, ps) else rest
