-- ===== src/Stream/Cutter.antt =====
-- The second loop of `RecvCallback`, which cuts the drained bytes into packets.
use penn_daq.Prelude.{
  ℕ, zero, suc, ◌+◌, ◌-◌, List, Option, none, some, replicate, drop, leb, ◌==◌, if◌then◌else◌,
}
use penn_daq.Stream.Bytes.{read_bytes, copy_bytes}
use penn_daq.Stream.Reader.{fresh_input, read_loop}

-- `fBytesLeft`, `fTempBytes` and `fTempPacket` of the link, and the rest of its state.
pub record Receiver (S : Type 0) : Type 0 where
  pub rest : S
  pub bytes_left : ℕ
  pub temp_bytes : ℕ
  pub temp_packet : List ℕ

-- What one round of the loop does: `break` or the loop's end, another round, or a fault.
pub data Round (S : Type 0) : Type 0 where
  stop : Receiver S → Round S
  again : List ℕ → ℕ → Receiver S → Round S
  fault : Round S

module _ {S : Type 0} (size : ℕ) (process : List ℕ → S → S) where
  abbrev whole_packet : List ℕ → ℕ → Receiver S → Round S
  whole_packet input total r = elim (read_bytes input size) [
    | none ↦ fault
    | some packet ↦
        again (drop size input) (total - size) (record r { rest = process packet r.rest })
  ]

  abbrev first_part : List ℕ → ℕ → Receiver S → Option (List ℕ) → Round S
  first_part input total r none = fault
  first_part input total r (some part) = elim (copy_bytes r.temp_packet 0 part) [
    | none ↦ fault
    | some temp ↦
        stop (record r { temp_packet = temp; bytes_left = size - total; temp_bytes = total })
  ]

  abbrev last_part : List ℕ → ℕ → Receiver S → Option (List ℕ) → Round S
  last_part input total r none = fault
  last_part input total r (some part) = elim (copy_bytes r.temp_packet r.temp_bytes part) [
    | none ↦ fault
    | some temp ↦ again (drop r.bytes_left input) (total - r.bytes_left) (record {
      rest = process temp r.rest;
      bytes_left = 0;
      temp_bytes = 0;
      temp_packet = replicate size 0;
    })
  ]

  abbrev middle_part : List ℕ → ℕ → Receiver S → Option (List ℕ) → Round S
  middle_part input total r none = fault
  middle_part input total r (some part) = elim (copy_bytes r.temp_packet r.temp_bytes part) [
    | none ↦ fault
    | some temp ↦ stop (record r {
      temp_packet = temp;
      bytes_left = r.bytes_left - total;
      temp_bytes = r.temp_bytes + total;
    })
  ]

  -- One round, with the pointer `inputP` as the bytes from there on.
  unfoldable pub cut_round : List ℕ → ℕ → Receiver S → Round S
  cut_round input total r =
      if total == 0
      then stop r
      else if r.temp_bytes == 0
      then (if leb size total
          then whole_packet input total r
          else first_part input total r (read_bytes input total))
      else if leb r.bytes_left total
      then last_part input total r (read_bytes input r.bytes_left)
      else middle_part input total r (read_bytes input total)

  unfoldable pub cut_loop : ℕ → List ℕ → ℕ → Receiver S → Option (Receiver S)
  cut_loop zero input total r = none
  cut_loop (suc fuel) input total r = elim (cut_round input total r) [
    | stop r' ↦ some r'
    | again input' total' r' ↦ cut_loop fuel input' total' r'
    | fault ↦ none
  ]

  -- The callback, given the reads of the bufferevent that return bytes. A round takes at least
  -- one byte, so `total + 1` rounds are enough.
  unfoldable pub recv_callback : ℕ → List (List ℕ) → Receiver S → Option (Receiver S)
  recv_callback capacity reads r = elim (read_loop reads (fresh_input capacity)) [
    | none ↦ none
    | some i ↦ cut_loop (suc i.total) i.buffer i.total r
  ]
