-- ===== src/Stream/Tests.antt =====
-- Runs of the receiver on concrete streams, with packets of four bytes that are kept, newest first.
use penn_daq.Prelude.{ℕ, ◌+◌, ◌≡◌, refl, List, [], ◌∷◌, ◌++◌, some, arith, inl, inr, take}
use penn_daq.Stream.Reader.{Input, fresh_input, read_loop}
use penn_daq.Stream.Bytes.{strlen}
use penn_daq.Stream.Cutter.{Receiver, recv_callback, cut_loop, cut_round}
use penn_daq.Stream.Rounds.{pending, IsBetween, Delivers}
use penn_daq.Stream.Sequence.{concat, recv_all, recv_all-Delivers, read_loop_overwrites}

abbrev keep : List ℕ → List (List ℕ) → List (List ℕ)
keep packet packets = packet ∷ packets

-- Nothing has come in, and one byte of a packet has.
abbrev empty_receiver : Receiver (List (List ℕ))
empty_receiver = record {
  rest = [];
  bytes_left = 0;
  temp_bytes = 0;
  temp_packet = 0 ∷ 0 ∷ 0 ∷ 0 ∷ [];
}

abbrev begun_receiver : Receiver (List (List ℕ))
begun_receiver = record {
  rest = [];
  bytes_left = 3;
  temp_bytes = 1;
  temp_packet = 9 ∷ 0 ∷ 0 ∷ 0 ∷ [];
}

empty_receiver-IsBetween : IsBetween 4 empty_receiver
empty_receiver-IsBetween = record { buffer = refl; within = omega arith; counts = inl (refl, refl) }

begun_receiver-IsBetween : IsBetween 4 begun_receiver
begun_receiver-IsBetween = record {
  buffer = refl;
  within = omega arith;
  counts = inr (omega arith, refl);
}

abbrev chunks : List (List ℕ)
chunks = (1 ∷ 0 ∷ 3 ∷ 4 ∷ 5 ∷ []) ∷ (6 ∷ []) ∷ (7 ∷ 8 ∷ 9 ∷ []) ∷ []

recv_all-Delivers_example :
    Delivers 4 keep
      (recv_all 4 keep 10 chunks empty_receiver)
      []
      (pending empty_receiver ++ concat chunks)
recv_all-Delivers_example =
    recv_all-Delivers 4 keep (omega arith) 10 chunks empty_receiver empty_receiver-IsBetween
      (omega arith, (omega arith, (omega arith, tt)))

read_loop_overwrites_example :
    (i : Input) × (read_loop ((0 ∷ 7 ∷ []) ∷ (5 ∷ []) ∷ []) (fresh_input 10) ≡ some i)
    × (take 1 i.buffer ≡ 5 ∷ [])
    × (i.total ≡ 2 + 1)
read_loop_overwrites_example = read_loop_overwrites 10 (7 ∷ []) (5 ∷ []) (omega arith) (omega arith)

-- Two callbacks: the first packet is complete, one byte of the second waits.
abbrev after_two : Receiver (List (List ℕ))
after_two = record {
  rest = (9 ∷ 1 ∷ 2 ∷ 3 ∷ []) ∷ [];
  bytes_left = 3;
  temp_bytes = 1;
  temp_packet = 4 ∷ 0 ∷ 0 ∷ 0 ∷ [];
}

recv_callback_run :
    recv_callback 4 keep 10 ((1 ∷ 2 ∷ 3 ∷ 4 ∷ []) ∷ []) begun_receiver ≡ some after_two
unfolding recv_callback read_loop strlen cut_loop cut_round
recv_callback_run = refl
