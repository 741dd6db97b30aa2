-- ===== src/Mtc/Reading.antt =====
-- Callbacks of src/mtc/MTCLink.cpp: a packet may be split between two of them behind its first four
-- bytes, and a packet of no bytes keeps the loop going.
use penn_daq.Prelude.{
  ℕ, zero, suc, ◌+◌, ◌-◌, ◌^◌, ◌≤◌, ◌<◌, ◌≡◌, refl, ap, ap₂, ◌∙◌, sym, List, [], ◌∷◌, ◌++◌, map,
  true, false, none, some, length, drop, replicate, All, arith, length-append, length-replicate,
  append_assoc, append-nil, if◌then◌else◌, ltb, leb, ◌==◌,
}
use mathlib.Core.List.{map-append}
use penn_daq.Stream.Bytes.{copy_bytes-start, strlen, strlen-replicate}
use penn_daq.Stream.Reader.{read_loop}
use penn_daq.Mtc.Link.{
  MtcReceiver, MtcRound, num_this_packet, stop, fault, again, copied, mtc_round, mtc_loop,
  mtc_recv_callback,
}
use penn_daq.Mtc.Framing.{
  IsFramed, padded, joined, num_this_packet-append, idle, part_of_packet, last_of_packet, steps,
  mtc_loop-packets,
}

-- One read that fits the buffer.
one_chunk :
    (size capacity : ℕ) (chunk : List ℕ) (r : MtcReceiver)
    → length chunk ≤ capacity
    → mtc_recv_callback size capacity (chunk ∷ []) r
      ≡ mtc_loop size
          (suc (length chunk))
          (chunk ++ drop (length chunk) (replicate capacity 0))
          (length chunk)
          r
unfolding mtc_recv_callback read_loop
one_chunk size capacity chunk r fits =
    rw
      (
        mtc_recv_callback,
        read_loop,
        copy_bytes-start (replicate capacity 0) (strlen (replicate capacity 0)) chunk
            (strlen-replicate capacity) (omega (arith, length-replicate {A = ℕ} capacity 0)),
        read_loop,
      )
      (ap (λ t. mtc_loop size (suc t) (chunk ++ drop (length chunk) (replicate capacity 0)) t r)
        {x = 0 + length chunk} {y = length chunk} (omega arith))

module _ (size : ℕ) (small : size < 2 ^ 31) where
  length-joined :
      (packets : List (List ℕ))
      → All (IsFramed size) packets
      → length packets ≤ length (joined packets)
  length-joined [] f = omega arith
  length-joined (p ∷ packets) f =
      omega (arith, length-append p (joined packets), f.0.header, length-joined packets f.1)

  -- Whole packets, then the first bytes of one, and nothing else in the callback.
  first_callback :
      (packets : List (List ℕ)) (x tail : List ℕ) (n fuel : ℕ) (queue : List (List ℕ))
      → All (IsFramed size) packets
      → 4 ≤ length x
      → num_this_packet x ≡ length x + n
      → 0 < n
      → length x + n ≤ size
      → length packets < fuel
      → mtc_loop size fuel
          (joined packets ++ (x ++ tail))
          (length (joined packets) + length x)
          (idle size small queue)
        ≡ some (record (idle size small (queue ++ map (padded size) packets)) {
          temp_packet = padded size x;
          bytes_left = n;
          temp_bytes = length x;
        })
  unfolding mtc_loop
  first_callback packets x tail n fuel queue f header len more holds enough =
      ap
        (λ k.
          mtc_loop size k (joined packets ++ (x ++ tail)) (length (joined packets) + length x)
            (idle size small queue))
        rounds
      ∙ mtc_loop-packets size small packets (x ++ tail) (length x) (suc (fuel - length packets - 1))
          queue f
      ∙ (let some_left : (length x == 0) ≡ false = ground arith in
          rw
            (
              mtc_loop,
              some_left,
              part_of_packet size small x n tail (queue ++ map (padded size) packets) header len
                  more holds,
            )
            refl)
    where
      rounds : fuel ≡ length packets + suc (fuel - length packets - 1)
      rounds = omega arith

  -- The rest of a packet, then whole ones.
  second_callback :
      (x y : List ℕ) (packets : List (List ℕ)) (tail : List ℕ) (fuel : ℕ) (queue : List (List ℕ))
      → 0 < length x
      → 0 < length y
      → length x + length y ≤ size
      → All (IsFramed size) packets
      → length packets < fuel
      → mtc_loop size
          (suc fuel)
          (y ++ (joined packets ++ tail))
          (length y + length (joined packets))
          (record (idle size small queue) {
            temp_packet = padded size x;
            bytes_left = length y;
            temp_bytes = length x;
          })
        ≡ some (idle size small ((queue ++ padded size (x ++ y) ∷ []) ++ map (padded size) packets))
  unfolding mtc_loop
  second_callback x y packets tail fuel queue begun more holds f enough =
      steps size small fuel (length y + length (joined packets)) _ _ _ _ _ (omega arith) (
        last_of_packet size small x y (joined packets ++ tail) (length (joined packets)) queue begun
          holds)
      ∙ ap₂
          (λ k n.
            mtc_loop size k (joined packets ++ tail) n
              (idle size small (queue ++ padded size (x ++ y) ∷ [])))
          rounds none_behind
      ∙ mtc_loop-packets size small packets tail 0 (suc (fuel - length packets - 1))
          (queue ++ padded size (x ++ y) ∷ []) f
    where
      rounds : fuel ≡ length packets + suc (fuel - length packets - 1)
      rounds = omega arith

      none_behind : length (joined packets) ≡ length (joined packets) + 0
      none_behind = omega arith

  -- Two callbacks of one read each queue exactly the packets of their bytes, in order, each with
  -- zeros behind it up to the size of the buffer, when one packet is split between the reads behind
  -- its first four bytes and the others are whole.
  pub mtc_recv_callback-splits :
      (capacity : ℕ) (before behind : List (List ℕ)) (x y : List ℕ) (queue : List (List ℕ))
      → All (IsFramed size) before
      → IsFramed size (x ++ y)
      → All (IsFramed size) behind
      → 4 ≤ length x
      → 0 < length y
      → length (joined before ++ x) ≤ capacity
      → length (y ++ joined behind) ≤ capacity
      → (r : MtcReceiver) × (mtc_recv_callback size capacity
            ((joined before ++ x) ∷ [])
            (idle size small queue)
          ≡ some r)
        × (mtc_recv_callback size capacity ((y ++ joined behind) ∷ []) r
            ≡ some (idle size small (queue ++ map (padded size) (before ++ (x ++ y) ∷ behind))))
  mtc_recv_callback-splits capacity before behind x y queue f g h header more fits fits' = (
    record (idle size small (queue ++ map (padded size) before)) {
      temp_packet = padded size x;
      bytes_left = length y;
      temp_bytes = length x;
    },
    one_chunk size capacity (joined before ++ x) (idle size small queue) fits
        ∙ ap₂ (λ i t. mtc_loop size (suc (length (joined before ++ x))) i t (idle size small queue))
            (append_assoc (joined before) x _) (length-append (joined before) x)
        ∙ first_callback before x _ (length y) (suc (length (joined before ++ x))) queue f header
            (sym (num_this_packet-append x y header) ∙ g.framed ∙ length-append x y) more holds
            (omega (arith, length-append (joined before) x, length-joined before f)),
    one_chunk size capacity (y ++ joined behind) _ fits'
        ∙ ap₂
            (λ i t.
              mtc_loop size (suc (length (y ++ joined behind))) i t
                (record (idle size small (queue ++ map (padded size) before)) {
                  temp_packet = padded size x;
                  bytes_left = length y;
                  temp_bytes = length x;
                }))
            (append_assoc y (joined behind) _) (length-append y (joined behind))
        ∙ second_callback x y behind _ (length (y ++ joined behind))
            (queue ++ map (padded size) before) (omega arith) more holds h
            (omega (arith, length-append y (joined behind), length-joined behind h))
        ∙ ap (λ q. some (idle size small q)) in_order,
  )
    where
      holds : length x + length y ≤ size
      holds = omega (arith, g.holds, length-append x y)

      in_order :
          ((queue ++ map (padded size) before) ++ padded size (x ++ y) ∷ [])
            ++ map (padded size) behind
          ≡ queue ++ map (padded size) (before ++ (x ++ y) ∷ behind)
      in_order =
          append_assoc (queue ++ map (padded size) before) (padded size (x ++ y) ∷ [])
            (map (padded size) behind)
          ∙ append_assoc queue (map (padded size) before)
              (padded size (x ++ y) ∷ map (padded size) behind)
          ∙ ap (λ t. queue ++ t) (sym (map-append (padded size) before ((x ++ y) ∷ behind)))

  empty_packet :
      (input : List ℕ) (total : ℕ) (queue : List (List ℕ))
      → num_this_packet input ≡ 0
      → mtc_round size input total (idle size small queue)
        ≡ again input total (idle size small (queue ++ replicate size 0 ∷ []))
  unfolding mtc_round
  empty_packet input total queue empty =
      let whole : ltb total 0 ≡ false = ground arith in
      let readable : leb 0 (length input) ≡ true = ground arith in
      let holds : leb 0 (length (replicate {A = ℕ} size 0)) ≡ true = ground arith in
      let left : total - 0 ≡ total = omega arith in
      rw (empty, whole, copied, readable, holds)
        (ap (λ t. again input t (idle size small (queue ++ replicate size 0 ∷ []))) left)

  -- What is at hand after some rounds of the loop: again the bytes left, or the end, or a fault.
  abbrev pub turned : (List ℕ → ℕ → MtcReceiver → MtcRound) → MtcRound → MtcRound
  turned go (stop r) = stop r
  turned go (again input total r) = go input total r
  turned go fault = fault

  abbrev pub turns : ℕ → List ℕ → ℕ → MtcReceiver → MtcRound
  turns zero input total r = again input total r
  turns (suc n) input total r =
      let later = turned (turns n) (mtc_round size input total r) in
      if total == 0 then stop r else later

  -- A packet whose length is given as 0 is queued again and again: behind any number of rounds of the
  -- loop there are as many empty packets in the queue, the bytes are all still to be done, and the
  -- callback has not come to its end.
  pub mtc_loop_stuck :
      (n : ℕ) (input : List ℕ) (total : ℕ) (queue : List (List ℕ))
      → 0 < total
      → num_this_packet input ≡ 0
      → (turns n input total (idle size small queue)
          ≡ again input total (idle size small (queue ++ replicate n (replicate size 0))))
        × (mtc_loop size n input total (idle size small queue) ≡ none)
  unfolding mtc_loop
  mtc_loop_stuck n input total queue pos empty = (turns_stuck n queue, loop_stuck n queue)
    where
      turns_stuck :
          (n : ℕ) (queue : List (List ℕ))
          → turns n input total (idle size small queue)
            ≡ again input total (idle size small (queue ++ replicate n (replicate size 0)))
      turns_stuck zero queue =
          ap (λ q. again input total (idle size small q)) (sym (append-nil queue))
      turns_stuck (suc n) queue =
          let more : (total == 0) ≡ false = ground arith in
          rw (more, empty_packet input total queue empty)
            (turns_stuck n (queue ++ replicate size 0 ∷ [])
              ∙ ap (λ q. again input total (idle size small q))
                  (append_assoc queue (replicate size 0 ∷ []) (replicate n (replicate size 0))))

      loop_stuck :
          (n : ℕ) (queue : List (List ℕ))
          → mtc_loop size n input total (idle size small queue) ≡ none
      loop_stuck zero queue = refl
      loop_stuck (suc n) queue =
          steps size small n total input input total (idle size small queue) _ pos
            (empty_packet input total queue empty)
          ∙ loop_stuck n (queue ++ replicate size 0 ∷ [])
