-- ===== src/Stream/Refine.antt =====
-- The cutting loop and the callback, seen through what they keep: they hand on the packets of the
-- stream.
use penn_daq.Prelude.{
  ℕ, zero, suc, ◌-◌, ◌≤◌, ◌<◌, ◌≡◌, refl, ap, ◌∙◌, sym, subst, List, [], ◌∷◌, ◌++◌, arith, length,
  take, drop, replicate, length-append, length-drop, length-replicate, inl, append_assoc,
  append-nil, Option, some,
}
use native.Mathlib.Decide.{dec_lt}
use penn_daq.Stream.Bytes.{take-append, strlen-replicate, take-split, length-take_le}
use penn_daq.Stream.Cutter.{Receiver, cut_loop, recv_callback}
use penn_daq.Stream.Reader.{Input, fresh_input, read_loop}
use penn_daq.Stream.Spec.{feed_all, feed_all-packet}
use penn_daq.Stream.Rounds.{
  pending, IsBetween, Delivers, Delivers-eq, Delivers-short, cut_round-none, cut_round-whole,
  cut_round-first, cut_round-last, cut_round-middle, first-Goes, middle-Goes,
}

module _ {S : Type 0} (size : ℕ) (process : List ℕ → S → S) (pos : 0 < size) where
  -- A packet that the round has completed, and the loop from there on.
  packet-Delivers :
      (o : Option (Receiver S)) (s : S) (packet bytes all : List ℕ)
      → length packet ≡ size
      → all ≡ packet ++ bytes
      → Delivers size process o (process packet s) bytes
      → Delivers size process o s all
  packet-Delivers o s packet bytes all full split d =
      Delivers-eq size process pos
        (ap (λ t. feed_all size process s t) split
          ∙ feed_all-packet size process pos s packet bytes full)
        d

  cleared-IsBetween :
      (s : S)
      → IsBetween size
          (record { rest = s; bytes_left = 0; temp_bytes = 0; temp_packet = replicate size 0 })
  cleared-IsBetween s = record {
    buffer = length-replicate size 0;
    within = pos;
    counts = inl (refl, refl);
  }

  idle_split :
      (input : List ℕ) (total : ℕ) (r : Receiver S)
      → r.temp_bytes ≡ 0
      → size ≤ total
      → pending r ++ take total input
        ≡ take size input ++ (pending r ++ take (total - size) (drop size input))
  idle_split input total r idle long =
      ap (λ n. take n r.temp_packet ++ take total input) idle
      ∙ take-split size total input long
      ∙ ap (λ n. take size input ++ (take n r.temp_packet ++ take (total - size) (drop size input)))
          (sym idle)

  -- The loop from a state between rounds, with enough rounds and the bytes that it counts.
  pub cut_loop-Delivers :
      (fuel : ℕ) (input : List ℕ) (total : ℕ) (r : Receiver S)
      → IsBetween size r
      → total < fuel
      → total ≤ length input
      → Delivers size process
          (cut_loop size process fuel input total r)
          r.rest
          (pending r ++ take total input)
  unfolding cut_loop
  cut_loop-Delivers zero input total r b f h = elim f [ ]
  cut_loop-Delivers (suc fuel) input total r b f h = elim (dec_lt 0 total) [
    | no none_left ↦
        rw (cut_loop, cut_round-none size process pos input total r (omega arith))
          (Delivers-short size process pos r _ r.rest b refl (
            sym
              (ap (λ n. pending r ++ take n input) {y = 0} (omega arith) ∙ append-nil (pending r))))
    | yes some_left ↦ elim (dec_lt 0 r.temp_bytes) [
      | no idle ↦ elim (dec_lt total size) [
        | yes short ↦
            rw
              (
                cut_loop,
                cut_round-first size process pos input total r b some_left h (omega arith) short,
              )
              (first-Goes size process pos input total r b some_left h (omega arith) short)
        | no long ↦
            rw
              (
                cut_loop,
                cut_round-whole size process pos input total r b some_left h (omega arith)
                    (omega arith),
              )
              (packet-Delivers _ r.rest (take size input)
                (pending r ++ take (total - size) (drop size input)) _
                (length-take_le size input (omega arith))
                (idle_split input total r (omega arith) (omega arith))
                (cut_loop-Delivers fuel (drop size input) (total - size)
                  (record r { rest = process (take size input) r.rest })
                  (record { buffer = b.buffer; within = b.within; counts = b.counts }) (omega arith)
                  (omega (arith, length-drop size input))))
      ]
      | yes busy ↦ elim (dec_lt total r.bytes_left) [
        | yes goes_on ↦
            rw
              (cut_loop, cut_round-middle size process pos input total r b some_left h busy goes_on)
              (middle-Goes size process pos input total r b some_left h busy goes_on)
        | no ends ↦
            rw
              (
                cut_loop,
                cut_round-last size process pos input total r b some_left h busy (omega arith),
              )
              (packet-Delivers _ r.rest (pending r ++ take r.bytes_left input)
                (take (total - r.bytes_left) (drop r.bytes_left input)) _
                (omega (
                  arith,
                  length-append (pending r) (take r.bytes_left input),
                  length-take_le r.temp_bytes r.temp_packet (omega (arith, b.buffer, b.within)),
                  length-take_le r.bytes_left input (omega arith),
                  b.counts,
                ))
                (ap (λ t. pending r ++ t) (take-split r.bytes_left total input (omega arith))
                  ∙ sym (
                      append_assoc (pending r) (take r.bytes_left input)
                        (take (total - r.bytes_left) (drop r.bytes_left input))))
                (cut_loop-Delivers fuel (drop r.bytes_left input) (total - r.bytes_left) _
                  (cleared-IsBetween _) (ground (arith, b.counts))
                  (omega (arith, length-drop r.bytes_left input))))
      ]
    ]
  ]

  abbrev one_read : ℕ → List ℕ → Input
  one_read capacity chunk = record {
    buffer = chunk ++ drop (length chunk) (replicate capacity 0);
    total = length chunk;
  }

  read_loop-one :
      (capacity : ℕ) (chunk : List ℕ)
      → length chunk ≤ capacity
      → read_loop (chunk ∷ []) (fresh_input capacity) ≡ some (one_read capacity chunk)
  unfolding read_loop
  read_loop-one capacity chunk fits =
      ground (arith, strlen-replicate capacity, length-replicate {A = ℕ} capacity 0)

  -- One callback whose bytes come in a single read that fits the buffer.
  pub recv_callback-Delivers :
      (capacity : ℕ) (chunk : List ℕ) (r : Receiver S)
      → IsBetween size r
      → length chunk ≤ capacity
      → Delivers size process
          (recv_callback size process capacity (chunk ∷ []) r)
          r.rest
          (pending r ++ chunk)
  unfolding recv_callback
  recv_callback-Delivers capacity chunk r b fits =
      let d =
        cut_loop-Delivers (suc (length chunk)) (one_read capacity chunk).buffer (length chunk) r b
          (omega arith)
          (omega (arith, length-append chunk (drop (length chunk) (replicate capacity 0)))) in
      rw (read_loop-one capacity chunk fits, recv_callback)
        (subst
          (λ t.
            Delivers size process
              (cut_loop size process (suc (length chunk)) (one_read capacity chunk).buffer
                (length chunk) r)
              r.rest (pending r ++ t))
          (take-append chunk (drop (length chunk) (replicate capacity 0))) d)
