-- ===== src/Stream/Rounds.antt =====
-- One round of the cutting loop, on each of its branches.
use penn_daq.Prelude.{
  ℕ, ◌+◌, ◌-◌, ◌≤◌, ◌<◌, ◌≡◌, refl, ap, ◌∙◌, sym, List, ◌++◌, arith, length, take, drop, replicate,
  length-append, length-take, length-drop, inr, append_assoc, append-nil, Option, some, ◌⊎◌,
}
use penn_daq.Stream.Bytes.{length-take_le, drop_all, take-append_eq}
use penn_daq.Stream.Cutter.{Receiver, stop, again, cut_round}
use penn_daq.Stream.Spec.{feed_all, feed_all-short}

-- The bytes of the packet that has begun.
abbrev pub pending : {S : Type 0} → Receiver S → List ℕ
pending r = take r.temp_bytes r.temp_packet

-- Between callbacks: the packet's buffer has its size, and the two counts agree with it.
pub record IsBetween {S : Type 0} (size : ℕ) (r : Receiver S) : Type 0 where
  pub buffer : length r.temp_packet ≡ size
  pub within : r.temp_bytes < size
  pub counts :
      ((r.temp_bytes ≡ 0) × (r.bytes_left ≡ 0))
      ⊎ ((0 < r.temp_bytes) × (r.temp_bytes + r.bytes_left ≡ size))

-- A result that holds exactly what is left of the stream after its whole packets.
pub record Delivers {S : Type 0} (size : ℕ) (process : List ℕ → S → S) (o : Option (Receiver S))
    (s : S) (bytes : List ℕ) : Type 0 where
  pub out : Receiver S
  pub returns : o ≡ some out
  pub between : IsBetween size out
  pub rest : out.rest ≡ (feed_all size process s bytes).0
  pub kept : pending out ≡ (feed_all size process s bytes).1

module _ {S : Type 0} (size : ℕ) (process : List ℕ → S → S) (pos : 0 < size) where
  pub Delivers-eq :
      {o : Option (Receiver S)} {s s' : S} {xs ys : List ℕ}
      → feed_all size process s xs ≡ feed_all size process s' ys
      → Delivers size process o s' ys
      → Delivers size process o s xs
  Delivers-eq e d = record {
    out = d.out;
    returns = d.returns;
    between = d.between;
    rest = d.rest ∙ sym (ap (λ p. p.0) e);
    kept = d.kept ∙ sym (ap (λ p. p.1) e);
  }

  pub Delivers-short :
      (r : Receiver S) (bytes : List ℕ) (s : S)
      → IsBetween size r
      → r.rest ≡ s
      → pending r ≡ bytes
      → Delivers size process (some r) s bytes
  Delivers-short r bytes s b same e = record {
    out = r;
    returns = refl;
    between = b;
    rest = same ∙ sym (ap (λ p. p.0) short);
    kept = e ∙ sym (ap (λ p. p.1) short);
  }
    where
      short : feed_all size process s bytes ≡ (s, bytes)
      short =
          feed_all-short size process pos s bytes
            (rw (← e) (omega (arith, b.within, length-take r.temp_bytes r.temp_packet)))

  pub cut_round-none :
      (input : List ℕ) (total : ℕ) (r : Receiver S)
      → total ≡ 0
      → cut_round size process input total r ≡ stop r
  unfolding cut_round
  cut_round-none input total r e = ground arith

  module _ (input : List ℕ) (total : ℕ) (r : Receiver S) (b : IsBetween size r)
      (some_left : 0 < total) (fits : total ≤ length input) where
    pub cut_round-whole :
        r.temp_bytes ≡ 0
        → size ≤ total
        → cut_round size process input total r
          ≡ again
              (drop size input)
              (total - size)
              (record r { rest = process (take size input) r.rest })
    unfolding cut_round
    cut_round-whole idle long = ground arith

    pub cut_round-first :
        r.temp_bytes ≡ 0
        → total < size
        → cut_round size process input total r
          ≡ stop (record r {
            temp_packet = take total input ++ drop total r.temp_packet;
            bytes_left = size - total;
            temp_bytes = total;
          })
    unfolding cut_round
    cut_round-first idle short = ground (arith, b.buffer, length-take_le total input)

    pub cut_round-last :
        0 < r.temp_bytes
        → r.bytes_left ≤ total
        → cut_round size process input total r
          ≡ again (drop r.bytes_left input) (total - r.bytes_left) (record {
            rest = process (pending r ++ take r.bytes_left input) r.rest;
            bytes_left = 0;
            temp_bytes = 0;
            temp_packet = replicate size 0;
          })
    unfolding cut_round
    cut_round-last busy ends =
        ground (arith, b.buffer, b.counts, length-take_le r.bytes_left input, no_tail)
      where
        no_tail :
            take r.bytes_left input
              ++ drop (r.temp_bytes + length (take r.bytes_left input)) r.temp_packet
            ≡ take r.bytes_left input
        no_tail =
            ap (λ t. take r.bytes_left input ++ t)
              (drop_all (r.temp_bytes + length (take r.bytes_left input)) r.temp_packet
                (ground (arith, b.buffer, b.counts, length-take_le r.bytes_left input)))
            ∙ append-nil (take r.bytes_left input)

    pub cut_round-middle :
        0 < r.temp_bytes
        → total < r.bytes_left
        → cut_round size process input total r
          ≡ stop (record r {
            temp_packet =
                pending r ++ (take total input ++ drop (r.temp_bytes + total) r.temp_packet);
            bytes_left = r.bytes_left - total;
            temp_bytes = r.temp_bytes + total;
          })
    unfolding cut_round
    cut_round-middle busy goes_on = ground (arith, b.buffer, b.counts, length-take_le total input)

    -- The rest of the stream that the round has seen.
    abbrev pub ahead : List ℕ
    ahead = pending r ++ take total input

    abbrev pub Goes : Option (Receiver S) → Type 0
    Goes o = Delivers size process o r.rest ahead

    nothing_pending : r.temp_bytes ≡ 0 → ahead ≡ take total input
    nothing_pending idle = ap (λ n. take n r.temp_packet ++ take total input) idle

    pub first-Goes :
        r.temp_bytes ≡ 0
        → total < size
        → Goes (
            some (record r {
              temp_packet = take total input ++ drop total r.temp_packet;
              bytes_left = size - total;
              temp_bytes = total;
            }))
    first-Goes idle short =
        Delivers-short
          (record r {
            temp_packet = take total input ++ drop total r.temp_packet;
            bytes_left = size - total;
            temp_bytes = total;
          })
          ahead r.rest
          (record {
            buffer = omega (
              arith,
              length-append (take total input) (drop total r.temp_packet),
              length-take_le total input fits,
              length-drop total r.temp_packet,
              b.buffer,
            );
            within = short;
            counts = inr (some_left, omega arith);
          })
          refl
          (take-append_eq total (take total input) (drop total r.temp_packet)
              (length-take_le total input fits)
            ∙ sym (nothing_pending idle))

    pub middle-Goes :
        0 < r.temp_bytes
        → total < r.bytes_left
        → Goes (
            some (record r {
              temp_packet =
                  pending r ++ (take total input ++ drop (r.temp_bytes + total) r.temp_packet);
              bytes_left = r.bytes_left - total;
              temp_bytes = r.temp_bytes + total;
            }))
    middle-Goes busy goes_on =
        Delivers-short _ ahead r.rest
          (record {
            buffer = omega (
              arith,
              length-append (pending r) (part ++ tail),
              length-append part tail,
              length-take_le total input fits,
              length-take_le r.temp_bytes r.temp_packet (omega (arith, b.buffer, b.within)),
              length-drop (r.temp_bytes + total) r.temp_packet,
              b.buffer,
              b.counts,
            );
            within = omega (arith, b.counts);
            counts = inr (omega arith, omega (arith, b.counts));
          })
          refl
          (ap (λ t. take (r.temp_bytes + total) t) (sym (append_assoc (pending r) part tail))
            ∙ take-append_eq (r.temp_bytes + total) (pending r ++ part) tail (
                omega (
                  arith,
                  length-append (pending r) part,
                  length-take_le total input fits,
                  length-take_le r.temp_bytes r.temp_packet (omega (arith, b.buffer, b.within)),
                )))
      where
        part : List ℕ
        part = take total input

        tail : List ℕ
        tail = drop (r.temp_bytes + total) r.temp_packet
