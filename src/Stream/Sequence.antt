-- ===== src/Stream/Sequence.antt =====
-- Many callbacks: however the stream is split into reads, the same packets are handed on.
use penn_daq.Prelude.{
  ℕ, suc, ◌+◌, ◌≤◌, ◌<◌, ◌≡◌, refl, ap, ap₂, ◌∙◌, sym, List, [], ◌∷◌, ◌++◌, arith, length, take,
  drop, length-append, length-drop, append_assoc, append-nil, Option, none, some, All, replicate,
  length-replicate,
}
use penn_daq.Stream.Bytes.{copy_bytes-start, strlen, strlen-replicate, take-append}
use penn_daq.Stream.Reader.{Input, fresh_input, read_loop}
use penn_daq.Stream.Cutter.{Receiver, recv_callback}
use penn_daq.Stream.Spec.{feed_all, feed_all-append}
use penn_daq.Stream.Rounds.{pending, IsBetween, Delivers, Delivers-eq, Delivers-short}
use penn_daq.Stream.Refine.{recv_callback-Delivers}

abbrev pub concat : List (List ℕ) → List ℕ
concat [] = []
concat (chunk ∷ chunks) = chunk ++ concat chunks

module _ {S : Type 0} (size : ℕ) (process : List ℕ → S → S) where
  -- One callback for each chunk, in order.
  pub recv_all : ℕ → List (List ℕ) → Receiver S → Option (Receiver S)
  recv_all capacity [] r = some r
  recv_all capacity (chunk ∷ chunks) r = elim (recv_callback size process capacity (chunk ∷ []) r) [
    | none ↦ none
    | some r' ↦ recv_all capacity chunks r'
  ]

  module _ (pos : 0 < size) where
    -- However a stream is cut into callbacks of one read each, none longer than the buffer: from a
    -- receiver between callbacks, they deliver exactly the whole packets of the stream in order, after
    -- the bytes that were pending, and the bytes behind the last whole packet are kept.
    pub recv_all-Delivers :
        (capacity : ℕ) (chunks : List (List ℕ)) (r : Receiver S)
        → IsBetween size r
        → All (λ c. length c ≤ capacity) chunks
        → Delivers size process (recv_all capacity chunks r) r.rest (pending r ++ concat chunks)
    unfolding recv_all
    recv_all-Delivers capacity [] r b fit =
        Delivers-short size process pos r _ r.rest b refl (sym (append-nil (pending r)))
    recv_all-Delivers capacity (chunk ∷ chunks) r b fit =
        let d = recv_callback-Delivers size process pos capacity chunk r b fit.0 in
        let e = recv_all-Delivers capacity chunks d.out d.between fit.1 in
        rw (recv_all, d.returns) (Delivers-eq size process pos (joined d) e)
      where
        joined :
            (d : Delivers size process
              (recv_callback size process capacity (chunk ∷ []) r)
              r.rest
              (pending r ++ chunk))
            → feed_all size process r.rest (pending r ++ (chunk ++ concat chunks))
              ≡ feed_all size process d.out.rest (pending d.out ++ concat chunks)
        joined d =
            ap (λ t. feed_all size process r.rest t)
              (sym (append_assoc (pending r) chunk (concat chunks)))
            ∙ feed_all-append size process pos r.rest (pending r ++ chunk) (concat chunks)
            ∙ ap₂ (λ s t. feed_all size process s (t ++ concat chunks)) (sym d.rest) (sym d.kept)

-- The loss that a second read of the same callback causes. If the first read starts with a zero
-- byte, `strlen` sends the second one over it: the buffer starts with the second read alone, while
-- the count of bytes covers both.
pub read_loop_overwrites :
    (capacity : ℕ) (first second : List ℕ)
    → length first < capacity
    → length second ≤ capacity
    → (i : Input) × (read_loop ((0 ∷ first) ∷ second ∷ []) (fresh_input capacity) ≡ some i)
      × (take (length second) i.buffer ≡ second)
      × (i.total ≡ suc (length first) + length second)
unfolding read_loop strlen
read_loop_overwrites capacity first second p q = (
  record {
    buffer = second ++ drop (length second) after_first;
    total = 0 + suc (length first) + length second;
  },
  rw
      (
        read_loop,
        copy_bytes-start zeros (strlen zeros) (0 ∷ first) (strlen-replicate capacity)
            (omega (arith, length-replicate {A = ℕ} capacity 0)),
        read_loop,
        copy_bytes-start after_first (strlen after_first) second refl (
            omega (
              arith,
              length-replicate {A = ℕ} capacity 0,
              length-append first (drop (suc (length first)) zeros),
              length-drop (suc (length first)) zeros,
            )),
        read_loop,
      )
      refl,
  take-append second
      (drop (length second) (0 ∷ first ++ drop (suc (length first)) (replicate capacity 0))),
  omega arith,
)
  where
    zeros : List ℕ
    zeros = replicate capacity 0

    after_first : List ℕ
    after_first = 0 ∷ first ++ drop (suc (length first)) zeros
