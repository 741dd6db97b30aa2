-- ===== src/Stream/Spec.antt =====
-- What the receiver should do with a stream of bytes: hand on each whole packet, in order, and keep
-- the bytes that do not fill one.
use penn_daq.Prelude.{
  ℕ, zero, suc, ◌≤◌, ◌<◌, ◌≡◌, refl, ap, ap₂, ◌∙◌, List, [], ◌∷◌, ◌++◌, true, false, arith, length,
  take, drop, length-append, length-drop, leb, Bool-cases, inl, inr,
}
use penn_daq.Stream.Bytes.{take-append, drop-append, take-append_le, drop-append_le}

module _ {S : Type 0} (size : ℕ) (process : List ℕ → S → S) where
  pub feed : ℕ → S → List ℕ → S × List ℕ
  feed zero s bytes = (s, bytes)
  feed (suc fuel) s bytes = elim (leb size (length bytes)) [
    | true ↦ feed fuel (process (take size bytes) s) (drop size bytes)
    | false ↦ (s, bytes)
  ]

  -- As many rounds as there are bytes are enough.
  unfoldable pub feed_all : S → List ℕ → S × List ℕ
  feed_all s bytes = feed (length bytes) s bytes

  module _ (pos : 0 < size) where
    feed_enough :
        (f g : ℕ) (s : S) (bytes : List ℕ)
        → length bytes ≤ f
        → length bytes ≤ g
        → feed f s bytes ≡ feed g s bytes
    unfolding feed
    feed_enough zero zero s bytes p q = refl
    feed_enough zero (suc g) s bytes p q = ground arith
    feed_enough (suc f) zero s bytes p q = ground arith
    feed_enough (suc f) (suc g) s bytes p q = ground (
      arith,
      length-drop size bytes,
      feed_enough f g (process (take size bytes) s) (drop size bytes),
    )

    pub feed_all-short :
        (s : S) (bytes : List ℕ) → length bytes < size → feed_all s bytes ≡ (s, bytes)
    unfolding feed_all feed
    feed_all-short s [] h = refl
    feed_all-short s (b ∷ bytes) h = ground arith

    pub feed_all-long :
        (s : S) (bytes : List ℕ)
        → size ≤ length bytes
        → feed_all s bytes ≡ feed_all (process (take size bytes) s) (drop size bytes)
    unfolding feed_all feed
    feed_all-long s [] h = absurd (omega arith)
    feed_all-long s (b ∷ bytes) h = ground (
      arith,
      length-drop size (b ∷ bytes),
      feed_enough (length bytes) (length (drop size (b ∷ bytes)))
          (process (take size (b ∷ bytes)) s) (drop size (b ∷ bytes)),
    )

    -- A packet in front is handed on first.
    pub feed_all-packet :
        (s : S) (packet bytes : List ℕ)
        → length packet ≡ size
        → feed_all s (packet ++ bytes) ≡ feed_all (process packet s) bytes
    feed_all-packet s packet bytes e =
        feed_all-long s (packet ++ bytes) (omega (arith, length-append packet bytes))
        ∙ ap₂ feed_all (ap (λ t. process t s) front) behind
      where
        front : take size (packet ++ bytes) ≡ packet
        front = rw (← e) (take-append packet bytes)

        behind : drop size (packet ++ bytes) ≡ bytes
        behind = rw (← e) (drop-append packet bytes)

    feed_append :
        (f : ℕ) (s : S) (xs ys : List ℕ)
        → length xs ≤ f
        → feed_all s (xs ++ ys) ≡ feed_all (feed f s xs).0 ((feed f s xs).1 ++ ys)
    unfolding feed
    feed_append zero s xs ys h = refl
    feed_append (suc f) s xs ys h = elim (Bool-cases (leb size (length xs))) [
      | inl long ↦
          rw (long, feed)
            (feed_all-long s (xs ++ ys) (ground (arith, length-append xs ys))
              ∙ ap₂ feed_all (ap (λ t. process t s) (take-append_le size xs ys (ground arith)))
                  (drop-append_le size xs ys (ground arith))
              ∙ feed_append f (process (take size xs) s) (drop size xs) ys
                  (ground (arith, length-drop size xs)))
      | inr short ↦ rw (short, feed) refl
    ]

    -- Feeding two runs of bytes one after the other is feeding them together.
    pub feed_all-append :
        (s : S) (xs ys : List ℕ)
        → feed_all s (xs ++ ys) ≡ feed_all (feed_all s xs).0 ((feed_all s xs).1 ++ ys)
    unfolding feed_all
    feed_all-append s xs ys = feed_append (length xs) s xs ys (omega arith)

    feed-rest_lt : (f : ℕ) (s : S) (xs : List ℕ) → length xs ≤ f → length (feed f s xs).1 < size
    unfolding feed
    feed-rest_lt zero s xs h = omega arith
    feed-rest_lt (suc f) s xs h = elim (Bool-cases (leb size (length xs))) [
      | inl long ↦
          rw (long, feed)
            (feed-rest_lt f (process (take size xs) s) (drop size xs)
              (ground (arith, length-drop size xs)))
      | inr short ↦ rw (short, feed) (ground arith)
    ]
