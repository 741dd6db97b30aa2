-- ===== src/Mtc/Framing.antt =====
-- What `MTCLink::RecvCallback` of src/mtc/MTCLink.cpp makes of a stream of packets.
use penn_daq.Prelude.{
  ℕ, zero, suc, ◌+◌, ◌-◌, ◌^◌, ◌≤◌, ◌<◌, ◌≡◌, refl, ap, ap₂, ◌∙◌, sym, List, [], ◌∷◌, ◌++◌, map,
  true, false, some, length, take, drop, replicate, All, arith, length-append, length-replicate,
  length-drop, append_assoc, append-nil, ltb, leb, ◌==◌,
}
use penn_daq.Stream.Bytes.{nil_of, take-append, drop-append, read_bytes, copy_bytes}
use penn_daq.Mtc.Link.{MtcReceiver, num_this_packet, stop, again, copied, mtc_round, mtc_loop}

-- A packet whose first four bytes are its length, which the buffer holds.
pub record IsFramed (size : ℕ) (p : List ℕ) : Type 0 where
  pub framed : num_this_packet p ≡ length p
  pub header : 4 ≤ length p
  pub holds : length p ≤ size

-- The packet as it stands in the buffer, with zeros behind it.
abbrev pub padded : ℕ → List ℕ → List ℕ
padded size p = p ++ drop (length p) (replicate size 0)

abbrev pub joined : List (List ℕ) → List ℕ
joined [] = []
joined (p ∷ ps) = p ++ joined ps

pub num_this_packet-append :
    (p rest : List ℕ) → 4 ≤ length p → num_this_packet (p ++ rest) ≡ num_this_packet p
num_this_packet-append (a ∷ b ∷ c ∷ d ∷ p) rest h = refl
num_this_packet-append [] rest h = absurd (omega arith)
num_this_packet-append (a ∷ []) rest h = absurd (omega arith)
num_this_packet-append (a ∷ b ∷ []) rest h = absurd (omega arith)
num_this_packet-append (a ∷ b ∷ c ∷ []) rest h = absurd (omega arith)

copy-start :
    (dst src : List ℕ)
    → length src ≤ length dst
    → copy_bytes dst 0 src ≡ some (src ++ drop (length src) dst)
copy-start dst src h = ground arith

copy-at :
    (dst : List ℕ) (off : ℕ) (src : List ℕ)
    → off + length src ≤ length dst
    → copy_bytes dst off src ≡ some (take off dst ++ (src ++ drop (off + length src) dst))
copy-at dst off src h = ground arith

read-front : (xs ys : List ℕ) → read_bytes (xs ++ ys) (length xs) ≡ some xs
read-front xs ys =
    let fits : length xs ≤ length (xs ++ ys) = omega (arith, length-append xs ys) in
    let t : take (length xs) (xs ++ ys) ≡ xs = take-append xs ys in ground arith

drop-nil : (n : ℕ) → drop n (nil_of ℕ) ≡ []
drop-nil zero = refl
drop-nil (suc n) = refl

drop-drop : (k n : ℕ) (zs : List ℕ) → drop n (drop k zs) ≡ drop (k + n) zs
drop-drop zero n zs = ap (λ m. drop m zs) {x = n} {y = 0 + n} (omega arith)
drop-drop (suc k) n [] = drop-nil n ∙ sym (drop-nil (suc k + n))
drop-drop (suc k) n (z ∷ zs) =
    drop-drop k n zs ∙ ap (λ m. drop m (z ∷ zs)) {x = suc (k + n)} {y = suc k + n} (omega arith)

drop-past : (xs zs : List ℕ) (k n : ℕ) → k ≡ length xs → drop (k + n) (xs ++ zs) ≡ drop n zs
drop-past [] zs zero n e = ap (λ m. drop m zs) {x = 0 + n} {y = n} (omega arith)
drop-past [] zs (suc k) n e = absurd (omega arith)
drop-past (x ∷ xs) zs zero n e = absurd (omega arith)
drop-past (x ∷ xs) zs (suc k) n e =
    ap (λ m. drop m (x ∷ (xs ++ zs))) {x = suc k + n} {y = suc (k + n)} (omega arith)
    ∙ drop-past xs zs k n (omega arith)

module _ (size : ℕ) (small : size < 2 ^ 31) where
  -- Between packets.
  abbrev pub idle : List (List ℕ) → MtcReceiver
  idle queue = record {
    recv_queue = queue;
    bytes_left = 0;
    temp_bytes = 0;
    temp_packet = replicate size 0;
  }

  copied-front :
      (temp : List ℕ) (off : ℕ) (xs ys : List ℕ)
      → copied size temp off (length xs) (xs ++ ys) ≡ copy_bytes temp off xs
  copied-front temp off xs ys = rw (copied, read-front xs ys) refl

  one_packet :
      (p rest : List ℕ) (n : ℕ) (queue : List (List ℕ))
      → IsFramed size p
      → mtc_round size (p ++ rest) (length p + n) (idle queue)
        ≡ again rest n (idle (queue ++ padded size p ∷ []))
  unfolding mtc_round
  one_packet p rest n queue f =
      let len : num_this_packet (p ++ rest) ≡ length p =
        num_this_packet-append p rest f.header ∙ f.framed in
      let positive : leb (2 ^ 31) (length p) ≡ false = ground (arith, f.holds) in
      let complete : ltb (length p + n) (length p) ≡ false = ground arith in
      let left : length p + n - length p ≡ n = omega arith in
      let fits : length p ≤ length (replicate size 0) =
        omega (arith, f.holds, length-replicate {A = ℕ} size 0) in
      let front : copied size (replicate size 0) 0 (length p) (p ++ rest) ≡ some (padded size p) =
        copied-front (replicate size 0) 0 p rest ∙ copy-start (replicate size 0) p fits in
      rw (len, positive, complete, front, drop-append p rest, left) refl

  pub part_of_packet :
      (x : List ℕ) (n : ℕ) (tail : List ℕ) (queue : List (List ℕ))
      → 4 ≤ length x
      → num_this_packet x ≡ length x + n
      → 0 < n
      → length x + n ≤ size
      → mtc_round size (x ++ tail) (length x) (idle queue)
        ≡ stop (record (idle queue) {
          temp_packet = x ++ drop (length x) (replicate size 0);
          bytes_left = n;
          temp_bytes = length x;
        })
  unfolding mtc_round
  part_of_packet x n tail queue header len more holds =
      let len' : num_this_packet (x ++ tail) ≡ length x + n =
        num_this_packet-append x tail header ∙ len in
      let positive : leb (2 ^ 31) (length x + n) ≡ false = ground arith in
      let partial : ltb (length x) (length x + n) ≡ true = ground arith in
      let left : length x + n - length x ≡ n = omega arith in
      let fits : length x ≤ length (replicate size 0) =
        omega (arith, length-replicate {A = ℕ} size 0) in
      let front : copied size (replicate size 0) 0 (length x) (x ++ tail) ≡ some (padded size x) =
        copied-front (replicate size 0) 0 x tail ∙ copy-start (replicate size 0) x fits in
      rw (len', positive, partial, front, left) refl

  filled :
      (x y : List ℕ)
      → take (length x) (padded size x) ++ (y ++ drop (length x + length y) (padded size x))
        ≡ padded size (x ++ y)
  filled x y =
      ap₂ (λ t u. t ++ (y ++ u)) (take-append x (drop (length x) (replicate size 0)))
        (drop-past x (drop (length x) (replicate size 0)) (length x) (length y) refl
          ∙ drop-drop (length x) (length y) (replicate size 0))
      ∙ sym (append_assoc x y (drop (length x + length y) (replicate size 0)))
      ∙ ap (λ k. (x ++ y) ++ drop k (replicate size 0)) (sym (length-append x y))

  pub last_of_packet :
      (x y rest : List ℕ) (n : ℕ) (queue : List (List ℕ))
      → 0 < length x
      → length x + length y ≤ size
      → mtc_round size (y ++ rest) (length y + n) (record (idle queue) {
        temp_packet = padded size x;
        bytes_left = length y;
        temp_bytes = length x;
      })
        ≡ again rest n (idle (queue ++ padded size (x ++ y) ∷ []))
  unfolding mtc_round
  last_of_packet x y rest n queue some_bytes holds =
      let begun : (length x == 0) ≡ false = ground arith in
      let complete : ltb (length y + n) (length y) ≡ false = ground arith in
      let left : length y + n - length y ≡ n = omega arith in
      let fits : length x + length y ≤ length (padded size x) = omega (
        arith,
        length-append x (drop (length x) (replicate size 0)),
        length-drop (length x) (replicate {A = ℕ} size 0),
        length-replicate {A = ℕ} size 0,
      ) in
      let whole : copied size (padded size x) (length x) (length y) (y ++ rest)
          ≡ some (padded size (x ++ y)) =
        copied-front (padded size x) (length x) y rest
        ∙ copy-at (padded size x) (length x) y fits
        ∙ ap some (filled x y) in
      rw (begun, complete, whole, drop-append y rest, left) refl

  pub steps :
      (fuel total : ℕ) (input input' : List ℕ) (total' : ℕ) (r r' : MtcReceiver)
      → 0 < total
      → mtc_round size input total r ≡ again input' total' r'
      → mtc_loop size (suc fuel) input total r ≡ mtc_loop size fuel input' total' r'
  unfolding mtc_loop
  steps fuel total input input' total' r r' pos e =
      let left : (total == 0) ≡ false = ground arith in rw (mtc_loop, left, e) refl

  -- Whole packets: each takes a round.
  pub mtc_loop-packets :
      (packets : List (List ℕ)) (rest : List ℕ) (n fuel : ℕ) (queue : List (List ℕ))
      → All (IsFramed size) packets
      → mtc_loop size
          (length packets + fuel)
          (joined packets ++ rest)
          (length (joined packets) + n)
          (idle queue)
        ≡ mtc_loop size fuel rest n (idle (queue ++ map (padded size) packets))
  unfolding mtc_loop
  mtc_loop-packets [] rest n fuel queue f =
      ap₂ (λ k m. mtc_loop size k rest m (idle queue)) none_more none_read
      ∙ ap (λ q. mtc_loop size fuel rest n (idle q)) (sym (append-nil queue))
    where
      none_more : 0 + fuel ≡ fuel
      none_more = omega arith

      none_read : 0 + n ≡ n
      none_read = omega arith
  mtc_loop-packets (p ∷ packets) rest n fuel queue f =
      ap₂ (λ k m. mtc_loop size k ((p ++ joined packets) ++ rest) m (idle queue)) more total
      ∙ ap
          (λ i.
            mtc_loop size (suc (length packets + fuel)) i (length p + (length (joined packets) + n))
              (idle queue))
          (append_assoc p (joined packets) rest)
      ∙ steps (length packets + fuel) (length p + (length (joined packets) + n)) _ _ _ _ _
          (omega (arith, f.0.header)) (one_packet p (joined packets ++ rest) _ queue f.0)
      ∙ mtc_loop-packets packets rest n fuel (queue ++ padded size p ∷ []) f.1
      ∙ ap (λ q. mtc_loop size fuel rest n (idle q))
          (append_assoc queue (padded size p ∷ []) (map (padded size) packets))
    where
      more : suc (length packets) + fuel ≡ suc (length packets + fuel)
      more = omega arith

      total : length (p ++ joined packets) + n ≡ length p + (length (joined packets) + n)
      total = omega (arith, length-append p (joined packets))
