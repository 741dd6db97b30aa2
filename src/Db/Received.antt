-- ===== src/Db/Received.antt =====
-- What the board of a crate reads in the packet that `CrateInit` sends for a card.
use penn_daq.Prelude.{
  ℕ, zero, suc, ◌+◌, ◌*◌, ◌/◌, ◌%◌, ◌^◌, ◌<◌, ◌≡◌, refl, ap, ap₂, ◌∙◌, List, [], ◌∷◌, ◌++◌, map,
  All, arith, length, drop, get_or, replicate, Bool, true, length-append, length-drop, length-map,
  if◌then◌else◌, ◌==◌, Bool-cases, inl, inr,
}
use penn_daq.Swap.{swap_short, swap_long}
use penn_daq.Swap.Laws.{swap_short-lt, swap_long-lt, swap_short-swap_short, swap_long-swap_long}
use penn_daq.Xl3.Packet.{words_of, swap_one_short, swap_one_long}
use penn_daq.Boards.Discriminator.{bytes_of}
use penn_daq.Db.Constants.{Mb, swap_fec_db}
use penn_daq.Db.Layout.{mb_at, mb_bytes, mb_size, mb_sizes, mb_fields, flat}
use penn_daq.Db.Packed.{IsByte, AreBytes, AllFit, HasShape, mb_fields-AllFit, mb_at-mb_bytes}
use penn_daq.Db.Overrides.{Uses, unless_zero, trigger_settings}
use penn_daq.Db.CrateInit.{slot_payload, sent_settings}

All-append {ℓ κ} :
    {A : Type ℓ} (P : A → Type κ) (xs ys : List A) → All P xs → All P ys → All P (xs ++ ys)
All-append P [] ys h k = k
All-append P (x ∷ xs) ys h k = (h.0, All-append P xs ys h.1 k)

All-drop {ℓ κ} : {A : Type ℓ} (P : A → Type κ) (n : ℕ) (xs : List A) → All P xs → All P (drop n xs)
All-drop P zero xs h = h
All-drop P (suc n) [] h = h
All-drop P (suc n) (x ∷ xs) h = All-drop P n xs h.1

bytes_of-All : (words : List ℕ) → All IsByte (bytes_of words)
bytes_of-All [] = tt
bytes_of-All (w ∷ words) =
    (omega arith, (omega arith, (omega arith, (omega arith, bytes_of-All words))))

length-bytes_of : (words : List ℕ) → length (bytes_of words) ≡ 4 * length words
length-bytes_of [] = refl
length-bytes_of (w ∷ words) = omega (arith, length-bytes_of words)

-- Bytes that fill words, stored as words, are the bytes again.
bytes_of-words_of :
    (k : ℕ) (bytes : List ℕ)
    → length bytes ≡ 4 * k
    → All IsByte bytes
    → bytes_of (words_of bytes) ≡ bytes
unfolding words_of
bytes_of-words_of zero [] h all = refl
bytes_of-words_of zero (a ∷ bytes) h all = absurd (omega (arith, h))
bytes_of-words_of (suc k) [] h all = absurd (omega (arith, h))
bytes_of-words_of (suc k) (a ∷ []) h all = absurd (omega (arith, h))
bytes_of-words_of (suc k) (a ∷ b ∷ []) h all = absurd (omega (arith, h))
bytes_of-words_of (suc k) (a ∷ b ∷ c ∷ []) h all = absurd (omega (arith, h))
bytes_of-words_of (suc k) (a ∷ b ∷ c ∷ d ∷ bytes) h (pa, (pb, (pc, (pd, rest)))) =
    let w = a + 2 ^ 8 * b + 2 ^ 16 * c + 2 ^ 24 * d in
    let ea : w % 2 ^ 8 ≡ a = omega arith in
    let eb : w / 2 ^ 8 % 2 ^ 8 ≡ b = omega arith in
    let ec : w / 2 ^ 16 % 2 ^ 8 ≡ c = omega arith in
    let ed : w / 2 ^ 24 % 2 ^ 8 ≡ d = omega arith in
    let tail = bytes_of-words_of k bytes (omega (arith, h)) rest in
    λ i. ea i ∷ eb i ∷ ec i ∷ ed i ∷ tail i

total : List ℕ → ℕ
total [] = 0
total (n ∷ ns) = n + total ns

flat-AreBytes :
    (sizes : List ℕ) (fields : List (List ℕ))
    → AllFit sizes fields
    → AreBytes (total sizes) (flat fields)
unfolding total
flat-AreBytes [] [] h = (refl, tt)
flat-AreBytes [] (xs ∷ xss) h = absurd h
flat-AreBytes (n ∷ ns) [] h = absurd h
flat-AreBytes (n ∷ ns) (xs ∷ xss) (here, there) =
    let tail = flat-AreBytes ns xss there in
    (
      omega (arith, length-append xs (flat xss), tail.0, here.0),
      All-append IsByte xs (flat xss) here.1 tail.1,
    )

mb_bytes-AreBytes : (mb : Mb) → HasShape mb → AreBytes mb_size (mb_bytes mb)
unfolding mb_bytes total
mb_bytes-AreBytes mb s = flat-AreBytes mb_sizes (mb_fields mb) (mb_fields-AllFit mb s)

-- The packet's bytes: the slot, the constants, and what was behind them.
slot_payload-bytes :
    (swap : Bool) (slot : ℕ) (mb : Mb) (payload : List ℕ)
    → HasShape mb
    → length payload ≡ 360
    → bytes_of (slot_payload swap slot mb payload)
      ≡ bytes_of (swap_one_long swap slot ∷ [])
        ++ mb_bytes mb
        ++ drop (4 + mb_size) (bytes_of payload)
unfolding slot_payload mb_bytes
slot_payload-bytes swap slot mb payload s full =
    let behind = drop (4 + mb_size) (bytes_of payload) in
    bytes_of-words_of 360 (bytes_of (swap_one_long swap slot ∷ []) ++ mb_bytes mb ++ behind)
      (omega (
        arith,
        length-append (mb_bytes mb) behind,
        (mb_bytes-AreBytes mb s).0,
        length-drop (4 + mb_size) (bytes_of payload),
        length-bytes_of payload,
        full,
      ))
      (All-append IsByte (bytes_of (swap_one_long swap slot ∷ [])) (mb_bytes mb ++ behind)
        (bytes_of-All (swap_one_long swap slot ∷ []))
        (All-append IsByte (mb_bytes mb) behind (mb_bytes-AreBytes mb s).1
          (All-drop IsByte (4 + mb_size) (bytes_of payload) (bytes_of-All payload))))

map-swap_short : (xs : List ℕ) → All (λ x. x < 2 ^ 16) (map swap_short xs)
map-swap_short [] = tt
map-swap_short (x ∷ xs) = (swap_short-lt x, map-swap_short xs)

map-swap_short-twice :
    (xs : List ℕ) → All (λ x. x < 2 ^ 16) xs → map swap_short (map swap_short xs) ≡ xs
map-swap_short-twice [] h = refl
map-swap_short-twice (x ∷ xs) h =
    ap₂ (◌∷◌) (swap_short-swap_short x h.0) (map-swap_short-twice xs h.1)

-- A swap on both sides of the wire does nothing.
swap_fec_db-trigger_settings :
    (uses : Uses) (mb : Mb)
    → HasShape mb
    → swap_fec_db true (sent_settings true uses mb) ≡ trigger_settings uses mb
unfolding swap_fec_db trigger_settings swap_one_short swap_one_long
swap_fec_db-trigger_settings uses mb s = λ i. record (trigger_settings uses mb) {
  mb_id = swap_short-swap_short mb.mb_id s.mb_id i;
  db_id = map-swap_short-twice mb.db_id s.db_id.1 i;
  s_cmos = map-swap_short-twice mb.s_cmos s.s_cmos.1 i;
  disable_mask = swap_long-swap_long mb.disable_mask s.disable_mask i;
}

pub replicate-AreBytes : (n b : ℕ) → IsByte b → AreBytes n (replicate n b)
replicate-AreBytes zero b h = (refl, tt)
replicate-AreBytes (suc n) b h = let rest = replicate-AreBytes n b h in (ap suc rest.0, (h, rest.1))

unless_zero-AreBytes : (v : ℕ) (old : List ℕ) → AreBytes 32 old → AreBytes 32 (unless_zero v old)
unless_zero-AreBytes v old h = elim (Bool-cases (v == 0)) [
  | inl e ↦ rw e h
  | inr e ↦ rw e (replicate-AreBytes 32 (v % 2 ^ 8) (omega arith))
]

sent_settings-HasShape :
    (uses : Uses) (mb : Mb) → HasShape mb → HasShape (sent_settings true uses mb)
unfolding swap_fec_db trigger_settings swap_one_short swap_one_long
sent_settings-HasShape uses mb s = record {
  v_bal_high = s.v_bal_high;
  v_bal_low = s.v_bal_low;
  v_thr = s.v_thr;
  rmp = s.rmp;
  rmpup = s.rmpup;
  vsi = s.vsi;
  vli = s.vli;
  isetm = s.isetm;
  iseta = s.iseta;
  tac_shift = s.tac_shift;
  v_max = s.v_max;
  tac_ref = s.tac_ref;
  v_int = s.v_int;
  hv_ref = s.hv_ref;
  mb_id = swap_short-lt mb.mb_id;
  db_id = (length-map mb.db_id swap_short ∙ s.db_id.0, map-swap_short mb.db_id);
  s_cmos = (length-map mb.s_cmos swap_short ∙ s.s_cmos.0, map-swap_short mb.s_cmos);
  disable_mask = swap_long-lt mb.disable_mask;
  tr100_mask = on;
  tr100_t_delay = unless_zero-AreBytes uses.tr100_delay mb.tr100.t_delay s.tr100_t_delay;
  tr20_mask = on;
  tr20_t_width = unless_zero-AreBytes uses.tr20_width mb.tr20.t_width s.tr20_t_width;
  tr20_t_delay = unless_zero-AreBytes uses.tr20_delay mb.tr20.t_delay s.tr20_t_delay;
}
  where
    on : AreBytes 32 (replicate 32 (if uses.enable_triggers then 1 else 0))
    on = replicate-AreBytes 32 (if uses.enable_triggers then 1 else 0) (ground arith)

slot_payload-head :
    (slot : ℕ) (mb : Mb) (payload : List ℕ)
    → slot < 2 ^ 32
    → swap_one_long true (get_or (slot_payload true slot mb payload) 0 0) ≡ slot
unfolding slot_payload words_of swap_one_long
slot_payload-head slot mb payload small =
    let w = swap_long slot in
    let whole : w % 2 ^ 8
          + 2 ^ 8 * (w / 2 ^ 8 % 2 ^ 8)
          + 2 ^ 16 * (w / 2 ^ 16 % 2 ^ 8)
          + 2 ^ 24 * (w / 2 ^ 24 % 2 ^ 8)
        ≡ w =
      omega (arith, swap_long-lt slot) in
    ap swap_long whole ∙ swap_long-swap_long slot small

abbrev pub for_board : ℕ → Uses → Mb → List ℕ → List ℕ
for_board slot uses mb payload = slot_payload true slot (sent_settings true uses mb) payload

-- The packet for a card with the number `slot` and some constants, on a host of the other byte order:
-- the board reads that number in the first word, and behind it the constants with the trigger settings
-- of the call, whatever the packet held before.
pub slot_payload-received :
    (slot : ℕ) (uses : Uses) (mb : Mb) (payload : List ℕ)
    → slot < 2 ^ 32
    → HasShape mb
    → length payload ≡ 360
    → (swap_one_long true (get_or (for_board slot uses mb payload) 0 0) ≡ slot)
      × (swap_fec_db true (mb_at (drop 4 (bytes_of (for_board slot uses mb payload))))
          ≡ trigger_settings uses mb)
slot_payload-received slot uses mb payload small s full = (
  slot_payload-head slot (sent_settings true uses mb) payload small,
  ap (λ bytes. swap_fec_db true (mb_at (drop 4 bytes)))
        (slot_payload-bytes true slot (sent_settings true uses mb) payload
          (sent_settings-HasShape uses mb s) full)
      ∙ ap (swap_fec_db true) (
          mb_at-mb_bytes (sent_settings true uses mb) (drop (4 + mb_size) (bytes_of payload))
            (sent_settings-HasShape uses mb s))
      ∙ swap_fec_db-trigger_settings uses mb s,
)
