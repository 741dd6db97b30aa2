-- ===== src/Mtc/Load.antt =====
-- What the DACs hold after they have been loaded.
use penn_daq.Prelude.{
  ℕ, zero, suc, ◌+◌, ◌*◌, ◌/◌, ◌%◌, ◌^◌, ◌<◌, ◌≡◌, refl, ap, ◌∙◌, arith, max, List, [], ◌∷◌, ◌&&◌,
  Option, some, ◌==◌, if◌then◌else◌, length, get_elem?, bit, bit_or, bit-bit_or, bit-pow_ne,
  mod-double_high, shift-bit, returned,
}
use native.Mathlib.Nat.{one-le-pow, pow-succ'}
use penn_daq.Mtc.Packet.{Sent, mtc_write_id, write_packet}
use penn_daq.Mtc.File.{bus, word_or, held, IsRegisterFile, reg_write-eq}
use penn_daq.Mtc.Dacs.{
  dac_cnt_reg, dacsel, dacclk, set_lines, shift_dummies, shift_words, load_mtca_dacs_by_counts,
}
use penn_daq.Mtc.Lines.{set_lines-bit, set_lines-above}

-- The DAC behind line `i` of the DAC control register: where the clock, bit 15, goes from 0 to 1, the
-- line is shifted in. Its contents, without the bits that fall out at the top.
abbrev pub dac_shifted : (ℕ → ℕ) → ℕ → ℕ → Sent → ℕ
dac_shifted initial i acc [] = acc
dac_shifted initial i acc (p ∷ sent) =
    let rest = dac_shifted initial i acc sent in
    if p.cmd_id == mtc_write_id
      && p.address == bus dac_cnt_reg
      && bit (word_or p.word 0) 15 == 1
      && bit (held initial sent (bus dac_cnt_reg)) 15 == 0
    then rest * 2 + bit (word_or p.word 0) i
    else rest

module _ (answer : Sent → Option ℕ) (initial : ℕ → ℕ) (file : IsRegisterFile answer initial) where
  abbrev clocked : ℕ → Sent → Sent
  clocked word s =
      write_packet dac_cnt_reg word
      ∷ write_packet dac_cnt_reg (bit_or word dacclk)
      ∷ write_packet dac_cnt_reg word
      ∷ s

  clocked-shifted :
      (i acc word : ℕ) (s : Sent)
      → i < 14
      → bit word 15 ≡ 0
      → dac_shifted initial i acc (clocked word s) ≡ dac_shifted initial i acc s * 2 + bit word i
  clocked-shifted i acc word s lt low =
      let high : bit (bit_or word dacclk) 15 ≡ 1 =
        bit-bit_or word dacclk 15 ∙ ap (λ t. max t 1) low in
      let same : bit (bit_or word dacclk) i ≡ bit word i =
        bit-bit_or word dacclk i ∙ omega (arith, bit-pow_ne 15 i (λ e. omega arith)) in
      rw (low, high, same) refl

  shift_words-shifted :
      (i acc raw : ℕ) (raws : List ℕ)
      → length raws ≡ 14
      → i < 14
      → get_elem? raws i ≡ some raw
      → (n v : ℕ) (s : Sent) → bit v 15 ≡ 0
      → ((shift_words answer raws n v s).0 ≡ returned tt)
        × (dac_shifted initial i acc (shift_words answer raws n v s).1
            ≡ dac_shifted initial i acc s * 2 ^ n + raw % 2 ^ n)
  unfolding shift_words
  shift_words-shifted i acc raw raws len lt at zero v s low = (refl, omega arith)
  shift_words-shifted i acc raw raws len lt at (suc j) v s low =
      let lines : ℕ = set_lines j raws 0 v in
      let w : ℕ = bit_or lines dacsel in
      let clear : bit lines 15 ≡ 0 =
        set_lines-above j raws 0 v 15 (omega arith) (omega arith) ∙ low in
      let later = shift_words-shifted i acc raw raws len lt at j lines (clocked w s) clear in
      rw
        (
          reg_write-eq answer initial file dac_cnt_reg w s,
          reg_write-eq answer initial file dac_cnt_reg (bit_or w dacclk)
              (write_packet dac_cnt_reg w ∷ s),
          reg_write-eq answer initial file dac_cnt_reg w
              (write_packet dac_cnt_reg (bit_or w dacclk) ∷ write_packet dac_cnt_reg w ∷ s),
        )
        (
          later.0,
          later.1
              ∙ ap (λ t. t * 2 ^ j + raw % 2 ^ j) (here clear)
              ∙ together (dac_shifted initial i acc s),
        )
    where
      here :
          bit (set_lines j raws 0 v) 15 ≡ 0
          → dac_shifted initial i acc (clocked (bit_or (set_lines j raws 0 v) dacsel) s)
            ≡ dac_shifted initial i acc s * 2 + raw / 2 ^ j % 2
      here clear =
          clocked-shifted i acc (bit_or (set_lines j raws 0 v) dacsel) s lt
            (bit-bit_or (set_lines j raws 0 v) dacsel 15 ∙ ap (λ t. max t 0) clear)
          ∙ ap (λ t. dac_shifted initial i acc s * 2 + t)
              (bit-bit_or (set_lines j raws 0 v) dacsel i
                ∙ omega (
                  arith,
                  bit-pow_ne 14 i (λ e. omega arith),
                  ap (λ t. bit (set_lines j raws 0 v) t) {x = 0 + i} {y = i} (omega arith),
                  set_lines-bit j raws 0 v i raw (omega arith) at,
                  shift-bit raw j,
                ))

      together :
          (a : ℕ)
          → (a * 2 + raw / 2 ^ j % 2) * 2 ^ j + raw % 2 ^ j ≡ a * 2 ^ suc j + raw % 2 ^ suc j
      together a = omega (
        arith,
        mod-double_high (2 ^ j) raw (one-le-pow j 2 (omega arith)),
        ap (λ (t : ℕ). raw % t) (pow-succ' 2 j),
        ap (λ (t : ℕ). a * t) (pow-succ' 2 j),
      )

  shift_dummies-shifted :
      (i acc : ℕ)
      → i < 14
      → (n : ℕ) (s : Sent) → bit (held initial s (bus dac_cnt_reg)) 15 ≡ 0
      → ((shift_dummies answer n s).0 ≡ returned tt)
        × (dac_shifted initial i acc (shift_dummies answer n s).1
            ≡ dac_shifted initial i acc s * 2 ^ n)
  unfolding shift_dummies
  shift_dummies-shifted i acc lt zero s low = (refl, omega arith)
  shift_dummies-shifted i acc lt (suc n) s low =
      let t : Sent =
        write_packet dac_cnt_reg dacsel ∷ write_packet dac_cnt_reg (bit_or dacsel dacclk) ∷ s in
      let later = shift_dummies-shifted i acc lt n t refl in
      rw
        (
          reg_write-eq answer initial file dac_cnt_reg (bit_or dacsel dacclk) s,
          reg_write-eq answer initial file dac_cnt_reg dacsel
              (write_packet dac_cnt_reg (bit_or dacsel dacclk) ∷ s),
        )
        (later.0, later.1 ∙ ap (λ t. t * 2 ^ n) here ∙ together (dac_shifted initial i acc s))
    where
      silent : bit (bit_or dacsel dacclk) i ≡ 0
      silent =
          bit-bit_or dacsel dacclk i
          ∙ omega (arith, bit-pow_ne 14 i (λ e. omega arith), bit-pow_ne 15 i (λ e. omega arith))

      here :
          dac_shifted initial i acc
            (write_packet dac_cnt_reg dacsel ∷ write_packet dac_cnt_reg (bit_or dacsel dacclk) ∷ s)
          ≡ dac_shifted initial i acc s * 2
      here = rw (low, silent) (omega arith)

      together : (a : ℕ) → a * 2 * 2 ^ n ≡ a * 2 ^ suc n
      together a = omega (arith, ap (λ (t : ℕ). a * t) (pow-succ' 2 n))

  -- `LoadMTCADacsByCounts` of fourteen counts, on a board that reads back what is written: it returns
  -- 0, and the 16 bits that each DAC has taken from its line are four zeros and the 12 bits of its
  -- count.
  pub load_mtca_dacs_by_counts-shifted :
      (raw_dacs : List ℕ) (i raw acc : ℕ) (s : Sent)
      → length raw_dacs ≡ 14
      → get_elem? raw_dacs i ≡ some raw
      → i < 14
      → ((load_mtca_dacs_by_counts answer raw_dacs s).0 ≡ returned 0)
        × (dac_shifted initial i acc (load_mtca_dacs_by_counts answer raw_dacs s).1 % 2 ^ 16
            ≡ raw % 2 ^ 12)
  unfolding load_mtca_dacs_by_counts
  load_mtca_dacs_by_counts-shifted raws i raw acc s len at lt =
      let s1 : Sent = write_packet dac_cnt_reg dacsel ∷ s in
      let dummies = shift_dummies-shifted i acc lt 4 s1 refl in
      let s2 : Sent = (shift_dummies answer 4 s1).1 in
      let words = shift_words-shifted i acc raw raws len lt at 12 0 s2 refl in
      rw
        (
          reg_write-eq answer initial file dac_cnt_reg dacsel s,
          dummies.0,
          words.0,
          reg_write-eq answer initial file dac_cnt_reg 0 (shift_words answer raws 12 0 s2).1,
        )
        (refl, omega (arith, dummies.1, words.1))
