-- ===== src/Bundle/Layout.antt =====
-- The layout of a bundle's fields in its three words, and that the macros invert it.
use penn_daq.Prelude.{ℕ, ◌+◌, ◌*◌, ◌/◌, ◌%◌, ◌^◌, ◌<◌, ◌≡◌, ap, ◌∙◌, arith, bit_and-low}
use penn_daq.Bundle.{
  Words, missed_count, nc_cc, lgi_select, cmos_es16, cgt_es16, cgt_es24, qlx, qhs, qhl, tac,
  cell_id, channel_id, board_id, crate_id, gt24_id,
}
use penn_daq.Bundle.Laws.{adc_sum, gt24_sum, IsWords}

-- The fields of a bundle, and the ranges that their widths allow.
pub record Fields : Type 0 where
  pub gt : ℕ
  pub channel : ℕ
  pub crate : ℕ
  pub board : ℕ
  pub es16 : ℕ
  pub es24 : ℕ
  pub cell : ℕ
  pub low_gain : ℕ
  pub short_charge : ℕ
  pub long_charge : ℕ
  pub time : ℕ
  pub missed : ℕ
  pub not_clock : ℕ
  pub lgi : ℕ
  pub cmos16 : ℕ

pub record InRange (f : Fields) : Type 0 where
  pub gt : f.gt < 2 ^ 24
  pub channel : f.channel < 32
  pub crate : f.crate < 32
  pub board : f.board < 16
  pub es16 : f.es16 < 2
  pub es24 : f.es24 < 2
  pub cell : f.cell < 16
  pub low_gain : f.low_gain < 4096
  pub short_charge : f.short_charge < 4096
  pub long_charge : f.long_charge < 4096
  pub time : f.time < 4096
  pub missed : f.missed < 2
  pub not_clock : f.not_clock < 2
  pub lgi : f.lgi < 2
  pub cmos16 : f.cmos16 < 2

-- An ADC count as the card sends it: 12 bits, the top one inverted.
abbrev pub offset : ℕ → ℕ
offset n = (n + 2048) % 4096

-- The layout: the low 16 bits of the trigger count stand in the first word, the next four at bit
-- 12 and the last four at bit 28 of the third.
abbrev pub layout : Fields → Words
layout f = record {
  word0 =
      f.gt % 65536
      + f.channel * 2 ^ 16
      + f.crate * 2 ^ 21
      + f.board * 2 ^ 26
      + f.es16 * 2 ^ 30
      + f.es24 * 2 ^ 31;
  word1 =
      offset f.low_gain
      + f.cell * 2 ^ 12
      + offset f.short_charge * 2 ^ 16
      + f.missed * 2 ^ 28
      + f.not_clock * 2 ^ 29
      + f.lgi * 2 ^ 30
      + f.cmos16 * 2 ^ 31;
  word2 =
      offset f.long_charge
      + f.gt / 65536 % 16 * 2 ^ 12
      + offset f.time * 2 ^ 16
      + f.gt / 1048576 * 2 ^ 28;
}

-- What the macros read from the three words of a bundle.
unfoldable pub unpack : Words → Fields
unfolding channel_id crate_id board_id cgt_es16 cgt_es24 cell_id qlx qhs qhl tac missed_count nc_cc
    lgi_select cmos_es16
unpack a = record {
  gt = gt24_id a;
  channel = channel_id a;
  crate = crate_id a;
  board = board_id a;
  es16 = cgt_es16 a;
  es24 = cgt_es24 a;
  cell = cell_id a;
  low_gain = qlx a;
  short_charge = qhs a;
  long_charge = qhl a;
  time = tac a;
  missed = missed_count a;
  not_clock = nc_cc a;
  lgi = lgi_select a;
  cmos16 = cmos_es16 a;
}

-- The same as arithmetic on the words.
abbrev fields_of : Words → Fields
fields_of a = record {
  gt = a.word0 % 65536 + a.word2 / 4096 % 16 * 65536 + a.word2 / 268435456 * 1048576;
  channel = a.word0 / 2 ^ 16 % 32;
  crate = a.word0 / 2 ^ 21 % 32;
  board = a.word0 / 2 ^ 26 % 16;
  es16 = a.word0 / 2 ^ 30 % 2;
  es24 = a.word0 / 2 ^ 31 % 2;
  cell = a.word1 / 2 ^ 12 % 16;
  low_gain = (a.word1 + 2048) % 4096;
  short_charge = (a.word1 / 2 ^ 16 + 2048) % 4096;
  long_charge = (a.word2 + 2048) % 4096;
  time = (a.word2 / 2 ^ 16 + 2048) % 4096;
  missed = a.word1 / 2 ^ 28 % 2;
  not_clock = a.word1 / 2 ^ 29 % 2;
  lgi = a.word1 / 2 ^ 30 % 2;
  cmos16 = a.word1 / 2 ^ 31 % 2;
}

unpack-eq-fields_of : (a : Words) → IsWords a → unpack a ≡ fields_of a
unfolding unpack
unpack-eq-fields_of a h = λ i. record {
  gt = gt24_sum a h.2 i;
  channel = bit_and-low 5 (a.word0 / 2 ^ 16) i;
  crate = bit_and-low 5 (a.word0 / 2 ^ 21) i;
  board = bit_and-low 4 (a.word0 / 2 ^ 26) i;
  es16 = bit_and-low 1 (a.word0 / 2 ^ 30) i;
  es24 = bit_and-low 1 (a.word0 / 2 ^ 31) i;
  cell = bit_and-low 4 (a.word1 / 2 ^ 12) i;
  low_gain = adc_sum a.word1 i;
  short_charge = adc_sum (a.word1 / 2 ^ 16) i;
  long_charge = adc_sum a.word2 i;
  time = adc_sum (a.word2 / 2 ^ 16) i;
  missed = bit_and-low 1 (a.word1 / 2 ^ 28) i;
  not_clock = bit_and-low 1 (a.word1 / 2 ^ 29) i;
  lgi = bit_and-low 1 (a.word1 / 2 ^ 30) i;
  cmos16 = bit_and-low 1 (a.word1 / 2 ^ 31) i;
}

layout-IsWords : (f : Fields) → InRange f → IsWords (layout f)
layout-IsWords f r = omega arith

-- Every bundle that is laid out from fields in range unpacks to those fields.
pub unpack-layout : (f : Fields) → InRange f → unpack (layout f) ≡ f
unpack-layout f r = unpack-eq-fields_of (layout f) (layout-IsWords f r) ∙ same
  where
    same : fields_of (layout f) ≡ f
    same =
        let e_gt : (fields_of (layout f)).gt ≡ f.gt = omega arith in
        let e_channel : (fields_of (layout f)).channel ≡ f.channel = omega arith in
        let e_crate : (fields_of (layout f)).crate ≡ f.crate = omega arith in
        let e_board : (fields_of (layout f)).board ≡ f.board = omega arith in
        let e_es16 : (fields_of (layout f)).es16 ≡ f.es16 = omega arith in
        let e_es24 : (fields_of (layout f)).es24 ≡ f.es24 = omega arith in
        let e_cell : (fields_of (layout f)).cell ≡ f.cell = omega arith in
        let e_low_gain : (fields_of (layout f)).low_gain ≡ f.low_gain = omega arith in
        let e_short_charge : (fields_of (layout f)).short_charge ≡ f.short_charge = omega arith in
        let e_long_charge : (fields_of (layout f)).long_charge ≡ f.long_charge = omega arith in
        let e_time : (fields_of (layout f)).time ≡ f.time = omega arith in
        let e_missed : (fields_of (layout f)).missed ≡ f.missed = omega arith in
        let e_not_clock : (fields_of (layout f)).not_clock ≡ f.not_clock = omega arith in
        let e_lgi : (fields_of (layout f)).lgi ≡ f.lgi = omega arith in
        let e_cmos16 : (fields_of (layout f)).cmos16 ≡ f.cmos16 = omega arith in
        λ i. record {
          gt = e_gt i;
          channel = e_channel i;
          crate = e_crate i;
          board = e_board i;
          es16 = e_es16 i;
          es24 = e_es24 i;
          cell = e_cell i;
          low_gain = e_low_gain i;
          short_charge = e_short_charge i;
          long_charge = e_long_charge i;
          time = e_time i;
          missed = e_missed i;
          not_clock = e_not_clock i;
          lgi = e_lgi i;
          cmos16 = e_cmos16 i;
        }

-- Unpacking loses nothing: the fields of any three words lay out to those words again.
pub layout-unpack : (a : Words) → IsWords a → layout (unpack a) ≡ a
layout-unpack a h = ap layout (unpack-eq-fields_of a h) ∙ same
  where
    same : layout (fields_of a) ≡ a
    same =
        let e0 : (layout (fields_of a)).word0 ≡ a.word0 = omega arith in
        let e1 : (layout (fields_of a)).word1 ≡ a.word1 = omega arith in
        let e2 : (layout (fields_of a)).word2 ≡ a.word2 = omega arith in
        λ i. record { word0 = e0 i; word1 = e1 i; word2 = e2 i }
