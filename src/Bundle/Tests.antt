-- ===== src/Bundle/Tests.antt =====
-- Bundles of concrete words.
use penn_daq.Prelude.{◌≡◌, arith}
use penn_daq.Bundle.{Words}
use penn_daq.Bundle.Layout.{Fields, layout, unpack, unpack-layout, layout-unpack, InRange}

abbrev some_words : Words
some_words = record { word0 = 0xC7351234; word1 = 0x98765432; word2 = 0xFEDCBA98 }

abbrev some_fields : Fields
some_fields = record {
  gt = 0xABCDEF;
  channel = 31;
  crate = 19;
  board = 15;
  es16 = 1;
  es24 = 0;
  cell = 7;
  low_gain = 4095;
  short_charge = 2048;
  long_charge = 0;
  time = 1234;
  missed = 1;
  not_clock = 0;
  lgi = 1;
  cmos16 = 0;
}

some_fields-InRange : InRange some_fields
some_fields-InRange = record {
  gt = omega arith;
  channel = omega arith;
  crate = omega arith;
  board = omega arith;
  es16 = omega arith;
  es24 = omega arith;
  cell = omega arith;
  low_gain = omega arith;
  short_charge = omega arith;
  long_charge = omega arith;
  time = omega arith;
  missed = omega arith;
  not_clock = omega arith;
  lgi = omega arith;
  cmos16 = omega arith;
}

unpack-layout_example : unpack (layout some_fields) ≡ some_fields
unpack-layout_example = unpack-layout some_fields some_fields-InRange

layout-unpack_example : layout (unpack some_words) ≡ some_words
layout-unpack_example = layout-unpack some_words (omega arith)
