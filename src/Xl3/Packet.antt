-- ===== src/Xl3/Packet.antt =====
-- The packets of src/net/XL3PacketTypes.h. A payload is the list of its 32-bit words as a
-- little-endian host reads them; a structure laid over it is the words at its fields' places.
use penn_daq.Prelude.{
  ℕ, suc, ◌+◌, ◌*◌, ◌/◌, ◌%◌, ◌^◌, List, [], ◌∷◌, Bool, true, false, Option, none, some, drop,
  get_or, set,
}
use penn_daq.Swap.{swap_long, swap_short}

-- `XL3Packet`, its header's fields first.
pub record Packet : Type 0 where
  pub packet_num : ℕ
  pub packet_type : ℕ
  pub num_bundles : ℕ
  pub payload : List ℕ

abbrev pub xl3_packet_size : ℕ
xl3_packet_size = 1444

-- The 32-bit words at an address; bytes that do not fill one are dropped.
unfoldable pub words_of : List ℕ → List ℕ
words_of (a ∷ b ∷ c ∷ d ∷ bytes) = (a + 2 ^ 8 * b + 2 ^ 16 * c + 2 ^ 24 * d) ∷ words_of bytes
words_of bytes = []

-- The bytes of a packet read through `XL3Packet *`.
unfoldable pub packet_of : List ℕ → Packet
packet_of bytes = record {
  packet_num = get_or bytes 0 0 + 2 ^ 8 * get_or bytes 1 0;
  packet_type = get_or bytes 2 0;
  num_bundles = get_or bytes 3 0;
  payload = words_of (drop 4 bytes);
}

-- `SwapLongBlock(p, 1)` and `SwapShortBlock(p, 1)` on the value at `p`.
unfoldable pub swap_one_long : Bool → ℕ → ℕ
swap_one_long true x = swap_long x
swap_one_long false x = x

unfoldable pub swap_one_short : Bool → ℕ → ℕ
swap_one_short true x = swap_short x
swap_one_short false x = x

-- The two `uint16_t` in a word.
abbrev pub low_short : ℕ → ℕ
low_short w = w % 2 ^ 16

abbrev pub high_short : ℕ → ℕ
high_short w = w / 2 ^ 16 % 2 ^ 16

abbrev pub word_of_shorts : ℕ → ℕ → ℕ
word_of_shorts low high = low % 2 ^ 16 + 2 ^ 16 * (high % 2 ^ 16)

abbrev pub shorts_of : List ℕ → List ℕ
shorts_of [] = []
shorts_of (w ∷ words) = low_short w ∷ high_short w ∷ shorts_of words

-- Consecutive words stored from place `i` on.
abbrev pub put_words : ℕ → List ℕ → List ℕ → List ℕ
put_words i [] words = words
put_words i (v ∷ values) words = put_words (suc i) values (set words i v)

-- `Command`.
pub record Command : Type 0 where
  pub cmd_num : ℕ
  pub packet_num : ℕ
  pub flags : ℕ
  pub address : ℕ
  pub data_word : ℕ

-- The `Command` at the start of some words; none past the end.
abbrev pub command_at : List ℕ → Option Command
command_at (a ∷ b ∷ c ∷ d ∷ words) = some (record {
  cmd_num = a;
  packet_num = low_short b;
  flags = high_short b;
  address = c;
  data_word = d;
})
command_at words = none
