-- ===== src/Stream/Reader.antt =====
-- The `while (1)` of `RecvCallback` that drains the bufferevent:
--   n = bufferevent_read(bev, input+strlen(input), sizeof(input));
use penn_daq.Prelude.{ℕ, ◌+◌, List, [], ◌∷◌, Option, none, some, length, replicate}
use penn_daq.Stream.Bytes.{copy_bytes, strlen}

pub record Input : Type 0 where
  pub buffer : List ℕ
  pub total : ℕ

abbrev pub fresh_input : ℕ → Input
fresh_input capacity = record { buffer = replicate capacity 0; total = 0 }

-- The reads that return bytes, in order; the one after them returns 0 and ends the loop.
-- A read that would write past the buffer gives none.
unfoldable pub read_loop : List (List ℕ) → Input → Option Input
read_loop [] i = some i
read_loop (chunk ∷ chunks) i = elim (copy_bytes i.buffer (strlen i.buffer) chunk) [
  | none ↦ none
  | some buffer ↦ read_loop chunks (record { buffer = buffer; total = i.total + length chunk })
]
