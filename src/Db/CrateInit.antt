-- ===== src/Db/CrateInit.antt =====
-- `CrateInit` of src/xl3/XL3Cmds.cpp: the documents that it asks for and the packets that it sends.
-- What the last packet brings back is swapped in the packet and not used.
use Prim.Native.String.{String}
use penn_daq.Prelude.{
  ℕ, ◌+◌, ◌%◌, ◌^◌, List, [], ◌∷◌, ◌++◌, Bool, true, false, Option, none, some, ◌==◌, ◌||◌, not,
  if◌then◌else◌, get_elem?, get_or, set, replicate, drop,
}
use penn_daq.Swap.{swap_long, swap_long_block}
use penn_daq.Locks.{selected}
use penn_daq.Controller.Commands.{upto}
use penn_daq.Xl3.Packet.{Packet, words_of, put_words, swap_one_long}
use penn_daq.Xl3.Task.{Outcome, Task, returned, thrown, lost, ◌>>=◌, ◌>>◌, pure, lift}
use penn_daq.Xl3.Model.{Xl3Model, FecConfiguration, send_command_with}
use penn_daq.Xl3.Crate.{update_crate_config}
use penn_daq.Xl3.Cmds.{zero_packet}
use penn_daq.Boards.Discriminator.{bytes_of}
use penn_daq.Db.Json.{Json}
use penn_daq.Db.Constants.{Mb, int_of, swap_fec_db}
use penn_daq.Db.Layout.{mb_at, mb_bytes, mb_size}
use penn_daq.Db.Overrides.{
  Step, got, Query, Uses, crate_init_doc, fec_by_generated, ctc_doc, fec_settings, trigger_settings,
}

abbrev pub crate_init_id : ℕ
crate_init_id = 0x23

abbrev pub reset_crate_id : ℕ
reset_crate_id = 0x34

-- The ends: at the end of the function, at a `return -1`, or by an exception that is printed.
pub data InitEnd : Type 0 where
  done : InitEnd
  returned_early : InitEnd
  interrupted : String → InitEnd

abbrev pub caught_init : Outcome Xl3Model InitEnd → Outcome Xl3Model InitEnd
caught_init (returned e x) = returned e x
caught_init (thrown text x) = returned (interrupted text) x
caught_init lost = lost

abbrev pub settle : {A : Type 0} → Step A → (A → Task Xl3Model InitEnd) → Task Xl3Model InitEnd
settle (got a) next = next a
settle Step.given_up next = pure returned_early
settle Step.fault next = λ x. lost

-- The packet for a card: its number, and its constants behind it.
unfoldable pub slot_payload : Bool → ℕ → Mb → List ℕ → List ℕ
slot_payload need_to_swap slot mb payload = words_of (
    bytes_of (swap_one_long need_to_swap slot ∷ [])
    ++ mb_bytes mb
    ++ drop (4 + mb_size) (bytes_of payload))

-- The constants as they stand in the packet when it is sent.
abbrev pub sent_settings : Bool → Uses → Mb → Mb
sent_settings need_to_swap uses mb = trigger_settings uses (swap_fec_db need_to_swap mb)

module _ (json : Json) (ask : Query → Option json.Node) (need_to_swap : Bool) where
  open json use {Node, find_member, find_element, get_string, hex}

  -- `hw_rows`, from slot `i` on. A slot that is not in the mask is left as it was.
  abbrev pub rows_of : Option Node → Step Node
  rows_of none = Step.given_up
  rows_of (some doc) =
      if int_of json (find_member doc "total_rows") == 0
      then Step.given_up
      else got (find_member doc "rows")

  abbrev pub and_then : {A B : Type 0} → Step A → (A → Step B) → Step B
  and_then (got a) f = f a
  and_then Step.given_up f = Step.given_up
  and_then Step.fault f = Step.fault

  unfoldable pub hw_rows : ℕ → ℕ → List ℕ → Step (List (Option Node))
  hw_rows crate slot_mask [] = got []
  hw_rows crate slot_mask (slot ∷ slots) =
      let rest = hw_rows crate slot_mask slots in
      if selected slot_mask slot
      then and_then (rows_of (ask (fec_by_generated crate slot)))
          (λ rows. and_then rest (λ others. got (some rows ∷ others)))
      else and_then rest (λ others. got (none ∷ others))

  abbrev pub all_rows : ℕ → ℕ → ℕ → Step (List (Option Node))
  all_rows hw crate slot_mask =
      if hw == 1 then hw_rows crate slot_mask (upto 16) else got (replicate 16 none)

  abbrev pub answer : Option Node → Step Node
  answer none = Step.given_up
  answer (some doc) = got doc

  -- The board of a slot as the crate reported it last; none is past the end of `fFECs`.
  abbrev pub settings_in :
      Uses → ℕ → Node → List (Option Node) → Packet → ℕ → Option FecConfiguration → Step Mb
  settings_in uses slot_mask debug_doc rows packet slot none = Step.fault
  settings_in uses slot_mask debug_doc rows packet slot (some fec) =
      fec_settings json ask uses (selected slot_mask slot) fec.mb_id fec.db_id debug_doc
        (get_or rows slot none) (mb_at (drop 4 (bytes_of packet.payload)))

  -- The loop over the slots, all 16 of them whatever the mask, and what is done behind it.
  unfoldable pub send_slots :
      Uses
      → ℕ
      → Node
      → List (Option Node)
      → List ℕ
      → Packet
      → (Packet → Task Xl3Model InitEnd)
      → Task Xl3Model InitEnd
  send_slots uses slot_mask debug_doc rows [] packet next x = next packet x
  send_slots uses slot_mask debug_doc rows (slot ∷ slots) packet next x =
      settle (settings_in uses slot_mask debug_doc rows packet slot (get_elem? x.fecs slot))
        (λ mb. do
          reply ← send_command_with need_to_swap false 2 (record packet {
            packet_type = crate_init_id;
            payload =
                slot_payload need_to_swap slot (sent_settings need_to_swap uses mb) packet.payload;
          })
          send_slots uses slot_mask debug_doc rows slots reply next)
        x

  -- `strtoul` of the delay of the crate; a document without one gives it NULL.
  abbrev pub delay_in : ℕ → Node → Step ℕ
  delay_in crate doc = elim (get_string (find_element (find_member doc "delay") crate)) [
    | none ↦ Step.fault
    | some text ↦ got (hex text % 2 ^ 32)
  ]

  unfoldable pub start_init : ℕ → ℕ → Packet → Task Xl3Model InitEnd
  start_init crate slot_mask packet =
      settle (and_then (answer (ask ctc_doc)) (delay_in crate)) (λ ctc_delay. do
        payload ← lift (
            swap_long_block need_to_swap
              (put_words 0 (666 ∷ slot_mask ∷ ctc_delay ∷ []) packet.payload) 3)
        send_command_with need_to_swap true 30
            (record packet { packet_type = crate_init_id; payload = payload })
        pure done)

  abbrev pub wants_config : Uses → Bool
  wants_config uses = uses.vbal || uses.vthr || uses.tdisc || uses.tcmos || uses.all

  unfoldable pub send_database : ℕ → ℕ → Uses → Packet → Task Xl3Model InitEnd
  send_database crate slot_mask uses stack = settle (all_rows uses.hw crate slot_mask) (λ rows.
      settle (answer (ask crate_init_doc)) (λ debug_doc. do
        (if wants_config uses then update_crate_config need_to_swap stack slot_mask else pure 0)
        send_slots uses slot_mask debug_doc rows (upto 16) zero_packet
            (start_init crate slot_mask)))

  -- `htonl` of the choice of a Xilinx file, and whether the answer has errors.
  abbrev pub reset_crate : ℕ → Task Xl3Model Bool
  reset_crate xilinx_load = do
    reply ← send_command_with need_to_swap true 30 (record zero_packet {
      packet_type = reset_crate_id;
      payload = set zero_packet.payload 0 (swap_long xilinx_load);
    })
    pure (not (get_or reply.payload 0 0 == 0))

  -- An exception of the reset is not caught. `stack` is what the packets of the methods hold at first.
  unfoldable pub crate_init : ℕ → ℕ → ℕ → Uses → Packet → Task Xl3Model InitEnd
  crate_init crate slot_mask xilinx_load uses stack = do
    failed ← (if xilinx_load == 0 then pure false else reset_crate xilinx_load)
    (if failed then pure returned_early else λ x.
        caught_init (send_database crate slot_mask uses stack x))
