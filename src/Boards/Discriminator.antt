-- ===== src/Boards/Discriminator.antt =====
-- src/tests/ZDisc.cpp: the thresholds that zero the discriminators of the slots of a mask. A `float` is
-- its word; it is 0 when no bit but the sign is set.
use penn_daq.Prelude.{
  ℕ, zero, suc, ◌/◌, ◌%◌, ◌^◌, List, [], ◌∷◌, Bool, true, some, not, ◌==◌, ◌&&◌, ◌||◌,
  if◌then◌else◌, take, drop, get_or,
}
use penn_daq.Swap.{swap_long_block}
use penn_daq.Xl3.Packet.{Packet, put_words}
use penn_daq.Xl3.Task.{Outcome, Task, returned, thrown, lost, ◌>>=◌, pure, lift}
use penn_daq.Xl3.Model.{Xl3Model, send_command_with}
use penn_daq.Boards.Registers.{Tested, posted, slots_of}

abbrev pub zdisc_id : ℕ
zdisc_id = 0x64

-- The document `zdisc`: the rates and settings of the 32 channels, and which of them failed.
pub record ZdiscDoc : Type 0 where
  pub slot : ℕ
  pub max_rate : List ℕ
  pub lower_rate : List ℕ
  pub upper_rate : List ℕ
  pub max_dac : List ℕ
  pub lower_dac : List ℕ
  pub upper_dac : List ℕ
  pub zero_dac : List ℕ
  pub target_rate : ℕ
  pub errors : List Bool
  pub pass : Bool

abbrev pub is_zero : ℕ → Bool
is_zero float = float % 2 ^ 31 == 0

-- One channel has an error.
abbrev pub channel_error : ℕ → ℕ → ℕ → ℕ → Bool
channel_error max_rate lower_rate upper_rate zero_dac =
    is_zero max_rate || is_zero lower_rate || is_zero upper_rate || zero_dac == 255

-- The loop over `n` channels: the errors, and `passflag`.
unfoldable pub channel_errors : ℕ → List ℕ → List ℕ → List ℕ → List ℕ → List Bool × Bool
channel_errors zero max_rate lower_rate upper_rate zero_dac = ([], true)
channel_errors (suc n) max_rate lower_rate upper_rate zero_dac =
    let rest =
      channel_errors n (drop 1 max_rate) (drop 1 lower_rate) (drop 1 upper_rate)
        (drop 1 zero_dac) in
    let error =
      channel_error (get_or max_rate 0 0) (get_or lower_rate 0 0) (get_or upper_rate 0 0)
        (get_or zero_dac 0 0) in
    (error ∷ rest.0, not error && rest.1)

-- The four bytes of a word as they stand in memory.
abbrev pub bytes_of : List ℕ → List ℕ
bytes_of [] = []
bytes_of (w ∷ words) =
    w % 2 ^ 8 ∷ w / 2 ^ 8 % 2 ^ 8 ∷ w / 2 ^ 16 % 2 ^ 8 ∷ w / 2 ^ 24 % 2 ^ 8 ∷ bytes_of words

-- `ZDiscResults`: a word of flags, three times 32 rates, and four times 32 bytes, which are not
-- swapped: the maximal, the zero, the upper and the lower settings.
unfoldable pub zdisc_doc : ℕ → ℕ → List ℕ → ZdiscDoc
zdisc_doc slot rate results =
    let max_rate = take 32 (drop 1 results) in
    let upper_rate = take 32 (drop 33 results) in
    let lower_rate = take 32 (drop 65 results) in
    let settings = bytes_of (take 32 (drop 97 results)) in
    let checked = channel_errors 32 max_rate lower_rate upper_rate (take 32 (drop 32 settings)) in
    record {
      slot = slot;
      max_rate = max_rate;
      lower_rate = lower_rate;
      upper_rate = upper_rate;
      max_dac = take 32 settings;
      lower_dac = take 32 (drop 96 settings);
      upper_dac = take 32 (drop 64 settings);
      zero_dac = take 32 (drop 32 settings);
      target_rate = rate;
      errors = checked.0;
      pass = checked.1;
    }

module _ (need_to_swap : Bool) where
  -- The packet is used again with the words that the last answer left in it.
  unfoldable pub zero_slot : ℕ → ℕ → ℕ → Packet → Task Xl3Model Packet
  zero_slot slot offset rate packet = do
    args ←
        lift
          (swap_long_block need_to_swap (put_words 0 (slot ∷ offset ∷ rate ∷ []) packet.payload) 3)
    reply ←
        send_command_with need_to_swap true 60
          (record packet { packet_type = zdisc_id; payload = args })
    results ← lift (swap_long_block need_to_swap reply.payload 97)
    pure (record reply { payload = results })

  -- One slot, and the slots after it; an exception ends the test, and the documents before it are
  -- posted.
  abbrev pub more_docs :
      ZdiscDoc → Outcome Xl3Model (Tested ZdiscDoc) → Outcome Xl3Model (Tested ZdiscDoc)
  more_docs doc (returned r x) = returned (record r { docs = doc ∷ r.docs }) x
  more_docs doc (thrown e x) = thrown e x
  more_docs doc lost = lost

  abbrev pub after_slot :
      (Packet → Task Xl3Model (Tested ZdiscDoc))
      → ℕ
      → ℕ
      → Outcome Xl3Model Packet
      → Outcome Xl3Model (Tested ZdiscDoc)
  after_slot more slot rate (returned p x) = more_docs (zdisc_doc slot rate p.payload) (more p x)
  after_slot more slot rate (thrown e x) = returned (record { docs = []; ended_by = some e }) x
  after_slot more slot rate lost = lost

  unfoldable pub zdisc_slots : List ℕ → ℕ → ℕ → Packet → Task Xl3Model (Tested ZdiscDoc)
  zdisc_slots [] offset rate packet x = returned (posted []) x
  zdisc_slots (slot ∷ slots) offset rate packet x =
      after_slot (zdisc_slots slots offset rate) slot rate (zero_slot slot offset rate packet x)

  -- Documents are made with `updateDB` or `updateDetectorDB`.
  unfoldable pub zdisc : ℕ → ℕ → ℕ → Bool → Packet → Task Xl3Model (Tested ZdiscDoc)
  zdisc slot_mask offset rate update stack = do
    result ← zdisc_slots (slots_of slot_mask) offset rate stack
    pure (if update then result else record result { docs = [] })
