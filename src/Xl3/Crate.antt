-- ===== src/Xl3/Crate.antt =====
-- The commands of src/xl3/XL3Model.cpp that send one packet, or one packet for each slot. What a
-- packet on the stack holds before its fields are set is the parameter `stack`.
use penn_daq.Prelude.{
  ℕ, zero, suc, ◌+◌, ◌*◌, ◌^◌, List, [], ◌∷◌, Bool, Option, none, some, ◌==◌, ltb, if◌then◌else◌,
  length, take, drop, replicate, get_or, set,
}
use penn_daq.Swap.{swap_long_block, swap_short_block}
use penn_daq.Locks.{selected}
use penn_daq.Controller.Commands.{fec_sel, write_reg}
use penn_daq.Xl3.Packet.{
  Packet, swap_one_long, swap_one_short, high_short, word_of_shorts, shorts_of, put_words,
}
use penn_daq.Xl3.Task.{Task, ◌>>=◌, ◌>>◌, pure, lift, get, change}
use penn_daq.Xl3.Model.{FecConfiguration, Xl3Model, send_command}

abbrev pub change_mode_id : ℕ
change_mode_id = 0x02

abbrev pub fast_cmd_id : ℕ
fast_cmd_id = 0x20

abbrev pub set_crate_pedestals_id : ℕ
set_crate_pedestals_id = 0x25

abbrev pub build_crate_config_id : ℕ
build_crate_config_id = 0x26

abbrev pub loadsdac_id : ℕ
loadsdac_id = 0x27

abbrev pub multi_loadsdac_id : ℕ
multi_loadsdac_id = 0x28

abbrev pub deselect_fecs_id : ℕ
deselect_fecs_id = 0x29

abbrev pub load_tacbits_id : ℕ
load_tacbits_id = 0x2B

abbrev pub check_total_count_id : ℕ
check_total_count_id = 0x2E

abbrev pub set_alarm_dac_id : ℕ
set_alarm_dac_id = 0x2F

abbrev pub multi_setup_charge_inj_id : ℕ
multi_setup_charge_inj_id = 0x45

abbrev pub general_csr_r : ℕ
general_csr_r = 0x20

-- `UpdateCrateConfig`: the `FECConfiguration`s of the selected slots from slot `i` on. `from` has the
-- shorts of `hwareVals[i]` and of the slots behind it; the last one, `pmticID`, is not swapped.
module _ (need_to_swap : Bool) where
  abbrev pub config_at : List ℕ → FecConfiguration
  config_at from = record {
    mb_id = swap_one_short need_to_swap (get_or from 0 0);
    db_id =
        swap_one_short need_to_swap (get_or from 1 0)
        ∷ swap_one_short need_to_swap (get_or from 2 0)
        ∷ swap_one_short need_to_swap (get_or from 3 0)
        ∷ swap_one_short need_to_swap (get_or from 4 0)
        ∷ [];
    pmtic_id = get_or from 5 0;
  }

  unfoldable pub update_fecs : ℕ → ℕ → List ℕ → List FecConfiguration → List FecConfiguration
  update_fecs slot_mask i from [] = []
  update_fecs slot_mask i from (fec ∷ fecs) =
      (if selected slot_mask i then config_at from else fec)
      ∷ update_fecs slot_mask (suc i) (drop 6 from) fecs

-- The first 32, the next 32 and so on: `count[i*32+j]`.
abbrev pub rows : ℕ → List ℕ → List (List ℕ)
rows zero counts = []
rows (suc n) counts = take 32 counts ∷ rows n (drop 32 counts)

-- The body of the loop of `MultiLoadsDac`, on `n` dacs; none past the end of an array.
abbrev pub clamped_dac : ℕ → ℕ
clamped_dac v = if ltb v 256 then v else 255

unfoldable pub dac_words : ℕ → List ℕ → List ℕ → List ℕ → Option (List ℕ)
dac_words zero nums values slots = some []
dac_words (suc n) (d ∷ nums) (v ∷ values) (s ∷ slots) = elim (dac_words n nums values slots) [
  | none ↦ none
  | some rest ↦ some (s ∷ d ∷ clamped_dac v ∷ rest)
]
dac_words (suc n) nums values slots = none

-- `channelMasks` or `dacValues`: the value at the selected slots from `i` on, `n` of them.
unfoldable pub set_selected : ℕ → ℕ → ℕ → ℕ → ℕ → List ℕ → List ℕ
set_selected zero slot_mask i place v words = words
set_selected (suc n) slot_mask i place v words =
    set_selected n slot_mask (suc i) (suc place) v
      (if selected slot_mask i then set words place v else words)

-- The first `n` elements of the caller's array; none if there are fewer.
abbrev pub first_of : ℕ → List ℕ → Option (List ℕ)
first_of n words = if ltb (length words) n then none else some (take n words)

-- Pairs of shorts as words.
abbrev pub words_of_shorts : List ℕ → List ℕ
words_of_shorts (a ∷ b ∷ shorts) = word_of_shorts a b ∷ words_of_shorts shorts
words_of_shorts shorts = []

module _ (need_to_swap : Bool) (stack : Packet) where
  abbrev pub typed : ℕ → List ℕ → Packet
  typed type payload = record stack { packet_type = type; payload = payload }

  -- The packet of a type with some words at its start, the first `n` swapped, and its answer.
  abbrev pub ask : ℕ → List ℕ → ℕ → Task Xl3Model Packet
  ask type args n = do
    payload ← lift (swap_long_block need_to_swap (put_words 0 args stack.payload) n)
    send_command need_to_swap (typed type payload)

  -- The first word of the answer, with `n` swapped.
  abbrev pub first_result : ℕ → Packet → Task Xl3Model ℕ
  first_result n reply = do
    results ← lift (swap_long_block need_to_swap reply.payload n)
    pure (get_or results 0 0)

  -- The flags and the data of the answer.
  unfoldable pub rw_reg : ℕ → ℕ → Task Xl3Model (ℕ × ℕ)
  rw_reg address data_word = do
    reply ← send_command need_to_swap (
        typed fast_cmd_id (
          put_words 2
            (swap_one_long need_to_swap address ∷ swap_one_long need_to_swap data_word ∷ [])
            stack.payload))
    pure (
      swap_one_short need_to_swap (high_short (get_or reply.payload 1 0)),
      swap_one_long need_to_swap (get_or reply.payload 3 0),
    )

  unfoldable pub deselect_fecs : Task Xl3Model ℕ
  deselect_fecs = send_command need_to_swap (typed deselect_fecs_id stack.payload) >> pure 0

  unfoldable pub update_crate_config : ℕ → Task Xl3Model ℕ
  update_crate_config slot_mask = do
    reply ← ask build_crate_config_id (slot_mask ∷ []) 1
    change (λ x. record x {
      fecs = update_fecs need_to_swap slot_mask 0 (drop 4 (shorts_of reply.payload)) x.fecs;
    })
    deselect_fecs
    pure 0

  unfoldable pub change_mode : ℕ → ℕ → Task Xl3Model ℕ
  change_mode mode data_avail_mask = ask change_mode_id (mode ∷ data_avail_mask ∷ []) 2 >> pure 0

  unfoldable pub configure_crate : List FecConfiguration → Task Xl3Model ℕ
  configure_crate fecs = change (λ x. record x { fecs = fecs }) >> pure 0

  unfoldable pub get_cmos_total_count : ℕ → Task Xl3Model (List (List ℕ))
  get_cmos_total_count slot_mask =
      if slot_mask == 0 then pure (replicate 8 (replicate 32 0)) else (do
        reply ← ask check_total_count_id (slot_mask ∷ replicate 16 0xFFFFFFFF) 33
        results ← lift (swap_long_block need_to_swap reply.payload 273)
        pure (rows 8 (drop 1 results)))

  unfoldable pub loads_dac : ℕ → ℕ → ℕ → Task Xl3Model ℕ
  loads_dac dac_num dac_value slot_num =
      ask loadsdac_id (slot_num ∷ dac_num ∷ dac_value ∷ []) 3 >>= first_result 1

  unfoldable pub multi_loads_dac : ℕ → List ℕ → List ℕ → List ℕ → Task Xl3Model ℕ
  multi_loads_dac num_dacs dac_nums dac_values slot_nums = do
    args ← lift (dac_words (if ltb 50 num_dacs then 50 else num_dacs) dac_nums dac_values slot_nums)
    reply ← ask multi_loadsdac_id (num_dacs ∷ args) (num_dacs * 3 + 1)
    first_result 1 reply

  -- The loop of `LoadCrateAddr`, from slot `i` on.
  unfoldable pub load_addrs : ℕ → ℕ → ℕ → ℕ → Task Xl3Model Unit
  load_addrs zero slot_mask i crate_num = pure tt
  load_addrs (suc n) slot_mask i crate_num =
      (if selected slot_mask i
        then rw_reg (general_csr_r + fec_sel * i + write_reg) (crate_num * 2 ^ 11) >> pure tt
        else pure tt)
      >> load_addrs n slot_mask (suc i) crate_num

  unfoldable pub load_crate_addr : ℕ → Task Xl3Model ℕ
  load_crate_addr slot_mask = do
    x ← get
    load_addrs 16 slot_mask 0 x.crate_num
    deselect_fecs
    pure 0

  unfoldable pub set_crate_pedestals : ℕ → ℕ → Task Xl3Model ℕ
  set_crate_pedestals slot_mask pattern =
      ask set_crate_pedestals_id (slot_mask ∷ pattern ∷ []) 2 >> pure 0

  unfoldable pub setup_charge_injection : ℕ → ℕ → ℕ → Task Xl3Model ℕ
  setup_charge_injection slot_mask chan_mask dac_value = do
    payload ← lift (
        swap_long_block need_to_swap
          (set_selected 16 slot_mask 0 17 dac_value
            (set_selected 16 slot_mask 0 1 chan_mask (set stack.payload 0 slot_mask)))
          33)
    send_command need_to_swap (typed multi_setup_charge_inj_id payload)
    pure 0

  unfoldable pub load_tacbits : ℕ → List ℕ → Task Xl3Model ℕ
  load_tacbits slot_num tacbits = do
    x ← get
    copied ← lift (first_of 32 tacbits)
    bits ← lift (swap_short_block need_to_swap copied 32)
    payload ← lift (
        swap_long_block need_to_swap
          (put_words 0 (x.crate_num ∷ fec_sel * slot_num ∷ words_of_shorts bits) stack.payload) 2)
    send_command need_to_swap (typed load_tacbits_id payload)
    pure 0

  unfoldable pub set_alarm_dacs : List ℕ → Task Xl3Model ℕ
  set_alarm_dacs dacs = lift (first_of 3 dacs) >>= (λ args. ask set_alarm_dac_id args 3) >> pure 0
