-- ===== src/Boards/Volts.antt =====
-- src/tests/VMon.cpp: the voltages of the cards in the slots of a mask. A `float` is its 32 bits. The
-- table of voltages that is printed, with its ranges of its own, is left out.
use Prim.Native.String.{String}
use penn_daq.Prelude.{
  ℕ, ◌+◌, ◌-◌, ◌%◌, ◌^◌, List, [], ◌∷◌, map, Bool, true, not, ltb, leb, ◌&&◌, ◌||◌, if◌then◌else◌,
  take, drop, get_or,
}
use penn_daq.Swap.{swap_long_block}
use penn_daq.Xl3.Packet.{Packet, put_words}
use penn_daq.Xl3.Task.{Task, ◌>>=◌, pure, lift}
use penn_daq.Xl3.Model.{Xl3Model, send_command}
use penn_daq.Boards.Registers.{Tested, posted, testing, slots_of}

abbrev pub vmon_id : ℕ
vmon_id = 0x62

-- The bits without the sign.
abbrev pub magnitude : ℕ → ℕ
magnitude float = float % 2 ^ 31

abbrev pub is_nan : ℕ → Bool
is_nan float = ltb 0x7f800000 (magnitude float)

-- A number that grows with the float, and is the same for both zeros.
abbrev pub rank : ℕ → ℕ
rank float = if ltb float (2 ^ 31) then 2 ^ 31 + magnitude float else 2 ^ 31 - magnitude float

-- `a < b`, which no NaN is.
unfoldable pub float_lt : ℕ → ℕ → Bool
float_lt a b = not (is_nan a || is_nan b) && ltb (rank a) (rank b)

-- `a <= b`, which no NaN is.
unfoldable pub float_le : ℕ → ℕ → Bool
float_le a b = not (is_nan a || is_nan b) && leb (rank a) (rank b)

-- One place of `voltages_name`, `voltages_nom`, `voltages_min` and `voltages_max`.
pub record Rail : Type 0 where
  pub name : String
  pub nominal : ℕ
  pub min : ℕ
  pub max : ℕ

abbrev pub rail : String → ℕ → ℕ → ℕ → Rail
rail name nominal min max = record { name = name; nominal = nominal; min = min; max = max }

-- The 18 places that the document has a range for.
abbrev pub rails : List Rail
rails =
    rail "neg_24" 0xc1c00000 0xc1d00000 0xc1b00000
    ∷ rail "neg_15" 0xc1700000 0xc1880000 0xc1500000
    ∷ rail "Vee" 0xc0a00000 0xc0c00000 0xc0800000
    ∷ rail "neg_3_3" 0xc0533333 0xc0800000 0xc0000000
    ∷ rail "neg_2" 0xc0000000 0xc0400000 0xbf800000
    ∷ rail "pos_3_3" 0x40533333 0x40266666 0x40800000
    ∷ rail "pos_4" 0x40800000 0x40600000 0x40900000
    ∷ rail "Vcc" 0x40a00000 0x40800000 0x40c00000
    ∷ rail "pos_6_5" 0x40d00000 0x40b00000 0x40f00000
    ∷ rail "pos_8" 0x41000000 0x40e00000 0x41100000
    ∷ rail "pos_15" 0x41700000 0x41500000 0x41880000
    ∷ rail "pos_24" 0x41c00000 0x41b00000 0x41d00000
    ∷ rail "neg_2_ref" 0xc0000000 0xc0400000 0xbf800000
    ∷ rail "neg_1_ref" 0xbf800000 0xc0000000 0
    ∷ rail "pos_0_8_ref" 0x3f4ccccd 0x3f000000 0x3f800000
    ∷ rail "pos_1_ref" 0x3f800000 0x3f000000 0x3fc00000
    ∷ rail "pos_4_ref" 0x40800000 0x40600000 0x40900000
    ∷ rail "pos_5_ref" 0x40a00000 0x40800000 0x40c00000
    ∷ []

-- `one_volt`
pub record Volt : Type 0 where
  pub name : String
  pub nominal : ℕ
  pub value : ℕ
  pub ok : Bool

unfoldable pub volt_of : Rail → ℕ → Volt
volt_of r value = record {
  name = r.name;
  nominal = r.nominal;
  value = value;
  ok = float_le r.min value && float_le value r.max;
}

-- The test that resets `pass_flag`.
unfoldable pub is_outside : Rail → ℕ → Bool
is_outside r value = float_lt value r.min || float_lt r.max value

-- The loop over the places: the entries, and `pass_flag`.
unfoldable pub check_volts : List Rail → List ℕ → List Volt × Bool
check_volts [] values = ([], true)
check_volts (r ∷ rs) values =
    let rest = check_volts rs (drop 1 values) in
    let value = get_or values 0 0 in (volt_of r value ∷ rest.0, not (is_outside r value) && rest.1)

-- The document `vmon`.
pub record VmonDoc : Type 0 where
  pub slot : ℕ
  pub voltages : List Volt
  pub temp : ℕ
  pub cald : ℕ
  pub hvt : ℕ
  pub pass : Bool

unfoldable pub vmon_doc : ℕ → List ℕ → VmonDoc
vmon_doc slot values =
    let checked = check_volts rails values in
    record {
      slot = slot;
      voltages = checked.0;
      temp = get_or values 18 0;
      cald = get_or values 19 0;
      hvt = get_or values 20 0;
      pass = checked.1;
    }

module _ (need_to_swap : Bool) where
  -- The packet is used again with the words that the last answer left in it.
  unfoldable pub read_voltages : ℕ → Packet → Task Xl3Model Packet
  read_voltages slot packet = do
    args ← lift (swap_long_block need_to_swap (put_words 0 (slot ∷ []) packet.payload) 1)
    reply ← send_command need_to_swap (record packet { packet_type = vmon_id; payload = args })
    results ← lift (swap_long_block need_to_swap reply.payload 21)
    pure (record reply { payload = results })

  -- The rows of `voltages` that are read, each with its slot.
  unfoldable pub read_rows : List ℕ → Packet → Task Xl3Model (List (ℕ × List ℕ))
  read_rows [] packet = pure []
  read_rows (slot ∷ slots) packet = do
    reply ← read_voltages slot packet
    rows ← read_rows slots reply
    pure ((slot, take 21 reply.payload) ∷ rows)

  -- `stack` is what the packet holds at first.
  unfoldable pub vmon : ℕ → Bool → Packet → Task Xl3Model (Tested VmonDoc)
  vmon slot_mask update_db stack = testing (do
    rows ← read_rows (slots_of slot_mask) stack
    pure (posted (if update_db then map (λ row. vmon_doc row.0 row.1) rows else [])))
