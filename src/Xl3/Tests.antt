-- ===== src/Xl3/Tests.antt =====
-- Witnesses and runs.
use penn_daq.Prelude.{
  ◌⊎◌, ℕ, ◌+◌, ◌≡◌, refl, List, [], ◌∷◌, ◌++◌, true, false, Option, none, some, arith, All, length,
  replicate, inl, inr,
}
use penn_daq.Xl3.Packet.{Packet, swap_one_long, swap_one_short}
use penn_daq.Xl3.Task.{returned, thrown}
use penn_daq.Xl3.Mega.{Walk, mini_loop}
use penn_daq.Xl3.Bundles.{Mini, flat, bundles_in, mini_loop-flat}
use penn_daq.Xl3.Walks.{IsCounted, IsCutShort, mini_loop-ends}
use penn_daq.Xl3.Link.{Xl3Link, kind_of, ack_commands, get_next_packet}
use penn_daq.Xl3.Model.{Xl3Model, send_command_with, get_multi_fc_results}
use penn_daq.Xl3.Arrivals.{IsWhole}
use penn_daq.Xl3.Fetch.{packets_to_come, PacketWaited, get_next_packet-Waited}
use penn_daq.Xl3.Sending.{
  next_model, Ended, send_command-Ended, send_command-answered, send_command_refuses_late,
}
use penn_daq.Xl3.Collect.{CameBack}
use penn_daq.Xl3.Ordered.{
  get_multi_fc_results-CameBack, get_multi_fc_results-collects, get_multi_fc_results_wraps,
}

abbrev packet : ℕ → ℕ → List ℕ → Packet
packet num type payload = record {
  packet_num = num;
  packet_type = type;
  num_bundles = 0;
  payload = payload;
}

-- Acknowledgements of packet 7: a stray one of packet 6, then two in order.
abbrev acks : Packet
acks = packet 0 0xDD (3 ∷ 0 ∷ 6 ∷ 0 ∷ 99 ∷ 0 ∷ 7 ∷ 0x9e ∷ 40 ∷ 1 ∷ 7 ∷ 0x9e ∷ 41 ∷ replicate 347 0)

-- A ping, the acknowledgements, the answer to an older command, and that to command 7.
abbrev arrivals : List (Option Packet)
arrivals =
    some (packet 0 0xBB [])
    ∷ some acks
    ∷ some (packet 6 0x20 [])
    ∷ some (packet 7 0x24 [])
    ∷ some (packet 8 0x24 [])
    ∷ []

arrivals-IsWhole : All (IsWhole false) arrivals
unfolding kind_of ack_commands swap_one_long
arrivals-IsWhole = (refl, (refl, (refl, (refl, (refl, tt)))))

abbrev link_with : List (Option Packet) → Xl3Link
link_with arriving = record {
  connected = true;
  print_out = true;
  recv_queue = [];
  recv_cmd_queue = [];
  mega_bundle_count = 0;
  recv_bytes = 0;
  written = [];
  arriving = arriving;
}

abbrev crate_with : ℕ → List (Option Packet) → Xl3Model
crate_with num arriving = record {
  crate_num = 2;
  fecs = [];
  command_num = num;
  link = link_with arriving;
}

get_next_packet-Waited_example :
    PacketWaited false (link_with arrivals) (get_next_packet false 5 (link_with arrivals))
get_next_packet-Waited_example =
    get_next_packet-Waited false 5 (link_with arrivals) (omega arith) refl arrivals-IsWhole

abbrev load_crate_add : Packet
load_crate_add = packet 0 0x24 (1 ∷ 2 ∷ [])

send_command-Ended_example :
    Ended false load_crate_add
      (crate_with 7 arrivals)
      (send_command_with false true 2 load_crate_add (crate_with 7 arrivals))
send_command-Ended_example =
    send_command-Ended false 2 load_crate_add (crate_with 7 arrivals) (omega arith) refl
      arrivals-IsWhole

send_command-answered_example :
    (l : Xl3Link) × (send_command_with false true 2 load_crate_add (crate_with 7 arrivals)
      ≡ returned (packet 7 0x24 []) (next_model false (crate_with 7 arrivals) l))
    × (packets_to_come false l ≡ packet 8 0x24 [] ∷ [])
unfolding kind_of ack_commands swap_one_long swap_one_short
send_command-answered_example =
    send_command-answered false 2 load_crate_add (crate_with 7 arrivals) (packet 6 0x20 [] ∷ [])
      (packet 7 0x24 []) (packet 8 0x24 [] ∷ []) (omega arith) refl arrivals-IsWhole refl (refl, tt)
      refl refl refl (omega arith)

-- Command 3 after the wrap, and the late answer to command 65530.
abbrev late : List (Option Packet)
late = some (packet 65530 0x24 []) ∷ some (packet 3 0x24 []) ∷ []

late-IsWhole : All (IsWhole false) late
unfolding kind_of
late-IsWhole = (refl, (refl, tt))

send_command_refuses_late_example :
    (l : Xl3Link) × (send_command_with false true 2 load_crate_add (crate_with 3 late)
      ≡ thrown "SendCommand: Packet Num too high" (next_model false (crate_with 3 late) l))
unfolding kind_of ack_commands swap_one_long swap_one_short
send_command_refuses_late_example =
    send_command_refuses_late false 2 load_crate_add (crate_with 3 late) (packet 65530 0x24 [])
      (packet 3 0x24 [] ∷ []) 9 (omega arith) refl late-IsWhole refl refl (omega arith)
      (omega arith) refl

get_multi_fc_results-CameBack_example :
    CameBack (get_multi_fc_results false 2 (some 7) 2 (0 ∷ 0 ∷ []) (crate_with 8 arrivals))
get_multi_fc_results-CameBack_example =
    get_multi_fc_results-CameBack false 2 2 (some 7) (omega arith) (0 ∷ 0 ∷ [])
      (crate_with 8 arrivals) refl arrivals-IsWhole (omega arith)

get_multi_fc_results-collects_example :
    (l : Xl3Link) × (get_multi_fc_results false 2 (some 7) 2 (0 ∷ 0 ∷ []) (crate_with 8 arrivals)
      ≡ returned (40 ∷ 41 ∷ []) (record (crate_with 8 arrivals) { link = l }))
unfolding kind_of ack_commands swap_one_long swap_one_short
get_multi_fc_results-collects_example =
    get_multi_fc_results-collects false 2 2 (some 7) (omega arith) (40 ∷ 41 ∷ []) (0 ∷ 0 ∷ [])
      (crate_with 8 arrivals) refl arrivals-IsWhole refl (refl, refl, (refl, refl, refl)) refl refl

get_multi_fc_results_wraps_example :
    (l : Xl3Link) × (get_multi_fc_results false 2 none 2 (0 ∷ 0 ∷ []) (crate_with 0 arrivals)
      ≡ thrown "GetMultiFCResults: GetNextCmdAck timed out"
          (record (crate_with 0 arrivals) { link = l }))
get_multi_fc_results_wraps_example =
    get_multi_fc_results_wraps false 2 2 (0 ∷ 0 ∷ []) (crate_with 0 arrivals) (omega arith)
      (omega arith) refl refl arrivals-IsWhole

-- Two bundles of card 3, and a passcur minibundle of one word.
abbrev two_minis : List Mini
two_minis =
    record { info = 0x03000006; words = 1 ∷ 2 ∷ 3 ∷ 4 ∷ 5 ∷ 6 ∷ [] }
    ∷ record { info = 0x80000001; words = 77 ∷ [] }
    ∷ []

mini_loop-flat_example :
    mini_loop 9 (flat two_minis ++ 0 ∷ []) (length (flat two_minis)) 0
    ≡ some (record { num_bundles = 0 + bundles_in two_minis; corrupted = false })
mini_loop-flat_example =
    mini_loop-flat two_minis (0 ∷ []) 9 0
      (
        record { size = refl; readable = inl refl },
        (record { size = refl; readable = inr (omega arith) }, tt),
      )
      (omega arith)

mini_loop-ends_example :
    (w : Walk) × (mini_loop 3 (5 ∷ 0 ∷ 0 ∷ 0 ∷ []) 3 0 ≡ some w)
    × (IsCounted (5 ∷ 0 ∷ 0 ∷ []) 0 w ⊎ IsCutShort (5 ∷ 0 ∷ 0 ∷ []) 0 w)
mini_loop-ends_example = mini_loop-ends 3 (5 ∷ 0 ∷ 0 ∷ 0 ∷ []) 3 0 (omega arith) (omega arith)
