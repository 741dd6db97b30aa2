-- ===== src/Xl3/Ordered.antt =====
-- `XL3Model::GetMultiFCResults` of src/xl3/XL3Model.cpp: how it ends, what it collects, and the number
-- that no answer has.
use penn_daq.Prelude.{
  ℕ, zero, suc, ◌+◌, ◌≤◌, ◌<◌, ◌≡◌, refl, ap, ap₂, ◌∙◌, sym, inl, inr, List, [], ◌∷◌, ◌++◌, Bool,
  true, false, ==_iff, ltb, lt→ltb, Option, some, length, length-append, set, All, arith,
  append_assoc, uncons, Bool-cases,
}
use penn_daq.Xl3.Packet.{Command}
use penn_daq.Xl3.Task.{returned, thrown}
use penn_daq.Xl3.Link.{Xl3Link}
use penn_daq.Xl3.Model.{
  Xl3Model, back, store, same_num, ack_loop, acks_to_come, number_before, last_command_num,
  get_multi_fc_results,
}
use penn_daq.Xl3.Arrivals.{IsWhole, has_expiry, still_coming}
use penn_daq.Xl3.Waiting.{ran_out, taken}
use penn_daq.Xl3.Fetch.{commands_to_come, get_next_cmd_ack-Waited}
use penn_daq.Xl3.Replies.{drop-has_expiry}
use penn_daq.Xl3.Results.{length-commands_to_come}
use penn_daq.Xl3.Collect.{
  CameBack, with_value, with_exception, IsAnswered, waits_again, ack_loop-CameBack, silent,
}

set-append :
    (done todo : List ℕ) (t v : ℕ) → set (done ++ t ∷ todo) (length done) v ≡ done ++ v ∷ todo
set-append [] todo t v = refl
set-append (d ∷ done) todo t v = ap (λ s. d ∷ s) (set-append done todo t v)

module _ (need_to_swap : Bool) (num_cmds timeout : ℕ) (num : Option ℕ) (pos : 0 < timeout) where
  ack_loop-collects :
      (cs : List Command) (values : List ℕ) (fuel i : ℕ) (result done todo : List ℕ) (l : Xl3Link)
      → commands_to_come need_to_swap l ≡ cs
      → IsAnswered num i cs values
      → l.connected ≡ true
      → All (IsWhole need_to_swap) l.arriving
      → has_expiry l.arriving ≡ false
      → i ≡ length done
      → result ≡ done ++ todo
      → length todo ≡ length values
      → num_cmds ≡ i + length values
      → length cs < fuel
      → (l' : Xl3Link) × (ack_loop need_to_swap fuel num_cmds num timeout i result l
          ≡ returned (done ++ values) l')
  unfolding ack_loop
  ack_loop-collects cs values zero i result done todo l q a c h x at split room all f =
      absurd (omega arith)
  ack_loop-collects cs [] (suc fuel) i result done [] l q a c h x at split room all f =
      (l, rw (ack_loop, past, split) refl)
    where
      past : ltb i num_cmds ≡ false
      past = ground arith
  ack_loop-collects cs [] (suc fuel) i result done (t ∷ todo) l q a c h x at split room all f =
      absurd (omega arith)
  ack_loop-collects [] (v ∷ values) (suc fuel) i result done todo l q a c h x at split room all f =
      absurd (let z : v ∷ values ≡ [] = a in ground arith)
  ack_loop-collects (k ∷ cs) (v ∷ values) (suc fuel) i result done [] l q a c h x at split room all
        f =
      absurd (omega arith)
  ack_loop-collects (k ∷ cs) (v ∷ values) (suc fuel) i result done (t ∷ todo) l q a c h x at split
        room all f =
      elim (get_next_cmd_ack-Waited need_to_swap timeout l pos c h) [
        | ran_out l' w q' why same n ↦ absurd (still_coming l.arriving _ k cs x q why)
        | taken k' l' w q' same n ↦
            let (first, kept) = uncons (sym q' ∙ q) in
            let (c', h') = waits_again need_to_swap num_cmds timeout num pos l l' c h same n in
            let x' : has_expiry l'.arriving ≡ false =
              ap has_expiry n.1 ∙ drop-has_expiry n.0 l.arriving x in
            let more : ltb i num_cmds ≡ true = lt→ltb i num_cmds (omega arith) in
            elim (Bool-cases (same_num num k.packet_num)) [
              | inr other ↦
                  let (out, e) =
                    ack_loop-collects cs (v ∷ values) fuel i result done (t ∷ todo) l' kept
                      (rw (other, IsAnswered) at a) c' h' x' at split room all (omega arith) in
                  (out, rw (ack_loop, more, w, first, other) e)
              | inl own ↦
                  let a' : (k.cmd_num ≡ i) × (k.data_word ≡ v) × IsAnswered num (suc i) cs values =
                    rw (own, IsAnswered) at a in
                  let (out, e) =
                    ack_loop-collects cs values fuel (suc i) (done ++ v ∷ todo) (done ++ v ∷ [])
                      todo l' kept a'.2 c' h' x' (omega (arith, length-append done (v ∷ [])))
                      (sym (append_assoc done (v ∷ []) todo)) (omega arith) (omega arith)
                      (omega arith) in
                  (
                    out,
                    rw
                        (
                          ack_loop,
                          more,
                          w,
                          first,
                          own,
                          (==_iff k.cmd_num i).1 a'.0,
                          stored i result done todo t k.data_word v at split a'.1,
                        )
                        (e ∙ ap (λ r. returned r out) (append_assoc done (v ∷ []) values)),
                  )
            ]
      ]
    where
      stored :
          (i : ℕ) (result done todo : List ℕ) (t w v : ℕ)
          → i ≡ length done
          → result ≡ done ++ t ∷ todo
          → w ≡ v
          → store result i w ≡ some (done ++ v ∷ todo)
      stored i result done todo t w v at split same =
          let room : i < length result =
            omega (arith, ap length split, length-append done (t ∷ todo)) in
          rw (lt→ltb i (length result) room) (
            ap some (
              ap₂ (λ r j. set r j w) split at
              ∙ set-append done todo t w
              ∙ ap (λ u. done ++ u ∷ todo) same))

  -- `GetMultiFCResults` comes back, when the packets that arrive are read to their end and the array
  -- has room for the results: with a value or an exception. The fuel is enough.
  pub get_multi_fc_results-CameBack :
      (result : List ℕ) (x : Xl3Model)
      → x.link.connected ≡ true
      → All (IsWhole need_to_swap) x.link.arriving
      → num_cmds ≤ length result
      → CameBack (get_multi_fc_results need_to_swap num_cmds num timeout result x)
  unfolding get_multi_fc_results
  get_multi_fc_results-CameBack result x c h room =
      elim (ack_loop-CameBack need_to_swap num_cmds timeout num pos
        (suc (acks_to_come need_to_swap x.link)) 0 result x.link c h
        (omega (arith, length-commands_to_come need_to_swap x.link)) room) [
          | with_value a s e ↦ with_value a (record x { link = s }) (ap (back x) e)
          | with_exception m s e ↦ with_exception m (record x { link = s }) (ap (back x) e)
        ]

  -- `GetMultiFCResults` collects the answers in order: when those with the packet's number among the
  -- acknowledgements to come have the command numbers from 0 on and as many data as are wanted, it
  -- returns these data, whatever other acknowledgements stand between them. (No wait runs out, and
  -- the packets that arrive are read to their end.)
  pub get_multi_fc_results-collects :
      (values result : List ℕ) (x : Xl3Model)
      → x.link.connected ≡ true
      → All (IsWhole need_to_swap) x.link.arriving
      → has_expiry x.link.arriving ≡ false
      → IsAnswered num 0 (commands_to_come need_to_swap x.link) values
      → length values ≡ num_cmds
      → length result ≡ num_cmds
      → (l : Xl3Link) × (get_multi_fc_results need_to_swap num_cmds num timeout result x
          ≡ returned values (record x { link = l }))
  unfolding get_multi_fc_results
  get_multi_fc_results-collects values result x c h e a n m =
      let (l, r) =
        ack_loop-collects (commands_to_come need_to_swap x.link) values
          (suc (acks_to_come need_to_swap x.link)) 0 result [] result x.link refl a c h e refl refl
          (omega arith) (omega arith)
          (omega (arith, length-commands_to_come need_to_swap x.link)) in
      (l, ap (back x) r)

-- The command before number 0 has number 65535, but `fCommandNum-1` is then -1, which no
-- acknowledgement has: `GetMultiFCResults` passes over every acknowledgement that comes, and throws
-- when the wait runs out.
pub get_multi_fc_results_wraps :
    (need_to_swap : Bool) (num_cmds timeout : ℕ) (result : List ℕ) (x : Xl3Model)
    → 0 < timeout
    → 0 < num_cmds
    → x.command_num ≡ 0
    → x.link.connected ≡ true
    → All (IsWhole need_to_swap) x.link.arriving
    → (l : Xl3Link) × (get_multi_fc_results need_to_swap num_cmds
          (last_command_num x)
          timeout
          result
          x
        ≡ thrown "GetMultiFCResults: GetNextCmdAck timed out" (record x { link = l }))
unfolding get_multi_fc_results
get_multi_fc_results_wraps need_to_swap num_cmds timeout result x pos some_left zero_num c h =
    let (l, t) =
      silent need_to_swap num_cmds timeout (last_command_num x) pos
        (suc (acks_to_come need_to_swap x.link)) 0 result x.link (ap number_before zero_num)
        some_left c h (omega (arith, length-commands_to_come need_to_swap x.link)) in
    (l, ap (back x) t)
