-- ===== src/Xl3/Collect.antt =====
-- `XL3Model::GetMultiFCResults` of src/xl3/XL3Model.cpp: it ends, it collects the answers in order,
-- and it finds none when the numbers have just wrapped.
use Prim.Native.String.{String}
use penn_daq.Prelude.{
  ℕ, zero, suc, ◌≤◌, ◌<◌, ◌≡◌, refl, ap, subst, ◌∙◌, sym, inl, inr, List, [], ◌∷◌, Bool, true,
  false, ◌==◌, ltb, lt→ltb, Option, none, some, drop, length, set, length-set, All, arith,
  Bool-cases,
}
use penn_daq.Xl3.Packet.{Command}
use penn_daq.Xl3.Task.{Outcome, returned, thrown}
use penn_daq.Xl3.Link.{Xl3Link}
use penn_daq.Xl3.Model.{store, same_num, on_ack, ack_loop}
use penn_daq.Xl3.Arrivals.{IsWhole}
use penn_daq.Xl3.Waiting.{ran_out, taken}
use penn_daq.Xl3.Fetch.{commands_to_come, get_next_cmd_ack-Waited}
use penn_daq.Xl3.Replies.{drop-IsWhole}

-- An outcome that came back.
pub data CameBack {S A : Type 0} (o : Outcome S A) : Type 0 where
  with_value : (a : A) (s : S) → o ≡ returned a s → CameBack o
  with_exception : (e : String) (s : S) → o ≡ thrown e s → CameBack o

-- Among the acknowledgements to come, the ones with the packet's number have the command numbers
-- from `i` on, in order, and these data.
abbrev pub IsAnswered : Option ℕ → ℕ → List Command → List ℕ → Type 0
IsAnswered num i [] values = values ≡ []
IsAnswered num i (c ∷ cs) [] = Unit
IsAnswered num i (c ∷ cs) (v ∷ values) = elim (same_num num c.packet_num) [
  | true ↦ (c.cmd_num ≡ i) × (c.data_word ≡ v) × IsAnswered num (suc i) cs values
  | false ↦ IsAnswered num i cs (v ∷ values)
]

module _ (need_to_swap : Bool) (num_cmds timeout : ℕ) (num : Option ℕ) (pos : 0 < timeout) where
  abbrev pub loop : ℕ → ℕ → List ℕ → Xl3Link → Outcome Xl3Link (List ℕ)
  loop fuel i result = ack_loop need_to_swap fuel num_cmds num timeout i result

  abbrev pub cmds_ahead : Xl3Link → List Command
  cmds_ahead = commands_to_come need_to_swap

  -- The state after a wait can wait again.
  pub waits_again :
      (l l' : Xl3Link)
      → l.connected ≡ true
      → All (IsWhole need_to_swap) l.arriving
      → l'.connected ≡ l.connected
      → (n : ℕ) × (l'.arriving ≡ drop n l.arriving)
      → (l'.connected ≡ true) × All (IsWhole need_to_swap) l'.arriving
  waits_again l l' c h same n = (
    same ∙ c,
    subst (λ t. All (IsWhole need_to_swap) t) (sym n.1)
        (drop-IsWhole need_to_swap n.0 l.arriving h),
  )

  pub fits :
      (i : ℕ) (result : List ℕ) (v : ℕ)
      → ltb i num_cmds ≡ true
      → num_cmds ≤ length result
      → store result i v ≡ some (set result i v)
  fits i result v e room = ground arith

  pub ack_loop-CameBack :
      (fuel i : ℕ) (result : List ℕ) (l : Xl3Link)
      → l.connected ≡ true
      → All (IsWhole need_to_swap) l.arriving
      → length (cmds_ahead l) < fuel
      → num_cmds ≤ length result
      → CameBack (loop fuel i result l)
  unfolding ack_loop
  ack_loop-CameBack zero i result l c h f room = absurd (omega arith)
  ack_loop-CameBack (suc fuel) i result l c h f room = elim (Bool-cases (ltb i num_cmds)) [
    | inr e ↦ with_value result l (rw (ack_loop, e) refl)
    | inl e ↦ elim (get_next_cmd_ack-Waited need_to_swap timeout l pos c h) [
      | ran_out l' w q why same n ↦
          with_exception "GetMultiFCResults: GetNextCmdAck timed out" l' (rw (ack_loop, e, w) refl)
      | taken a l' w q same n ↦
          let (c', h') = waits_again l l' c h same n in
          let f' : length (cmds_ahead l') < fuel = omega (arith, ap (λ t. length t) q) in
          elim (Bool-cases (same_num num a.packet_num)) [
            | inr other ↦
                rw (ack_loop, e, w, other) (ack_loop-CameBack fuel i result l' c' h' f' room)
            | inl own ↦ elim (Bool-cases (a.cmd_num == i)) [
              | inr wrong ↦
                  with_exception "GetMultiFCResults: Got wrong command number" l'
                    (rw (ack_loop, e, w, own, wrong) refl)
              | inl right ↦
                  rw (ack_loop, e, w, own, right, fits i result a.data_word e room)
                    (ack_loop-CameBack fuel (suc i) (set result i a.data_word) l' c' h' f'
                      (omega (arith, length-set result i a.data_word)))
            ]
          ]
    ]
  ]

  pub silent :
      (fuel i : ℕ) (result : List ℕ) (l : Xl3Link)
      → num ≡ none
      → i < num_cmds
      → l.connected ≡ true
      → All (IsWhole need_to_swap) l.arriving
      → length (cmds_ahead l) < fuel
      → (l' : Xl3Link) × (loop fuel i result l
          ≡ thrown "GetMultiFCResults: GetNextCmdAck timed out" l')
  unfolding ack_loop
  silent zero i result l u some_left c h f = absurd (omega arith)
  silent (suc fuel) i result l u some_left c h f =
      elim (get_next_cmd_ack-Waited need_to_swap timeout l pos c h) [
        | ran_out l' w q why same n ↦ (l', rw (ack_loop, lt→ltb i num_cmds some_left, w) refl)
        | taken a l' w q same n ↦
            let (c', h') = waits_again l l' c h same n in
            let (out, e) =
              silent fuel i result l' u some_left c' h' (omega (arith, ap (λ t. length t) q)) in
            (
              out,
              rw (ack_loop, lt→ltb i num_cmds some_left, w)
                  (not_ours a l' (loop fuel) i result u ∙ e),
            )
      ]
    where
      not_ours :
          (a : Command) (l : Xl3Link) (more : ℕ → List ℕ → Xl3Link → Outcome Xl3Link (List ℕ))
          (i : ℕ) (result : List ℕ)
          → num ≡ none
          → on_ack need_to_swap more num i result (some a) l ≡ more i result l
      not_ours a l more i result u = rw u refl
