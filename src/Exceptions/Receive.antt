-- ===== src/Exceptions/Receive.antt =====
-- The system call RECEIVEMESSAGE of phase2/exceptions.c.
use mathlib.Core.Path.{subst}
use project.Common.{
  ℕ, ◌+◌, ◌%◌, ◌^◌, ◌≤◌, ◌≡◌, ◌≢◌, refl, ◌∙◌, Bool, update_same, has, true, false, List, ◌∷◌, arith,
  ◌==◌, ==_ne, ==_refl, if◌then◌else◌, Bool-cases, inl, inr, length, update,
}
use project.Listx.{Links, null, container_of}
use project.Listx.Heap.{IsHeap, Unowned, Distinct-entries}
use project.Types.{State, max_messages, offset_m_list, m_list, msg_inbox}
use project.Types.Machine.{ret, ldst}
use project.Types.View.{Yields, Yields-cast, Leaves}
use project.Scheduler.{scheduler}
use project.Scheduler.Outcome.{restarted, scheduler-current}
use project.Msg.{pop_message}
use project.Msg.Queue.{popped, left_over, pop_message-left_over}
use project.Msg.Popped.{has_message, popped-none, popped-some, Unowned-popped}
use project.Exceptions.{at_bios, receive_case, deliver_message, block_sys}
use project.Exceptions.Deliver.{received, delivered, deliver_message-delivered}

-- The state when the running process is blocked: its registers are saved, and if it waits for the
-- outside it is counted.
abbrev pub blocked : State → State
blocked s = record s {
  pcb = update s.pcb s.current_process (record (s.pcb s.current_process) { p_s = s.bios });
  softblock_count =
      if (s.pcb s.current_process).do_io == 0
      then s.softblock_count
      else (s.softblock_count + 1) % 2 ^ 32;
  current_process = null;
}

block_sys-blocked : {A : Type 0} (s : State) → block_sys {A = A} s ≡ scheduler (blocked s)
unfolding block_sys
block_sys-blocked {A} s = elim (Bool-cases ((s.pcb s.current_process).do_io == 0)) [
  | inl quiet ↦ rw (==_refl s.current_process, quiet) refl
  | inr waits ↦ rw (==_refl s.current_process, waits) refl
]

-- The flag of the running process is cleared when its message is there.
abbrev pub quiet : State → State
quiet s = record s {
  pcb =
      if (s.pcb s.current_process).do_io == 0
      then s.pcb
      else update s.pcb s.current_process (record (s.pcb s.current_process) { do_io = 0 });
}

receive_none_runs :
    {A : Type 0} (s s1 : State)
    → pop_message (msg_inbox s.current_process) s.bios.reg_a1 s ≡ ret null s1
    → receive_case {A = A} s ≡ block_sys s1
unfolding receive_case
receive_none_runs {A} s s1 e = rw e refl

receive_some_runs :
    {A : Type 0} (m : ℕ) (s : State) (l : Links) (s2 : State)
    → pop_message (msg_inbox s.current_process) s.bios.reg_a1 s ≡ ret m (record s { links = l })
    → m ≢ null
    → deliver_message at_bios m (quiet (record s { links = l })) ≡ ret tt s2
    → receive_case {A = A} s ≡ scheduler s2
unfolding receive_case
receive_some_runs {A} m s l s2 e ne d = elim (Bool-cases ((s.pcb s.current_process).do_io == 0)) [
  | inl still ↦
      let d' : deliver_message at_bios m (record s { links = l }) ≡ ret tt s2 = rw still at d in
      rw (e, ==_ne m null ne, still, d') refl
  | inr waited ↦ let d' = rw waited at d in rw (e, ==_ne m null ne, waited, d') refl
]

module _ (s : State) {H : ℕ → Bool} {V : ℕ → List ℕ} (heap : IsHeap s.links H V)
    (is_head : H (msg_inbox s.current_process) ≡ true)
    (few : length (V (msg_inbox s.current_process)) ≤ max_messages) where
  -- The entries of the inbox of the running process.
  abbrev pub inbox : List ℕ
  inbox = V (msg_inbox s.current_process)

  -- The message that is taken.
  abbrev pub taken_msg : ℕ
  taken_msg = popped s.msg s.bios.reg_a1 inbox

  -- When the inbox of the running process, of at most 50 messages, holds none from the sender that
  -- it asks for, RECEIVEMESSAGE changes no list, saves the registers in the process, counts it as
  -- blocked if it waits for the outside, and goes on as the scheduler does without a running
  -- process.
  pub receive_case-blocked :
      {A : Type 0}
      → has_message s.msg s.bios.reg_a1 inbox ≡ false
      → (l : Links) × (receive_case {A = A} s ≡ scheduler (blocked (record s { links = l })))
        × IsHeap l H V
  receive_case-blocked {A} none =
      let y =
        pop_message-left_over s heap (msg_inbox s.current_process) is_head s.bios.reg_a1 few in
      let (gone, rest) = popped-none s.msg s.bios.reg_a1 inbox none in
      (
        y.links,
        receive_none_runs s (record s { links = y.links }) (rw gone at y.runs)
            ∙ block_sys-blocked (record s { links = y.links }),
        rw (rest, update_same V (msg_inbox s.current_process) inbox refl) at y.heap,
      )

  taken_ne :
      has_message s.msg s.bios.reg_a1 inbox ≡ true → has null inbox ≡ false → taken_msg ≢ null
  taken_ne some_msg no_null e =
      let (mine, rest) =
        popped-some s.msg s.bios.reg_a1 inbox some_msg
          (Distinct-entries heap (msg_inbox s.current_process) is_head) in
      ground (arith, rw e at mine)

  abbrev lists_without : ℕ → List ℕ
  lists_without = update V (msg_inbox s.current_process) (left_over s.msg s.bios.reg_a1 inbox)

  plain : container_of taken_msg offset_m_list ≡ taken_msg
  plain = omega arith

  popped-Yields :
      Yields (pop_message (msg_inbox s.current_process) s.bios.reg_a1 s) taken_msg s H lists_without
  popped-Yields =
      Yields-cast plain refl
        (pop_message-left_over s heap (msg_inbox s.current_process) is_head s.bios.reg_a1 few)

  -- The state in which the message is delivered.
  abbrev taking : State
  taking = quiet (record s { links = popped-Yields.links })

  handed :
      H s.msg_free_h ≡ true
      → has_message s.msg s.bios.reg_a1 inbox ≡ true
      → Yields
          (deliver_message at_bios taken_msg taking)
          tt
          (delivered at_bios taken_msg taking)
          H
          (update lists_without s.msg_free_h (m_list taken_msg ∷ lists_without s.msg_free_h))
  handed free_head some_msg =
      let node : taken_msg ≡ m_list taken_msg = omega arith in
      let out : Unowned H lists_without taken_msg =
        Unowned-popped s.msg s.bios.reg_a1 heap (msg_inbox s.current_process) is_head some_msg in
      deliver_message-delivered taking popped-Yields.heap free_head at_bios taken_msg
        (subst (Unowned H lists_without) node out)

  -- When the inbox of the running process, of at most 50 messages and no NULL, holds one from the
  -- sender that it asks for, RECEIVEMESSAGE takes the first such message, delivers it into the saved
  -- registers, frees it, clears the process's flag of waiting for the outside, and resumes the
  -- process with those registers.
  pub receive_case-received :
      {A : Type 0}
      → H s.msg_free_h ≡ true
      → H s.ready_queue ≡ true
      → has null inbox ≡ false
      → s.current_process ≢ null
      → has_message s.msg s.bios.reg_a1 inbox ≡ true
      → Leaves
          (receive_case {A = A} s)
          (ldst (received s taken_msg s.bios))
          (restarted (delivered at_bios taken_msg (quiet s)))
          H
          (update lists_without s.msg_free_h (m_list taken_msg ∷ lists_without s.msg_free_h))
  receive_case-received {A} free_head ready_head no_null runs_on some_msg =
      let y = handed free_head some_msg in
      record {
        links = y.links;
        runs =
            receive_some_runs taken_msg s popped-Yields.links _ popped-Yields.runs
              (taken_ne some_msg no_null) y.runs
            ∙ scheduler-current _ y.heap ready_head runs_on;
        heap = y.heap;
      }
