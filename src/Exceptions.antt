-- ===== src/Exceptions.antt =====
-- phase2/exceptions.c: the handler of exceptions, the two system calls and the delivery of messages.
pub mod Deliver
pub mod Post
pub mod Send
pub mod Receive
pub mod Mailbox
pub mod Shown
pub mod Refinement
pub mod Taking
use Prim.Native.Nat.{bit_and}
use project.Common.{
  ℕ, zero, suc, ◌+◌, ◌-◌, ◌^◌, ◌%◌, Bool, true, false, not, ◌&&◌, ◌||◌, ◌==◌, leb, ltb, update,
  if◌then◌else◌,
}
use project.Listx.{null}
use project.Types.{
  State, StateT, Pcb, Msg, Support, msg_no_good, dest_not_exist, any_message, parent,
  send_message_code, receive_message_code, pg_fault_except, general_except, get_exec_code,
  interrupt_handler_msg, ssi_fake_addr, msg_inbox,
}
use project.Types.Machine.{
  Cmd, pure, ◌>>=◌, ◌>>◌, gets, modify, leave, on_pcb, on_msg, ldcxt, panicked,
}
use project.Pcb.{search_pcb, insert_proc_q, is_pcb_valid}
use project.Msg.{alloc_msg, free_msg, insert_message, pop_message}
use project.Utils.{terminate_process, update_cpu_time}
use project.Scheduler.{scheduler}

-- The state that a handler works on: the saved one at BIOSDATAPAGE, or that in a process.
pub data StateRef : Type 0 where
  at_bios : StateRef
  at_pcb : ℕ → StateRef

abbrev pub read_state : StateRef → State → StateT
read_state at_bios s = s.bios
read_state (at_pcb p) s = (s.pcb p).p_s

abbrev pub write_state : StateRef → (StateT → StateT) → Cmd (Unit {0})
write_state at_bios f = modify (λ s. record s { bios = f s.bios })
write_state (at_pcb p) f = on_pcb p (λ b. record b { p_s = f b.p_s })

-- The registers are written in one step: between the assignments of the source only `reg_a2` is
-- read, which they leave alone.
unfoldable pub deliver_message : StateRef → (msg : ℕ) → Cmd (Unit {0})
deliver_message p msg = do
  sender ← gets (λ s. (s.msg msg).m_sender)
  ssi ← gets (λ s. s.ssi_pcb_real)
  let tmp_sender = if sender == ssi then ssi_fake_addr else sender
  payload_destination ← gets (λ s. (read_state p s).reg_a2)
  payload ← gets (λ s. (s.msg msg).m_payload)
  if payload_destination == null
      then pure tt
      else modify (λ s. record s { ram = update s.ram payload_destination payload })
  write_state p (λ r. record r { reg_a0 = tmp_sender; pc_epc = (r.pc_epc + 4) % 2 ^ 32 })
  free_msg msg

unfoldable pub is_waiting_for_me : (sender dest : ℕ) → Cmd Bool
is_waiting_for_me sender dest = do
  ssi ← gets (λ s. s.ssi_pcb_real)
  let me = if sender == ssi then ssi_fake_addr else sender
  wanted ← gets (λ s. (s.pcb dest).p_s.reg_a1)
  pure (wanted == me || wanted == any_message)

-- phase2/ssi.c: the requests after which a process waits for the outside. DOIO is 3, CLOCKWAIT 5.
unfoldable pub is_a_softblocking_request : State → ℕ → Bool
is_a_softblocking_request s p = s.ram p == 3 || s.ram p == 5

-- The flag that a request for input, output or the clock sets in its sender.
unfoldable pub mark_softblocking : (dest payload sender : ℕ) → Cmd (Unit {0})
unfolding is_a_softblocking_request
mark_softblocking dest payload sender = do
  ssi ← gets (λ s. s.ssi_pcb_real)
  soft ← gets (λ s. is_a_softblocking_request s payload)
  current ← gets (λ s. s.current_process)
  if (dest == ssi) && (not (sender == interrupt_handler_msg) && soft)
      then on_pcb current (λ b. record b { do_io = 1 })
      else pure tt

-- Whether `dest` is blocked on a receive that this message ends.
unfoldable pub is_blocked_for : (sender dest : ℕ) → Cmd Bool
unfolding is_waiting_for_me
is_blocked_for sender dest = do
  ready ← gets (λ s. s.ready_queue)
  in_ready ← search_pcb ready dest
  current ← gets (λ s. s.current_process)
  if in_ready
      then pure false
      else if dest == current
      then pure false
      else is_waiting_for_me sender dest

-- A process that waited for the outside does so no longer.
unfoldable pub unblock : ℕ → Cmd (Unit {0})
unblock dest = do
  io ← gets (λ s. (s.pcb dest).do_io)
  if io == 0 then pure tt else (do
    on_pcb dest (λ b. record b { do_io = 0 })
    modify (λ s. record s { softblock_count = (s.softblock_count + 2 ^ 32 - 1) % 2 ^ 32 }))

-- The receiver becomes ready, and has the message.
unfoldable pub wake : (dest msg : ℕ) → Cmd (Unit {0})
unfolding unblock deliver_message
wake dest msg = do
  ready ← gets (λ s. s.ready_queue)
  insert_proc_q ready dest
  unblock dest
  deliver_message (at_pcb dest) msg

unfoldable pub fill_message : (msg payload sender : ℕ) → Cmd (Unit {0})
fill_message msg payload sender = do
  ssi ← gets (λ s. s.ssi_pcb_real)
  on_msg msg (λ m. record m { m_payload = payload })
  on_msg msg (λ m. record m { m_sender = if sender == ssi then ssi_fake_addr else sender })

-- What `send_message` does with the message that it got.
unfoldable pub post : (dest payload sender msg : ℕ) → Cmd ℕ
unfolding fill_message mark_softblocking is_blocked_for wake
post dest payload sender msg = do
  fill_message msg payload sender
  mark_softblocking dest payload sender
  blocked ← is_blocked_for sender dest
  if blocked then wake dest msg else insert_message (msg_inbox dest) msg
  pure 0

unfoldable pub send_message : (dest payload sender : ℕ) → Cmd ℕ
unfolding post
send_message dest payload sender = do
  msg ← alloc_msg
  if msg == null then pure msg_no_good else post dest payload sender msg

unfoldable pub send_message_to_ssi : ℕ → Cmd (Unit {0})
unfolding send_message
send_message_to_ssi payload = do
  ssi ← gets (λ s. s.ssi_pcb_real)
  _ ← send_message ssi payload interrupt_handler_msg
  pure tt

unfoldable pub block_sys : {A : Type 0} → Cmd A
block_sys = do
  current ← gets (λ s. s.current_process)
  saved ← gets (λ s. s.bios)
  on_pcb current (λ b. record b { p_s = saved })
  io ← gets (λ s. (s.pcb current).do_io)
  if io == 0
      then pure tt
      else modify (λ s. record s { softblock_count = (s.softblock_count + 1) % 2 ^ 32 })
  modify (λ s. record s { current_process = null })
  scheduler

unfoldable pub pass_up_or_die : {A : Type 0} → ℕ → Cmd A
pass_up_or_die excp_value = do
  current ← gets (λ s. s.current_process)
  support ← gets (λ s. (s.pcb current).p_support_struct)
  saved ← gets (λ s. s.bios)
  if support == null
      then (do
        terminate_process current
        modify (λ s. record s { current_process = null })
        scheduler)
      else (do
        modify (λ s. record s {
          support = update s.support support (record (s.support support) {
            sup_except_state = update (s.support support).sup_except_state excp_value saved;
          });
        })
        c ← gets (λ s. (s.support support).sup_except_context excp_value)
        leave (ldcxt c.stack_ptr c.status c.pc))

unfoldable pub trap_handler : {A : Type 0} → Cmd A
unfolding pass_up_or_die
trap_handler = pass_up_or_die general_except

unfoldable pub tlb_handler : {A : Type 0} → Cmd A
unfolding pass_up_or_die
tlb_handler = pass_up_or_die pg_fault_except

-- Which process the destination in `reg_a1` names.
unfoldable pub resolve : State → ℕ → ℕ
resolve s dest =
    if dest == ssi_fake_addr
    then s.ssi_pcb_real
    else if dest == parent
    then (s.pcb s.current_process).p_parent
    else dest

-- SENDMESSAGE up to the call of `scheduler`.
unfoldable pub send_case : Cmd (Unit {0})
unfolding resolve send_message
send_case = do
  dest ← gets (λ s. resolve s s.bios.reg_a1)
  payload ← gets (λ s. s.bios.reg_a2)
  valid ← is_pcb_valid dest
  current ← gets (λ s. s.current_process)
  return_val ← (if valid then send_message dest payload current else pure dest_not_exist)
  write_state at_bios (λ r. record r { reg_a0 = return_val })
  write_state at_bios (λ r. record r { pc_epc = (r.pc_epc + 4) % 2 ^ 32 })

unfoldable pub receive_case : {A : Type 0} → Cmd A
unfolding deliver_message block_sys
receive_case = do
  sender ← gets (λ s. s.bios.reg_a1)
  current ← gets (λ s. s.current_process)
  msg ← pop_message (msg_inbox current) sender
  if msg == null then block_sys else do
    io ← gets (λ s. (s.pcb current).do_io)
    if io == 0 then pure tt else on_pcb current (λ b. record b { do_io = 0 })
    deliver_message at_bios msg
    scheduler

unfoldable pub syscall_handler : {A : Type 0} → Cmd A
unfolding send_case receive_case trap_handler pass_up_or_die
syscall_handler = do
  cause ← gets (λ s. s.mcause)
  if bit_and cause get_exec_code == 8 then trap_handler else do
    code ← gets (λ s. s.bios.reg_a0)
    if code == send_message_code
        then (do send_case; scheduler)
        else if code == receive_message_code
        then receive_case
        else pass_up_or_die general_except
