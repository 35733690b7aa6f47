-- ===== src/Ssi.antt =====
-- phase2/ssi.c: the System Service Interface, the process that serves the requests of the others.
pub mod Payload
pub mod Requests
pub mod Create
pub mod Clock
pub mod Sending
pub mod Answer
pub mod Waiters
pub mod Tick
use Prim.Native.Nat.{bit_and}
use project.Common.{
  ℕ, zero, suc, ◌+◌, ◌-◌, ◌*◌, ◌/◌, ◌%◌, ◌^◌, Bool, true, false, not, ◌==◌, update, if◌then◌else◌,
}
use project.Listx.{null}
use project.Types.{
  State, StateT, Pcb, Arch, no_proc, max_proc, send_message_code, interrupt_handler_msg,
  sizeof_list_head,
}
use project.Types.Machine.{
  Cmd, pure, ◌>>=◌, ◌>>◌, gets, modify, leave, on_pcb, panicked, endless, exit,
}
use project.Pcb.{
  alloc_pcb, insert_child, insert_proc_q, insert_proc_q_for_io, out_proc_q_for_io,
  remove_proc_q_for_io,
}
use project.Utils.{
  terminate_process, comm_add_to_number, hash_from_device_type_number, update_cpu_time,
  device_queue,
}
use project.Exceptions.{write_state, at_bios, send_case}
use project.Interrupts.{bit_set}
use project.Scheduler.{restart_clock}

-- `SYSCALL(SENDMESSAGE, dest, msg, 0)` of the running process: the trap saves its registers, the
-- kernel serves the call, and `scheduler` goes on with the same process.
unfoldable pub syscall_send : (dest msg : ℕ) → Cmd (Unit {0})
unfolding send_case update_cpu_time restart_clock
syscall_send dest msg = do
  write_state at_bios (λ r. record r { reg_a0 = send_message_code; reg_a1 = dest; reg_a2 = msg })
  update_cpu_time
  send_case
  restart_clock

unfoldable pub create_process : (sender p : ℕ) → Cmd ℕ
create_process sender p = do
  new_p ← alloc_pcb
  if new_p == null then pure null else do
    st ← gets (λ s. s.state_at (s.ram p))
    support ← gets (λ s. s.ram (p + 4))
    on_pcb new_p (λ b. record b { p_s = st })
    on_pcb new_p (λ b. record b { p_support_struct = support })
    insert_child sender new_p
    ready ← gets (λ s. s.ready_queue)
    insert_proc_q ready new_p
    modify (λ s. record s { process_count = (s.process_count + 1) % 2 ^ 32 })
    pure new_p

-- `_terminate_process`
unfoldable pub terminate_request : (sender p : ℕ) → Cmd (Unit {0})
terminate_request sender p = if p == null then terminate_process sender else terminate_process p

unfoldable pub do_io : (sender p : ℕ) → Cmd (Unit {0})
do_io sender p = do
  command_addr ← gets (λ s. s.ram p)
  n ← gets (λ s. comm_add_to_number s.arch command_addr)
  on_pcb sender (λ b. record b { do_io = 1 })
  queue ← gets (λ s. device_queue s n)
  _ ← out_proc_q_for_io queue sender
  insert_proc_q_for_io queue sender
  modify (λ s. record s { ram = update s.ram (s.ram p) (s.ram (p + 4)) })

unfoldable pub get_cpu_time : ℕ → Cmd ℕ
get_cpu_time p = gets (λ s. (s.pcb p).p_time)

unfoldable pub wait_for_clock : ℕ → Cmd (Unit {0})
wait_for_clock p = do clock ← gets (λ s. s.pcb_blocked_on_clock); insert_proc_q_for_io clock p

unfoldable pub get_support_data : ℕ → Cmd ℕ
get_support_data p = gets (λ s. (s.pcb p).p_support_struct)

unfoldable pub get_process_id : (sender arg : ℕ) → Cmd ℕ
get_process_id sender arg = do
  par ← gets (λ s. (s.pcb sender).p_parent)
  if arg == 0
      then gets (λ s. (s.pcb sender).p_pid)
      else if par == null
      then pure 0
      else gets (λ s. (s.pcb par).p_pid)

unfoldable pub answer_do_io : (device_type device_number transm status : ℕ) → Cmd (Unit {0})
unfolding syscall_send
answer_do_io device_type device_number transm status = do
  a ← gets (λ s. s.arch)
  let tmp = hash_from_device_type_number a device_type device_number transm
  queue ← gets (λ s. device_queue s tmp)
  dest ← remove_proc_q_for_io queue
  if dest == null then pure tt else syscall_send dest status

-- `while ((dest = removeProcQForIO(…)))`; each round takes one process out of the queue.
unfoldable pub answer_loop : ℕ → Cmd (Unit {0})
unfolding syscall_send
answer_loop zero s = exit endless s
answer_loop (suc fuel) s =
    (do
      clock ← gets (λ s. s.pcb_blocked_on_clock)
      dest ← remove_proc_q_for_io clock
      let again : Cmd (Unit {0}) = do syscall_send dest 0; answer_loop fuel
      if dest == null then pure tt else again)
      s

unfoldable pub answer_wait_for_clock : Cmd (Unit {0})
unfolding answer_loop
answer_wait_for_clock = answer_loop (max_proc + 1)

-- A message of the interrupt handler: its four bytes, the lowest one first.
unfoldable pub serve_interrupt : ℕ → Cmd (Unit {0})
serve_interrupt payload =
    let service = payload % 256 in
    let status = payload / 2 ^ 8 % 256 in
    let device_type = payload / 2 ^ 16 % 256 in
    let device_number = payload / 2 ^ 24 % 256 in
    if service == 0
    then answer_do_io device_type (bit_and device_number (2 ^ 32 - 1 - 2 ^ 7))
        (bit_and device_number (2 ^ 7)) status
    else if service == 1
    then answer_wait_for_clock
    else leave panicked

-- A request of a process: the code and the argument stand where the payload points.
unfoldable pub serve_request : (sender payload : ℕ) → Cmd (Unit {0})
serve_request sender payload = do
  code ← gets (λ s. s.ram payload)
  arg ← gets (λ s. s.ram (payload + 4))
  if code == 1
      then (do
        p ← create_process sender arg
        syscall_send sender (if p == null then no_proc else p))
      else if code == 2
      then (do terminate_request sender arg; syscall_send sender 0)
      else if code == 3
      then do_io sender arg
      else if code == 4
      then (do t ← get_cpu_time sender; syscall_send sender t)
      else if code == 5
      then wait_for_clock sender
      else if code == 6
      then (do s ← get_support_data sender; syscall_send sender s)
      else if code == 7
      then (do pid ← get_process_id sender arg; syscall_send sender pid)
      else terminate_process sender

-- One round of the loop of `ssi`, from the return of its receive.
unfoldable pub ssi_round : (sender payload : ℕ) → Cmd (Unit {0})
ssi_round sender payload =
    if sender == interrupt_handler_msg
    then serve_interrupt payload
    else serve_request sender payload
