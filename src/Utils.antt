-- ===== src/Utils.antt =====
-- phase2/utils.c: termination of a process and its progeny, and the maps from devices to queues.
pub mod Devices
pub mod Queues
pub mod Thin
pub mod Family
pub mod Children
pub mod Siblings
pub mod Ending
pub mod Progeny
use project.Common.{
  ℕ, zero, suc, ◌+◌, ◌-◌, ◌*◌, ◌/◌, ◌%◌, ◌^◌, Bool, true, false, not, ◌==◌, update, if◌then◌else◌,
}
use project.Listx.{null, container_of}
use project.Types.{
  State, Pcb, Arch, max_proc, max_device, sizeof_list_head, il_terminal, p_child, offset_p_sib,
}
use project.Types.Machine.{Cmd, pure, ◌>>=◌, ◌>>◌, gets, modify, leave, on_pcb, panicked, endless}
use project.Pcb.{is_pcb_valid, out_child, out_proc_q, out_proc_q_for_io, empty_child, free_pcb}
use project.Support.{free_support}

-- `hash_from_device_type_number`; `!!transm` is 1 for any `transm` but 0.
unfoldable pub hash_from_device_type_number : Arch → (type number transm : ℕ) → ℕ
hash_from_device_type_number a type number transm =
    let line =
      if type == a.ext_il_index il_terminal then type + (if transm == 0 then 0 else 1) else type in
    line * a.n_dev_per_il + number

-- `comm_add_to_number`, in unsigned words.
unfoldable pub comm_add_to_number : Arch → ℕ → ℕ
unfolding hash_from_device_type_number
comm_add_to_number a command_addr =
    let tmp1 = (command_addr + 2 ^ 32 - a.dev_reg_start) % 2 ^ 32 / a.dev_reg_size in
    let il_number = tmp1 / a.n_dev_per_il in
    let dev_number = tmp1 - il_number * a.n_dev_per_il in
    let tmp2 = a.dev_reg_addr (il_number + 17) dev_number + a.recv_command_offset in
    let transm = if command_addr == tmp2 then 0 else 1 in
    hash_from_device_type_number a il_number dev_number transm

-- `update_cpu_time`; times are 32-bit patterns.
unfoldable pub update_cpu_time : Cmd (Unit {0})
update_cpu_time = do
  current_tod ← gets (λ s. s.tod)
  current ← gets (λ s. s.current_process)
  start ← gets (λ s. s.tod_timer)
  if current == null
      then pure tt
      else on_pcb current
          (λ b. record b { p_time = (b.p_time + current_tod + 2 ^ 32 - start) % 2 ^ 32 })

-- `memcpy`, over bytes, by the bytes left.
unfoldable pub memcpy : (ℕ → ℕ) → (d s len : ℕ) → ℕ → ℕ
memcpy mem d s zero = mem
memcpy mem d s (suc len) = memcpy (update mem d (mem s)) (d + 1) (s + 1) len

-- `&pcb_blocked_on_device[i]`
abbrev pub device_queue : State → ℕ → ℕ
device_queue s i = s.pcb_blocked_on_device + i * sizeof_list_head

-- The loop over the device queues, by the rounds left: whether the process was in one of them.
unfoldable pub out_of_devices : (p : ℕ) → (rounds i : ℕ) → Bool → Cmd Bool
out_of_devices p zero i was_blocked = pure was_blocked
out_of_devices p (suc n) i was_blocked = do
  queue ← gets (λ s. device_queue s i)
  found ← out_proc_q_for_io queue p
  out_of_devices p n (i + 1) (if found == p then true else was_blocked)

-- `while (!emptyChild(p)) terminate_process(first child)`, for the function that it calls.
unfoldable pub terminate_children : (ℕ → Cmd (Unit {0})) → (fuel p : ℕ) → Cmd (Unit {0})
terminate_children terminate zero p = leave endless
terminate_children terminate (suc fuel) p = do
  is_empty ← empty_child p
  let rest : Cmd (Unit {0}) = do
    child ← gets (λ s. container_of (s.links.next (p_child p)) offset_p_sib)
    terminate child
    terminate_children terminate fuel p
  if is_empty then pure tt else rest

-- A process has fewer descendants than there are blocks, and fewer children.
abbrev pub tree_fuel : ℕ
tree_fuel = max_proc + 1

-- Everything that `terminate_process` does before it turns to the children.
unfoldable pub take_out : ℕ → Cmd (Unit {0})
unfolding out_of_devices
take_out p = do
  _ ← out_child p
  ready ← gets (λ s. s.ready_queue)
  _ ← out_proc_q ready p
  on_device ← out_of_devices p max_device 0 false
  clock ← gets (λ s. s.pcb_blocked_on_clock)
  found ← out_proc_q clock p
  let was_blocked = if found == p then true else on_device
  modify (λ s. record s { process_count = (s.process_count + 2 ^ 32 - 1) % 2 ^ 32 })
  if was_blocked
      then modify (λ s. record s {
        softblock_count = (s.softblock_count + 2 ^ 32 - (s.pcb p).do_io) % 2 ^ 32;
      })
      else pure tt

unfoldable pub terminate_process_fuel : (fuel p : ℕ) → Cmd (Unit {0})
unfolding take_out terminate_children
terminate_process_fuel zero p = leave endless
terminate_process_fuel (suc fuel) p = do
  ssi ← gets (λ s. s.ssi_pcb_real)
  if p == ssi then leave panicked else do
    valid ← is_pcb_valid p
    if not valid then pure tt else do
      take_out p
      terminate_children (terminate_process_fuel fuel) tree_fuel p
      support ← gets (λ s. (s.pcb p).p_support_struct)
      if support == null then pure tt else free_support support
      free_pcb p

unfoldable pub terminate_process : ℕ → Cmd (Unit {0})
unfolding terminate_process_fuel
terminate_process = terminate_process_fuel tree_fuel
