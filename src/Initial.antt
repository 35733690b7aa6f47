-- ===== src/Initial.antt =====
-- phase2/initial.c: the start of the kernel, up to the first process that runs.
pub mod Blocks
pub mod Queues
pub mod Boot
pub mod Made
pub mod Empty
pub mod Pair
pub mod Goal
pub mod First
use Prim.Native.Nat.{bit_or}
use project.Common.{ℕ, zero, suc, ◌+◌, ◌-◌, ◌*◌, ◌%◌, ◌^◌, update}
use project.Listx.{null, init_list_head}
use project.Types.{
  State, StateT, max_device, mie_all, mstatus_mpp_m, mstatus_mpie_mask, psecond, page_size,
  ssi_fake_addr,
}
use project.Types.Machine.{Cmd, pure, ◌>>=◌, ◌>>◌, gets, modify, on_links, on_pcb}
use project.Pcb.{init_pcbs, alloc_pcb, insert_proc_q}
use project.Msg.{init_msgs}
use project.Utils.{device_queue}
use project.Scheduler.{scheduler}

-- What the linker and the machine's headers decide: the addresses of four functions, and the offsets
-- of the fields of the pass up vector.
pub record Image : Type 0 where
  pub utlb_refill_handler : ℕ
  pub exception_handler : ℕ
  pub ssi : ℕ
  pub test : ℕ
  pub tlb_refill_handler_offset : ℕ
  pub tlb_refill_stack_ptr_offset : ℕ
  pub exception_handler_offset : ℕ
  pub exception_stack_ptr_offset : ℕ

-- `PASSUPVECTOR`
abbrev pub pass_up_vector : ℕ
pass_up_vector = 0x0FFFF900

abbrev pub kernel_stack : ℕ
kernel_stack = 0x20001000

-- `RAMTOP`: the sum of two words of the machine.
unfoldable pub ram_top : State → ℕ
ram_top s = (s.ram 0x10000000 + s.ram 0x10000004) % 2 ^ 32

unfoldable pub write_word : (address value : ℕ) → Cmd (Unit {0})
write_word address value = modify (λ s. record s { ram = update s.ram address value })

unfoldable pub fill_pass_up_vector : Image → Cmd (Unit {0})
unfolding write_word
fill_pass_up_vector k = do
  write_word (pass_up_vector + k.tlb_refill_handler_offset) k.utlb_refill_handler
  write_word (pass_up_vector + k.tlb_refill_stack_ptr_offset) kernel_stack
  write_word (pass_up_vector + k.exception_handler_offset) k.exception_handler
  write_word (pass_up_vector + k.exception_stack_ptr_offset) kernel_stack

-- `for (i = 0; i < MAXDEVICE; i++)`, by the rounds left.
unfoldable pub init_device_queues : (rounds i : ℕ) → Cmd (Unit {0})
init_device_queues zero i = pure tt
init_device_queues (suc n) i = do
  queue ← gets (λ s. device_queue s i)
  on_links (λ m. init_list_head m queue)
  init_device_queues n (i + 1)

unfoldable pub init_globals : Cmd (Unit {0})
init_globals = do
  modify (λ s. record s { process_count = 0 })
  modify (λ s. record s { softblock_count = 0 })
  modify (λ s. record s { tod_timer = 0 })
  ready ← gets (λ s. s.ready_queue)
  on_links (λ m. init_list_head m ready)
  modify (λ s. record s { current_process = null })
  init_device_queues max_device 0
  clock ← gets (λ s. s.pcb_blocked_on_clock)
  on_links (λ m. init_list_head m clock)

-- The state in which a first process starts: interrupts on, kernel mode, its stack and its code.
unfoldable pub start_state : (sp pc : ℕ) → StateT → StateT
start_state sp pc r = record r {
  status = bit_or mstatus_mpp_m mstatus_mpie_mask;
  mie = mie_all;
  reg_sp = sp;
  pc_epc = pc;
}

-- `allocPcb`, `insertProcQ` and `process_count++`.
unfoldable pub new_process : Cmd ℕ
new_process = do
  p ← alloc_pcb
  ready ← gets (λ s. s.ready_queue)
  insert_proc_q ready p
  modify (λ s. record s { process_count = (s.process_count + 1) % 2 ^ 32 })
  pure p

unfoldable pub main : {A : Type 0} → Image → Cmd A
main k = do
  fill_pass_up_vector k
  init_pcbs
  init_msgs
  init_globals
  modify (λ s. record s { interval_timer = psecond })
  ssi ← new_process
  modify (λ s. record s { ssi_pcb_real = ssi })
  top ← gets ram_top
  on_pcb ssi (λ b. record b { p_s = start_state top k.ssi b.p_s })
  modify (λ s. record s { ssi_pcb = ssi_fake_addr })
  test_pcb ← new_process
  on_pcb test_pcb
      (λ b. record b { p_s = start_state ((top + 2 ^ 32 - 2 * page_size) % 2 ^ 32) k.test b.p_s })
  scheduler
