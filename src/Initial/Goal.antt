-- ===== src/Initial/Goal.antt =====
-- What main of phase2/initial.c has to bring about before the first process runs.
use project.Common.{ℕ, ◌+◌, ◌-◌, ◌%◌, ◌^◌, ◌<◌, ◌≡◌, refl, Bool, true, List, [], ◌∷◌, update}
use project.Listx.Heap.{IsHeap}
use project.Types.{p_child, msg_inbox, max_device, StateT, State, p_list}
use project.Types.Machine.{Outcome, exit, ldst}
use project.Pcb.Alloc.{erased}
use project.Msg.Init.{all_messages}
use project.Initial.{Image, kernel_stack, pass_up_vector, ram_top}
use project.Initial.Blocks.{block, below}
use project.Utils.Queues.{queue_at}
use project.Initial.Pair.{IsEmptyList}

-- The state with the pass up vector filled in.
abbrev pub filled : Image → State → State
filled k s = record s {
  ram =
      update
        (update
          (update
            (update s.ram (pass_up_vector + k.tlb_refill_handler_offset) k.utlb_refill_handler)
            (pass_up_vector + k.tlb_refill_stack_ptr_offset) kernel_stack)
          (pass_up_vector + k.exception_handler_offset) k.exception_handler)
        (pass_up_vector + k.exception_stack_ptr_offset) kernel_stack;
}

-- The pass up vector as uriscv documents it: four words, each handler before its stack.
pub record IsUriscvVector (k : Image) : Type 0 where
  pub refill : k.tlb_refill_handler_offset ≡ 0
  pub refill_stack : k.tlb_refill_stack_ptr_offset ≡ 4
  pub handler : k.exception_handler_offset ≡ 8
  pub handler_stack : k.exception_stack_ptr_offset ≡ 12

-- The words that the machine finds when it passes an exception up.
pub record HasVector (k : Image) (ram : ℕ → ℕ) : Type 0 where
  pub refill : ram 0x0FFFF900 ≡ k.utlb_refill_handler
  pub refill_stack : ram 0x0FFFF904 ≡ 0x20001000
  pub handler : ram 0x0FFFF908 ≡ k.exception_handler
  pub handler_stack : ram 0x0FFFF90C ≡ 0x20001000

pub filled-HasVector : (k : Image) (s : State) → IsUriscvVector k → HasVector k (filled k s).ram
filled-HasVector k s u = record {
  refill = rw (u.refill, u.refill_stack, u.handler, u.handler_stack) refl;
  refill_stack = rw (u.refill, u.refill_stack, u.handler, u.handler_stack) refl;
  handler = rw (u.refill, u.refill_stack, u.handler, u.handler_stack) refl;
  handler_stack = rw (u.refill, u.refill_stack, u.handler, u.handler_stack) refl;
}

-- The top of memory, from the two words of the machine that hold its start and its size.
abbrev pub memory_top : State → ℕ
memory_top s = (s.ram 0x10000000 + s.ram 0x10000004) % 2 ^ 32

-- A first process: in kernel mode, with all interrupts on once its state is loaded.
abbrev pub first_state : (sp pc : ℕ) → StateT
first_state sp pc = record (erased 0).p_s {
  status = 0x1880;
  mie = 0xFFFFFFFF;
  reg_sp = sp;
  pc_epc = pc;
}

pub ram_top_filled :
    (k : Image) (s : State) → IsUriscvVector k → ram_top (filled k s) ≡ memory_top s
unfolding ram_top
ram_top_filled k s u = rw (u.refill, u.refill_stack, u.handler, u.handler_stack) refl

-- The system with its two processes: `f` is the state, `V` are the lists
-- of its heads `H`, and `s` is the state before the start.
pub record IsStarted (k : Image) (s f : State) (H : ℕ → Bool) (V : ℕ → List ℕ) : Type 0 where
  pub ssi_runs : f.current_process ≡ block s.layout 49
  pub ssi_block :
      f.pcb (block s.layout 49)
      ≡ record (erased s.next_pid) { p_s = first_state (memory_top s) k.ssi }
  pub test_block : f.pcb (block s.layout 48) ≡ record (erased ((s.next_pid + 1) % 2 ^ 32)) {
    p_s = first_state ((memory_top s + 2 ^ 32 - 8192) % 2 ^ 32) k.test;
  }
  pub names : (f.ssi_pcb_real ≡ block s.layout 49) × (f.ssi_pcb ≡ 2)
  pub counts : (f.process_count ≡ 2) × (f.softblock_count ≡ 0)
  pub timers : (f.interval_timer ≡ 100000) × (f.tod_timer ≡ s.tod)
  pub vector : HasVector k f.ram
  pub heads : (H s.ready_queue ≡ true) × (H s.pcb_free_h ≡ true) × (H s.msg_free_h ≡ true)
  pub ready : V s.ready_queue ≡ p_list (block s.layout 48) ∷ []
  pub free : V s.pcb_free_h ≡ below s.layout 48
  pub pool : V s.msg_free_h ≡ all_messages s.msg_table
  pub clock : IsEmptyList H V s.pcb_blocked_on_clock
  pub devices : (j : ℕ) → j < max_device → IsEmptyList H V (queue_at s.pcb_blocked_on_device j)
  pub ssi_lists :
      IsEmptyList H V (p_child (block s.layout 49))
      × IsEmptyList H V (msg_inbox (block s.layout 49))
  pub test_lists :
      IsEmptyList H V (p_child (block s.layout 48))
      × IsEmptyList H V (msg_inbox (block s.layout 48))

abbrev pub Starts : {A : Type 0} → Image → State → Outcome A → Type 0
Starts k s o =
    (f : State) × (H : ℕ → Bool) × (V : ℕ → List ℕ) × (o
      ≡ exit (ldst (first_state (memory_top s) k.ssi)) f)
    × IsHeap f.links H V
    × IsStarted k s f H V
