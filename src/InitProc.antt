-- ===== src/InitProc.antt =====
-- phase3/initProc.c: the process that starts the mutex process and the service threads, waits for
-- the user processes to end, and ends itself.
pub mod Filled
pub mod Threads
pub mod Started
use Prim.Native.Nat.{bit_or}
use project.Common.{ℕ, [], zero, suc, ◌+◌, ◌-◌, ◌*◌, ◌%◌, ◌^◌, update}
use project.Listx.{null}
use project.Types.{
  State, StateT, Support, Context, any_message, mie_all, mstatus_mpp_m, mstatus_mpie_mask,
  uproc_max, pg_fault_except, general_except,
}
use project.Types.Machine.{Cmd, Outcome, ret, exit}
use project.Support.{alloc_support, init_supports}
use project.Vm.{VmState, init_swap_structs, mark_free_pages}
use project.Actor.{
  Actor, Ending, Reply, Run, endless, receive, p_create, p_term, done_with, ◌>>=◌, ◌>>◌,
}

abbrev pub qpage : ℕ
qpage = 1024

abbrev pub asid_shift : ℕ
asid_shift = 6

abbrev pub mstatus_mie_mask : ℕ
mstatus_mie_mask = 8

-- Addresses of four functions, and the states that STST stores: that of `tmp`, and those of the loop.
pub record UserImage : Type 0 where
  pub mutex_proc : ℕ
  pub sst : ℕ
  pub tlb_handler : ℕ
  pub general_exception_handler : ℕ
  pub stst : StateT
  pub stst_of : ℕ → StateT

-- The globals of phase3/, with the memory of the support structures.
pub record Globals : Type 0 where
  pub memory : State
  pub vm : VmState
  pub stacks : ℕ → ℕ
  pub sst_pcbs : ℕ → ℕ
  pub mutex_pcb : ℕ

-- A call of a function of the kernel's library, with interrupts off.
unfoldable pub call : {A : Type 0} → Cmd A → Globals → Actor (A × Globals)
call m g script = elim (m g.memory) [
  | ret a s ↦ done_with (a, record g { memory = s }) script
  | exit e s ↦ record { ending = endless; left = script; calls = [] }
]

-- The loop over `stacks`, by the rounds left: the stack pointer, and the array.
unfoldable pub lay_stacks : (rounds i stack_ptr : ℕ) → (ℕ → ℕ) → ℕ × (ℕ → ℕ)
lay_stacks zero i stack_ptr stacks = (stack_ptr, stacks)
lay_stacks (suc n) i stack_ptr stacks =
    let next = (stack_ptr + 2 ^ 32 - 2 * qpage) % 2 ^ 32 in
    lay_stacks n (i + 1) next (update stacks i next)

unfoldable pub mutex_state : UserImage → (stack_ptr : ℕ) → StateT
mutex_state k stack_ptr = record k.stst {
  reg_sp = stack_ptr;
  pc_epc = k.mutex_proc;
  status = bit_or mstatus_mpp_m mstatus_mpie_mask;
  mie = mie_all;
}

unfoldable pub sst_state : UserImage → (i stack_ptr : ℕ) → StateT
sst_state k i stack_ptr = record (k.stst_of i) {
  entry_hi = i * 2 ^ asid_shift;
  reg_sp = stack_ptr;
  pc_epc = k.sst;
  status = bit_or (k.stst_of i).status (bit_or mstatus_mpp_m mstatus_mpie_mask);
  mie = mie_all;
}

-- The context of an exception.
unfoldable pub handler_context : (stack_ptr pc : ℕ) → Context
handler_context stack_ptr pc = record {
  stack_ptr = stack_ptr;
  status = bit_or (bit_or mstatus_mpp_m mstatus_mpie_mask) mstatus_mie_mask;
  pc = pc;
}

-- The fields of the support structure that the loop fills in.
unfoldable pub filled_support : UserImage → (i : ℕ) → (stacks : ℕ → ℕ) → Support → Support
unfolding handler_context
filled_support k i stacks s = record s {
  sup_asid = i;
  sup_except_context =
      update
        (update s.sup_except_context pg_fault_except
          (handler_context (stacks (i - 1)) k.tlb_handler))
        general_except (handler_context (stacks (uproc_max + i - 1)) k.general_exception_handler);
}

unfoldable pub fill_support : UserImage → (i s : ℕ) → Globals → Globals
fill_support k i s g = record g {
  memory = record g.memory {
    support = update g.memory.support s (filled_support k i g.stacks (g.memory.support s));
  };
}

-- The loop that creates the service threads, by the rounds left.
unfoldable pub create_ssts : UserImage → (rounds i stack_ptr : ℕ) → Globals → Actor Globals
create_ssts k zero i stack_ptr g = done_with g
create_ssts k (suc n) i stack_ptr g = do
  let sp = (stack_ptr + 2 ^ 32 - qpage) % 2 ^ 32
  (s, g1) ← call alloc_support g
  let g2 = fill_support k i s g1
  p ← p_create (sst_state k i sp) s
  create_ssts k n (i + 1) sp (record g2 { sst_pcbs = update g2.sst_pcbs (i - 1) p })

-- The loop that waits for the user processes to end, by the rounds left.
unfoldable pub await_ends : (rounds : ℕ) → Globals → Actor Globals
await_ends zero g = done_with g
await_ends (suc n) g = do
  r ← receive any_message
  let asid = (g.memory.support (g.memory.pcb r.sender).p_support_struct).sup_asid
  await_ends n (record g { vm = mark_free_pages asid g.vm })

-- The globals are those when it ends.
unfoldable pub test : UserImage → Globals → Actor Globals
test k g = do
  (_, g1) ← call init_supports (record g { vm = init_swap_structs g.vm })
  let (sp, stacks) = lay_stacks (uproc_max * 2) 0 k.stst.reg_sp g1.stacks
  let mutex_sp = (sp + 2 ^ 32 - qpage) % 2 ^ 32
  mutex_pcb ← p_create (mutex_state k mutex_sp) null
  g2 ← create_ssts k uproc_max 1 mutex_sp (record g1 { stacks = stacks; mutex_pcb = mutex_pcb })
  g3 ← await_ends uproc_max g2
  p_term mutex_pcb
  p_term null
  done_with g3
