-- ===== src/SysSupport.antt =====
-- phase3/sysSupport.c: the exceptions that the kernel passes up to the processes of users.
pub mod Outcome
use project.Common.{ℕ, ◌+◌, ◌-◌, ◌%◌, ◌^◌, ◌==◌, if◌then◌else◌}
use project.Listx.{null}
use project.Types.{asid_index, Support, Arch, parent, general_except, ssi_fake_addr}
use project.Actor.{
  Actor, word, get_support_ptr, send, receive, receive_into, send_result, p_term, resume, ◌>>=◌,
  ◌>>◌,
}

-- The globals of phase3/ and the memory that its processes read.
pub record Env : Type 0 where
  pub arch : Arch
  pub mutex_pcb : ℕ
  pub sst_pcbs : ℕ → ℕ
  pub support_at : ℕ → Support
  pub ram : ℕ → ℕ
  pub tod : ℕ

-- A release of the mutex, a word to the parent, and the end of the process itself.
unfoldable pub trap_handler : Env → Actor (Unit {0})
trap_handler env = do send env.mutex_pcb (word (2 ^ 8)); send parent (word 0); p_term null

-- The process that a register names: 0 stands for the service thread of the address space.
unfoldable pub peer : Env → Support → ℕ → ℕ
peer env support named =
    if named == parent then env.sst_pcbs (asid_index support.sup_asid) else named

-- A received word goes where `reg_a2` points.
unfoldable pub syscall_handler : Env → Support → Actor (Unit {0})
unfolding peer
syscall_handler env support = do
  let s = support.sup_except_state general_except
  let next = (s.pc_epc + 4) % 2 ^ 32
  if s.reg_a0 == 1
      then (do
        code ← send_result (peer env support s.reg_a1) (word s.reg_a2)
        resume (record s { reg_a0 = code; pc_epc = next }))
      else if s.reg_a0 == 2
      then (do
        r ← receive_into (peer env support s.reg_a1) s.reg_a2
        resume (record s { reg_a0 = r.sender; pc_epc = next }))
      else (do trap_handler env; resume (record s { pc_epc = next }))

unfoldable pub general_exception_handler : Env → Actor (Unit {0})
unfolding syscall_handler
general_exception_handler env = do
  send ssi_fake_addr get_support_ptr
  r ← receive ssi_fake_addr
  let support = env.support_at r.payload
  if (support.sup_except_state general_except).cause == 8
      then syscall_handler env support
      else trap_handler env
