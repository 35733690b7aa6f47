-- ===== src/SysSupport/Outcome.antt =====
-- What becomes of a process of a user whose exception phase3/sysSupport.c handles.
use project.Common.{
  ℕ, ◌+◌, ◌-◌, ◌%◌, ◌^◌, ◌≡◌, refl, Bool, true, false, ◌&&◌, ◌||◌, List, [], ◌∷◌, ◌==◌, arith,
  if◌then◌else◌, Bool-cases, inl, inr,
}
use project.Listx.{null}
use project.Types.{StateT, Support, parent, general_except, ssi_fake_addr}
use project.Actor.{
  Reply, Call, sent, asked, asked_into, word, get_support_ptr, term_process, starved, resumed, send,
  receive, receive_into, send_result, p_term,
}
use project.SysSupport.{Env, trap_handler, peer, syscall_handler, general_exception_handler}

-- The saved state of the exception, for an answer of the SSI.
abbrev pub passed_up : Env → Reply → StateT
passed_up env r = (env.support_at r.payload).sup_except_state general_except

-- Whether it is a system call that is passed on to the kernel: code 1 sends, code 2 receives.
abbrev pub is_served : StateT → Bool
is_served s = s.cause == 8 && (s.reg_a0 == 1 || s.reg_a0 == 2)

-- The process that a register names: NULL is the thread of the address space.
abbrev pub named : Env → Support → ℕ → ℕ
named env support p = if p == 0 then env.sst_pcbs ((support.sup_asid + 2 ^ 32 - 1) % 2 ^ 32) else p

-- The kernel's call that stands for that of the process, and what the process finds in `reg_a0`.
abbrev pub kernel_call : (dest : ℕ) → StateT → Call
kernel_call dest s = if s.reg_a0 == 1 then sent dest (word s.reg_a2) else asked_into dest s.reg_a2

abbrev pub answer : StateT → Reply → ℕ
answer s q = if s.reg_a0 == 1 then q.payload else q.sender

-- The calls of a process that is ended: the mutex is released, its thread is told, and the SSI is
-- asked to end it.
abbrev pub last_calls : Env → List Call
last_calls env =
    sent env.mutex_pcb (word (2 ^ 8))
    ∷ sent parent (word 0)
    ∷ sent ssi_fake_addr (term_process null)
    ∷ asked ssi_fake_addr
    ∷ []

module _ (env : Env) (r : Reply) where
  pub trap_handler-last :
      trap_handler env [] ≡ record { ending = starved; left = []; calls = last_calls env }
  unfolding trap_handler send p_term receive
  trap_handler-last = refl

  -- When the exception that is passed up to a process of a user is no system call, or a call with
  -- another code than 1 and 2, `general_exception_handler` asks the SSI for the support structure,
  -- releases the mutex, sends a message to its thread, and asks the SSI to end the process; as long
  -- as the SSI does not answer that, the process does not go on.
  pub general_exception_handler-trapped :
      is_served (passed_up env r) ≡ false
      → general_exception_handler env (r ∷ []) ≡ record {
        ending = starved;
        left = [];
        calls = sent ssi_fake_addr get_support_ptr ∷ asked ssi_fake_addr ∷ last_calls env;
      }
  unfolding general_exception_handler syscall_handler send receive
  general_exception_handler-trapped h = elim (Bool-cases ((passed_up env r).cause == 8)) [
    | inl call ↦ elim (Bool-cases ((passed_up env r).reg_a0 == 1)) [
      | inl sends ↦ absurd (ground (arith, h, call, sends))
      | inr not_send ↦ elim (Bool-cases ((passed_up env r).reg_a0 == 2)) [
        | inl receives ↦ absurd (ground (arith, h, call, receives))
        | inr none ↦ rw (call, not_send, none, trap_handler-last) refl
      ]
    ]
    | inr trap ↦ rw (trap, trap_handler-last) refl
  ]

  -- When the exception is a system call with code 1 or 2, `general_exception_handler` makes the
  -- kernel's call that stands for it, with the thread of the address space in place of the parent, a
  -- received word going to the address in the process's `reg_a2`, and resumes the process behind the
  -- call with the kernel's result in `reg_a0` and every other register as it was.
  pub general_exception_handler-served :
      (q : Reply) (rest : List Reply)
      → is_served (passed_up env r) ≡ true
      → general_exception_handler env (r ∷ q ∷ rest) ≡ record {
        ending = resumed (record (passed_up env r) {
          reg_a0 = answer (passed_up env r) q;
          pc_epc = ((passed_up env r).pc_epc + 4) % 2 ^ 32;
        });
        left = rest;
        calls =
            sent ssi_fake_addr get_support_ptr
            ∷ asked ssi_fake_addr
            ∷ kernel_call
                (named env (env.support_at r.payload) (passed_up env r).reg_a1)
                (passed_up env r)
            ∷ [];
      }
  unfolding general_exception_handler syscall_handler peer send receive receive_into send_result
  general_exception_handler-served q rest h = elim (Bool-cases ((passed_up env r).cause == 8)) [
    | inl call ↦ elim (Bool-cases ((passed_up env r).reg_a0 == 1)) [
      | inl sends ↦ rw (call, sends) refl
      | inr not_send ↦ elim (Bool-cases ((passed_up env r).reg_a0 == 2)) [
        | inl receives ↦ rw (call, not_send, receives) refl
        | inr none ↦ absurd (ground (arith, h, call, not_send, none))
      ]
    ]
    | inr trap ↦ absurd (ground (arith, h, trap))
  ]
