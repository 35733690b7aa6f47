-- ===== src/Tests/Passing.antt =====
-- Exceptions that are passed up to a process of a user, at concrete inputs.
use project.Common.{ℕ, ◌+◌, ◌==◌, if◌then◌else◌, ◌≡◌, refl, [], ◌∷◌}
use project.Types.{StateT, ssi_fake_addr}
use project.Pcb.{zero_state}
use project.Actor.{Reply, sent, asked, word, get_support_ptr, starved, resumed}
use project.SysSupport.{Env, peer, general_exception_handler}
use project.SysSupport.Outcome.{
  last_calls, general_exception_handler-trapped, general_exception_handler-served,
}
use project.Tests.Memory.{arch, a_support}

-- At 600 stand the saved states of a process that calls with code 7, at 601 those of one that sends
-- 33 to its parent; its address space is 4.
abbrev in_call : ℕ → StateT
in_call code = record zero_state { cause = 8; reg_a0 = code; reg_a2 = 33; pc_epc = 40 }

abbrev env : Env
env = record {
  arch = arch;
  mutex_pcb = 3000;
  sst_pcbs = λ i. 5000 + i;
  support_at = λ p. record a_support {
    sup_asid = 4;
    sup_except_state = λ _. in_call (if p == 600 then 7 else 1);
  };
  ram = λ _. 0;
  tod = 0;
}

abbrev at : ℕ → Reply
at p = record { sender = 2; payload = p }

general_exception_handler-trapped_example : general_exception_handler env (at 600 ∷ []) ≡ record {
  ending = starved;
  left = [];
  calls = sent ssi_fake_addr get_support_ptr ∷ asked ssi_fake_addr ∷ last_calls env;
}
general_exception_handler-trapped_example = general_exception_handler-trapped env (at 600) refl

general_exception_handler-served_example :
    general_exception_handler env (at 601 ∷ at 0 ∷ []) ≡ record {
      ending = resumed (record (in_call 0) { pc_epc = 44 });
      left = [];
      calls = sent ssi_fake_addr get_support_ptr ∷ asked ssi_fake_addr ∷ sent 5003 (word 33) ∷ [];
    }
unfolding peer
general_exception_handler-served_example =
    general_exception_handler-served env (at 601) (at 0) [] refl
