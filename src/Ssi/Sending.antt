-- ===== src/Ssi/Sending.antt =====
-- The system call SENDMESSAGE of the SSI itself: trap, handler and return of phase2/ssi.c's SYSCALL.
use project.Common.{
  ℕ, ◌+◌, ◌-◌, ◌%◌, ◌^◌, ◌≡◌, ◌≢◌, refl, true, arith, ◌==◌, ==_ne, if◌then◌else◌, Bool-cases, inl,
  inr, update,
}
use project.Listx.{null}
use project.Types.{State, parent, ssi_fake_addr, send_message_code}
use project.Types.Machine.{ret}
use project.Pcb.{is_pcb_valid}
use project.Utils.{update_cpu_time}
use project.Scheduler.{restart_clock}
use project.Scheduler.Outcome.{restarted}
use project.Exceptions.{send_case, send_message, resolve}
use project.Exceptions.Post.{marked}
use project.Ssi.{syscall_send}

-- The time that the running process has used is added to its account.
abbrev pub charged : State → State
charged s = record s {
  pcb =
      if s.current_process == null
      then s.pcb
      else update s.pcb s.current_process (record (s.pcb s.current_process) {
        p_time = ((s.pcb s.current_process).p_time + s.tod + 2 ^ 32 - s.tod_timer) % 2 ^ 32;
      });
}

pub update_cpu_time-charged : (s : State) → update_cpu_time s ≡ ret tt (charged s)
unfolding update_cpu_time
update_cpu_time-charged s = elim (Bool-cases (s.current_process == null)) [
  | inl none ↦ rw none refl
  | inr running ↦ rw running refl
]

-- The registers of a call, and when it has returned.
abbrev pub calling : (dest msg : ℕ) → State → State
calling dest msg s = record s {
  bios = record s.bios { reg_a0 = send_message_code; reg_a1 = dest; reg_a2 = msg };
}

abbrev pub returned : ℕ → State → State
returned code s = record s {
  bios = record s.bios { reg_a0 = code; pc_epc = (s.bios.pc_epc + 4) % 2 ^ 32 };
}

resolve_self : (s : State) (dest : ℕ) → dest ≢ ssi_fake_addr → dest ≢ parent → resolve s dest ≡ dest
unfolding resolve
resolve_self s dest n1 n2 = rw (==_ne dest ssi_fake_addr n1, ==_ne dest parent n2) refl

send_case_runs :
    (s s2 : State) (dest code : ℕ)
    → resolve s s.bios.reg_a1 ≡ dest
    → is_pcb_valid dest s ≡ ret true s
    → send_message dest s.bios.reg_a2 s.current_process s ≡ ret code s2
    → send_case s ≡ ret tt (returned code s2)
unfolding send_case
send_case_runs s s2 dest code e v r = rw (e, v) (rw r refl)

pub syscall_send_runs :
    (s s2 : State) (dest msg code : ℕ)
    → dest ≢ ssi_fake_addr
    → dest ≢ parent
    → is_pcb_valid dest (charged (calling dest msg s)) ≡ ret true (charged (calling dest msg s))
    → send_message dest msg s.current_process (charged (calling dest msg s)) ≡ ret code s2
    → syscall_send dest msg s ≡ ret tt (restarted (returned code s2))
unfolding syscall_send restart_clock
syscall_send_runs s s2 dest msg code n1 n2 v r =
    let now = charged (calling dest msg s) in
    let named : resolve now now.bios.reg_a1 ≡ dest = resolve_self now dest n1 n2 in
    let run : send_case now ≡ ret tt (returned code s2) =
      send_case_runs now s2 dest code named v r in
    rw (update_cpu_time-charged (calling dest msg s)) (rw run refl)

pub charged-p_s : (s : State) (x : ℕ) → ((charged s).pcb x).p_s ≡ (s.pcb x).p_s
charged-p_s s x = ground arith

pub marked-same :
    (s : State) (dest payload sender : ℕ)
    → dest ≢ s.ssi_pcb_real
    → marked s dest payload sender ≡ s.pcb
marked-same s dest payload sender ne = rw (==_ne dest s.ssi_pcb_real ne) refl
