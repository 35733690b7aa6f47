-- ===== src/Scheduler.antt =====
-- phase2/scheduler.c: what runs next, or why nothing does.
pub mod Outcome
use Prim.Native.Nat.{bit_xor}
use project.Common.{ℕ, ◌*◌, ◌%◌, ◌^◌, Bool, not, ◌&&◌, ◌==◌, ltb, if◌then◌else◌}
use project.Listx.{null, list_empty}
use project.Types.{
  State, StateT, time_slice, time_scale_addr, mie_all, mie_mtie_mask, mstatus_mie_bit,
}
use project.Types.Machine.{
  Cmd, pure, ◌>>=◌, ◌>>◌, gets, modify, leave, ldst, halted, panicked, waiting,
}
use project.Pcb.{remove_proc_q, search_pcb}

-- The timer and the clock from which the time of a process counts, as `load_state` sets them.
unfoldable pub restart_clock : Cmd (Unit {0})
restart_clock = do
  modify (λ s. record s { timer = time_slice * s.ram time_scale_addr % 2 ^ 32 })
  modify (λ s. record s { tod_timer = s.tod })

unfoldable pub load_state : {A : Type 0} → StateT → Cmd A
unfolding restart_clock
load_state st = do restart_clock; leave (ldst st)

-- The head of the ready queue becomes the running process.
unfoldable pub dispatch : {A : Type 0} → Cmd A
unfolding load_state
dispatch = do
  ready ← gets (λ s. s.ready_queue)
  next ← remove_proc_q ready
  modify (λ s. record s { current_process = next })
  st ← gets (λ s. (s.pcb next).p_s)
  load_state st

-- The part of `scheduler` that selects a process. Neither HALT, PANIC nor WAIT returns: an
-- interrupt enters the kernel at its handler, on a fresh stack.
unfoldable pub select_next : {A : Type 0} → Cmd A
unfolding dispatch
select_next = do
  ready ← gets (λ s. s.ready_queue)
  is_empty ← gets (λ s. list_empty s.links ready)
  blocked ← gets (λ s. s.softblock_count)
  if is_empty
      then (if ltb 0 blocked
          then (do
            modify (λ s. record s { mie = bit_xor mie_all mie_mtie_mask })
            modify (λ s. record s { mstatus = 2 ^ mstatus_mie_bit })
            leave waiting)
          else leave panicked)
      else dispatch

unfoldable pub scheduler : {A : Type 0} → Cmd A
unfolding load_state select_next
scheduler = do
  current ← gets (λ s. s.current_process)
  saved ← gets (λ s. s.bios)
  if not (current == null) then load_state saved else do
    count ← gets (λ s. s.process_count)
    ready ← gets (λ s. s.ready_queue)
    ssi ← gets (λ s. s.ssi_pcb)
    if count == 1
        then (do found ← search_pcb ready ssi; if found then select_next else leave halted)
        else select_next
