-- ===== src/Ssi/Clock.antt =====
-- The queue of the clock in phase2/ssi.c and phase2/utils.c: a process is linked there through `p_io`, and
-- terminate_process looks for it through `p_list`.
use project.Common.{
  ℕ, ◌≤◌, ◌<◌, ◌≡◌, ◌≢◌, refl, sym, Bool, true, false, List, [], ◌∷◌, ◌++◌, arith, has, length,
  length-append, update, update_same, update_self, erase_absent, has-append,
}
use project.Listx.{null}
use project.Listx.Heap.{IsHeap, Unowned}
use project.Types.{State, max_proc, p_list, p_io}
use project.Types.Machine.{◌>>◌}
use project.Types.View.{Yields, Yields-cast}
use project.Pcb.{out_proc_q}
use project.Pcb.Queue.{insert_proc_q_for_io-snoc, out_proc_q-erase}
use project.Ssi.{wait_for_clock}

module _ (s : State) {H : ℕ → Bool} {V : ℕ → List ℕ} (heap : IsHeap s.links H V) (p : ℕ)
    (is_head : H s.pcb_blocked_on_clock ≡ true) (few : length (V s.pcb_blocked_on_clock) < max_proc)
    (real : p ≢ null) (io_out : Unowned H V (p_io p))
    (list_out : has (p_list p) (V s.pcb_blocked_on_clock) ≡ false) where
  abbrev clock_queue : List ℕ
  clock_queue = V s.pcb_blocked_on_clock ++ (p_io p ∷ [])

  waits : Yields (wait_for_clock p s) tt s H (update V s.pcb_blocked_on_clock clock_queue)
  unfolding wait_for_clock
  waits =
      let y = insert_proc_q_for_io-snoc {s = s} heap s.pcb_blocked_on_clock is_head p io_out in
      record { links = y.links; runs = y.runs; heap = y.heap }

  abbrev waiting_state : State
  waiting_state = record s { links = waits.links }

  not_listed : has (p_list p) clock_queue ≡ false
  not_listed =
      ground (arith, list_out, has-append (p_list p) (V s.pcb_blocked_on_clock) (p_io p ∷ []))

  abbrev with_clock : ℕ → List ℕ
  with_clock = update V s.pcb_blocked_on_clock clock_queue

  queue_is : with_clock s.pcb_blocked_on_clock ≡ clock_queue
  queue_is = update_self V s.pcb_blocked_on_clock clock_queue

  not_found :
      Yields (out_proc_q s.pcb_blocked_on_clock p waiting_state) null waiting_state H with_clock
  not_found =
      let small : length clock_queue ≤ max_proc =
        omega (arith, few, length-append (V s.pcb_blocked_on_clock) (p_io p ∷ [])) in
      let absent : has (p_list p) (with_clock s.pcb_blocked_on_clock) ≡ false =
        rw queue_is not_listed in
      let y =
        out_proc_q-erase {s = waiting_state} waits.heap s.pcb_blocked_on_clock is_head p real
          (rw queue_is small) in
      Yields-cast (rw absent refl)
        (update_same with_clock s.pcb_blocked_on_clock _
          (sym (erase_absent (p_list p) (with_clock s.pcb_blocked_on_clock) absent)))
        y

  -- When a process that is not NULL is in no list by its `p_io`, and the queue of the clock has
  -- fewer than 50 processes and not its `p_list`, `outProcQ` does not find the process that
  -- `wait_for_clock` has just put into that queue: it returns NULL, and the process stays at the end
  -- of the queue.
  pub wait_for_clock-out_proc_q :
      Yields
        ((wait_for_clock p >> out_proc_q s.pcb_blocked_on_clock p) s)
        null
        s
        H
        (update V s.pcb_blocked_on_clock (V s.pcb_blocked_on_clock ++ (p_io p ∷ [])))
  wait_for_clock-out_proc_q = record {
    links = not_found.links;
    runs = rw waits.runs not_found.runs;
    heap = not_found.heap;
  }
