-- ===== src/Scheduler/Outcome.antt =====
-- How a call of scheduler of phase2/scheduler.c ends.
use Prim.Native.Nat.{bit_xor}
use project.Common.{
  ℕ, ◌*◌, ◌%◌, ◌^◌, ◌≤◌, ◌≡◌, ◌≢◌, refl, Bool, true, false, not, ◌&&◌, List, arith, ◌==◌, ltb,
  ==_ne, ◌∙◌, if◌then◌else◌, Bool-cases, inl, inr, has, length, is_empty, first, tail, update,
}
use project.Listx.{null, container_of, list_empty}
use project.Listx.Ring.{list_empty-is_empty}
use project.Listx.Heap.{IsHeap}
use project.Types.{
  State, max_proc, p_list, offset_p_list, time_slice, time_scale_addr, mie_all, mie_mtie_mask,
  mstatus_mie_bit,
}
use project.Types.Machine.{Exit, exit, ldst, halted, waiting, panicked}
use project.Types.View.{Leaves}
use project.Pcb.Queue.{search_pcb-has, remove_proc_q-tail}
use project.Scheduler.{scheduler, select_next, dispatch}

-- The timer is loaded with a time slice, and the clock is read.
abbrev pub restarted : State → State
restarted s = record s { timer = time_slice * s.ram time_scale_addr % 2 ^ 32; tod_timer = s.tod }

module _ (s : State) {H : ℕ → Bool} {V : ℕ → List ℕ} (heap : IsHeap s.links H V)
    (is_head : H s.ready_queue ≡ true) where
  -- The first process of the ready queue runs, with its saved state and a fresh time slice.
  pub dispatch-first :
      {A : Type 0}
      → Leaves
          (dispatch {A = A} s)
          (ldst (s.pcb (first (V s.ready_queue))).p_s)
          (restarted (record s { current_process = first (V s.ready_queue) }))
          H
          (update V s.ready_queue (tail (V s.ready_queue)))
  unfolding dispatch
  dispatch-first =
      let y = remove_proc_q-tail {s = s} heap s.ready_queue is_head in
      let plain : container_of (first (V s.ready_queue)) offset_p_list ≡ first (V s.ready_queue) =
        omega arith in
      record { links = y.links; runs = rw (y.runs, plain) refl; heap = y.heap }

  -- A process that runs goes on.
  pub scheduler-current :
      {A : Type 0}
      → s.current_process ≢ null
      → scheduler {A = A} s ≡ exit (ldst s.bios) (restarted s)
  unfolding scheduler
  scheduler-current ne = rw (==_ne s.current_process null ne) refl

  module _ (few : length (V s.ready_queue) ≤ max_proc) (idle : s.current_process ≡ null) where
    -- Whether the last process is left, and the SSI's public name is not in the ready queue.
    abbrev pub is_over : Bool
    is_over = s.process_count == 1 && not (has (p_list s.ssi_pcb) (V s.ready_queue))

    pub scheduler-over : {A : Type 0} → is_over ≡ true → scheduler {A = A} s ≡ exit halted s
    unfolding scheduler
    scheduler-over over =
        ground (arith, search_pcb-has {s = s} heap s.ready_queue is_head s.ssi_pcb few)

    scheduler-select : {A : Type 0} → is_over ≡ false → scheduler {A = A} s ≡ select_next s
    unfolding scheduler
    scheduler-select on =
        ground (arith, search_pcb-has {s = s} heap s.ready_queue is_head s.ssi_pcb few)

    -- While it waits all interrupts but that of the processor's timer are on.
    abbrev pub parked : State
    parked = record s { mie = bit_xor mie_all mie_mtie_mask; mstatus = 2 ^ mstatus_mie_bit }

    select-empty :
        {A : Type 0}
        → is_empty (V s.ready_queue) ≡ true
        → select_next {A = A} s
          ≡ (if ltb 0 s.softblock_count then exit waiting parked else exit panicked s)
    unfolding select_next
    select-empty {A} e =
        let none : list_empty s.links s.ready_queue ≡ true =
          list_empty-is_empty (heap.ring s.ready_queue is_head) ∙ e in
        elim (Bool-cases (ltb 0 s.softblock_count)) [
          | inl blocked ↦ rw (none, blocked) refl
          | inr free ↦ rw (none, free) refl
        ]

    select-dispatch :
        {A : Type 0} → is_empty (V s.ready_queue) ≡ false → select_next {A = A} s ≡ dispatch s
    unfolding select_next
    select-dispatch {A} full = rw (list_empty-is_empty (heap.ring s.ready_queue is_head), full) refl

    -- When nothing runs, at most 50 processes are ready and at least one, and the system is not
    -- over, `scheduler` takes the first process out of the queue, makes it the running one, loads a
    -- time slice into the timer, reads the clock, and loads its state; the other lists stay.
    pub scheduler-first :
        {A : Type 0}
        → is_over ≡ false
        → is_empty (V s.ready_queue) ≡ false
        → Leaves
            (scheduler {A = A} s)
            (ldst (s.pcb (first (V s.ready_queue))).p_s)
            (restarted (record s { current_process = first (V s.ready_queue) }))
            H
            (update V s.ready_queue (tail (V s.ready_queue)))
    scheduler-first {A} on full =
        let y = dispatch-first {A = A} in
        record {
          links = y.links;
          runs = scheduler-select on ∙ select-dispatch full ∙ y.runs;
          heap = y.heap;
        }

    -- Why nothing runs, or what does.
    abbrev pub next_exit : Exit
    next_exit =
        if is_over
        then halted
        else if is_empty (V s.ready_queue)
        then (if ltb 0 s.softblock_count then waiting else panicked)
        else ldst (s.pcb (first (V s.ready_queue))).p_s

    nothing_ready :
        {A : Type 0}
        → is_over ≡ false
        → is_empty (V s.ready_queue) ≡ true
        → (s' : State) × (scheduler {A = A} s ≡ exit next_exit s')
    nothing_ready {A} on none = elim (Bool-cases (ltb 0 s.softblock_count)) [
      | inl blocked ↦ (
        parked,
        rw (on, none, blocked) (scheduler-select on ∙ select-empty none ∙ rw blocked refl),
      )
      | inr free ↦ (s, rw (on, none, free) (scheduler-select on ∙ select-empty none ∙ rw free refl))
    ]

    -- Without a running process and with at most 50 ready ones, `scheduler` always leaves the
    -- kernel: it halts when one process is counted and the SSI's public address is not in the ready
    -- queue; otherwise, with an empty ready queue, it waits if a process is blocked on the outside
    -- and panics if none is, and else it loads the state of the first ready process.
    pub scheduler-next_exit :
        {A : Type 0} → (s' : State) × (scheduler {A = A} s ≡ exit next_exit s')
    scheduler-next_exit {A} = elim (Bool-cases is_over) [
      | inl over ↦ (s, rw over (scheduler-over over))
      | inr on ↦ elim (Bool-cases (is_empty (V s.ready_queue))) [
        | inl none ↦ nothing_ready on none
        | inr full ↦
            let y = scheduler-first {A = A} on full in
            (
              record (restarted (record s { current_process = first (V s.ready_queue) })) {
                links = y.links;
              },
              rw (on, full) y.runs,
            )
      ]
    ]
