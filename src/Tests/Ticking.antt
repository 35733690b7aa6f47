-- ===== src/Tests/Ticking.antt =====
-- A tick with one waiting process, at a concrete memory.
use project.Common.{ℕ, ◌≡◌, refl, Bool, true, List, [], ◌∷◌, arith, update, eq_of_==}
use mathlib.Core.Path.{subst}
use project.Listx.{init_list_head}
use project.Listx.Heap.{init_list_head-IsHeap}
use project.Types.{State, msg_inbox}
use project.Types.Machine.{ret}
use project.Ssi.{answer_wait_for_clock}
use project.Ssi.Waiters.{IsWaiter, CanTick}
use project.Ssi.Tick.Loop.{IsTicked, answer_wait_for_clock-IsTicked}
use project.Tests.Memory.{memory, memory-IsHeap, heads, some_lists, c, d, free_one}

-- `c` waits for the clock, and `d` is the SSI.
abbrev ticking : State
ticking = record memory { links = init_list_head memory.links (msg_inbox c); current_process = d }

abbrev c_heads : ℕ → Bool
c_heads = update heads (msg_inbox c) true

abbrev c_lists : ℕ → List ℕ
c_lists = update some_lists (msg_inbox c) []

c-IsWaiter : IsWaiter ticking c_heads c_lists c
c-IsWaiter = record {
  in_table = (2, omega arith, refl);
  inbox_head = refl;
  free_inbox = refl;
  not_queued = λ x h. ground arith;
  real = omega arith;
  not_fake = omega arith;
  not_ssi = omega arith;
  not_running = omega arith;
  asks = refl;
}

c_waits : CanTick ticking c_heads c_lists (c ∷ []) free_one []
c_waits = record {
  heap = init_list_head-IsHeap memory-IsHeap (msg_inbox c) (λ x h. ground arith);
  clock_head = refl;
  ready_head = refl;
  free_head = refl;
  pcb_head = refl;
  clock_ready = refl;
  clock_free = refl;
  clock_pcb = refl;
  free_ready = refl;
  pcb_ready = refl;
  few = omega arith;
  few_free = omega arith;
  message = refl;
  not_null = omega arith;
  waiting = refl;
  each =
      λ x h. subst (IsWaiter ticking c_heads c_lists) (eq_of_== c x (ground (arith, h))) c-IsWaiter;
}

answer_wait_for_clock-IsTicked_example :
    (t : State) × (answer_wait_for_clock ticking ≡ ret tt t)
    × IsTicked ticking t c_heads c_lists (c ∷ [])
answer_wait_for_clock-IsTicked_example =
    answer_wait_for_clock-IsTicked ticking (c ∷ []) free_one [] c_waits
