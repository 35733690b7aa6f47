-- ===== src/Tests/Answering.antt =====
-- The answer to an interrupt, phase2/ssi.c: the SSI runs, and `c` waits for the first device.
use project.Common.{ℕ, ◌≡◌, refl, Bool, true, List, [], ◌∷◌, arith, update}
use project.Listx.{Links, init_list_head}
use project.Listx.Heap.{IsHeap, init_list_head-IsHeap}
use project.Types.{State, msg_inbox}
use project.Types.Machine.{ret}
use project.Scheduler.Outcome.{restarted}
use project.Exceptions.{at_pcb}
use project.Exceptions.Deliver.{delivered}
use project.Exceptions.Post.{posted, marked, unblocked}
use project.Utils.{hash_from_device_type_number}
use project.Ssi.{answer_do_io}
use project.Ssi.Sending.{calling, charged, returned}
use project.Ssi.Answer.{CanAnswer, answer_do_io-woken}
use project.Tests.Memory.{layout, memory, memory-IsHeap, heads, some_lists, c, d, free_one}

abbrev answering : State
answering = record memory {
  layout = record layout { pcb_blocked_on_device = 40 };
  links = init_list_head memory.links (msg_inbox c);
  current_process = d;
}

abbrev c_heads : ℕ → Bool
c_heads = update heads (msg_inbox c) true

abbrev c_lists : ℕ → List ℕ
c_lists = update some_lists (msg_inbox c) []

c_waits : CanAnswer answering c_heads c_lists 40 c free_one [] []
c_waits = record {
  heap = init_list_head-IsHeap memory-IsHeap (msg_inbox c) (λ x h. ground arith);
  queue_head = refl;
  ready_head = refl;
  free_head = refl;
  pcb_head = refl;
  inbox_head = refl;
  queue_ready = refl;
  queue_free = refl;
  queue_pcb = refl;
  free_ready = refl;
  free_inbox = refl;
  few = omega arith;
  few_free = omega arith;
  waiting = refl;
  nodes = λ x h. ground arith;
  message = refl;
  not_null = omega arith;
  in_table = (2, omega arith, refl);
  not_queued = λ x h. ground arith;
  real = omega arith;
  not_fake = omega arith;
  not_ssi = omega arith;
  not_running = omega arith;
  asks = refl;
}

-- The kernel serves the SSI's call.
abbrev serving : Links → State
serving l = charged (calling c 5 (record answering { links = l }))

abbrev with_message : State → State
with_message now = record now {
  msg = update now.msg free_one (posted now 5 d);
  pcb = marked now c 5 d;
}

answer_do_io-woken_example :
    (l1 : Links) × (l2 : Links) × (answer_do_io 0 0 0 5 answering
      ≡ ret tt (
          restarted (
            returned 0
              (record (delivered (at_pcb c) free_one (unblocked c (with_message (serving l1)))) {
                links = l2;
              }))))
    × IsHeap l2 c_heads (update (update c_lists 40 []) 32 (1000 ∷ c ∷ []))
unfolding hash_from_device_type_number
answer_do_io-woken_example = answer_do_io-woken answering 40 c free_one 5 [] [] c_waits 0 0 0 refl
