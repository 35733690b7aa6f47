-- ===== src/Tests/Requests.antt =====
-- Requests of phase2/ssi.c and the refill of the TLB at the memory of `Memory`.
use project.Common.{ℕ, ◌≡◌, refl, [], ◌∷◌, ◌++◌, arith, update}
use project.Listx.{null}
use project.Types.{State, PteEntry, p_child, p_io}
use project.Types.Machine.{◌>>◌, exit, ldst}
use project.Types.View.{Yields}
use project.Pcb.{zero_state, out_proc_q}
use project.Pcb.Alloc.{with_process, with_no_lists}
use project.Utils.{comm_add_to_number}
use project.Entry.{utlb_refill_handler}
use project.Vm.{seek_entryhi_index_on_pagetable}
use project.Vm.Pages.{entered, utlb_refill_handler-entered}
use project.Ssi.{wait_for_clock, do_io, create_process}
use project.Ssi.Clock.{wait_for_clock-out_proc_q}
use project.Ssi.Requests.{commanded, queue_for, do_io-snoc}
use project.Ssi.Create.{CanCreate, with_created, create_process-created}
use project.Tests.Memory.{
  layout, memory, memory-IsHeap, heads, some_lists, a_support, a, b, c, b-IsDetached,
}

-- The first device has the queue that `c` waits in, and the request at 700 names its command.
abbrev asks_io : State
asks_io = record memory {
  layout = record layout { pcb_blocked_on_device = 40 };
  ram = update (update memory.ram 700 0x10000058) 704 7;
}

do_io-snoc_example :
    Yields
      (do_io a 700 asks_io)
      tt
      (commanded a 700 asks_io)
      heads
      (update some_lists (queue_for 700 asks_io) (p_io c ∷ p_io a ∷ []))
unfolding comm_add_to_number
do_io-snoc_example =
    do_io-snoc asks_io memory-IsHeap a 700 refl (omega arith) (omega arith)
      (λ x h own. ground arith)

wait_for_clock-out_proc_q_example :
    Yields
      ((wait_for_clock a >> out_proc_q 40 a) memory)
      null
      memory
      heads
      (update some_lists 40 (p_io c ∷ p_io a ∷ []))
wait_for_clock-out_proc_q_example =
    wait_for_clock-out_proc_q memory memory-IsHeap a refl (omega arith) (omega arith)
      (λ x h. ground arith) refl

a_creates_b : CanCreate memory heads some_lists a b []
a_creates_b = record {
  heap = memory-IsHeap;
  free_head = refl;
  parent_head = refl;
  ready_head = refl;
  free = refl;
  not_null = omega arith;
  detached = b-IsDetached;
  child_child = refl;
  inbox_child = refl;
  child_ready = refl;
  inbox_ready = refl;
  free_child = refl;
  free_ready = refl;
  parent_ready = refl;
}

create_process-created_example :
    Yields (create_process a 700 memory) b (with_created memory a 700 b) (with_process heads b) (
      update
        (update
          (with_no_lists (update some_lists 8 []) b)
          (p_child a)
          (some_lists (p_child a) ++ (1228 ∷ [])))
        32
        (a ∷ b ∷ []))
create_process-created_example = create_process-created memory a 700 b [] a_creates_b

-- An empty page table, and the running process with a page that the pager has entered.
abbrev no_pages : ℕ → PteEntry
no_pages _ = record { pte_entry_hi = 0; pte_entry_lo = 0 }

abbrev misses_page : State
misses_page = record memory {
  bios = record zero_state { entry_hi = 0x80000040 };
  support = λ _. record a_support { sup_private_pg_tbl = entered no_pages 0 0x80000040 7 };
}

utlb_refill_handler-entered_example :
    utlb_refill_handler {A = Unit {0}} misses_page
    ≡ exit (ldst misses_page.bios) (record misses_page {
      entry_hi = 0x80000040;
      entry_lo = 7;
      tlb = record { pte_entry_hi = 0x80000040; pte_entry_lo = 7 } ∷ [];
    })
unfolding seek_entryhi_index_on_pagetable
utlb_refill_handler-entered_example =
    utlb_refill_handler-entered misses_page no_pages 7 {A = Unit {0}} (omega arith) refl
