-- ===== src/Pcb/Init.antt =====
-- initPcbs of phase1/pcb.c: every block of the table becomes free, once.
use project.Common.{
  ℕ, zero, suc, ◌+◌, ◌≤◌, ◌<◌, ◌≡◌, refl, ap, Bool, true, List, [], arith, update, update_same,
}
use project.Listx.{list_add}
use project.Listx.Heap.{IsHeap, Unowned, list_add-IsHeap}
use project.Types.{State, max_proc, sizeof_pcb, offset_p_list, p_list}
use project.Types.Machine.{without_mie}
use project.Types.Table.{entry, push_entries, pushed_twice}
use project.Types.View.{Yields, Yields-critical, Yields-cast}
use project.Pcb.{init_pcbs, init_pcbs_from}

-- The free list after `initPcbs`: the last block first.
abbrev pub all_blocks : ℕ → List ℕ
all_blocks table = push_entries table sizeof_pcb offset_p_list max_proc 0 []

init_pcbs_from-push :
    (n i : ℕ) (s : State) {H : ℕ → Bool} {V : ℕ → List ℕ}
    → IsHeap s.links H V
    → H s.pcb_free_h ≡ true
    → ((j : ℕ) → i ≤ j → j < i + n → Unowned H V (p_list (entry s.pcb_table sizeof_pcb j)))
    → Yields (init_pcbs_from n i s) tt s H (
        update V s.pcb_free_h
          (push_entries s.pcb_table sizeof_pcb offset_p_list n i (V s.pcb_free_h)))
unfolding init_pcbs_from
init_pcbs_from-push zero i s {V} heap is_head free = record {
  links = s.links;
  runs = refl;
  heap = rw (update_same V s.pcb_free_h (V s.pcb_free_h) refl) heap;
}
init_pcbs_from-push (suc n) i s {H} {V} heap is_head free =
    let node = p_list (entry s.pcb_table sizeof_pcb i) in
    let mine = free i (omega arith) (omega arith) in
    let step = list_add-IsHeap heap node s.pcb_free_h is_head mine in
    let y =
      init_pcbs_from-push n (i + 1) (record s { links = list_add s.links node s.pcb_free_h }) step
        is_head (λ j lo hi a ha. ground (arith, free j (omega arith) (omega arith) a ha)) in
    Yields-cast refl
      (pushed_twice V s.pcb_free_h node
        (push_entries s.pcb_table sizeof_pcb offset_p_list n (i + 1)))
      (record { links = y.links; runs = y.runs; heap = y.heap })

-- From a memory in which the free list is empty and no list has a block of the table, `initPcbs`
-- makes the free list of all 50 blocks, the last one first.
pub init_pcbs-all :
    (s : State) {H : ℕ → Bool} {V : ℕ → List ℕ}
    → IsHeap s.links H V
    → H s.pcb_free_h ≡ true
    → V s.pcb_free_h ≡ []
    → ((j : ℕ) → j < max_proc → Unowned H V (p_list (entry s.pcb_table sizeof_pcb j)))
    → Yields (init_pcbs s) tt s H (update V s.pcb_free_h (all_blocks s.pcb_table))
unfolding init_pcbs
init_pcbs-all s {H} {V} heap is_head e free =
    Yields-cast refl
      (ap
        (λ l.
          update V s.pcb_free_h (push_entries s.pcb_table sizeof_pcb offset_p_list max_proc 0 l))
        e)
      (Yields-critical (init_pcbs_from max_proc 0) tt (
        init_pcbs_from-push max_proc 0 (record s { mstatus = without_mie s.mstatus }) heap is_head
          (λ j lo hi. free j (omega arith))))
