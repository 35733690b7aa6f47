-- ===== src/Tests/Phase1.antt =====
-- headers/listx.h, phase1/pcb.c and phase1/msg.c at the memories of `Memory`.
use project.Common.{◌≡◌, ◌↔◌, refl, Bool, true, false, [], arith, update, has}
use project.Listx.{list_del}
use project.Listx.Heap.{IsHeap, list_del-IsHeap}
use project.Types.{p_list, p_child, p_sib, p_io, msg_inbox}
use project.Types.Machine.{ret}
use project.Types.View.{Yields}
use project.Pcb.{alloc_pcb, out_proc_q, is_pcb_valid, out_child, remove_child}
use project.Pcb.Queue.{out_proc_q-erase}
use project.Pcb.Alloc.{alloc_pcb-cons, with_process, with_no_lists, erased, IsReset}
use project.Pcb.Valid.{is_pcb_valid_iff, InTable}
use project.Pcb.Tree.{out_child-erase, remove_child-sib}
use project.Msg.{pop_message}
use project.Msg.Queue.{pop_message-left_over}
use project.Tests.Memory.{memory, memory-IsHeap, heads, some_lists, a, b, c, from_c, b-IsDetached}

list_del-IsHeap_example : IsHeap (list_del memory.links (p_io c)) heads (update some_lists 40 [])
list_del-IsHeap_example = list_del-IsHeap memory-IsHeap (p_io c) 40 refl refl

out_proc_q-erase_example : Yields (out_proc_q 32 a memory) a memory heads (update some_lists 32 [])
out_proc_q-erase_example =
    out_proc_q-erase {s = memory} memory-IsHeap 32 refl a (omega arith) (omega arith)

is_pcb_valid_iff_example :
    (ok : Bool) × (is_pcb_valid a memory ≡ ret ok memory)
    × ((ok ≡ true) ↔ (InTable 1000 a × (has (p_list a) (some_lists 8) ≡ false)))
is_pcb_valid_iff_example = is_pcb_valid_iff memory memory-IsHeap refl (omega arith) a

alloc_pcb-cons_example :
    (y : Yields
      (alloc_pcb memory)
      b
      (record memory { pcb = update memory.pcb b (erased 5); next_pid = 6 })
      (with_process heads b)
      (with_no_lists (update some_lists 8 []) b))
    × IsReset y.links b
alloc_pcb-cons_example = alloc_pcb-cons memory memory-IsHeap refl b [] refl b-IsDetached

out_child-erase_example :
    Yields (out_child c memory) c memory heads (update some_lists (p_child a) [])
out_child-erase_example = out_child-erase memory memory-IsHeap c (omega arith) refl refl

remove_child-sib_example :
    Yields (remove_child a memory) (p_sib c) memory heads (update some_lists (p_child a) [])
remove_child-sib_example = remove_child-sib memory memory-IsHeap a c [] refl refl

pop_message-left_over_example :
    Yields
      (pop_message (msg_inbox a) c memory)
      from_c
      memory
      heads
      (update some_lists (msg_inbox a) [])
pop_message-left_over_example =
    pop_message-left_over memory memory-IsHeap (msg_inbox a) refl c (omega arith)
