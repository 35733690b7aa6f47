-- ===== src/Tests/Booting.antt =====
-- The start of the system, at a concrete memory.
use project.Common.{refl, [], arith, update, update_same}
use project.Listx.Heap.{IsHeap}
use project.Types.{State}
use project.Initial.{Image, main}
use project.Initial.Boot.{IsLinked, pool_heads}
use project.Initial.Goal.{IsUriscvVector, Starts}
use project.Initial.First.{main-Starts}
use project.Tests.Memory.{layout, no_lists, bare, bare_links, bare-IsHeap}

abbrev image : Image
image = record {
  utlb_refill_handler = 0x20000100;
  exception_handler = 0x20000200;
  ssi = 0x20000300;
  test = 0x20000400;
  tlb_refill_handler_offset = 0;
  tlb_refill_stack_ptr_offset = 4;
  exception_handler_offset = 8;
  exception_stack_ptr_offset = 12;
}

image-IsUriscvVector : IsUriscvVector image
image-IsUriscvVector = record {
  refill = refl;
  refill_stack = refl;
  handler = refl;
  handler_stack = refl;
}

layout-IsLinked : IsLinked layout
layout-IsLinked = record {
  tables = λ x h. ground arith;
  pcb_free_out = (refl, refl);
  msg_free_out = (refl, refl);
  ready_out = (refl, refl);
  clock_out = (refl, refl);
  devices_out = λ j lt. (ground arith, ground arith);
  pools_ne = refl;
  ready_ne = (refl, refl);
  clock_ne = (refl, refl, refl);
  devices_ne = λ j lt. (ground arith, ground arith, ground arith);
}

only_pools : IsHeap bare_links (pool_heads layout) no_lists
only_pools = rw (update_same no_lists 8 [] refl, update_same no_lists 16 [] refl) at bare-IsHeap

-- 16 MB of memory from 0x20000000 on.
abbrev cold : State
cold = record bare { ram = update (update (λ _. 0) 0x10000000 0x20000000) 0x10000004 0x1000000 }

main-Starts_example : Starts image cold (main {A = Unit {0}} image cold)
main-Starts_example =
    main-Starts image cold layout-IsLinked image-IsUriscvVector only_pools {A = Unit {0}}
