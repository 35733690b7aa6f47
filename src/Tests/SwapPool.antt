-- ===== src/Tests/SwapPool.antt =====
-- phase3/vmSupport.c at a swap pool without a free frame.
use project.Common.{ℕ, ◌/◌, ◌^◌, ◌<◌, ◌≡◌, ◌≢◌, inl, refl, true, false, arith}
use project.Vm.{
  VmState, pool_size, is_frame_free, get_frame_index, mark_free_pages, find_page_by_entryhi,
}
use project.Vm.Frames.{after_choices, get_frame_index-in_turn, mark_free_pages-released}
use project.Vm.Pages.{find_page_by_entryhi-injective}

abbrev full_vm : VmState
full_vm = record {
  swap_pool_table =
      λ _. record { sw_asid = 1; sw_page_no = 0; sw_pte = record { owner = 0; index = 0 } };
  text_pages = λ _. 0;
  frame_index = 3;
  swap_pool = 0x2000C000;
}

full_vm-used : (j : ℕ) → j < pool_size → is_frame_free (full_vm.swap_pool_table j) ≡ false
unfolding is_frame_free
full_vm-used j lt = refl

get_frame_index-in_turn_example : (get_frame_index (after_choices 14 full_vm)).0 ≡ 2
get_frame_index-in_turn_example = get_frame_index-in_turn 14 full_vm full_vm-used (omega arith)

mark_free_pages-released_example :
    (((mark_free_pages 1 full_vm).swap_pool_table 4).sw_asid ≢ 1)
    × ((full_vm.swap_pool_table 4).sw_asid ≡ 1
        → is_frame_free ((mark_free_pages 1 full_vm).swap_pool_table 4) ≡ true)
    × ((full_vm.swap_pool_table 4).sw_asid ≢ 1
        → (mark_free_pages 1 full_vm).swap_pool_table 4 ≡ full_vm.swap_pool_table 4)
mark_free_pages-released_example = mark_free_pages-released 1 full_vm 4 (omega arith) (omega arith)

same_page : find_page_by_entryhi 0x80001040 ≡ find_page_by_entryhi 0x80001080
unfolding find_page_by_entryhi
same_page = refl

find_page_by_entryhi-injective_example : 0x80001040 / 2 ^ 12 ≡ 0x80001080 / 2 ^ 12
find_page_by_entryhi-injective_example =
    find_page_by_entryhi-injective 0x80001040 0x80001080 (inl (omega arith, omega arith))
      (inl (omega arith, omega arith)) same_page
