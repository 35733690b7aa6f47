-- ===== src/Vm.antt =====
-- phase3/vmSupport.c: the table of the swap pool, the choice of a frame, and the arithmetic on
-- page numbers. The pager itself is in Pager.
pub mod Frames
pub mod Pages
use Prim.Native.Nat.{bit_and}
use project.Common.{
  ℕ, zero, suc, ◌+◌, ◌-◌, ◌*◌, ◌/◌, ◌%◌, ◌^◌, Bool, true, false, not, ◌||◌, ◌==◌, ltb, leb, update,
  if◌then◌else◌,
}
use project.Types.{asid_index, PteEntry, page_size, no_proc, max_pages, uproc_max}

-- `POOLSIZE`
abbrev pub pool_size : ℕ
pool_size = uproc_max * 2

abbrev pub dirty_on : ℕ
dirty_on = 0x400

abbrev pub vpn_shift : ℕ
vpn_shift = 12

-- A pointer to a page table entry: the support structure, and the index in its page table.
pub record PtePtr : Type 0 where
  pub owner : ℕ
  pub index : ℕ

-- `swap_t`
pub record Swap : Type 0 where
  pub sw_asid : ℕ
  pub sw_page_no : ℕ
  pub sw_pte : PtePtr

-- The static variables of the file. `frame_index` belongs to `getFrameIndex`.
pub record VmState : Type 0 where
  pub swap_pool_table : ℕ → Swap
  pub text_pages : ℕ → ℕ
  pub frame_index : ℕ
  pub swap_pool : ℕ

-- Their values at the start: `{ -1 }` sets the first entry, the others are 0.
abbrev pub fresh_vm : VmState
fresh_vm = record {
  swap_pool_table =
      λ _. record { sw_asid = 0; sw_page_no = 0; sw_pte = record { owner = 0; index = 0 } };
  text_pages = λ i. if i == 0 then 2 ^ 32 - 1 else 0;
  frame_index = 2 ^ 32 - 1;
  swap_pool = 0;
}

unfoldable pub is_frame_free : Swap → Bool
is_frame_free frame = frame.sw_asid == no_proc

-- The first free frame from `i` on, or the limit; `i` plus the rounds left is the limit.
unfoldable pub free_frame_from : (rounds i : ℕ) → (ℕ → Swap) → ℕ
free_frame_from zero i table = i
free_frame_from (suc n) i table = elim (is_frame_free (table i)) [
  | true ↦ i
  | false ↦ free_frame_from n (i + 1) table
]

-- `getFrameIndex`: a free frame, else the next one in turn.
unfoldable pub get_frame_index : VmState → ℕ × VmState
unfolding free_frame_from is_frame_free
get_frame_index s =
    let i = free_frame_from pool_size 0 s.swap_pool_table in
    let next = (s.frame_index + 1) % 2 ^ 32 % pool_size in
    if ltb i pool_size then (i, s) else (next, record s { frame_index = next })

-- The loop of `mark_free_pages`, by the rounds left. It runs with interrupts off.
unfoldable pub mark_free_from : (rounds i asid : ℕ) → (ℕ → Swap) → ℕ → Swap
mark_free_from zero i asid table = table
mark_free_from (suc n) i asid table = mark_free_from n (i + 1) asid (
    if (table i).sw_asid == asid
    then update table i (record (table i) { sw_asid = no_proc })
    else table)

unfoldable pub mark_free_pages : (asid : ℕ) → VmState → VmState
unfolding mark_free_from
mark_free_pages asid s = record s {
  swap_pool_table = mark_free_from pool_size 0 asid s.swap_pool_table;
}

unfoldable pub init_swap_from : (rounds i : ℕ) → (ℕ → Swap) → ℕ → Swap
init_swap_from zero i table = table
init_swap_from (suc n) i table =
    init_swap_from n (i + 1) (update table i (record (table i) { sw_asid = no_proc }))

-- `initSwapStructs`
unfoldable pub init_swap_structs : VmState → VmState
unfolding init_swap_from
init_swap_structs s = record s {
  swap_pool = 0x2000C000;
  swap_pool_table = init_swap_from pool_size 0 s.swap_pool_table;
}

-- The word at 0x14 in the first page of a program is the size of its text.
unfoldable pub number_of_pages_for_text : (ram : ℕ → ℕ) → ℕ → ℕ
number_of_pages_for_text ram a = ram (a + 0x14) / page_size

unfoldable pub need_dirty : VmState → (asid missing_page : ℕ) → Bool
need_dirty s asid missing_page = leb (s.text_pages (asid_index asid)) missing_page

unfoldable pub is_dirty : ℕ → Bool
is_dirty entry_lo = not (bit_and entry_lo dirty_on == 0)

-- `find_page_by_entryhi`, in unsigned words.
unfoldable pub find_page_by_entryhi : ℕ → ℕ
find_page_by_entryhi entry_hi =
    let tmp = entry_hi / 2 ^ vpn_shift in
    if ltb (0x80000 + page_size * max_pages) tmp
    then (31 + (0xBFFFF + 2 ^ 32 - tmp)) % 2 ^ 32
    else (tmp + 2 ^ 32 - 0x80000) % 2 ^ 32

-- The first entry of the page table that is empty or has the page, by the rounds left.
unfoldable pub seek_from : (rounds i entry_hi : ℕ) → (ℕ → PteEntry) → ℕ
seek_from zero i entry_hi table = 2 ^ 32 - 1
seek_from (suc n) i entry_hi table =
    elim ((table i).pte_entry_hi == 0 || (table i).pte_entry_hi == entry_hi) [
      | true ↦ i
      | false ↦ seek_from n (i + 1) entry_hi table
    ]

-- `seek_entryhi_index_on_pagetable`; -1 as a word when no entry is left.
unfoldable pub seek_entryhi_index_on_pagetable : (entry_hi : ℕ) → (ℕ → PteEntry) → ℕ
unfolding seek_from
seek_entryhi_index_on_pagetable entry_hi table = seek_from max_pages 0 entry_hi table
