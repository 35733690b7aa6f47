-- ===== src/Vm/Pages.antt =====
-- The page numbers and page tables of phase3/vmSupport.c, and how the refill of phase2/exceptions.c
-- finds what the pager wrote.
use project.Common.{
  ℕ, zero, suc, ◌+◌, ◌-◌, ◌/◌, ◌^◌, ◌≤◌, ◌<◌, ◌≡◌, ◌≢◌, refl, ◌⊎◌, inl, inr, Bool, false, ◌||◌,
  arith, ◌==◌, update, ◌∷◌, Bool-cases, ==_refl, ==_ne,
}
use project.Types.{State, PteEntry, max_pages}
use project.Types.Machine.{exit, ldst}
use project.Entry.{find_page, utlb_refill_handler}
use project.Vm.{find_page_by_entryhi, seek_from, seek_entryhi_index_on_pagetable}

-- The virtual pages of a program: 31 for text and data, from the bottom of its segment, and those of the
-- stack, below the top.
abbrev pub IsUserPage : ℕ → Type 0
IsUserPage vpn = ((0x80000 ≤ vpn) × (vpn < 0x8001F)) ⊎ ((0xA0000 < vpn) × (vpn ≤ 0xBFFFF))

-- Two pages of a program, among the first 31 of its segment or the stack pages below its end, that
-- `find_page_by_entryhi` maps to one block of the flash device are one page.
pub find_page_by_entryhi-injective :
    (hi hi' : ℕ)
    → IsUserPage (hi / 2 ^ 12)
    → IsUserPage (hi' / 2 ^ 12)
    → find_page_by_entryhi hi ≡ find_page_by_entryhi hi'
    → hi / 2 ^ 12 ≡ hi' / 2 ^ 12
unfolding find_page_by_entryhi
find_page_by_entryhi-injective hi hi' u u' e = ground arith

-- An entry that the pager may use for the page: an empty one, or that of the page.
abbrev pub fits : (ℕ → PteEntry) → (entry_hi i : ℕ) → Bool
fits table entry_hi i = (table i).pte_entry_hi == 0 || (table i).pte_entry_hi == entry_hi

seek_from-bounds :
    (n i hi : ℕ) (table : ℕ → PteEntry)
    → seek_from n i hi table ≢ 2 ^ 32 - 1
    → (i ≤ seek_from n i hi table) × (seek_from n i hi table < i + n)
unfolding seek_from
seek_from-bounds zero i hi table ne = absurd (ne refl)
seek_from-bounds (suc n) i hi table ne = elim (Bool-cases (fits table hi i)) [
  | inl hit ↦ rw (seek_from, hit) (omega arith, omega arith)
  | inr miss ↦
      let ne' : seek_from n (i + 1) hi table ≢ 2 ^ 32 - 1 = rw (seek_from, miss) at ne in
      let (lo, hi') = seek_from-bounds n (i + 1) hi table ne' in
      rw (seek_from, miss) (omega arith, omega arith)
]

-- The page table after the pager's update.
abbrev pub entered : (ℕ → PteEntry) → (i hi lo : ℕ) → ℕ → PteEntry
entered table i hi lo = update table i (record { pte_entry_hi = hi; pte_entry_lo = lo })

find_page-seek_from :
    (n i hi lo : ℕ) (table : ℕ → PteEntry)
    → seek_from n i hi table ≢ 2 ^ 32 - 1
    → find_page n i hi (entered table (seek_from n i hi table) hi lo) ≡ seek_from n i hi table
unfolding find_page seek_from
find_page-seek_from zero i hi lo table ne = absurd (ne refl)
find_page-seek_from (suc n) i hi lo table ne = elim (Bool-cases (fits table hi i)) [
  | inl hit ↦ rw (seek_from, hit) (rw (find_page, ==_refl i, ==_refl hi) refl)
  | inr miss ↦
      let ne' : seek_from n (i + 1) hi table ≢ 2 ^ 32 - 1 = rw (seek_from, miss) at ne in
      let (lo', hi') = seek_from-bounds n (i + 1) hi table ne' in
      let later : (seek_from n (i + 1) hi table == i) ≡ false =
        ==_ne (seek_from n (i + 1) hi table) i (omega arith) in
      let other : (hi == (table i).pte_entry_hi) ≡ false = ground arith in
      rw (seek_from, miss)
        (rw (find_page, later, other) (find_page-seek_from n (i + 1) hi lo table ne'))
]

module _ (s : State) (table : ℕ → PteEntry) (lo : ℕ) where
  -- The support structure of the running process, the page that it misses, and its index.
  abbrev own_support : ℕ
  own_support = (s.pcb s.current_process).p_support_struct

  abbrev missing : ℕ
  missing = s.bios.entry_hi

  abbrev index : ℕ
  index = seek_entryhi_index_on_pagetable missing table

  index_found :
      index ≢ 2 ^ 32 - 1 → find_page max_pages 0 missing (entered table index missing lo) ≡ index
  unfolding seek_entryhi_index_on_pagetable
  index_found ne = find_page-seek_from max_pages 0 missing lo table ne

  index_small : index ≢ 2 ^ 32 - 1 → index < max_pages
  unfolding seek_entryhi_index_on_pagetable
  index_small ne = (seek_from-bounds max_pages 0 missing table ne).1

  -- When the pager has found an index for the missing page with `seek_entryhi_index_on_pagetable`
  -- and has entered the page there, the refill handler finds this entry, writes it to the TLB, and
  -- resumes the process.
  pub utlb_refill_handler-entered :
      {A : Type 0}
      → index ≢ 2 ^ 32 - 1
      → (s.support own_support).sup_private_pg_tbl ≡ entered table index missing lo
      → utlb_refill_handler {A = A} s
        ≡ exit (ldst s.bios) (record s {
          entry_hi = missing;
          entry_lo = lo;
          tlb = record { pte_entry_hi = missing; pte_entry_lo = lo } ∷ s.tlb;
        })
  unfolding utlb_refill_handler
  utlb_refill_handler-entered ne wrote =
      rw
        (
          wrote,
          index_found ne,
          ==_ne index max_pages (omega (arith, index_small ne)),
          ==_refl index,
        )
        refl
