-- ===== src/Entry.antt =====
-- The two entries into the kernel, of phase2/exceptions.c.
use Prim.Native.Nat.{bit_and}
use project.Common.{ℕ, zero, suc, ◌+◌, true, false, ◌&&◌, ◌||◌, ◌==◌, leb, ltb, ◌∷◌, if◌then◌else◌}
use project.Types.{PteEntry, max_pages, get_exec_code}
use project.Types.Machine.{Cmd, ◌>>=◌, ◌>>◌, gets, modify, leave, ldst, panicked}
use project.Exceptions.{trap_handler, syscall_handler, tlb_handler}
use project.Interrupts.{interrupt_handler}
use project.Utils.{update_cpu_time}

unfoldable pub exception_handler : {A : Type 0} → Cmd A
exception_handler = do
  update_cpu_time
  mcause ← gets (λ s. s.mcause)
  is_int ← gets (λ s. s.arch.cause_is_int mcause)
  let exc_code = bit_and mcause get_exec_code
  if is_int
      then interrupt_handler
      else if leb exc_code 7 || (ltb 11 exc_code && ltb exc_code 24)
      then trap_handler
      else if leb exc_code 11
      then syscall_handler
      else if leb exc_code 28
      then tlb_handler
      else leave panicked

-- The first entry of the page table with this high word, or MAXPAGES.
unfoldable pub find_page : (rounds i ehi : ℕ) → (ℕ → PteEntry) → ℕ
find_page zero i ehi tbl = i
find_page (suc n) i ehi tbl = elim (ehi == (tbl i).pte_entry_hi) [
  | true ↦ i
  | false ↦ find_page n (i + 1) ehi tbl
]

unfoldable pub utlb_refill_handler : {A : Type 0} → Cmd A
unfolding find_page
utlb_refill_handler = do
  ehi ← gets (λ s. s.bios.entry_hi)
  tbl ← gets (λ s. (s.support (s.pcb s.current_process).p_support_struct).sup_private_pg_tbl)
  let i = find_page max_pages 0 ehi tbl
  modify (λ s. record s { entry_hi = ehi })
  modify (λ s. record s { entry_lo = if i == max_pages then 0 else (tbl i).pte_entry_lo })
  modify (λ s. record s {
    tlb = record { pte_entry_hi = s.entry_hi; pte_entry_lo = s.entry_lo } ∷ s.tlb;
  })
  saved ← gets (λ s. s.bios)
  leave (ldst saved)
