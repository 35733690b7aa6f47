-- ===== src/Pager.antt =====
-- The pager of phase3/vmSupport.c: it gives a missing page a frame, while it holds the mutex of the
-- swap pool.
pub mod Sequence
pub mod Failure
pub mod Effect
use Prim.Native.Nat.{bit_and, bit_or}
use project.Common.{
  ℕ, zero, suc, ◌+◌, ◌-◌, ◌*◌, ◌%◌, ◌^◌, Bool, true, false, not, ◌&&◌, List, [], ◌∷◌, ◌==◌, update,
  if◌then◌else◌,
}
use project.Types.{
  asid_index, StateT, Support, PteEntry, Arch, ssi_fake_addr, pg_fault_except, get_exec_code,
  page_size,
}
use project.Actor.{
  Actor, Reply, word, do_io, get_support_ptr, send, receive, resume, done_with, ◌>>=◌, ◌>>◌,
}
use project.SysSupport.{Env, trap_handler}
use project.Vm.{
  VmState, Swap, PtePtr, is_frame_free, get_frame_index, number_of_pages_for_text, need_dirty,
  is_dirty, find_page_by_entryhi, seek_entryhi_index_on_pagetable, dirty_on,
}

abbrev pub il_flash : ℕ
il_flash = 18

abbrev pub valid_on : ℕ
valid_on = 0x200

-- READBLK and WRITEBLK.
abbrev pub read_blk : ℕ
read_blk = 2

abbrev pub write_blk : ℕ
write_blk = 3

-- What the pager changes: the swap pool, the page tables of all support structures, and the TLB.
pub record Tables : Type 0 where
  pub vm : VmState
  pub page_table : ℕ → ℕ → PteEntry
  pub tlb : List PteEntry

-- TLBP and TLBWI: the entry of the page, if the TLB has one, is written.
unfoldable pub update_tlb : PteEntry → List PteEntry → List PteEntry
update_tlb pte [] = []
update_tlb pte (e ∷ es) =
    let rest = update_tlb pte es in
    if e.pte_entry_hi == pte.pte_entry_hi then pte ∷ es else e ∷ rest

unfoldable pub set_entry : PtePtr → PteEntry → Tables → Tables
set_entry p pte t = record t {
  page_table = update t.page_table p.owner (update (t.page_table p.owner) p.index pte);
}

-- `read_write_flash`
unfoldable pub read_write_flash :
    Env → (ram_address disk_block asid : ℕ) → (is_write : Bool) → Actor (Unit {0})
read_write_flash env ram_address disk_block asid is_write = do
  let base = env.arch.dev_reg_addr il_flash (asid_index asid)
  let command_value =
      bit_or (disk_block * 2 ^ 8 % 2 ^ 32) (if is_write then write_blk else read_blk)
  send ssi_fake_addr (do_io (base + env.arch.dtp_data0_offset) ram_address)
  send ssi_fake_addr (do_io (base + env.arch.dtp_command_offset) command_value)
  status ← receive ssi_fake_addr
  if not (status.payload == 1) then trap_handler env else done_with tt

-- The tables when the page in the frame is no longer valid.
unfoldable pub invalidate : Swap → Tables → Tables
unfolding set_entry update_tlb
invalidate frame t =
    let pte = record (t.page_table frame.sw_pte.owner frame.sw_pte.index) { pte_entry_lo = 0 } in
    let t1 = set_entry frame.sw_pte pte t in record t1 { tlb = update_tlb pte t1.tlb }

-- A frame in use is taken from its page, which goes to the flash device if it is dirty.
unfoldable pub evict : Env → (ram_addr : ℕ) → Swap → Tables → Actor Tables
evict env ram_addr frame t =
    let elo = (t.page_table frame.sw_pte.owner frame.sw_pte.index).pte_entry_lo in
    let write_back : Actor (Unit {0}) =
      read_write_flash env ram_addr frame.sw_page_no frame.sw_asid true in
    (if is_dirty elo then write_back else done_with tt) >> done_with (invalidate frame t)

-- The number of text pages is noted when the first page of a program is read for the first time.
unfoldable pub note_text : Env → (ram_addr missing_page asid : ℕ) → Tables → Tables
note_text env ram_addr missing_page asid t =
    if missing_page == 0 && t.vm.text_pages (asid_index asid) == 2 ^ 32 - 1
    then record t {
      vm = record t.vm {
        text_pages =
            update t.vm.text_pages (asid_index asid) (number_of_pages_for_text env.ram ram_addr);
      };
    }
    else t

-- The frame, the page table and the TLB get the page.
unfoldable pub install :
    (s frame_i ram_addr missing_page asid page_index entry_hi : ℕ) → Tables → Tables
unfolding set_entry update_tlb
install s frame_i ram_addr missing_page asid page_index entry_hi t =
    let at_index : PtePtr = record { owner = s; index = page_index } in
    let frame : Swap = record { sw_asid = asid; sw_page_no = missing_page; sw_pte = at_index } in
    let dirty = if need_dirty t.vm asid missing_page then dirty_on else 0 in
    let pte : PteEntry = record {
      pte_entry_hi = entry_hi;
      pte_entry_lo = bit_or (bit_or (bit_and ram_addr (2 ^ 32 - 1 - 0xFFF)) valid_on) dirty;
    } in
    let t1 = record t {
      vm = record t.vm { swap_pool_table = update t.vm.swap_pool_table frame_i frame };
    } in
    let t2 = set_entry at_index pte t1 in record t2 { tlb = update_tlb pte t2.tlb }

-- A free frame needs no work.
unfoldable pub make_room : Env → (ram_addr : ℕ) → Swap → Tables → Actor Tables
make_room env ram_addr frame t =
    if is_frame_free frame then done_with t else evict env ram_addr frame t

-- The page has been read into the frame.
unfoldable pub enter_page :
    Env → (s frame_i ram_addr missing_page asid entry_hi : ℕ) → Tables → Actor Tables
enter_page env s frame_i ram_addr missing_page asid entry_hi t = do
  let page_index = seek_entryhi_index_on_pagetable entry_hi (t.page_table s)
  if page_index == 2 ^ 32 - 1 then trap_handler env else done_with tt
  done_with (install s frame_i ram_addr missing_page asid page_index entry_hi t)

-- What is done under the mutex, for the support structure at `s`.
unfoldable pub page_in : Env → (s : ℕ) → Tables → Actor Tables
page_in env s t = do
  let entry_hi = ((env.support_at s).sup_except_state pg_fault_except).entry_hi
  let asid = (env.support_at s).sup_asid
  let missing_page = find_page_by_entryhi entry_hi
  let frame_i = (get_frame_index t.vm).0
  let ram_addr = (t.vm.swap_pool + frame_i * page_size) % 2 ^ 32
  t2 ←
      make_room env ram_addr (t.vm.swap_pool_table frame_i)
        (record t { vm = (get_frame_index t.vm).1 })
  read_write_flash env ram_addr missing_page asid false
  enter_page env s frame_i ram_addr missing_page asid entry_hi
      (note_text env ram_addr missing_page asid t2)

-- `tlb_handler` up to its LDST, and the state that it loads.
unfoldable pub tlb_handler : Env → Tables → Actor (Tables × StateT)
tlb_handler env t = do
  send ssi_fake_addr get_support_ptr
  r ← receive ssi_fake_addr
  let s = r.payload
  let saved = (env.support_at s).sup_except_state pg_fault_except
  if bit_and saved.cause get_exec_code == 24 then trap_handler env else done_with tt
  send env.mutex_pcb (word 1)
  _ ← receive env.mutex_pcb
  t' ← page_in env s t
  send env.mutex_pcb (word (2 ^ 8))
  _ ← receive env.mutex_pcb
  done_with (t', saved)
