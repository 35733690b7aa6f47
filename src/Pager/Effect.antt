-- ===== src/Pager/Effect.antt =====
-- What the tables hold when the pager of phase3/vmSupport.c is done.
use Prim.Native.Nat.{bit_and, bit_or}
use project.Common.{
  ℕ, ◌+◌, ◌-◌, ◌/◌, ◌^◌, Bool, ◌&&◌, List, [], ◌∷◌, ◌==◌, leb, if◌then◌else◌, update,
}
use project.Types.{asid_index, PteEntry}
use project.SysSupport.{Env}
use project.Vm.{get_frame_index, seek_entryhi_index_on_pagetable}
use project.Pager.{Tables}
use project.Pager.Sequence.{saved, own_asid, missing, frame_i, frame_addr, old_page, index}

-- The TLB after a page table entry was written to the first entry of its page, if there is one.
abbrev pub refreshed : PteEntry → List PteEntry → List PteEntry
refreshed pte [] = []
refreshed pte (e ∷ es) =
    if e.pte_entry_hi == pte.pte_entry_hi then pte ∷ es else e ∷ refreshed pte es

-- The page tables with one entry replaced.
abbrev pub with_entry : (ℕ → ℕ → PteEntry) → (owner i : ℕ) → PteEntry → ℕ → ℕ → PteEntry
with_entry table owner i pte = update table owner (update (table owner) i pte)

module _ (env : Env) (s : ℕ) (t : Tables) where
  abbrev pub is_free : Bool
  is_free = (old_page env s t).sw_asid == 2 ^ 32 - 1

  -- The entry of the page that was in the frame, without its frame.
  abbrev pub lost : PteEntry
  lost = record (t.page_table (old_page env s t).sw_pte.owner (old_page env s t).sw_pte.index) {
    pte_entry_lo = 0;
  }

  abbrev pub table_without : ℕ → ℕ → PteEntry
  table_without =
      if is_free
      then t.page_table
      else with_entry t.page_table (old_page env s t).sw_pte.owner (old_page env s t).sw_pte.index
          lost

  -- The pages of text of each program: noted when its first page is read for the first time.
  abbrev pub text_known : ℕ → ℕ
  text_known =
      if missing env s t == 0 && t.vm.text_pages (asid_index (own_asid env s t)) == 2 ^ 32 - 1
      then update t.vm.text_pages (asid_index (own_asid env s t))
          (env.ram (frame_addr env s t + 0x14) / 4096)
      else t.vm.text_pages

  -- Where the page table has room for the missing page, and the entry that it gets: the frame, valid,
  -- and writable if the page is behind the text.
  abbrev pub slot : ℕ
  slot = seek_entryhi_index_on_pagetable (saved env s t).entry_hi (table_without s)

  abbrev pub entered : PteEntry
  entered = record {
    pte_entry_hi = (saved env s t).entry_hi;
    pte_entry_lo =
        bit_or (bit_or (bit_and (frame_addr env s t) 0xFFFFF000) 0x200)
          (if leb (text_known (asid_index (own_asid env s t))) (missing env s t) then 0x400 else 0);
  }

  abbrev pub paged_in : Tables
  paged_in = record {
    vm = record {
      swap_pool_table = update t.vm.swap_pool_table (frame_i env s t) (record {
        sw_asid = own_asid env s t;
        sw_page_no = missing env s t;
        sw_pte = record { owner = s; index = slot };
      });
      text_pages = text_known;
      frame_index = (get_frame_index t.vm).1.frame_index;
      swap_pool = t.vm.swap_pool;
    };
    page_table = with_entry table_without s slot entered;
    tlb = refreshed entered (if is_free then t.tlb else refreshed lost t.tlb);
  }

-- The tables before the missing page is entered.
abbrev made_room : Env → (s : ℕ) → Tables → Tables
made_room env s t = record {
  vm = record {
    swap_pool_table = t.vm.swap_pool_table;
    text_pages = text_known env s t;
    frame_index = (get_frame_index t.vm).1.frame_index;
    swap_pool = t.vm.swap_pool;
  };
  page_table = table_without env s t;
  tlb = if is_free env s t then t.tlb else refreshed (lost env s t) t.tlb;
}
