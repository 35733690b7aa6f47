-- ===== src/Pager/Sequence.antt =====
-- What the pager of phase3/vmSupport.c asks of the other processes, and in which order.
use Prim.Native.Nat.{bit_and, bit_or}
use project.Common.{
  ℕ, ◌+◌, ◌-◌, ◌*◌, ◌%◌, ◌^◌, ◌≡◌, ◌≢◌, refl, Bool, true, false, not, ◌&&◌, Bool-cases, inl, inr,
  List, [], ◌∷◌, ◌++◌, ◌==◌, ==_ne, if◌then◌else◌,
}
use project.Types.{asid_index, StateT, ssi_fake_addr, pg_fault_except, get_exec_code, page_size}
use project.Actor.{Reply, Call, sent, asked, word, do_io, get_support_ptr, done, send, receive}
use project.SysSupport.{Env}
use project.Vm.{
  Swap, is_frame_free, get_frame_index, is_dirty, find_page_by_entryhi,
  seek_entryhi_index_on_pagetable,
}
use project.Pager.{
  Tables, il_flash, read_blk, write_blk, read_write_flash, invalidate, evict, note_text, install,
  page_in, make_room, enter_page, tlb_handler,
}

-- The calls of one transfer between a frame and the flash device of an address space.
abbrev pub transfer : Env → (ram_address disk_block asid command : ℕ) → List Call
transfer env ram_address disk_block asid command =
    let base = env.arch.dev_reg_addr il_flash (asid_index asid) in
    sent ssi_fake_addr (do_io (base + env.arch.dtp_data0_offset) ram_address)
    ∷ sent ssi_fake_addr
        (do_io (base + env.arch.dtp_command_offset) (bit_or (disk_block * 2 ^ 8 % 2 ^ 32) command))
    ∷ asked ssi_fake_addr
    ∷ []

read_write_flash-transfer :
    (env : Env) (ram block asid : ℕ) (w : Bool) (r : Reply) (rest : List Reply)
    → (r.payload == 1) ≡ true
    → read_write_flash env ram block asid w (r ∷ rest) ≡ record {
      ending = done tt;
      left = rest;
      calls = transfer env ram block asid (if w then write_blk else read_blk);
    }
unfolding read_write_flash send receive
read_write_flash-transfer env ram block asid w r rest ok = rw ok refl

-- Whether the page in a frame has to be written back, what is received then, and the tables when the
-- frame can be used.
abbrev pub is_unsaved : Swap → Tables → Bool
is_unsaved frame t =
    not (frame.sw_asid == 2 ^ 32 - 1)
    && not (bit_and (t.page_table frame.sw_pte.owner frame.sw_pte.index).pte_entry_lo 0x400 == 0)

abbrev pub if_unsaved {ℓ} : {A : Type ℓ} → Swap → Tables → List A → List A
if_unsaved frame t xs = if is_unsaved frame t then xs else []

abbrev pub vacated : Swap → Tables → Tables
vacated frame t = if is_frame_free frame then t else invalidate frame t

pub make_room-vacated :
    (env : Env) (ram : ℕ) (frame : Swap) (t : Tables) (w : Reply) (rest : List Reply)
    → (w.payload == 1) ≡ true
    → make_room env ram frame t (if_unsaved frame t (w ∷ []) ++ rest) ≡ record {
      ending = done (vacated frame t);
      left = rest;
      calls = if_unsaved frame t (transfer env ram frame.sw_page_no frame.sw_asid write_blk);
    }
unfolding make_room evict is_frame_free is_dirty
make_room-vacated env ram frame t w rest ok = elim (Bool-cases (frame.sw_asid == 2 ^ 32 - 1)) [
  | inl free ↦ rw free refl
  | inr used ↦
      elim (Bool-cases
        (bit_and (t.page_table frame.sw_pte.owner frame.sw_pte.index).pte_entry_lo 0x400 == 0)) [
          | inl clean ↦ rw (used, clean) refl
          | inr dirty ↦
              rw (used, dirty)
                (rw
                  (read_write_flash-transfer env ram frame.sw_page_no frame.sw_asid true w rest ok)
                  refl)
        ]
]

enter_page-install :
    (env : Env) (s frame_i ram missing asid hi : ℕ) (t : Tables) (script : List Reply)
    → seek_entryhi_index_on_pagetable hi (t.page_table s) ≢ 2 ^ 32 - 1
    → enter_page env s frame_i ram missing asid hi t script ≡ record {
      ending = done (
          install s frame_i ram missing asid
            (seek_entryhi_index_on_pagetable hi (t.page_table s))
            hi
            t);
      left = script;
      calls = [];
    }
unfolding enter_page
enter_page-install env s frame_i ram missing asid hi t script found =
    rw (==_ne (seek_entryhi_index_on_pagetable hi (t.page_table s)) (2 ^ 32 - 1) found) refl

page_in_runs :
    (env : Env) (s : ℕ) (t t2 t4 : Tables) (script s1 s2 : List Reply) (c1 c2 : List Call)
    → make_room env
        ((t.vm.swap_pool + (get_frame_index t.vm).0 * page_size) % 2 ^ 32)
        (t.vm.swap_pool_table (get_frame_index t.vm).0)
        (record t { vm = (get_frame_index t.vm).1 })
        script
      ≡ record { ending = done t2; left = s1; calls = c1 }
    → read_write_flash env
        ((t.vm.swap_pool + (get_frame_index t.vm).0 * page_size) % 2 ^ 32)
        (find_page_by_entryhi ((env.support_at s).sup_except_state pg_fault_except).entry_hi)
        (env.support_at s).sup_asid
        false
        s1
      ≡ record { ending = done tt; left = s2; calls = c2 }
    → enter_page env s
        (get_frame_index t.vm).0
        ((t.vm.swap_pool + (get_frame_index t.vm).0 * page_size) % 2 ^ 32)
        (find_page_by_entryhi ((env.support_at s).sup_except_state pg_fault_except).entry_hi)
        (env.support_at s).sup_asid
        ((env.support_at s).sup_except_state pg_fault_except).entry_hi
        (note_text env
          ((t.vm.swap_pool + (get_frame_index t.vm).0 * page_size) % 2 ^ 32)
          (find_page_by_entryhi ((env.support_at s).sup_except_state pg_fault_except).entry_hi)
          (env.support_at s).sup_asid
          t2)
        s2
      ≡ record { ending = done t4; left = s2; calls = [] }
    → page_in env s t script ≡ record { ending = done t4; left = s2; calls = c1 ++ (c2 ++ []) }
unfolding page_in
page_in_runs env s t t2 t4 script s1 s2 c1 c2 e1 e2 e3 = rw e1 (rw e2 (rw e3 refl))

tlb_handler_runs :
    (env : Env) (t t4 : Tables) (r m n : Reply) (script rest : List Reply) (cs : List Call)
    → (bit_and ((env.support_at r.payload).sup_except_state pg_fault_except).cause get_exec_code
        == 24)
      ≡ false
    → page_in env r.payload t script ≡ record { ending = done t4; left = n ∷ rest; calls = cs }
    → tlb_handler env t (r ∷ m ∷ script) ≡ record {
      ending = done (t4, (env.support_at r.payload).sup_except_state pg_fault_except);
      left = rest;
      calls =
          sent ssi_fake_addr get_support_ptr
          ∷ asked ssi_fake_addr
          ∷ sent env.mutex_pcb (word 1)
          ∷ asked env.mutex_pcb
          ∷ (cs ++ (sent env.mutex_pcb (word (2 ^ 8)) ∷ asked env.mutex_pcb ∷ []));
    }
unfolding tlb_handler send receive
tlb_handler_runs env t t4 r m n script rest cs other e = rw (other, e) refl

module _ (env : Env) (s : ℕ) (t : Tables) where
  -- The page that is missing, the frame that it gets, and what was in that frame.
  abbrev pub saved : StateT
  saved = (env.support_at s).sup_except_state pg_fault_except

  abbrev pub own_asid : ℕ
  own_asid = (env.support_at s).sup_asid

  abbrev pub missing : ℕ
  missing = find_page_by_entryhi saved.entry_hi

  abbrev pub frame_i : ℕ
  frame_i = (get_frame_index t.vm).0

  abbrev pub frame_addr : ℕ
  frame_addr = (t.vm.swap_pool + frame_i * page_size) % 2 ^ 32

  abbrev pub old_page : Swap
  old_page = t.vm.swap_pool_table frame_i

  abbrev pub chosen : Tables
  chosen = record t { vm = (get_frame_index t.vm).1 }

  -- The tables when the old page is out, and at the end.
  abbrev pub noted : Tables
  noted = note_text env frame_addr missing own_asid (vacated old_page chosen)

  abbrev pub index : ℕ
  index = seek_entryhi_index_on_pagetable saved.entry_hi (noted.page_table s)

  abbrev pub installed : Tables
  installed = install s frame_i frame_addr missing own_asid index saved.entry_hi noted

-- The transfers: a page that is not saved goes out before the missing one comes in.
abbrev pub swap_calls : Env → ℕ → Tables → List Call
swap_calls env s t =
    if_unsaved (old_page env s t) t (
      transfer env (frame_addr env s t) (old_page env s t).sw_page_no (old_page env s t).sw_asid
        write_blk)
    ++ transfer env (frame_addr env s t) (missing env s t) (own_asid env s t) read_blk

-- The replies of the transfers.
abbrev pub swap_replies : Env → ℕ → Tables → (written : Reply) → List Reply → List Reply
swap_replies env s t written rest = if_unsaved (old_page env s t) t (written ∷ []) ++ rest

page_in-installed :
    (env : Env) (s : ℕ) (t : Tables) (written read : Reply) (rest : List Reply)
    → index env s t ≢ 2 ^ 32 - 1
    → (written.payload == 1) ≡ true
    → (read.payload == 1) ≡ true
    → page_in env s t (swap_replies env s t written (read ∷ rest))
      ≡ record { ending = done (installed env s t); left = rest; calls = swap_calls env s t }
page_in-installed env s t written read rest found ok1 ok2 =
    page_in_runs env s t (vacated (old_page env s t) (chosen env s t)) (installed env s t)
      (swap_replies env s t written (read ∷ rest)) (read ∷ rest) rest
      (if_unsaved (old_page env s t) t (
        transfer env (frame_addr env s t) (old_page env s t).sw_page_no (old_page env s t).sw_asid
          write_blk))
      (transfer env (frame_addr env s t) (missing env s t) (own_asid env s t) read_blk)
      (make_room-vacated env (frame_addr env s t) (old_page env s t) (chosen env s t) written
        (read ∷ rest) ok1)
      (read_write_flash-transfer env (frame_addr env s t) (missing env s t) (own_asid env s t) false
        read rest ok2)
      (enter_page-install env s (frame_i env s t) (frame_addr env s t) (missing env s t)
        (own_asid env s t) (saved env s t).entry_hi (noted env s t) rest found)

-- When the exception is no modification, the page table has an index for the missing page, and the
-- transfers end well, `tlb_handler` asks for its support structure, takes the mutex, writes the page
-- of the chosen frame to its own flash device if the frame is in use and its page dirty, reads the
-- missing page, releases the mutex, and ends with the missing page in the frame, in the page table
-- and in the TLB's entry of that page, if it has one; a page that was in the frame is no longer
-- valid.
pub tlb_handler-installed :
    (env : Env) (t : Tables) (r m written read n : Reply) (rest : List Reply)
    → (bit_and (saved env r.payload t).cause get_exec_code == 24) ≡ false
    → index env r.payload t ≢ 2 ^ 32 - 1
    → (written.payload == 1) ≡ true
    → (read.payload == 1) ≡ true
    → tlb_handler env t (r ∷ m ∷ swap_replies env r.payload t written (read ∷ n ∷ rest)) ≡ record {
      ending = done (installed env r.payload t, saved env r.payload t);
      left = rest;
      calls =
          sent ssi_fake_addr get_support_ptr
          ∷ asked ssi_fake_addr
          ∷ sent env.mutex_pcb (word 1)
          ∷ asked env.mutex_pcb
          ∷ (swap_calls env r.payload t
              ++ (sent env.mutex_pcb (word (2 ^ 8)) ∷ asked env.mutex_pcb ∷ []));
    }
tlb_handler-installed env t r m written read n rest other found ok1 ok2 =
    tlb_handler_runs env t (installed env r.payload t) r m n
      (swap_replies env r.payload t written (read ∷ n ∷ rest)) rest (swap_calls env r.payload t)
      other (page_in-installed env r.payload t written read (n ∷ rest) found ok1 ok2)
