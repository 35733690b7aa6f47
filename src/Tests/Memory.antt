-- ===== src/Tests/Memory.antt =====
-- A memory with a few processes and messages. Process `a` is ready, `b` is free, `c` is a child of
-- `a` and waits for the clock, and `d` waits for a message.
use project.Common.{
  ℕ, ◌+◌, ◌-◌, ◌*◌, ◌^◌, ltb, refl, Bool, true, false, List, [], ◌∷◌, ◌++◌, arith, update,
}
use project.Listx.{Links, init_list_head, list_add_tail}
use project.Listx.Heap.{IsHeap, init_list_head-IsHeap, list_add_tail-IsHeap}
use project.Types.{State, Layout, Arch, Pcb, Msg, Support, StateT, p_child, p_sib, p_io, msg_inbox}
use project.Pcb.{zero_state, fresh_pcb}
use project.Pcb.Alloc.{IsDetached}

abbrev pub layout : Layout
layout = record {
  pcb_table = 1000;
  msg_table = 20000;
  support_table = 30000;
  pcb_free_h = 8;
  msg_free_h = 16;
  support_free_h = 24;
  ready_queue = 32;
  pcb_blocked_on_device = 100;
  pcb_blocked_on_clock = 40;
}

abbrev pub arch : Arch
arch = record {
  dev_reg_start = 0x10000054;
  dev_reg_size = 16;
  n_ext_il = 5;
  n_dev_per_il = 8;
  dev_il_start = 17;
  ext_il_index = λ il. il - 17;
  dev_reg_addr = λ il dev. 0x10000054 + (il - 17) * 128 + dev * 16;
  cdev_bitmap_addr = λ il. 0x10000040 + (il - 17) * 4;
  dtp_status_offset = 0;
  dtp_command_offset = 4;
  dtp_data0_offset = 8;
  recv_status_offset = 0;
  recv_command_offset = 4;
  transm_status_offset = 8;
  transm_command_offset = 12;
  ack = 1;
  cause_is_int = λ cause. ltb (2 ^ 31 - 1) cause;
}

abbrev pub a : ℕ
a = 1000

abbrev pub b : ℕ
b = 1208

abbrev pub c : ℕ
c = 1416

abbrev pub d : ℕ
d = 1624

-- A free message, and one from `c` to `a`.
abbrev pub free_one : ℕ
free_one = 20000

abbrev pub from_c : ℕ
from_c = 20016

abbrev pub zero_links : Links
zero_links = record { next = λ _. 0; prev = λ _. 0 }

abbrev pub no_heads : ℕ → Bool
no_heads _ = false

abbrev pub no_lists : ℕ → List ℕ
no_lists _ = []

pub empty-IsHeap : IsHeap zero_links no_heads no_lists
empty-IsHeap = record { ring = λ x h. cc; apart = λ x y z h. cc }

abbrev pub heads : ℕ → Bool
heads =
    update
      (update
        (update
          (update (update (update (update (update no_heads 8 true) 16 true) 32 true) 40 true)
            (p_child a) true)
          (msg_inbox a) true)
        (msg_inbox d) true)
      24 true

abbrev pub empty_links : Links
empty_links =
    init_list_head
      (init_list_head
        (init_list_head
          (init_list_head
            (init_list_head (init_list_head (init_list_head (init_list_head zero_links 8) 16) 32)
              40)
            (p_child a))
          (msg_inbox a))
        (msg_inbox d))
      24

abbrev pub empty_lists : ℕ → List ℕ
empty_lists =
    update
      (update
        (update
          (update (update (update (update (update no_lists 8 []) 16 []) 32 []) 40 []) (p_child a)
            [])
          (msg_inbox a) [])
        (msg_inbox d) [])
      24 []

pub empty_lists-IsHeap : IsHeap empty_links heads empty_lists
empty_lists-IsHeap =
    let h1 = init_list_head-IsHeap empty-IsHeap 8 (λ x h. refl) in
    let h2 = init_list_head-IsHeap h1 16 (λ x h. ground arith) in
    let h3 = init_list_head-IsHeap h2 32 (λ x h. ground arith) in
    let h4 = init_list_head-IsHeap h3 40 (λ x h. ground arith) in
    let h5 = init_list_head-IsHeap h4 (p_child a) (λ x h. ground arith) in
    let h6 = init_list_head-IsHeap h5 (msg_inbox a) (λ x h. ground arith) in
    let h7 = init_list_head-IsHeap h6 (msg_inbox d) (λ x h. ground arith) in
    init_list_head-IsHeap h7 24 (λ x h. ground arith)

-- `list_add_tail`, on the links and on the lists.
abbrev put : ℕ → ℕ → (ℕ → List ℕ) → ℕ → List ℕ
put x hd V = update V hd (V hd ++ (x ∷ []))

abbrev pub some_links : Links
some_links =
    let m1 = list_add_tail empty_links b 8 in
    let m2 = list_add_tail m1 free_one 16 in
    let m3 = list_add_tail m2 a 32 in
    let m4 = list_add_tail m3 (p_sib c) (p_child a) in
    let m5 = list_add_tail m4 from_c (msg_inbox a) in list_add_tail m5 (p_io c) 40

abbrev pub some_lists : ℕ → List ℕ
some_lists = put (p_io c) 40 (
    put from_c (msg_inbox a)
      (put (p_sib c) (p_child a) (put a 32 (put free_one 16 (put b 8 empty_lists)))))

pub some_lists-IsHeap : IsHeap some_links heads some_lists
some_lists-IsHeap =
    let h1 = list_add_tail-IsHeap empty_lists-IsHeap b 8 refl (λ x h. ground arith) in
    let h2 = list_add_tail-IsHeap h1 free_one 16 refl (λ x h. ground arith) in
    let h3 = list_add_tail-IsHeap h2 a 32 refl (λ x h. ground arith) in
    let h4 = list_add_tail-IsHeap h3 (p_sib c) (p_child a) refl (λ x h. ground arith) in
    let h5 = list_add_tail-IsHeap h4 from_c (msg_inbox a) refl (λ x h. ground arith) in
    list_add_tail-IsHeap h5 (p_io c) 40 refl (λ x h. ground arith)

abbrev pub a_support : Support
a_support = record {
  sup_asid = 1;
  sup_except_state = λ _. zero_state;
  sup_except_context = λ _. record { stack_ptr = 0; status = 0; pc = 0 };
  sup_private_pg_tbl = λ _. record { pte_entry_hi = 0; pte_entry_lo = 0 };
}

-- `d` receives from anyone, into the word at 600.
abbrev pub waiting_state : StateT
waiting_state = record zero_state { reg_a2 = 600 }

abbrev pub pcbs : ℕ → Pcb
pcbs =
    update (update (λ _. fresh_pcb 0) c (record (fresh_pcb 3) { p_parent = a; do_io = 1 })) d
      (record (fresh_pcb 4) { p_s = waiting_state; do_io = 1 })

abbrev pub msgs : ℕ → Msg
msgs =
    update (λ _. record { m_sender = 0; m_payload = 0 }) from_c
      (record { m_sender = c; m_payload = 77 })

abbrev pub memory : State
memory = record {
  layout = layout;
  arch = arch;
  links = some_links;
  pcb = pcbs;
  msg = msgs;
  support = λ _. a_support;
  next_pid = 5;
  process_count = 4;
  softblock_count = 2;
  tod_timer = 0;
  current_process = a;
  ssi_pcb = 2;
  ssi_pcb_real = d;
  bios = zero_state;
  state_at = λ _. zero_state;
  ram = λ _. 0;
  mstatus = 8;
  mcause = 0;
  mip = 0;
  mie = 0;
  timer = 0;
  interval_timer = 0;
  tod = 9;
  entry_hi = 0;
  entry_lo = 0;
  tlb = [];
}

pub memory-IsHeap : IsHeap memory.links heads some_lists
memory-IsHeap = some_lists-IsHeap

-- A memory with the heads of the two pools only, for the start of the system.
abbrev pub bare_heads : ℕ → Bool
bare_heads = update (update no_heads 8 true) 16 true

abbrev pub bare_links : Links
bare_links = init_list_head (init_list_head zero_links 8) 16

abbrev pub bare_lists : ℕ → List ℕ
bare_lists = update (update no_lists 8 []) 16 []

pub bare-IsHeap : IsHeap bare_links bare_heads bare_lists
bare-IsHeap =
    init_list_head-IsHeap (init_list_head-IsHeap empty-IsHeap 8 (λ x h. refl)) 16
      (λ x h. ground arith)

abbrev pub bare : State
bare = record memory { links = bare_links }

pub b-IsDetached : IsDetached heads (update some_lists 8 []) b
b-IsDetached = record {
  sib = λ x h. ground arith;
  io = λ x h. ground arith;
  child = λ x h. ground arith;
  inbox = λ x h. ground arith;
}
