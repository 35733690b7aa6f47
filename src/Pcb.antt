-- ===== src/Pcb.antt =====
-- phase1/pcb.c: the process control blocks, their queues and the process tree.
pub mod Loops
pub mod Queue
pub mod Alloc
pub mod Init
pub mod Tree
pub mod Valid
use project.Common.{
  ℕ, zero, suc, ◌+◌, ◌-◌, ◌*◌, ◌%◌, ◌^◌, Bool, true, false, not, ◌||◌, ◌==◌, ltb, if◌then◌else◌,
}
use project.Listx.{
  null, container_of, init_list_head, list_add, list_add_tail, list_del, list_empty, list_next,
}
use project.Types.{
  StateT, Pcb, State, max_proc, offset_p_list, offset_p_io, sizeof_pcb, p_list, p_child, p_sib,
  msg_inbox, p_io,
}
use project.Types.Machine.{
  Cmd, pure, ◌>>=◌, ◌>>◌, gets, modify, on_links, on_pcb, critical, Flow, go, done, list_for_each,
}

unfoldable pub free_pcb : ℕ → Cmd (Unit {0})
free_pcb p =
    critical (do free_h ← gets (λ s. s.pcb_free_h); on_links (λ m. list_add m (p_list p) free_h))

-- The loop over the general registers sets each of them.
abbrev pub zero_state : StateT
zero_state = record {
  entry_hi = 0;
  cause = 0;
  status = 0;
  pc_epc = 0;
  mie = 0;
  reg_sp = 0;
  reg_a0 = 0;
  reg_a1 = 0;
  reg_a2 = 0;
  gpr = λ _. 0;
}

-- The initial values of the fields that are no list heads.
abbrev pub fresh_pcb : ℕ → Pcb
fresh_pcb pid = record {
  p_parent = null;
  p_s = zero_state;
  p_time = 0;
  p_support_struct = null;
  do_io = 0;
  p_pid = pid;
}

unfoldable pub alloc_pcb : Cmd ℕ
alloc_pcb = critical (do
  free_h ← gets (λ s. s.pcb_free_h)
  is_empty ← gets (λ s. list_empty s.links free_h)
  if is_empty then pure null else do
    p ← gets (λ s. container_of (s.links.next free_h) offset_p_list)
    on_links (λ m. list_del m (p_list p))
    on_links (λ m. init_list_head m (p_list p))
    on_links (λ m. init_list_head m (p_child p))
    on_links (λ m. init_list_head m (p_sib p))
    on_links (λ m. init_list_head m (msg_inbox p))
    pid ← gets (λ s. s.next_pid)
    on_pcb p (λ _. fresh_pcb pid)
    modify (λ s. record s { next_pid = (s.next_pid + 1) % 2 ^ 32 })
    on_links (λ m. init_list_head m (p_io p))
    pure p)

-- `for (i = 0; i < MAXPROC; i++)`, by the rounds left.
unfoldable pub init_pcbs_from : (rounds i : ℕ) → Cmd (Unit {0})
init_pcbs_from zero i = pure tt
init_pcbs_from (suc n) i = do
  table ← gets (λ s. s.pcb_table)
  free_h ← gets (λ s. s.pcb_free_h)
  on_links (λ m. list_add m (p_list (table + i * sizeof_pcb)) free_h)
  init_pcbs_from n (i + 1)

unfoldable pub init_pcbs : Cmd (Unit {0})
unfolding init_pcbs_from
init_pcbs = critical (init_pcbs_from max_proc 0)

unfoldable pub mk_empty_proc_q : ℕ → Cmd (Unit {0})
mk_empty_proc_q head = critical (on_links (λ m. init_list_head m head))

unfoldable pub empty_proc_q : ℕ → Cmd Bool
empty_proc_q head = critical (gets (λ s. list_empty s.links head))

unfoldable pub insert_proc_q : (head p : ℕ) → Cmd (Unit {0})
insert_proc_q head p = critical (on_links (λ m. list_add_tail m (p_list p) head))

unfoldable pub insert_proc_q_for_io : (head p : ℕ) → Cmd (Unit {0})
insert_proc_q_for_io head p = critical (on_links (λ m. list_add_tail m (p_io p) head))

unfoldable pub head_proc_q : ℕ → Cmd ℕ
head_proc_q head = critical (do
  is_empty ← gets (λ s. list_empty s.links head)
  if is_empty then pure null else gets (λ s. container_of (list_next s.links head) offset_p_list))

unfoldable pub head_proc_q_for_io : ℕ → Cmd ℕ
head_proc_q_for_io head = critical (do
  is_empty ← gets (λ s. list_empty s.links head)
  if is_empty then pure null else gets (λ s. container_of (list_next s.links head) offset_p_io))

unfoldable pub remove_proc_q : ℕ → Cmd ℕ
unfolding head_proc_q
remove_proc_q head = critical (do
  is_empty ← gets (λ s. list_empty s.links head)
  if is_empty then pure null else do
    tmp ← head_proc_q head
    on_links (λ m. list_del m (p_list tmp))
    on_links (λ m. init_list_head m (p_list tmp))
    pure tmp)

unfoldable pub remove_proc_q_for_io : ℕ → Cmd ℕ
unfolding head_proc_q_for_io
remove_proc_q_for_io head = critical (do
  is_empty ← gets (λ s. list_empty s.links head)
  if is_empty then pure null else do
    tmp ← head_proc_q_for_io head
    on_links (λ m. list_del m (p_io tmp))
    on_links (λ m. init_list_head m (p_io tmp))
    pure tmp)

-- No queue of processes is longer than the table; one round more finds the end.
abbrev pub queue_fuel : ℕ
queue_fuel = max_proc + 1

-- One round of the loop of `outProcQ` and of its copy for `p_io`, which differ in the offset of the
-- list head in the `pcb_t`; `a` is the local variable.
unfoldable pub out_round : (offset p a iter : ℕ) → Cmd (Flow ℕ ℕ)
out_round offset p a iter =
    let tmp = container_of iter offset in
    if tmp == p then (do on_links (λ m. list_del m (tmp + offset)); pure (go tmp)) else pure (go a)

unfoldable pub out_proc_q : (head p : ℕ) → Cmd ℕ
unfolding out_round
out_proc_q head p = critical (do
  first ← gets (λ s. s.links.next head)
  list_for_each queue_fuel first head null (out_round offset_p_list p) pure)

unfoldable pub out_proc_q_for_io : (head p : ℕ) → Cmd ℕ
unfolding out_round
out_proc_q_for_io head p = critical (do
  first ← gets (λ s. s.links.next head)
  list_for_each queue_fuel first head null (out_round offset_p_io p) pure)

unfoldable pub empty_child : ℕ → Cmd Bool
empty_child p = critical (gets (λ s. list_empty s.links (p_child p)))

unfoldable pub insert_child : (prnt p : ℕ) → Cmd (Unit {0})
insert_child prnt p = critical (do
  on_pcb p (λ b. record b { p_parent = prnt })
  on_links (λ m. list_add_tail m (p_sib p) (p_child prnt)))

unfoldable pub remove_child : ℕ → Cmd ℕ
unfolding remove_proc_q
remove_child p = critical (remove_proc_q (p_child p))

unfoldable pub out_child : ℕ → Cmd ℕ
out_child p = critical (do
  parent ← gets (λ s. (s.pcb p).p_parent)
  if parent == null then pure null else do on_links (λ m. list_del m (p_sib p)); pure p)

unfoldable pub search_pcb_round : (p : ℕ) → Bool → ℕ → Cmd (Flow Bool Bool)
search_pcb_round p a iter =
    if container_of iter offset_p_list == p then pure (go true) else pure (go a)

unfoldable pub search_pcb : (head p : ℕ) → Cmd Bool
unfolding search_pcb_round
search_pcb head p = critical (do
  first ← gets (λ s. s.links.next head)
  list_for_each queue_fuel first head false (search_pcb_round p) pure)

-- The tests of `||` run from left to right, and stop at the first that holds.
unfoldable pub is_pcb_valid : ℕ → Cmd Bool
unfolding search_pcb
is_pcb_valid p = critical (do
  table ← gets (λ s. s.pcb_table)
  free_h ← gets (λ s. s.pcb_free_h)
  if ltb p table
      then pure false
      else if ltb (table + (max_proc - 1) * sizeof_pcb) p
      then pure false
      else do
        is_free ← search_pcb free_h p
        pure (not (is_free || not ((p - table) % sizeof_pcb == 0))))
