-- ===== src/Pcb/Alloc.antt =====
-- The pool of free process control blocks of phase1/pcb.c.
use project.Common.{
  ℕ, ◌+◌, ◌%◌, ◌^◌, ◌≡◌, refl, Bool, true, false, List, [], ◌∷◌, arith, has, update,
}
use project.Listx.{Links, null, init_list_head, list_add, list_del}
use project.Listx.Ring.{Ring, list_empty-is_empty, next-first}
use project.Listx.Heap.{
  IsHeap, Unowned, unlink_first, list_add-IsHeap, init_list_head-Unowned, init_list_head-IsHeap,
}
use project.Types.{State, Pcb, p_list, p_child, p_sib, msg_inbox, p_io}
use project.Types.Machine.{ret}
use project.Types.View.{Yields}
use project.Pcb.{free_pcb, alloc_pcb}

-- Nothing refers to the list heads in the block of `p`, but for the queue that has `p`.
pub record IsDetached (H : ℕ → Bool) (V : ℕ → List ℕ) (p : ℕ) : Type 0 where
  pub sib : Unowned H V (p_sib p)
  pub io : Unowned H V (p_io p)
  pub child : (a : ℕ) → H a ≡ true → has (p_child p) (V a) ≡ false
  pub inbox : (a : ℕ) → H a ≡ true → has (msg_inbox p) (V a) ≡ false

-- A block whose fields are all zero but for the number of the process.
abbrev pub erased : (pid : ℕ) → Pcb
erased pid = record {
  p_parent = 0;
  p_s = record {
    entry_hi = 0;
    cause = 0;
    status = 0;
    pc_epc = 0;
    mie = 0;
    reg_sp = 0;
    reg_a0 = 0;
    reg_a1 = 0;
    reg_a2 = 0;
    gpr = λ _. 0;
  };
  p_time = 0;
  p_support_struct = 0;
  do_io = 0;
  p_pid = pid;
}

-- A node that is linked to itself only.
abbrev pub IsAlone : Links → ℕ → Type 0
IsAlone m a = (m.next a ≡ a) × (m.prev a ≡ a)

-- All five nodes of a block are alone.
pub record IsReset (m : Links) (p : ℕ) : Type 0 where
  pub queued : IsAlone m (p_list p)
  pub children : IsAlone m (p_child p)
  pub sibling : IsAlone m (p_sib p)
  pub inbox : IsAlone m (msg_inbox p)
  pub blocked : IsAlone m (p_io p)

-- The heads and lists with `p` as a process of its own: no children, no messages.
abbrev pub with_process : (ℕ → Bool) → ℕ → ℕ → Bool
with_process H p = update (update H (p_child p) true) (msg_inbox p) true

abbrev pub with_no_lists : (ℕ → List ℕ) → ℕ → ℕ → List ℕ
with_no_lists V p = update (update V (p_child p) []) (msg_inbox p) []

-- The links after all `INIT_LIST_HEAD`s of `allocPcb`.
abbrev init_block : Links → ℕ → Links
init_block m p =
    init_list_head
      (init_list_head (init_list_head (init_list_head m (p_child p)) (p_sib p)) (msg_inbox p))
      (p_io p)

init_block-IsReset : (m : Links) (p : ℕ) → IsReset (init_block (init_list_head m (p_list p)) p) p
unfolding init_list_head
init_block-IsReset m p = record {
  queued = (ground arith, ground arith);
  children = (ground arith, ground arith);
  sibling = (ground arith, ground arith);
  inbox = (ground arith, ground arith);
  blocked = (ground arith, ground arith);
}

init_block-IsHeap :
    {m : Links} {H : ℕ → Bool} {V : ℕ → List ℕ} (p : ℕ)
    → IsHeap m H V
    → IsDetached H V p
    → IsHeap (init_block m p) (with_process H p) (with_no_lists V p)
init_block-IsHeap {m} {H} {V} p heap d =
    let h1 = init_list_head-IsHeap heap (p_child p) d.child in
    let h2 = init_list_head-Unowned h1 (p_sib p) (λ a ha. ground (arith, d.sib a)) in
    let h3 = init_list_head-IsHeap h2 (msg_inbox p) (λ a ha. ground (arith, d.inbox a)) in
    init_list_head-Unowned h3 (p_io p) (λ a ha. ground (arith, d.io a))

module _ (s : State) {H : ℕ → Bool} {V : ℕ → List ℕ} (heap : IsHeap s.links H V)
    (is_head : H s.pcb_free_h ≡ true) where
  -- `freePcb` puts the block in front of the free list.
  pub free_pcb-cons :
      (p : ℕ)
      → Unowned H V (p_list p)
      → Yields (free_pcb p s) tt s H (update V s.pcb_free_h (p_list p ∷ V s.pcb_free_h))
  unfolding free_pcb
  free_pcb-cons p free = record {
    links = list_add s.links (p_list p) s.pcb_free_h;
    runs = refl;
    heap = list_add-IsHeap heap (p_list p) s.pcb_free_h is_head free;
  }

  pub alloc_pcb-nil : V s.pcb_free_h ≡ [] → alloc_pcb s ≡ ret null s
  unfolding alloc_pcb
  alloc_pcb-nil e = ground (arith, list_empty-is_empty (heap.ring s.pcb_free_h is_head), e)

  -- When the free list is not empty and no other list refers to the heads in its first block,
  -- `allocPcb` returns that block with a process number of its own and every other field zero, takes
  -- it out of the free list, makes its lists of children and of messages empty, and links each of
  -- its five nodes to itself.
  pub alloc_pcb-cons :
      (p : ℕ) (rest : List ℕ)
      → V s.pcb_free_h ≡ p_list p ∷ rest
      → IsDetached H (update V s.pcb_free_h rest) p
      → (y : Yields
          (alloc_pcb s)
          p
          (record s {
            pcb = update s.pcb p (erased s.next_pid);
            next_pid = (s.next_pid + 1) % 2 ^ 32;
          })
          (with_process H p)
          (with_no_lists (update V s.pcb_free_h rest) p))
        × IsReset y.links p
  unfolding alloc_pcb
  alloc_pcb-cons p rest e d = (
    record {
      links = init_block (init_list_head (list_del s.links (p_list p)) (p_list p)) p;
      runs = ground (arith, list_empty-is_empty r, next-first (V s.pcb_free_h) r e, e);
      heap = init_block-IsHeap p (unlink_first heap (p_list p) s.pcb_free_h rest is_head e) d;
    },
    init_block-IsReset (list_del s.links (p_list p)) p,
  )
    where
      r : Ring s.links s.pcb_free_h (V s.pcb_free_h)
      r = heap.ring s.pcb_free_h is_head
