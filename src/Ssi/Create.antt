-- ===== src/Ssi/Create.antt =====
-- The request CREATEPROCESS of phase2/ssi.c.
use project.Common.{
  ℕ, ◌+◌, ◌%◌, ◌^◌, ◌≡◌, ◌≢◌, refl, ap, fun_ext, ◌∙◌, Bool, true, false, List, [], ◌∷◌, ◌++◌, arith,
  ◌==◌, has, update, ==_ne, has-append,
}
use project.Listx.{Links, null}
use project.Listx.Heap.{IsHeap, Unowned, Unowned-first}
use project.Types.{State, StateT, Pcb, p_list, p_child, p_sib, msg_inbox}
use project.Types.Machine.{ret}
use project.Types.View.{Yields, Yields-cast}
use project.Pcb.{fresh_pcb, alloc_pcb, insert_child, insert_proc_q}
use project.Pcb.Alloc.{IsDetached, with_process, with_no_lists, alloc_pcb-cons, alloc_pcb-nil}
use project.Pcb.Tree.{insert_child-snoc}
use project.Pcb.Queue.{insert_proc_q-snoc}
use project.Ssi.{create_process}

-- The block of the new process: the state and the support structure of the request, and the parent.
abbrev pub created : State → (sender arg : ℕ) → Pcb
created s sender arg = record (fresh_pcb s.next_pid) {
  p_s = s.state_at (s.ram arg);
  p_support_struct = s.ram (arg + 4);
  p_parent = sender;
}

-- The state after the request, but for the links.
abbrev pub with_created : State → (sender arg p : ℕ) → State
with_created s sender arg p = record s {
  pcb = update s.pcb p (created s sender arg);
  next_pid = (s.next_pid + 1) % 2 ^ 32;
  process_count = (s.process_count + 1) % 2 ^ 32;
}

-- The state when the block has its state and support structure.
abbrev filled : State → (arg p : ℕ) → State
filled s arg p = record s {
  pcb = update s.pcb p (record (fresh_pcb s.next_pid) {
    p_s = s.state_at (s.ram arg);
    p_support_struct = s.ram (arg + 4);
  });
  next_pid = (s.next_pid + 1) % 2 ^ 32;
}

abbrev allocated : State → Links → ℕ → State
allocated s l p = record s {
  pcb = update s.pcb p (fresh_pcb s.next_pid);
  next_pid = (s.next_pid + 1) % 2 ^ 32;
  links = l;
}

filled_block :
    (f : ℕ → Pcb) (p : ℕ) (b : Pcb) (st : StateT) (sup : ℕ)
    → update
        (update (update f p b) p (record (update f p b p) { p_s = st }))
        p
        (record (update (update f p b) p (record (update f p b p) { p_s = st }) p) {
          p_support_struct = sup;
        })
      ≡ update f p (record b { p_s = st; p_support_struct = sup })
filled_block f p b st sup = fun_ext λ x. ground arith

with_parent :
    (f : ℕ → Pcb) (p : ℕ) (b : Pcb) (prnt : ℕ)
    → update (update f p b) p (record (update f p b p) { p_parent = prnt })
      ≡ update f p (record b { p_parent = prnt })
with_parent f p b prnt = fun_ext λ x. ground arith

create_process_runs :
    (s : State) (sender arg p : ℕ) (l1 l2 l3 : Links)
    → alloc_pcb s ≡ ret p (allocated s l1 p)
    → p ≢ null
    → insert_child sender p (record (filled s arg p) { links = l1 })
      ≡ ret tt (record (filled s arg p) { pcb = update s.pcb p (created s sender arg); links = l2 })
    → insert_proc_q s.ready_queue p
        (record (filled s arg p) { pcb = update s.pcb p (created s sender arg); links = l2 })
      ≡ ret tt (record (filled s arg p) { pcb = update s.pcb p (created s sender arg); links = l3 })
    → create_process sender arg s ≡ ret p (record (with_created s sender arg p) { links = l3 })
unfolding create_process
create_process_runs s sender arg p l1 l2 l3 e1 ne e2 e3 =
    rw
      (
        e1,
        ==_ne p null ne,
        filled_block s.pcb p (fresh_pcb s.next_pid) (s.state_at (s.ram arg)) (s.ram (arg + 4)),
      )
      (rw e2 (rw e3 refl))

-- A process can be made: `p` is the first free block, nothing refers to its list heads, and the lists that the
-- request uses have heads of their own.
pub record CanCreate (s : State) (H : ℕ → Bool) (V : ℕ → List ℕ) (sender p : ℕ) (rest : List ℕ)
    : Type 0 where
  pub heap : IsHeap s.links H V
  pub free_head : H s.pcb_free_h ≡ true
  pub parent_head : H (p_child sender) ≡ true
  pub ready_head : H s.ready_queue ≡ true
  pub free : V s.pcb_free_h ≡ p_list p ∷ rest
  pub not_null : p ≢ null
  pub detached : IsDetached H (update V s.pcb_free_h rest) p
  pub child_child : (p_child p == p_child sender) ≡ false
  pub inbox_child : (msg_inbox p == p_child sender) ≡ false
  pub child_ready : (p_child p == s.ready_queue) ≡ false
  pub inbox_ready : (msg_inbox p == s.ready_queue) ≡ false
  pub free_child : (s.pcb_free_h == p_child sender) ≡ false
  pub free_ready : (s.pcb_free_h == s.ready_queue) ≡ false
  pub parent_ready : (p_child sender == s.ready_queue) ≡ false

module _ (s : State) {H : ℕ → Bool} {V : ℕ → List ℕ} (sender arg p : ℕ) (rest : List ℕ)
    (c : CanCreate s H V sender p rest) where
  -- The lists when the block is allocated, when it is a child, and when it is ready.
  abbrev own_heads : ℕ → Bool
  own_heads = with_process H p

  abbrev alone : ℕ → List ℕ
  alone = with_no_lists (update V s.pcb_free_h rest) p

  abbrev as_child : ℕ → List ℕ
  as_child = update alone (p_child sender) (V (p_child sender) ++ (p_sib p ∷ []))

  abbrev as_ready : ℕ → List ℕ
  as_ready = update as_child s.ready_queue (V s.ready_queue ++ (p_list p ∷ []))

  got :
      Yields
        (alloc_pcb s)
        p
        (record s {
          pcb = update s.pcb p (fresh_pcb s.next_pid);
          next_pid = (s.next_pid + 1) % 2 ^ 32;
        })
        own_heads
        alone
  got = (alloc_pcb-cons s c.heap c.free_head p rest c.free c.detached).0

  sib_apart : Unowned own_heads alone (p_sib p)
  sib_apart a ha = ground (arith, c.detached.sib a)

  list_apart : Unowned own_heads as_child (p_list p)
  list_apart a ha =
      let out = Unowned-first c.heap (p_list p) s.pcb_free_h rest c.free_head c.free in
      let kids : has (p_list p) (V (p_child sender)) ≡ false =
        ground (arith, out (p_child sender) c.parent_head, c.free_child) in
      ground (arith, out a, kids, has-append (p_list p) (V (p_child sender)) (p_sib p ∷ []))

  alone_child : alone (p_child sender) ≡ V (p_child sender)
  alone_child = rw (c.child_child, c.inbox_child, c.free_child) refl

  child_of_ready : as_child s.ready_queue ≡ V s.ready_queue
  child_of_ready = rw (c.parent_ready, c.child_ready, c.inbox_ready, c.free_ready) refl

  -- The state when the new process is a child, but for the links.
  abbrev registered : Links → State
  registered l = record (filled s arg p) { pcb = update s.pcb p (created s sender arg); links = l }

  adopted :
      Yields
        (insert_child sender p (record (filled s arg p) { links = got.links }))
        tt
        (registered got.links)
        own_heads
        as_child
  adopted =
      let y =
        insert_child-snoc (record (filled s arg p) { links = got.links }) got.heap sender p
          (rw (c.inbox_child, c.child_child) c.parent_head) sib_apart in
      record {
        links = y.links;
        runs =
            y.runs
            ∙ ap (λ f. ret tt (record (filled s arg p) { pcb = f; links = y.links }))
                (with_parent s.pcb p
                  (record (fresh_pcb s.next_pid) {
                    p_s = s.state_at (s.ram arg);
                    p_support_struct = s.ram (arg + 4);
                  })
                  sender);
        heap = rw alone_child at y.heap;
      }

  queued :
      Yields
        (insert_proc_q s.ready_queue p (registered adopted.links))
        tt
        (registered adopted.links)
        own_heads
        as_ready
  queued =
      Yields-cast refl
        (ap (λ l. update as_child s.ready_queue (l ++ (p_list p ∷ []))) child_of_ready)
        (insert_proc_q-snoc {s = registered adopted.links} adopted.heap s.ready_queue
          (rw (c.inbox_ready, c.child_ready) c.ready_head) p list_apart)

  -- When a block is free, nothing refers to its list heads, and the lists that the request uses have
  -- heads of their own, `create_process` returns the block with the state and the support structure
  -- of the request, as the last child of the sender and the last process of the ready queue, with no
  -- children and no messages, and counts one process more.
  pub create_process-created :
      Yields (create_process sender arg s) p (with_created s sender arg p) own_heads as_ready
  create_process-created = record {
    links = queued.links;
    runs =
        create_process_runs s sender arg p got.links adopted.links queued.links got.runs c.not_null
          adopted.runs queued.runs;
    heap = queued.heap;
  }

-- When no block is free, `create_process` returns NULL and changes nothing.
pub create_process-full :
    (s : State) {H : ℕ → Bool} {V : ℕ → List ℕ} (sender arg : ℕ)
    → IsHeap s.links H V
    → H s.pcb_free_h ≡ true
    → V s.pcb_free_h ≡ []
    → create_process sender arg s ≡ ret null s
unfolding create_process
create_process-full s sender arg heap is_head e = rw (alloc_pcb-nil s heap is_head e) refl
