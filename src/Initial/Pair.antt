-- ===== src/Initial/Pair.antt =====
-- The two processes that main of phase2/initial.c makes, and the first choice of the scheduler.
use project.Common.{
  ℕ, ◌+◌, ◌-◌, ◌*◌, ◌%◌, ◌^◌, ◌<◌, ◌≡◌, refl, ap, ◌∙◌, Bool, true, false, List, [], ◌∷◌, ◌++◌,
  arith, ◌==◌, ==_refl, update, update_other,
}
use project.Listx.Heap.{IsHeap}
use project.Types.{State, Layout, page_size, ssi_fake_addr, p_list, p_child, msg_inbox, sizeof_pcb}
use project.Types.View.{Yields, Leaves}
use project.Listx.{null}
use project.Types.Machine.{exit, ldst}
use project.Pcb.{fresh_pcb, zero_state}
use project.Pcb.Alloc.{with_process}
use project.Scheduler.{scheduler}
use project.Scheduler.Outcome.{restarted, scheduler-first}
use project.Initial.{Image, ram_top, new_process, start_state}
use project.Initial.Blocks.{
  block, below, Clean, new_process-Yields, heads_after, lists_after, with_one, ready_after,
  free_after, same_after, own_after, Clean-after,
}

-- The state with process `p` as the SSI, and that with process `p` as the test.
abbrev pub started_ssi : Image → ℕ → State → State
started_ssi k p s = record s {
  ssi_pcb_real = p;
  pcb = update s.pcb p (record (s.pcb p) { p_s = start_state (ram_top s) k.ssi (s.pcb p).p_s });
  ssi_pcb = ssi_fake_addr;
}

abbrev pub started_test : Image → (top p : ℕ) → State → State
started_test k top p s = record s {
  pcb = update s.pcb p (record (s.pcb p) {
    p_s = start_state ((top + 2 ^ 32 - 2 * page_size) % 2 ^ 32) k.test (s.pcb p).p_s;
  });
}

-- A head stays one when a process is made.
with_process_head : (H : ℕ → Bool) (p a : ℕ) → H a ≡ true → with_process H p a ≡ true
with_process_head H p a h = ground (arith, h)

other_block : (l : Layout) → (block l 48 == block l 49) ≡ false
other_block l = ground arith

-- A list head that is there, with an empty list.
abbrev pub IsEmptyList : (ℕ → Bool) → (ℕ → List ℕ) → ℕ → Type 0
IsEmptyList H V a = (H a ≡ true) × (V a ≡ [])

with_process-IsEmptyList :
    (H : ℕ → Bool) (V : ℕ → List ℕ) (p : ℕ)
    → V (p_child p) ≡ []
    → V (msg_inbox p) ≡ []
    → IsEmptyList (with_process H p) V (p_child p) × IsEmptyList (with_process H p) V (msg_inbox p)
with_process-IsEmptyList H V p e1 e2 = ((ground arith, e1), (ground arith, e2))

-- With two processes in the ready queue the first one runs.
scheduler-pair :
    {A : Type 0} (s : State) {H : ℕ → Bool} {V : ℕ → List ℕ}
    → IsHeap s.links H V
    → H s.ready_queue ≡ true
    → (p q : ℕ) → V s.ready_queue ≡ p ∷ q ∷ []
    → s.current_process ≡ null
    → s.process_count ≡ 2
    → Leaves
        (scheduler {A = A} s)
        (ldst (s.pcb p).p_s)
        (restarted (record s { current_process = p }))
        H
        (update V s.ready_queue (q ∷ []))
scheduler-pair {A} s {V} heap head p q e idle count =
    let w =
      scheduler-first s heap head (rw e (omega arith)) idle {A = A} (rw count refl) (rw e refl) in
    (rw e at w)

-- From the state in which all queues are made to the first process.
module _ (k : Image) (s : State) {H : ℕ → Bool} {V : ℕ → List ℕ} (heap : IsHeap s.links H V)
    (free_is : H s.pcb_free_h ≡ true) (ready_is : H s.ready_queue ≡ true)
    (ne : (s.pcb_free_h == s.ready_queue) ≡ false) (free : V s.pcb_free_h ≡ below s.layout 50)
    (clean : Clean s.layout H V 50) where
  abbrev pub p : ℕ
  p = block s.layout 49

  abbrev pub q : ℕ
  q = block s.layout 48

  abbrev pub H1 : ℕ → Bool
  H1 = heads_after s 49 heap free_is ready_is ne free clean

  abbrev pub V1 : ℕ → List ℕ
  V1 = lists_after s 49 heap free_is ready_is ne free clean

  pub one : Yields (new_process s) p (with_one s 49 heap free_is ready_is ne free clean) H1 V1
  one = new_process-Yields s 49 heap free_is ready_is ne free clean

  abbrev pub after_one : State
  after_one = record (with_one s 49 heap free_is ready_is ne free clean) { links = one.links }

  abbrev pub s1 : State
  s1 = started_ssi k p after_one

  pub free_is1 : H1 s.pcb_free_h ≡ true
  free_is1 = with_process_head H p s.pcb_free_h free_is

  pub ready_is1 : H1 s.ready_queue ≡ true
  ready_is1 = with_process_head H p s.ready_queue ready_is

  pub free1 : V1 s.pcb_free_h ≡ below s.layout 49
  free1 = free_after s 49 heap free_is ready_is ne free clean

  pub clean1 : Clean s.layout H1 V1 49
  clean1 = Clean-after s 49 heap free_is ready_is ne free clean

  abbrev pub H2 : ℕ → Bool
  H2 = heads_after s1 48 one.heap free_is1 ready_is1 ne free1 clean1

  abbrev pub V2 : ℕ → List ℕ
  V2 = lists_after s1 48 one.heap free_is1 ready_is1 ne free1 clean1

  pub two :
      Yields (new_process s1) q (with_one s1 48 one.heap free_is1 ready_is1 ne free1 clean1) H2 V2
  two = new_process-Yields s1 48 one.heap free_is1 ready_is1 ne free1 clean1

  abbrev pub after_two : State
  after_two = record (with_one s1 48 one.heap free_is1 ready_is1 ne free1 clean1) {
    links = two.links;
  }

  abbrev pub s2 : State
  s2 = started_test k (ram_top after_one) q after_two

  pub ready2 : V s.ready_queue ≡ [] → V2 s.ready_queue ≡ p ∷ p_list q ∷ []
  ready2 e =
      let plain : p_list p ≡ p = omega arith in
      ready_after s1 48 one.heap free_is1 ready_is1 ne free1 clean1
      ∙ ap (λ l. l ++ (p_list q ∷ []))
          (ready_after s 49 heap free_is ready_is ne free clean ∙ ap (λ l. l ++ (p_list p ∷ [])) e)
      ∙ ap (λ x. x ∷ p_list q ∷ []) plain

  pub free2 : V2 s.pcb_free_h ≡ below s.layout 48
  free2 = free_after s1 48 one.heap free_is1 ready_is1 ne free1 clean1

  pub same2 :
      (a : ℕ) → H a ≡ true → (s.pcb_free_h == a) ≡ false → (s.ready_queue == a) ≡ false → V2 a ≡ V a
  same2 a h not_free not_ready =
      same_after s1 48 one.heap free_is1 ready_is1 ne free1 clean1 a (with_process_head H p a h)
        not_free not_ready
      ∙ same_after s 49 heap free_is ready_is ne free clean a h not_free not_ready

  -- Both processes have no children and no messages.
  block_ne :
      (i : ℕ)
      → i < 50
      → (r : ℕ) → r < sizeof_pcb
      → (a : ℕ) → H a ≡ true
      → (a == block s.layout i + r) ≡ false
  block_ne i lt r small a h = (clean a i r h lt small).0

  kept2 :
      (r : ℕ)
      → r < sizeof_pcb
      → H1 (p + r) ≡ true
      → V1 (p + r) ≡ []
      → IsEmptyList H2 (update V2 s.ready_queue (p_list q ∷ [])) (p + r)
  kept2 r small h e =
      let not_ready = block_ne 49 (omega arith) r small s.ready_queue ready_is in
      let not_free = block_ne 49 (omega arith) r small s.pcb_free_h free_is in
      (
        with_process_head H1 q (p + r) h,
        update_other V2 s.ready_queue (p + r) (p_list q ∷ []) not_ready
            ∙ same_after s1 48 one.heap free_is1 ready_is1 ne free1 clean1 (p + r) h not_free
                not_ready
            ∙ e,
      )

  pub ssi_lists :
      IsEmptyList H2 (update V2 s.ready_queue (p_list q ∷ [])) (p_child p)
      × IsEmptyList H2 (update V2 s.ready_queue (p_list q ∷ [])) (msg_inbox p)
  ssi_lists =
      let (no_children, no_mail) = own_after s 49 heap free_is ready_is ne free clean in
      let (child, inbox) = with_process-IsEmptyList H V1 p no_children no_mail in
      (kept2 12 (omega arith) child.0 child.1, kept2 180 (omega arith) inbox.0 inbox.1)

  pub test_lists :
      IsEmptyList H2 (update V2 s.ready_queue (p_list q ∷ [])) (p_child q)
      × IsEmptyList H2 (update V2 s.ready_queue (p_list q ∷ [])) (msg_inbox q)
  test_lists =
      let (no_children, no_mail) = own_after s1 48 one.heap free_is1 ready_is1 ne free1 clean1 in
      with_process-IsEmptyList H1 (update V2 s.ready_queue (p_list q ∷ [])) q
        (update_other V2 s.ready_queue (p_child q) (p_list q ∷ [])
            (block_ne 48 (omega arith) 12 (omega arith) s.ready_queue ready_is)
          ∙ no_children)
        (update_other V2 s.ready_queue (msg_inbox q) (p_list q ∷ [])
            (block_ne 48 (omega arith) 180 (omega arith) s.ready_queue ready_is)
          ∙ no_mail)

  pub head2 : (a : ℕ) → H a ≡ true → H2 a ≡ true
  head2 a h = with_process_head H1 q a (with_process_head H p a h)

  pub queue2 :
      (a : ℕ)
      → H a ≡ true
      → V a ≡ []
      → (s.pcb_free_h == a) ≡ false
      → (s.ready_queue == a) ≡ false
      → IsEmptyList H2 (update V2 s.ready_queue (p_list q ∷ [])) a
  queue2 a h e not_free not_ready = (
    head2 a h,
    update_other V2 s.ready_queue a (p_list q ∷ []) not_ready ∙ same2 a h not_free not_ready ∙ e,
  )

  pub ssi_block2 :
      s2.pcb p ≡ record (fresh_pcb s.next_pid) { p_s = start_state (ram_top s) k.ssi zero_state }
  unfolding ram_top
  ssi_block2 = rw (other_block s.layout, ==_refl p) refl

  pub test_block2 : s2.pcb q ≡ record (fresh_pcb ((s.next_pid + 1) % 2 ^ 32)) {
    p_s = start_state ((ram_top s + 2 ^ 32 - 2 * page_size) % 2 ^ 32) k.test zero_state;
  }
  unfolding ram_top
  test_block2 = rw (==_refl q) refl

  pub first2 :
      {A : Type 0}
      → V s.ready_queue ≡ []
      → s.current_process ≡ null
      → s.process_count ≡ 0
      → Leaves
          (scheduler {A = A} s2)
          (ldst (start_state (ram_top s) k.ssi zero_state))
          (restarted (record s2 { current_process = p }))
          H2
          (update V2 s.ready_queue (p_list q ∷ []))
  first2 {A} e idle count =
      let w =
        scheduler-pair {A = A} s2 two.heap (with_process_head H1 q s.ready_queue ready_is1) p
          (p_list q) (ready2 e) idle (rw count refl) in
      record {
        links = w.links;
        runs =
            w.runs
            ∙ ap
                (λ b.
                  exit (ldst b.p_s)
                    (record (restarted (record s2 { current_process = p })) { links = w.links }))
                ssi_block2;
        heap = w.heap;
      }
