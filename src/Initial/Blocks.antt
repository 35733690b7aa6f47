-- ===== src/Initial/Blocks.antt =====
-- The first processes of phase2/initial.c: each gets the last of the free blocks.
use mathlib.Core.Path.{subst}
use project.Common.{
  ℕ, zero, suc, ◌+◌, ◌%◌, ◌^◌, ◌≤◌, ◌<◌, ◌≡◌, refl, ap, ◌∙◌, Bool, true, false, List, [], ◌∷◌, ◌++◌,
  arith, ◌==◌, ==_refl, eq_of_==, update_self, has, has-append, update, Bool-cases, inl, inr, ◌⊎◌,
}
use project.Listx.Heap.{IsHeap, Unowned}
use project.Types.{State, Layout, p_list, p_child, msg_inbox, sizeof_pcb}
use project.Types.Table.{entry}
use project.Types.View.{Yields}
use project.Pcb.{fresh_pcb}
use project.Pcb.Alloc.{alloc_pcb-cons, with_process, with_no_lists, IsDetached}
use project.Pcb.Queue.{insert_proc_q-snoc}
use project.Initial.{new_process}

-- Block `i` of the table, and the nodes of the first `n` blocks, the last one first.
abbrev pub block : Layout → ℕ → ℕ
block l i = entry l.pcb_table sizeof_pcb i

abbrev pub below : Layout → (n : ℕ) → List ℕ
below l zero = []
below l (suc n) = p_list (block l n) ∷ below l n

-- No address in the first `n` blocks is a head, or in a list but the free one.
abbrev pub Clean : Layout → (ℕ → Bool) → (ℕ → List ℕ) → ℕ → Type 0
Clean l H V n =
    (a i r : ℕ)
    → H a ≡ true
    → i < n
    → r < sizeof_pcb
    → ((a == block l i + r) ≡ false)
      × ((l.pcb_free_h == a) ≡ false → has (block l i + r) (V a) ≡ false)

-- Of the blocks themselves only the nodes of smaller ones are in the list.
pub below_out :
    (l : Layout) (n i r : ℕ)
    → r < sizeof_pcb
    → (0 < r) ⊎ (n ≤ i)
    → has (block l i + r) (below l n) ≡ false
below_out l zero i r lt h = refl
below_out l (suc n) i r lt h =
    let rest = below_out l n i r lt (elim h [ inl pos ↦ inl pos | inr le ↦ inr (omega arith) ]) in
    let here : (p_list (block l n) == block l i + r) ≡ false = elim h [
      | inl pos ↦ ground arith
      | inr le ↦ ground arith
    ] in
    rw (here, rest) refl

module _ (s : State) {H : ℕ → Bool} {V : ℕ → List ℕ} (n : ℕ) (heap : IsHeap s.links H V)
    (free_head : H s.pcb_free_h ≡ true) (ready_head : H s.ready_queue ≡ true)
    (ready_ne : (s.pcb_free_h == s.ready_queue) ≡ false)
    (free : V s.pcb_free_h ≡ below s.layout (suc n)) (clean : Clean s.layout H V (suc n)) where
  abbrev p : ℕ
  p = block s.layout n

  abbrev taken : ℕ → List ℕ
  taken = update V s.pcb_free_h (below s.layout n)

  -- An address in the block, other than that of its node in the free list, is in no list.
  nowhere : (r : ℕ) → 0 < r → r < sizeof_pcb → Unowned H taken (p + r)
  nowhere r pos lt a ha =
      let (not_head, elsewhere) = clean a n r ha (omega arith) lt in
      elim (Bool-cases (s.pcb_free_h == a)) [
        | inl here ↦ rw (not_head, here) (below_out s.layout n n r lt (inl pos))
        | inr other ↦ rw (not_head, other) (elsewhere other)
      ]

  detached : IsDetached H taken p
  detached = record {
    sib = nowhere 20 (omega arith) (omega arith);
    io = nowhere 192 (omega arith) (omega arith);
    child = λ a ha. ground (arith, nowhere 12 (omega arith) (omega arith) a ha);
    inbox = λ a ha. ground (arith, nowhere 180 (omega arith) (omega arith) a ha);
  }

  abbrev pub heads_after : ℕ → Bool
  heads_after = with_process H p

  abbrev alone : ℕ → List ℕ
  alone = with_no_lists taken p

  node_out : Unowned heads_after alone (p_list p)
  node_out a ha = elim (Bool-cases (msg_inbox p == a)) [
    | inl inbox ↦
        let not_head : (a == p_list p) ≡ false = ground (arith, inbox) in rw (inbox, not_head) refl
    | inr not_inbox ↦ elim (Bool-cases (p_child p == a)) [
      | inl child ↦
          let not_head : (a == p_list p) ≡ false = ground (arith, child) in
          rw (not_inbox, child, not_head) refl
      | inr not_child ↦
          let (not_head, elsewhere) =
            clean a n 0 (rw (not_inbox, not_child) at ha) (omega arith) (omega arith) in
          elim (Bool-cases (s.pcb_free_h == a)) [
            | inl here ↦
                rw (not_inbox, not_child, not_head, here)
                  (below_out s.layout n n 0 (omega arith) (inr (omega arith)))
            | inr other ↦ rw (not_inbox, not_child, not_head, other) (elsewhere other)
          ]
    ]
  ]

  abbrev pub lists_after : ℕ → List ℕ
  lists_after = update alone s.ready_queue (alone s.ready_queue ++ (p_list p ∷ []))

  abbrev pub with_one : State
  with_one = record s {
    pcb = update s.pcb p (fresh_pcb s.next_pid);
    next_pid = (s.next_pid + 1) % 2 ^ 32;
    process_count = (s.process_count + 1) % 2 ^ 32;
  }

  pub new_process-Yields : Yields (new_process s) p with_one heads_after lists_after
  unfolding new_process
  new_process-Yields =
      let y = (alloc_pcb-cons s heap free_head p (below s.layout n) free detached).0 in
      let s1 = record s {
        pcb = update s.pcb p (fresh_pcb s.next_pid);
        next_pid = (s.next_pid + 1) % 2 ^ 32;
        links = y.links;
      } in
      let z =
        insert_proc_q-snoc {s = s1} y.heap s.ready_queue (ground (arith, ready_head)) p node_out in
      record { links = z.links; runs = rw (y.runs, z.runs) refl; heap = z.heap }

  -- A head outside of the block keeps its list.
  alone_same : (a : ℕ) → H a ≡ true → (s.pcb_free_h == a) ≡ false → alone a ≡ V a
  alone_same a ha other =
      let not_inbox : (msg_inbox p == a) ≡ false =
        ground (arith, (clean a n 180 ha (omega arith) (omega arith)).0) in
      let not_child : (p_child p == a) ≡ false =
        ground (arith, (clean a n 12 ha (omega arith) (omega arith)).0) in
      rw (not_inbox, not_child, other) refl

  pub ready_after : lists_after s.ready_queue ≡ V s.ready_queue ++ (p_list p ∷ [])
  ready_after =
      update_self alone s.ready_queue (alone s.ready_queue ++ (p_list p ∷ []))
      ∙ ap (λ l. l ++ (p_list p ∷ [])) (alone_same s.ready_queue ready_head ready_ne)

  pub free_after : lists_after s.pcb_free_h ≡ below s.layout n
  free_after =
      let not_ready : (s.ready_queue == s.pcb_free_h) ≡ false = ground (arith, ready_ne) in
      let not_inbox : (msg_inbox p == s.pcb_free_h) ≡ false =
        ground (arith, (clean s.pcb_free_h n 180 free_head (omega arith) (omega arith)).0) in
      let not_child : (p_child p == s.pcb_free_h) ≡ false =
        ground (arith, (clean s.pcb_free_h n 12 free_head (omega arith) (omega arith)).0) in
      rw (not_ready, not_inbox, not_child, ==_refl s.pcb_free_h) refl

  -- Other lists keep their entries.
  pub same_after :
      (a : ℕ)
      → H a ≡ true
      → (s.pcb_free_h == a) ≡ false
      → (s.ready_queue == a) ≡ false
      → lists_after a ≡ V a
  same_after a ha not_free not_ready = rw not_ready (alone_same a ha not_free)

  -- The same holds for the blocks that are left.
  out_after :
      (a i r : ℕ)
      → heads_after a ≡ true
      → i < n
      → r < sizeof_pcb
      → (a == block s.layout i + r) ≡ false
  out_after a i r ha lt small = elim (Bool-cases (msg_inbox p == a)) [
    | inl inbox ↦ ground (arith, inbox)
    | inr not_inbox ↦ elim (Bool-cases (p_child p == a)) [
      | inl child ↦ ground (arith, child)
      | inr not_child ↦ (clean a i r (rw (not_inbox, not_child) at ha) (omega arith) small).0
    ]
  ]

  absent_after :
      (a i r : ℕ)
      → heads_after a ≡ true
      → i < n
      → r < sizeof_pcb
      → (s.pcb_free_h == a) ≡ false
      → has (block s.layout i + r) (lists_after a) ≡ false
  absent_after a i r ha lt small not_free = elim (Bool-cases (s.ready_queue == a)) [
    | inl ready ↦
        subst (λ b. has (block s.layout i + r) (lists_after b) ≡ false)
          (eq_of_== s.ready_queue a ready)
          (rw ready_after (
            ground (
              arith,
              has-append (block s.layout i + r) (V s.ready_queue) (p_list p ∷ []),
              (clean s.ready_queue i r ready_head (omega arith) small).1 ready_ne,
            )))
    | inr not_ready ↦ elim (Bool-cases (msg_inbox p == a)) [
      | inl inbox ↦ rw (not_ready, inbox) refl
      | inr not_inbox ↦ elim (Bool-cases (p_child p == a)) [
        | inl child ↦ rw (not_ready, not_inbox, child) refl
        | inr not_child ↦
            rw (not_ready, not_inbox, not_child, not_free)
              ((clean a i r (rw (not_inbox, not_child) at ha) (omega arith) small).1 not_free)
      ]
    ]
  ]

  pub Clean-after : Clean s.layout heads_after lists_after n
  Clean-after a i r ha lt small =
      (out_after a i r ha lt small, λ not_free. absent_after a i r ha lt small not_free)

  -- The process has no children and no messages.
  pub own_after : (lists_after (p_child p) ≡ []) × (lists_after (msg_inbox p) ≡ [])
  own_after =
      let not_child : (s.ready_queue == p_child p) ≡ false =
        (clean s.ready_queue n 12 ready_head (omega arith) (omega arith)).0 in
      let not_inbox : (s.ready_queue == msg_inbox p) ≡ false =
        (clean s.ready_queue n 180 ready_head (omega arith) (omega arith)).0 in
      let apart : (msg_inbox p == p_child p) ≡ false = ground arith in
      (rw (not_child, apart, ==_refl (p_child p)) refl, rw (not_inbox, ==_refl (msg_inbox p)) refl)
