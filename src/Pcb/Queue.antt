-- ===== src/Pcb/Queue.antt =====
-- The queues of phase1/pcb.c are first-in first-out queues with removal from the middle.
use project.Common.{
  ℕ, ◌+◌, ◌-◌, ◌≤◌, ◌≡◌, ◌≢◌, refl, Bool, true, false, List, [], ◌∷◌, ◌++◌, arith, if◌then◌else◌,
  Bool-cases, inl, inr, has, length, update, erase, is_empty, first, tail, erase_absent,
  update_same,
}
use project.Listx.{Links, null, container_of, init_list_head, list_add_tail, list_del}
use project.Listx.Ring.{list_empty-is_empty, list_next-first}
use project.Listx.Heap.{IsHeap, Unowned, unlink_first, list_add_tail-IsHeap, list_del-IsHeap}
use project.Types.{State, max_proc, offset_p_list, offset_p_io, p_list, p_io}
use project.Types.Machine.{ret, without_mie}
use project.Types.View.{Yields, Yields-empty}
use project.Pcb.{
  insert_proc_q, insert_proc_q_for_io, head_proc_q, head_proc_q_for_io, remove_proc_q,
  remove_proc_q_for_io, out_proc_q, out_proc_q_for_io, search_pcb, empty_proc_q, queue_fuel,
}
use project.Pcb.Loops.{Forward-Linked, search_loop, out_loop, out_links}

module _ {s : State} {H : ℕ → Bool} {V : ℕ → List ℕ} (heap : IsHeap s.links H V) (head : ℕ)
    (is_head : H head ≡ true) where
  pub insert_proc_q-snoc :
      (p : ℕ)
      → Unowned H V (p_list p)
      → Yields (insert_proc_q head p s) tt s H (update V head (V head ++ (p_list p ∷ [])))
  unfolding insert_proc_q
  insert_proc_q-snoc p free = record {
    links = list_add_tail s.links (p_list p) head;
    runs = refl;
    heap = list_add_tail-IsHeap heap (p_list p) head is_head free;
  }

  pub insert_proc_q_for_io-snoc :
      (p : ℕ)
      → Unowned H V (p_io p)
      → Yields (insert_proc_q_for_io head p s) tt s H (update V head (V head ++ (p_io p ∷ [])))
  unfolding insert_proc_q_for_io
  insert_proc_q_for_io-snoc p free = record {
    links = list_add_tail s.links (p_io p) head;
    runs = refl;
    heap = list_add_tail-IsHeap heap (p_io p) head is_head free;
  }

  pub empty_proc_q-is_empty : empty_proc_q head s ≡ ret (is_empty (V head)) s
  unfolding empty_proc_q
  empty_proc_q-is_empty = rw (list_empty-is_empty (heap.ring head is_head))

  pub head_proc_q-first : head_proc_q head s ≡ ret (container_of (first (V head)) offset_p_list) s
  unfolding head_proc_q
  head_proc_q-first = ground (
    arith,
    list_empty-is_empty (heap.ring head is_head),
    list_next-first (heap.ring head is_head),
  )

  pub head_proc_q_for_io-first :
      head_proc_q_for_io head s ≡ ret (container_of (first (V head)) offset_p_io) s
  unfolding head_proc_q_for_io
  head_proc_q_for_io-first = ground (
    arith,
    list_empty-is_empty (heap.ring head is_head),
    list_next-first (heap.ring head is_head),
  )

  -- On a queue of at most 50 processes, `searchPcb` returns whether the queue has the process, and
  -- changes nothing.
  pub search_pcb-has :
      (p : ℕ) → length (V head) ≤ max_proc → search_pcb head p s ≡ ret (has (p_list p) (V head)) s
  unfolding search_pcb
  search_pcb-has p few =
      let r = heap.ring head is_head in
      ground (
        arith,
        search_loop queue_fuel p head head (V head) false
            (record s { mstatus = without_mie s.mstatus })
            (Forward-Linked s.links head (V head) head r.linked) r.distinct.0 (omega arith),
      )

-- The lists after the loop of `outProcQ` or of its copy.
out_links-IsHeap :
    {m : Links} {H : ℕ → Bool} {V : ℕ → List ℕ} (heap : IsHeap m H V) (head off p : ℕ)
    → H head ≡ true
    → IsHeap (out_links off p m (V head)) H (update V head (erase (p + off) (V head)))
out_links-IsHeap {V} heap head off p is_head = elim (Bool-cases (has (p + off) (V head))) [
  | inl in_queue ↦ rw in_queue (list_del-IsHeap heap (p + off) head is_head in_queue)
  | inr out ↦ rw (out, erase_absent (p + off) (V head) out, update_same V head (V head) refl) heap
]

module _ {s : State} {H : ℕ → Bool} {V : ℕ → List ℕ} (heap : IsHeap s.links H V) (head : ℕ)
    (is_head : H head ≡ true) where
  remove_proc_q-cases :
      (xs : List ℕ)
      → V head ≡ xs
      → Yields
          (remove_proc_q head s)
          (container_of (first xs) offset_p_list)
          s
          H
          (update V head (tail xs))
  unfolding remove_proc_q
  remove_proc_q-cases [] e =
      Yields-empty heap head (remove_proc_q head s) 0 e
        (ground (arith, list_empty-is_empty (heap.ring head is_head), e))
  remove_proc_q-cases (x ∷ rest) e = record {
    links = init_list_head (list_del s.links x) x;
    runs = ground (
      arith,
      list_empty-is_empty (heap.ring head is_head),
      list_next-first (heap.ring head is_head),
      e,
    );
    heap = unlink_first heap x head rest is_head e;
  }

  remove_proc_q_for_io-cases :
      (xs : List ℕ)
      → V head ≡ xs
      → ((x : ℕ) → has x (V head) ≡ true → offset_p_io ≤ x)
      → Yields
          (remove_proc_q_for_io head s)
          (container_of (first xs) offset_p_io)
          s
          H
          (update V head (tail xs))
  unfolding remove_proc_q_for_io
  remove_proc_q_for_io-cases [] e io =
      Yields-empty heap head (remove_proc_q_for_io head s) 0 e
        (ground (arith, list_empty-is_empty (heap.ring head is_head), e))
  remove_proc_q_for_io-cases (x ∷ rest) e io = record {
    links = init_list_head (list_del s.links x) x;
    runs =
        let big : offset_p_io ≤ x = io x (ground (arith, e)) in
        let back : x - offset_p_io + offset_p_io ≡ x = omega arith in
        ground (
          arith,
          list_empty-is_empty (heap.ring head is_head),
          list_next-first (heap.ring head is_head),
          e,
        );
    heap = unlink_first heap x head rest is_head e;
  }

  -- `removeProcQ` takes the first process out of the queue and returns it, or returns NULL for an
  -- empty queue; the others keep their order.
  pub remove_proc_q-tail :
      Yields
        (remove_proc_q head s)
        (container_of (first (V head)) offset_p_list)
        s
        H
        (update V head (tail (V head)))
  remove_proc_q-tail = remove_proc_q-cases (V head) refl

  -- When every entry of the queue is an address of at least the offset of `p_io`, `removeProcQForIO`
  -- takes the first blocked process out of the queue and returns it, or returns NULL for an empty
  -- queue; the others keep their order.
  pub remove_proc_q_for_io-tail :
      ((x : ℕ) → has x (V head) ≡ true → offset_p_io ≤ x)
      → Yields
          (remove_proc_q_for_io head s)
          (container_of (first (V head)) offset_p_io)
          s
          H
          (update V head (tail (V head)))
  remove_proc_q_for_io-tail = remove_proc_q_for_io-cases (V head) refl

  -- On a queue of at most 50 processes, `outProcQ` takes a process that is not NULL out of the queue
  -- wherever it stands and returns it, or returns NULL and changes nothing if it is not there.
  pub out_proc_q-erase :
      (p : ℕ)
      → p ≢ null
      → length (V head) ≤ max_proc
      → Yields
          (out_proc_q head p s)
          (if has (p_list p) (V head) then p else null)
          s
          H
          (update V head (erase (p_list p) (V head)))
  unfolding out_proc_q
  out_proc_q-erase p ne few = record {
    links = out_links offset_p_list p s.links (V head);
    runs =
        let r = heap.ring head is_head in
        rw (
          out_loop offset_p_list p head ne queue_fuel head (V head) null
            (record s { mstatus = without_mie s.mstatus }) r.linked r.distinct r.distinct.0
            (omega arith));
    heap = out_links-IsHeap heap head offset_p_list p is_head;
  }

  -- On a queue of at most 50 blocked processes, `outProcQForIO` takes a process that is not NULL out
  -- of the queue wherever it stands and returns it, or returns NULL and changes nothing if it is not
  -- there.
  pub out_proc_q_for_io-erase :
      (p : ℕ)
      → p ≢ null
      → length (V head) ≤ max_proc
      → Yields
          (out_proc_q_for_io head p s)
          (if has (p_io p) (V head) then p else null)
          s
          H
          (update V head (erase (p_io p) (V head)))
  unfolding out_proc_q_for_io
  out_proc_q_for_io-erase p ne few = record {
    links = out_links offset_p_io p s.links (V head);
    runs =
        let r = heap.ring head is_head in
        rw (
          out_loop offset_p_io p head ne queue_fuel head (V head) null
            (record s { mstatus = without_mie s.mstatus }) r.linked r.distinct r.distinct.0
            (omega arith));
    heap = out_links-IsHeap heap head offset_p_io p is_head;
  }
