-- ===== src/Msg/Queue.antt =====
-- The inboxes of phase1/msg.c: messages in order of arrival, taken by sender.
use project.Common.{
  ℕ, ◌≤◌, ◌≡◌, ◌≢◌, refl, ap, sym, Bool, true, false, not, ◌&&◌, List, [], ◌∷◌, ◌++◌, arith, ◌==◌,
  if◌then◌else◌, Bool-cases, inl, inr, has, length, update, update_same, erase, is_empty, first,
  tail,
}
use project.Listx.{Links, null, container_of, list_add, list_add_tail, list_del}
use project.Listx.Ring.{Ring, list_empty-is_empty, list_next-first}
use project.Listx.Heap.{
  IsHeap, Unowned, Distinct-entries, list_add_tail-IsHeap, list_add-IsHeap, list_del-IsHeap,
}
use project.Types.{State, Msg, max_messages, offset_m_list, m_list}
use project.Types.Machine.{ret, without_mie}
use project.Types.View.{Yields, Yields-empty, Yields-cast}
use project.Pcb.Loops.{Forward-Linked}
use project.Msg.{insert_message, push_message, pop_message, search_msg, message_fuel}
use project.Msg.Loops.{
  any_from, first_from, without_first, has-first_from, erase-first_from, without_first-none,
  popped_links, pop_loop, search_msg_loop,
}

-- What `popMessage` returns for the sender `p`, and what it leaves. NULL stands for any sender.
abbrev pub popped : (ℕ → Msg) → ℕ → List ℕ → ℕ
popped msg p xs = if p == null then first xs else first_from msg p xs

abbrev pub left_over : (ℕ → Msg) → ℕ → List ℕ → List ℕ
left_over msg p xs = if p == null then tail xs else without_first msg p xs

popped_links-IsHeap :
    (msg : ℕ → Msg) (p : ℕ) {m : Links} {H : ℕ → Bool} {V : ℕ → List ℕ} (heap : IsHeap m H V)
    (head : ℕ)
    → H head ≡ true
    → IsHeap (popped_links msg p m (V head)) H (update V head (without_first msg p (V head)))
popped_links-IsHeap msg p {V} heap head is_head = elim (Bool-cases (any_from msg p (V head))) [
  | inl some_msg ↦
      rw (some_msg, ← erase-first_from msg p (V head) (Distinct-entries heap head is_head) some_msg)
        (list_del-IsHeap heap (first_from msg p (V head)) head is_head
          (has-first_from msg p (V head) some_msg))
  | inr no_msg ↦
      rw (no_msg, without_first-none msg p (V head) no_msg, update_same V head (V head) refl) heap
]

module _ (s : State) {H : ℕ → Bool} {V : ℕ → List ℕ} (heap : IsHeap s.links H V) (head : ℕ)
    (is_head : H head ≡ true) where
  pub insert_message-snoc :
      (m : ℕ)
      → Unowned H V (m_list m)
      → Yields (insert_message head m s) tt s H (update V head (V head ++ (m_list m ∷ [])))
  unfolding insert_message
  insert_message-snoc m free = record {
    links = list_add_tail s.links (m_list m) head;
    runs = refl;
    heap = list_add_tail-IsHeap heap (m_list m) head is_head free;
  }

  pub push_message-cons :
      (m : ℕ)
      → Unowned H V (m_list m)
      → Yields (push_message head m s) tt s H (update V head (m_list m ∷ V head))
  unfolding push_message
  push_message-cons m free = record {
    links = list_add s.links (m_list m) head;
    runs = refl;
    heap = list_add-IsHeap heap (m_list m) head is_head free;
  }

  -- On an inbox of at most 50 messages, `searchMsg` returns whether the sender is not NULL and the
  -- inbox has a message from it, and changes nothing.
  pub search_msg-any_from :
      (p : ℕ)
      → length (V head) ≤ max_messages
      → search_msg head p s ≡ ret (not (p == null) && any_from s.msg p (V head)) s
  unfolding search_msg
  search_msg-any_from p few =
      let r = heap.ring head is_head in
      ground (
        arith,
        list_empty-is_empty r,
        empty_none (V head),
        search_msg_loop message_fuel p head head (V head) false
            (record s { mstatus = without_mie s.mstatus })
            (Forward-Linked s.links head (V head) head r.linked) r.distinct.0 (omega arith),
      )
    where
      empty_none : (xs : List ℕ) → is_empty xs ≡ true → any_from s.msg p xs ≡ false
      empty_none [] e = refl
      empty_none (x ∷ xs) e = ground arith

  pop_any :
      (p : ℕ) (xs : List ℕ)
      → V head ≡ xs
      → p ≡ null
      → Yields
          (pop_message head p s)
          (container_of (first xs) offset_m_list)
          s
          H
          (update V head (tail xs))
  unfolding pop_message
  pop_any p [] e any =
      Yields-empty heap head (pop_message head p s) 0 e
        (ground (arith, list_empty-is_empty (heap.ring head is_head), e))
  pop_any p (x ∷ rest) e any = record {
    links = list_del s.links x;
    runs = ground (arith, list_empty-is_empty r, list_next-first r, e);
    heap =
        let mine : has x (V head) ≡ true = ground (arith, e) in
        let left : erase x (V head) ≡ rest = ground (arith, e) in
        rw left at (list_del-IsHeap heap x head is_head mine);
  }
    where
      r : Ring s.links head (V head)
      r = heap.ring head is_head

  pop_one :
      (p : ℕ)
      → length (V head) ≤ max_messages
      → p ≢ null
      → is_empty (V head) ≡ false
      → Yields
          (pop_message head p s)
          (container_of (first_from s.msg p (V head)) offset_m_list)
          s
          H
          (update V head (without_first s.msg p (V head)))
  unfolding pop_message
  pop_one p few one full = record {
    links = popped_links s.msg p s.links (V head);
    runs =
        let r = heap.ring head is_head in
        ground (
          arith,
          list_empty-is_empty r,
          pop_loop message_fuel p head head (V head) (record s { mstatus = without_mie s.mstatus })
              (Forward-Linked s.links head (V head) head r.linked) r.distinct.0 (omega arith),
        );
    heap = popped_links-IsHeap s.msg p heap head is_head;
  }

  pop_cases :
      (p : ℕ) (xs : List ℕ)
      → V head ≡ xs
      → length (V head) ≤ max_messages
      → p ≢ null
      → Yields
          (pop_message head p s)
          (container_of (first_from s.msg p (V head)) offset_m_list)
          s
          H
          (update V head (without_first s.msg p (V head)))
  unfolding pop_message
  pop_cases p [] e few one =
      Yields-cast (ground (arith, e)) (ap (λ l. update V head (without_first s.msg p l)) (sym e)) (
        Yields-empty heap head (pop_message head p s) 0 e
          (ground (arith, list_empty-is_empty (heap.ring head is_head), e)))
  pop_cases p (x ∷ xs) e few one = pop_one p few one (ground (arith, e))

  -- On an inbox of at most 50 messages, `popMessage` returns the first message from the given
  -- sender, or the first of all for NULL, and leaves the others in their order; it returns NULL and
  -- changes nothing if there is none.
  pub pop_message-left_over :
      (p : ℕ)
      → length (V head) ≤ max_messages
      → Yields
          (pop_message head p s)
          (container_of (popped s.msg p (V head)) offset_m_list)
          s
          H
          (update V head (left_over s.msg p (V head)))
  pop_message-left_over p few = elim (Bool-cases (p == null)) [
    | inl any ↦ rw any (pop_any p (V head) refl (ground arith))
    | inr one ↦ rw one (pop_cases p (V head) refl few (ground arith))
  ]
