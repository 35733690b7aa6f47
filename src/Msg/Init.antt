-- ===== src/Msg/Init.antt =====
-- initMsgs of phase1/msg.c: every message of the table becomes free, once.
use project.Common.{
  ℕ, zero, suc, ◌+◌, ◌≤◌, ◌<◌, ◌≡◌, refl, ap, Bool, true, List, [], arith, update, update_same,
}
use project.Listx.{list_add}
use project.Listx.Heap.{IsHeap, Unowned, list_add-IsHeap}
use project.Types.{State, max_messages, sizeof_msg, offset_m_list, m_list}
use project.Types.Machine.{without_mie}
use project.Types.Table.{entry, push_entries, pushed_twice}
use project.Types.View.{Yields, Yields-critical, Yields-cast}
use project.Msg.{init_msgs, init_msgs_from}

-- The free list after `initMsgs`: the last message first.
abbrev pub all_messages : ℕ → List ℕ
all_messages table = push_entries table sizeof_msg offset_m_list max_messages 0 []

init_msgs_from-push :
    (n i : ℕ) (s : State) {H : ℕ → Bool} {V : ℕ → List ℕ}
    → IsHeap s.links H V
    → H s.msg_free_h ≡ true
    → ((j : ℕ) → i ≤ j → j < i + n → Unowned H V (m_list (entry s.msg_table sizeof_msg j)))
    → Yields (init_msgs_from n i s) tt s H (
        update V s.msg_free_h
          (push_entries s.msg_table sizeof_msg offset_m_list n i (V s.msg_free_h)))
unfolding init_msgs_from
init_msgs_from-push zero i s {V} heap is_head free = record {
  links = s.links;
  runs = refl;
  heap = rw (update_same V s.msg_free_h (V s.msg_free_h) refl) heap;
}
init_msgs_from-push (suc n) i s {H} {V} heap is_head free =
    let node = m_list (entry s.msg_table sizeof_msg i) in
    let mine = free i (omega arith) (omega arith) in
    let step = list_add-IsHeap heap node s.msg_free_h is_head mine in
    let y =
      init_msgs_from-push n (i + 1) (record s { links = list_add s.links node s.msg_free_h }) step
        is_head (λ j lo hi a ha. ground (arith, free j (omega arith) (omega arith) a ha)) in
    Yields-cast refl
      (pushed_twice V s.msg_free_h node
        (push_entries s.msg_table sizeof_msg offset_m_list n (i + 1)))
      (record { links = y.links; runs = y.runs; heap = y.heap })

-- From a memory in which the pool is empty and no list has a message of the table, `initMsgs` makes
-- the pool of all 50 messages, the last one first.
pub init_msgs-all :
    (s : State) {H : ℕ → Bool} {V : ℕ → List ℕ}
    → IsHeap s.links H V
    → H s.msg_free_h ≡ true
    → V s.msg_free_h ≡ []
    → ((j : ℕ) → j < max_messages → Unowned H V (m_list (entry s.msg_table sizeof_msg j)))
    → Yields (init_msgs s) tt s H (update V s.msg_free_h (all_messages s.msg_table))
unfolding init_msgs
init_msgs-all s {H} {V} heap is_head e free =
    Yields-cast refl
      (ap
        (λ l.
          update V s.msg_free_h
            (push_entries s.msg_table sizeof_msg offset_m_list max_messages 0 l))
        e)
      (Yields-critical (init_msgs_from max_messages 0) tt (
        init_msgs_from-push max_messages 0 (record s { mstatus = without_mie s.mstatus }) heap
          is_head (λ j lo hi. free j (omega arith))))
