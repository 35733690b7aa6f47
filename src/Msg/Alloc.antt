-- ===== src/Msg/Alloc.antt =====
-- The pool of free messages of phase1/msg.c.
use project.Common.{ℕ, ◌≡◌, refl, Bool, true, List, [], ◌∷◌, arith, update, update-update}
use project.Listx.{null, init_list_head, list_add, list_del}
use project.Listx.Ring.{Ring, list_empty-is_empty, next-first}
use project.Listx.Heap.{IsHeap, Unowned, unlink_first, list_add-IsHeap}
use project.Types.{State, m_list}
use project.Types.Machine.{ret}
use project.Types.View.{Yields}
use project.Msg.{free_msg, alloc_msg, fresh_msg}

module _ (s : State) {H : ℕ → Bool} {V : ℕ → List ℕ} (heap : IsHeap s.links H V)
    (is_head : H s.msg_free_h ≡ true) where
  -- `freeMsg` puts the message in front of the free list.
  pub free_msg-cons :
      (m : ℕ)
      → Unowned H V (m_list m)
      → Yields (free_msg m s) tt s H (update V s.msg_free_h (m_list m ∷ V s.msg_free_h))
  unfolding free_msg
  free_msg-cons m free = record {
    links = list_add s.links (m_list m) s.msg_free_h;
    runs = refl;
    heap = list_add-IsHeap heap (m_list m) s.msg_free_h is_head free;
  }

  pub alloc_msg-nil : V s.msg_free_h ≡ [] → alloc_msg s ≡ ret null s
  unfolding alloc_msg
  alloc_msg-nil e = ground (arith, list_empty-is_empty (heap.ring s.msg_free_h is_head), e)

  -- When the pool is not empty, `allocMsg` returns its first message with its fields reset and takes
  -- it out of the pool.
  pub alloc_msg-cons :
      (m : ℕ) (rest : List ℕ)
      → V s.msg_free_h ≡ m_list m ∷ rest
      → Yields
          (alloc_msg s)
          m
          (record s { msg = update s.msg m fresh_msg })
          H
          (update V s.msg_free_h rest)
  unfolding alloc_msg
  alloc_msg-cons m rest e = record {
    links = init_list_head (list_del s.links (m_list m)) (m_list m);
    runs =
        ground
          (arith, list_empty-is_empty r, next-first (V s.msg_free_h) r e, e, update-update s.msg m);
    heap = unlink_first heap (m_list m) s.msg_free_h rest is_head e;
  }
    where
      r : Ring s.links s.msg_free_h (V s.msg_free_h)
      r = heap.ring s.msg_free_h is_head
