-- ===== src/Pcb/Tree.antt =====
-- The process tree of phase1/pcb.c: a list of siblings for each parent, through `p_sib`.
use project.Common.{
  ℕ, ◌≡◌, ◌≢◌, refl, ap, Bool, true, List, [], ◌∷◌, ◌++◌, arith, has, update, erase, is_empty, tail,
}
use project.Listx.{null, list_add_tail, list_del}
use project.Listx.Ring.{list_empty-is_empty}
use project.Listx.Heap.{IsHeap, Unowned, list_add_tail-IsHeap, list_del-IsHeap}
use project.Types.{State, p_child, p_sib}
use project.Types.Machine.{ret}
use project.Types.View.{Yields, Yields-critical, Yields-cast}
use project.Pcb.{insert_child, remove_child, out_child, empty_child, remove_proc_q}
use project.Pcb.Queue.{remove_proc_q-tail}

module _ (s : State) {H : ℕ → Bool} {V : ℕ → List ℕ} (heap : IsHeap s.links H V) where
  pub empty_child-is_empty :
      (p : ℕ) → H (p_child p) ≡ true → empty_child p s ≡ ret (is_empty (V (p_child p))) s
  unfolding empty_child
  empty_child-is_empty p is_head = rw (list_empty-is_empty (heap.ring (p_child p) is_head))

  -- When the sibling node of the process is in no list, `insertChild` makes the process the last
  -- child of its parent and records the parent.
  pub insert_child-snoc :
      (prnt p : ℕ)
      → H (p_child prnt) ≡ true
      → Unowned H V (p_sib p)
      → Yields
          (insert_child prnt p s)
          tt
          (record s { pcb = update s.pcb p (record (s.pcb p) { p_parent = prnt }) })
          H
          (update V (p_child prnt) (V (p_child prnt) ++ (p_sib p ∷ [])))
  unfolding insert_child
  insert_child-snoc prnt p is_head free = record {
    links = list_add_tail s.links (p_sib p) (p_child prnt);
    runs = refl;
    heap = list_add_tail-IsHeap heap (p_sib p) (p_child prnt) is_head free;
  }

  -- When the process stands among the children of its parent, `outChild` returns it and takes it out
  -- of them; the field `p_parent` keeps its value.
  pub out_child-erase :
      (p : ℕ)
      → (s.pcb p).p_parent ≢ null
      → H (p_child (s.pcb p).p_parent) ≡ true
      → has (p_sib p) (V (p_child (s.pcb p).p_parent)) ≡ true
      → Yields
          (out_child p s)
          p
          s
          H
          (update V (p_child (s.pcb p).p_parent) (erase (p_sib p) (V (p_child (s.pcb p).p_parent))))
  unfolding out_child
  out_child-erase p ne is_head child = record {
    links = list_del s.links (p_sib p);
    runs = ground arith;
    heap = list_del-IsHeap heap (p_sib p) (p_child (s.pcb p).p_parent) is_head child;
  }

  pub out_child-orphan : (p : ℕ) → (s.pcb p).p_parent ≡ null → out_child p s ≡ ret null s
  unfolding out_child
  out_child-orphan p e = ground arith

  -- When a process has a child, `removeChild` takes the first one out of the list of children and
  -- returns the address of that child's field `p_sib`.
  pub remove_child-sib :
      (p c : ℕ) (rest : List ℕ)
      → H (p_child p) ≡ true
      → V (p_child p) ≡ p_sib c ∷ rest
      → Yields (remove_child p s) (p_sib c) s H (update V (p_child p) rest)
  unfolding remove_child
  remove_child-sib p c rest is_head e =
      Yields-cast (ground (arith, e)) (ap (λ l. update V (p_child p) (tail l)) e) (
        Yields-critical (remove_proc_q (p_child p)) _ (remove_proc_q-tail heap (p_child p) is_head))
