-- ===== src/Support/Pool.antt =====
-- The pool of support structures of phase3/support.c.
use project.Common.{
  ℕ, zero, suc, ◌+◌, ◌≤◌, ◌<◌, ◌≡◌, refl, ap, ◌∙◌, fun_ext, Bool, true, false, not, ◌&&◌, List, [],
  ◌∷◌, arith, ◌==◌, ltb, if◌then◌else◌, has, Bool-cases, inl, inr, eq_of_==, is_empty, update,
  update_same, update_self, erase,
}
use mathlib.Core.Path.{subst}
use project.Listx.{null, list_add, list_del, container_of, list_empty}
use project.Listx.Ring.{Ring, list_empty-is_empty, next-first}
use project.Listx.Heap.{IsHeap, Unowned, list_add-IsHeap, list_del-IsHeap}
use project.Types.{State, PteEntry, uproc_max, max_pages, sizeof_support, offset_s_list, s_list}
use project.Types.Machine.{ret, without_mie}
use project.Types.Table.{entry, push_entries, pushed_twice}
use project.Types.View.{Yields, Yields-critical, Yields-cast}
use project.Support.{free_support, alloc_support, clear_pages, init_supports, init_supports_from}

-- A page table in which no entry has a page.
abbrev pub cleared : (ℕ → PteEntry) → ℕ → PteEntry
cleared tbl j = if ltb j max_pages then record (tbl j) { pte_entry_hi = 0 } else tbl j

clear_one_here :
    (tbl : ℕ → PteEntry) (i : ℕ)
    → update tbl i (record (tbl i) { pte_entry_hi = 0 }) i ≡ record (tbl i) { pte_entry_hi = 0 }
clear_one_here tbl i = update_self tbl i (record (tbl i) { pte_entry_hi = 0 })

clear_one_other :
    (tbl : ℕ → PteEntry) (i j : ℕ)
    → (i == j) ≡ false
    → update tbl i (record (tbl i) { pte_entry_hi = 0 }) j ≡ tbl j
clear_one_other tbl i j ne = rw ne refl

clear_pages-page :
    (n i : ℕ) (tbl : ℕ → PteEntry) (j : ℕ)
    → clear_pages n i tbl j
      ≡ (if not (ltb j i) && ltb j (i + n) then record (tbl j) { pte_entry_hi = 0 } else tbl j)
unfolding clear_pages
clear_pages-page zero i tbl j = ground arith
clear_pages-page (suc n) i tbl j =
    let one = update tbl i (record (tbl i) { pte_entry_hi = 0 }) in
    elim (Bool-cases (i == j)) [
      | inl here ↦
          let e1 : ltb i (i + 1) ≡ true = ground arith in
          let e2 : ltb i i ≡ false = ground arith in
          let e3 : ltb i (i + suc n) ≡ true = ground arith in
          let rest = rw (e1, clear_one_here tbl i) at (clear_pages-page n (i + 1) one i) in
          subst
            (λ x. clear_pages n (i + 1) one x ≡ (
              if not (ltb x i) && ltb x (i + suc n)
              then record (tbl x) { pte_entry_hi = 0 }
              else tbl x))
            (eq_of_== i j here) (rw (e2, e3) rest)
      | inr other ↦
          let e1 : ltb j (i + 1) ≡ ltb j i = ground (arith, other) in
          let e2 : ltb j (i + 1 + n) ≡ ltb j (i + suc n) = ground arith in
          rw (e1, e2, clear_one_other tbl i j other) at (clear_pages-page n (i + 1) one j)
    ]

clear_pages-cleared : (tbl : ℕ → PteEntry) → clear_pages max_pages 0 tbl ≡ cleared tbl
clear_pages-cleared tbl =
    fun_ext
      λ j. let e1 : ltb j 0 ≡ false = ground arith in rw e1 at (clear_pages-page max_pages 0 tbl j)

-- The memory with the page table of a structure cleared.
abbrev pub allocated : State → (p : ℕ) → State
allocated s p = record s {
  support =
      update s.support p
        (record (s.support p) { sup_private_pg_tbl = cleared (s.support p).sup_private_pg_tbl });
}

module _ (s : State) {H : ℕ → Bool} {V : ℕ → List ℕ} (heap : IsHeap s.links H V)
    (is_head : H s.support_free_h ≡ true) where
  pub free_support-cons :
      (p : ℕ)
      → Unowned H V (s_list p)
      → Yields (free_support p s) tt s H (update V s.support_free_h (s_list p ∷ V s.support_free_h))
  unfolding free_support
  free_support-cons p free = record {
    links = list_add s.links (s_list p) s.support_free_h;
    runs = refl;
    heap = list_add-IsHeap heap (s_list p) s.support_free_h is_head free;
  }

  pub alloc_support-nil : V s.support_free_h ≡ [] → alloc_support s ≡ ret null s
  unfolding alloc_support
  alloc_support-nil e = ground (arith, list_empty-is_empty (heap.ring s.support_free_h is_head), e)

  pub alloc_support-cons :
      (p : ℕ) (rest : List ℕ)
      → V s.support_free_h ≡ s_list p ∷ rest
      → Yields (alloc_support s) p (allocated s p) H (update V s.support_free_h rest)
  unfolding alloc_support
  alloc_support-cons p rest e = record {
    links = list_del s.links (s_list p);
    runs =
        let full : list_empty s.links s.support_free_h ≡ false =
          list_empty-is_empty r ∙ ap is_empty e in
        let back : container_of (s_list p) offset_s_list ≡ p = omega arith in
        rw
          (
            full,
            next-first (V s.support_free_h) r e,
            back,
            clear_pages-cleared (s.support p).sup_private_pg_tbl,
          )
          refl;
    heap =
        let mine : has (s_list p) (V s.support_free_h) ≡ true = ground (arith, e) in
        let left : erase (s_list p) (V s.support_free_h) ≡ rest = ground (arith, e) in
        rw left at (list_del-IsHeap heap (s_list p) s.support_free_h is_head mine);
  }
    where
      r : Ring s.links s.support_free_h (V s.support_free_h)
      r = heap.ring s.support_free_h is_head

init_supports_from-push :
    (n i : ℕ) (s : State) {H : ℕ → Bool} {V : ℕ → List ℕ}
    → IsHeap s.links H V
    → H s.support_free_h ≡ true
    → ((j : ℕ) → i ≤ j → j < i + n → Unowned H V (s_list (entry s.support_table sizeof_support j)))
    → Yields (init_supports_from n i s) tt s H (
        update V s.support_free_h
          (push_entries s.support_table sizeof_support offset_s_list n i (V s.support_free_h)))
unfolding init_supports_from
init_supports_from-push zero i s {V} heap is_head free = record {
  links = s.links;
  runs = refl;
  heap = rw (update_same V s.support_free_h (V s.support_free_h) refl) heap;
}
init_supports_from-push (suc n) i s {H} {V} heap is_head free =
    let node = s_list (entry s.support_table sizeof_support i) in
    let mine = free i (omega arith) (omega arith) in
    let step = list_add-IsHeap heap node s.support_free_h is_head mine in
    let later =
      init_supports_from-push n (i + 1)
        (record s { links = list_add s.links node s.support_free_h }) step is_head
        (λ j lo hi a ha. ground (arith, free j (omega arith) (omega arith) a ha)) in
    Yields-cast refl
      (pushed_twice V s.support_free_h node
        (push_entries s.support_table sizeof_support offset_s_list n (i + 1)))
      (record { links = later.links; runs = later.runs; heap = later.heap })

-- The pool after `initSupports`: the last structure first.
abbrev pub all_supports : ℕ → List ℕ
all_supports table = push_entries table sizeof_support offset_s_list uproc_max 0 []

pub init_supports-all :
    (s : State) {H : ℕ → Bool} {V : ℕ → List ℕ}
    → IsHeap s.links H V
    → H s.support_free_h ≡ true
    → V s.support_free_h ≡ []
    → ((j : ℕ) → j < uproc_max → Unowned H V (s_list (entry s.support_table sizeof_support j)))
    → Yields (init_supports s) tt s H (update V s.support_free_h (all_supports s.support_table))
unfolding init_supports
init_supports-all s {H} {V} heap is_head e free =
    Yields-cast refl
      (ap
        (λ l.
          update V s.support_free_h
            (push_entries s.support_table sizeof_support offset_s_list uproc_max 0 l))
        e)
      (Yields-critical (init_supports_from uproc_max 0) tt (
        init_supports_from-push uproc_max 0 (record s { mstatus = without_mie s.mstatus }) heap
          is_head (λ j lo hi. free j (omega arith))))
