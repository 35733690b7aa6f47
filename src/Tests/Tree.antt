-- ===== src/Tests/Tree.antt =====
-- The end of a process with a child, in a memory with all queues of devices: `a` is ready, and its child
-- `c` waits in the fourth queue of a device.
use mathlib.Core.Path.{subst}
use project.Common.{
  ℕ, zero, suc, ◌+◌, ◌*◌, ◌≤◌, ◌<◌, ◌≡◌, refl, fun_ext, Bool, true, List, [], ◌∷◌, ◌++◌, arith,
  update,
}
use project.Listx.{Links, init_list_head, list_add_tail}
use project.Listx.Heap.{IsHeap, init_list_head-IsHeap, list_add_tail-IsHeap}
use project.Types.{State, p_child, p_sib, p_io}
use project.Pcb.{fresh_pcb}
use project.Utils.{terminate_process}
use project.Utils.Family.{nobody, member, IsMember}
use project.Utils.Children.{Ended, CanEnd, IsKernel, fixed}
use project.Utils.Progeny.{terminate_process-Ended}
use project.Tests.Memory.{memory, a, b, c, zero_links, no_heads, no_lists, empty-IsHeap}

-- The first `n` queues of devices.
device_heads : ℕ → ℕ → Bool
device_heads zero = no_heads
device_heads (suc n) = update (device_heads n) (100 + n * 8) true

device_links : ℕ → Links
device_links zero = zero_links
device_links (suc n) = init_list_head (device_links n) (100 + n * 8)

no_list : (hd : ℕ) → update no_lists hd [] ≡ no_lists
no_list hd = fun_ext λ x. ground arith

devices-IsHeap : (n : ℕ) → IsHeap (device_links n) (device_heads n) no_lists
unfolding device_heads device_links
devices-IsHeap zero = empty-IsHeap
devices-IsHeap (suc n) =
    subst (IsHeap (device_links (suc n)) (device_heads (suc n))) (no_list (100 + n * 8))
      (init_list_head-IsHeap (devices-IsHeap n) (100 + n * 8) (λ x h. refl))

device_heads_low : (n x : ℕ) → device_heads n x ≡ true → (100 ≤ x) × (x < 100 + n * 8)
unfolding device_heads
device_heads_low zero x h = cc
device_heads_low (suc n) x h = ground (arith, device_heads_low n x)

device_heads_all : (n j : ℕ) → j < n → device_heads n (100 + j * 8) ≡ true
unfolding device_heads
device_heads_all zero j lt = absurd (omega arith)
device_heads_all (suc n) j lt = ground (arith, device_heads_all n j)

abbrev heads : ℕ → Bool
heads =
    update
      (update (update (update (update (device_heads 48) 8 true) 32 true) 40 true) (p_child a) true)
      (p_child c) true

abbrev empty_links : Links
empty_links =
    init_list_head
      (init_list_head (init_list_head (init_list_head (init_list_head (device_links 48) 8) 32) 40)
        (p_child a))
      (p_child c)

abbrev empty_lists : ℕ → List ℕ
empty_lists =
    update (update (update (update (update no_lists 8 []) 32 []) 40 []) (p_child a) []) (p_child c)
      []

empty_lists-IsHeap : IsHeap empty_links heads empty_lists
empty_lists-IsHeap =
    let h1 = init_list_head-IsHeap (devices-IsHeap 48) 8 (λ x h. refl) in
    let h2 = init_list_head-IsHeap h1 32 (λ x h. ground arith) in
    let h3 = init_list_head-IsHeap h2 40 (λ x h. ground arith) in
    let h4 = init_list_head-IsHeap h3 (p_child a) (λ x h. ground arith) in
    init_list_head-IsHeap h4 (p_child c) (λ x h. ground arith)

abbrev put : ℕ → ℕ → (ℕ → List ℕ) → ℕ → List ℕ
put x hd V = update V hd (V hd ++ (x ∷ []))

abbrev lists : ℕ → List ℕ
lists = put (p_io c) 124 (put (p_sib c) (p_child a) (put a 32 (put b 8 empty_lists)))

abbrev links : Links
links =
    list_add_tail
      (list_add_tail (list_add_tail (list_add_tail empty_links b 8) a 32) (p_sib c) (p_child a))
      (p_io c) 124

lists-IsHeap : IsHeap links heads lists
lists-IsHeap =
    let h1 =
      list_add_tail-IsHeap empty_lists-IsHeap b 8 refl
        (λ x h. ground (arith, device_heads_low 48 x)) in
    let h2 = list_add_tail-IsHeap h1 a 32 refl (λ x h. ground (arith, device_heads_low 48 x)) in
    let h3 =
      list_add_tail-IsHeap h2 (p_sib c) (p_child a) refl
        (λ x h. ground (arith, device_heads_low 48 x)) in
    list_add_tail-IsHeap h3 (p_io c) 124 (ground (arith, device_heads_all 48 3))
      (λ x h. ground (arith, device_heads_low 48 x))

abbrev tree : State
tree = record memory {
  links = links;
  pcb = update (λ _. fresh_pcb 0) c (record (fresh_pcb 3) { p_parent = a; do_io = 1 });
  process_count = 3;
}

is_kernel : IsKernel tree heads lists
is_kernel = record {
  heap = lists-IsHeap;
  few = λ x h. ground arith;
  ready_head = refl;
  clock_head = refl;
  device_heads = λ j lt. ground (arith, device_heads_all 48 j);
  free_head = refl;
  free_apart = record { ready = refl; clock = refl; devices = λ j lt. ground arith };
}

a-IsMember : IsMember (fixed tree) heads lists a
a-IsMember = record {
  table = refl;
  not_null = omega arith;
  not_ssi = refl;
  no_support = refl;
  no_head = ground (arith, device_heads_low 48 a);
  child_head = refl;
  child_apart = record { ready = refl; clock = refl; devices = λ j lt. ground arith };
  child_ne = refl;
  placed = λ x h r k. ground arith;
}

c-IsMember : IsMember (fixed tree) heads lists c
c-IsMember = record {
  table = refl;
  not_null = omega arith;
  not_ssi = refl;
  no_support = refl;
  no_head = ground (arith, device_heads_low 48 c);
  child_head = refl;
  child_apart = record { ready = refl; clock = refl; devices = λ j lt. ground arith };
  child_ne = refl;
  placed = λ x h r k. ground arith;
}

a-CanEnd : CanEnd tree heads lists a 0 (member c nobody nobody)
a-CanEnd = record {
  kernel = is_kernel;
  me = a-IsMember;
  child_of = refl;
  shows = refl;
  family = ((c-IsMember, refl, refl), (tt, tt));
  fits = record {
    distinct = (refl, (refl, tt));
    room = omega arith;
    counted = omega arith;
    word = omega arith;
  };
  parent_out = refl;
  is_child = λ ne. absurd (ne refl);
  parent_apart = λ ne. absurd (ne refl);
  parent_ne = λ ne. absurd (ne refl);
}

terminate_process-Ended_example :
    Ended tree heads lists (a ∷ c ∷ []) 0 [] (terminate_process a tree)
terminate_process-Ended_example =
    terminate_process-Ended tree heads lists a 0 (member c nobody nobody) a-CanEnd
