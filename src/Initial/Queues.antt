-- ===== src/Initial/Queues.antt =====
-- init_globals of the model of phase2/initial.c: the queues of the kernel are made, and empty.
use mathlib.Core.Path.{subst}
use project.Common.{
  ℕ, zero, suc, ◌+◌, ◌≤◌, ◌<◌, ◌≡◌, refl, ◌∙◌, Bool, true, false, List, [], arith, ◌==◌, eq_of_==,
  has, update, Bool-cases, inl, inr,
}
use project.Listx.{null, init_list_head}
use project.Listx.Heap.{IsHeap, init_list_head-IsHeap}
use project.Types.{State, max_device}
use project.Types.Machine.{ret}
use project.Types.View.{Yields}
use project.Utils.Queues.{queue_at}
use project.Initial.{init_device_queues, init_globals}

-- The heads and the lists with `n` more queues of devices from queue `i` on.
unfoldable pub queue_heads : (base n i : ℕ) → (ℕ → Bool) → ℕ → Bool
queue_heads base zero i H = H
queue_heads base (suc n) i H = queue_heads base n (i + 1) (update H (queue_at base i) true)

unfoldable pub queue_lists : (base n i : ℕ) → (ℕ → List ℕ) → ℕ → List ℕ
queue_lists base zero i V = V
queue_lists base (suc n) i V = queue_lists base n (i + 1) (update V (queue_at base i) [])

-- What holds of all heads and of the queues holds of all heads afterwards.
pub queue_heads_all :
    (P : ℕ → Type 0) (base n i : ℕ) (H : ℕ → Bool)
    → ((a : ℕ) → H a ≡ true → P a)
    → ((j : ℕ) → i ≤ j → j < i + n → P (queue_at base j))
    → (a : ℕ) → queue_heads base n i H a ≡ true
    → P a
unfolding queue_heads
queue_heads_all P base zero i H before queues a h = before a h
queue_heads_all P base (suc n) i H before queues a h =
    queue_heads_all P base n (i + 1) (update H (queue_at base i) true)
      (λ b hb. elim (Bool-cases (queue_at base i == b)) [
        | inl here ↦
            subst P (eq_of_== (queue_at base i) b here) (queues i (omega arith) (omega arith))
        | inr other ↦ before b (rw other at hb)
      ])
      (λ j lo hi. queues j (omega arith) (omega arith)) a h

pub queue_heads_kept :
    (base n i : ℕ) (H : ℕ → Bool) (a : ℕ) → H a ≡ true → queue_heads base n i H a ≡ true
unfolding queue_heads
queue_heads_kept base zero i H a h = h
queue_heads_kept base (suc n) i H a h =
    queue_heads_kept base n (i + 1) (update H (queue_at base i) true) a (ground (arith, h))

-- Each queue is a head, and empty.
pub queue_heads-queue_at :
    (base n i : ℕ) (H : ℕ → Bool) (j : ℕ)
    → i ≤ j
    → j < i + n
    → queue_heads base n i H (queue_at base j) ≡ true
unfolding queue_heads
queue_heads-queue_at base zero i H j lo hi = absurd (omega (arith, lo, hi))
queue_heads-queue_at base (suc n) i H j lo hi = elim (Bool-cases (i == j)) [
  | inl here ↦
      queue_heads_kept base n (i + 1) (update H (queue_at base i) true) (queue_at base j)
        (ground (arith, here))
  | inr other ↦
      queue_heads-queue_at base n (i + 1) (update H (queue_at base i) true) j
        (ground (arith, other, lo)) (omega (arith, hi))
]

queue_lists_empty :
    (base n i : ℕ) (V : ℕ → List ℕ) (a : ℕ) → V a ≡ [] → queue_lists base n i V a ≡ []
unfolding queue_lists
queue_lists_empty base zero i V a e = e
queue_lists_empty base (suc n) i V a e =
    queue_lists_empty base n (i + 1) (update V (queue_at base i) []) a (ground (arith, e))

pub queue_lists-queue_at :
    (base n i : ℕ) (V : ℕ → List ℕ) (j : ℕ)
    → i ≤ j
    → j < i + n
    → queue_lists base n i V (queue_at base j) ≡ []
unfolding queue_lists
queue_lists-queue_at base zero i V j lo hi = absurd (omega (arith, lo, hi))
queue_lists-queue_at base (suc n) i V j lo hi = elim (Bool-cases (i == j)) [
  | inl here ↦
      queue_lists_empty base n (i + 1) (update V (queue_at base i) []) (queue_at base j)
        (ground (arith, here))
  | inr other ↦
      queue_lists-queue_at base n (i + 1) (update V (queue_at base i) []) j
        (ground (arith, other, lo)) (omega (arith, hi))
]

pub queue_lists-other :
    (base n i : ℕ) (V : ℕ → List ℕ) (b : ℕ)
    → ((j : ℕ) → i ≤ j → j < i + n → (queue_at base j == b) ≡ false)
    → queue_lists base n i V b ≡ V b
unfolding queue_lists
queue_lists-other base zero i V b other = refl
queue_lists-other base (suc n) i V b other =
    let mine : update V (queue_at base i) [] b ≡ V b =
      rw (other i (omega arith) (omega arith)) refl in
    queue_lists-other base n (i + 1) (update V (queue_at base i) []) b
      (λ j lo hi. other j (omega arith) (omega arith))
    ∙ mine

pub update_fewer :
    (V : ℕ → List ℕ) (hd a x : ℕ) → has x (V a) ≡ false → has x (update V hd [] a) ≡ false
update_fewer V hd a x out = ground (arith, out)

pub queue_lists-fewer :
    (base n i : ℕ) (V : ℕ → List ℕ) (a x : ℕ)
    → has x (V a) ≡ false
    → has x (queue_lists base n i V a) ≡ false
unfolding queue_lists
queue_lists-fewer base zero i V a x out = out
queue_lists-fewer base (suc n) i V a x out =
    queue_lists-fewer base n (i + 1) (update V (queue_at base i) []) a x
      (update_fewer V (queue_at base i) a x out)

init_device_queues-Yields :
    (n i : ℕ) (s : State) {H : ℕ → Bool} {V : ℕ → List ℕ}
    → IsHeap s.links H V
    → ((j a : ℕ) → i ≤ j → j < i + n → has (queue_at s.pcb_blocked_on_device j) (V a) ≡ false)
    → Yields
        (init_device_queues n i s)
        tt
        s
        (queue_heads s.pcb_blocked_on_device n i H)
        (queue_lists s.pcb_blocked_on_device n i V)
unfolding init_device_queues queue_heads queue_lists
init_device_queues-Yields zero i s heap out = record { links = s.links; runs = refl; heap = heap }
init_device_queues-Yields (suc n) i s {H} {V} heap out =
    let hd = queue_at s.pcb_blocked_on_device i in
    let step = init_list_head-IsHeap heap hd (λ a ha. out i a (omega arith) (omega arith)) in
    let y =
      init_device_queues-Yields n (i + 1) (record s { links = init_list_head s.links hd }) step
        (λ j a lo hi.
          update_fewer V hd a (queue_at s.pcb_blocked_on_device j)
            (out j a (omega arith) (omega arith))) in
    record { links = y.links; runs = y.runs; heap = y.heap }

-- The heads and lists of the kernel, from those of the two pools.
abbrev pub kernel_heads : State → (ℕ → Bool) → ℕ → Bool
kernel_heads s H =
    update (queue_heads s.pcb_blocked_on_device max_device 0 (update H s.ready_queue true))
      s.pcb_blocked_on_clock true

abbrev pub kernel_lists : State → (ℕ → List ℕ) → ℕ → List ℕ
kernel_lists s V =
    update (queue_lists s.pcb_blocked_on_device max_device 0 (update V s.ready_queue []))
      s.pcb_blocked_on_clock []

abbrev pub reset : State → State
reset s = record s { process_count = 0; softblock_count = 0; tod_timer = 0; current_process = null }

globals_runs :
    (s s1 : State)
    → init_device_queues max_device 0
        (record (reset s) { links = init_list_head s.links s.ready_queue })
      ≡ ret tt s1
    → init_globals s
      ≡ ret tt (record s1 { links = init_list_head s1.links s1.pcb_blocked_on_clock })
unfolding init_globals
globals_runs s s1 e = rw e refl

pub init_globals-Yields :
    (s : State) {H : ℕ → Bool} {V : ℕ → List ℕ}
    → IsHeap s.links H V
    → ((a : ℕ) → has s.ready_queue (V a) ≡ false)
    → ((a : ℕ) → has s.pcb_blocked_on_clock (V a) ≡ false)
    → ((j a : ℕ) → j < max_device → has (queue_at s.pcb_blocked_on_device j) (V a) ≡ false)
    → Yields (init_globals s) tt (reset s) (kernel_heads s H) (kernel_lists s V)
init_globals-Yields s {H} {V} heap ready clock devices =
    let h1 = init_list_head-IsHeap heap s.ready_queue (λ a ha. ready a) in
    let s1 = record (reset s) { links = init_list_head s.links s.ready_queue } in
    let y = init_device_queues-Yields max_device 0 s1 h1 (λ j a lo hi.
      update_fewer V s.ready_queue a (queue_at s.pcb_blocked_on_device j)
        (devices j a (omega arith))) in
    record {
      links = init_list_head y.links s.pcb_blocked_on_clock;
      runs = globals_runs s (record s1 { links = y.links }) y.runs;
      heap = init_list_head-IsHeap y.heap s.pcb_blocked_on_clock (λ a ha.
          queue_lists-fewer s.pcb_blocked_on_device max_device 0 (update V s.ready_queue []) a
            s.pcb_blocked_on_clock
            (update_fewer V s.ready_queue a s.pcb_blocked_on_clock (clock a)));
    }
