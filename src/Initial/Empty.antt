-- ===== src/Initial/Empty.antt =====
-- The queues of the kernel that main of phase2/initial.c leaves empty.
use project.Common.{ℕ, ◌<◌, ◌≡◌, Bool, true, List, [], arith, update, update_self}
use project.Listx.Heap.{IsHeap}
use project.Types.{State, max_device}
use project.Utils.Queues.{queue_at}
use project.Initial.Queues.{queue_heads, queue_lists, queue_heads-queue_at, queue_lists-queue_at}
use project.Initial.Boot.{IsLinked, pool_heads, no_lists}
use project.Initial.Made.{with_pools, H1, V1, update_stays}

update_empty : (V : ℕ → List ℕ) (hd a : ℕ) → V a ≡ [] → update V hd [] a ≡ []
update_empty V hd a e = ground (arith, e)

module _ (s : State) (k : IsLinked s.layout)
    (heap : IsHeap s.links (pool_heads s.layout) no_lists) where
  abbrev inner_heads : ℕ → Bool
  inner_heads = update (pool_heads s.layout) s.ready_queue true

  abbrev inner_lists : ℕ → List ℕ
  inner_lists = update (with_pools s k heap) s.ready_queue []

  pub clock_head : H1 s k heap s.pcb_blocked_on_clock ≡ true
  clock_head =
      update_self (queue_heads s.pcb_blocked_on_device max_device 0 inner_heads)
        s.pcb_blocked_on_clock true

  pub clock_made : V1 s k heap s.pcb_blocked_on_clock ≡ []
  clock_made =
      update_self (queue_lists s.pcb_blocked_on_device max_device 0 inner_lists)
        s.pcb_blocked_on_clock []

  pub device_head :
      (j : ℕ) → j < max_device → H1 s k heap (queue_at s.pcb_blocked_on_device j) ≡ true
  device_head j lt =
      update_stays (queue_heads s.pcb_blocked_on_device max_device 0 inner_heads)
        s.pcb_blocked_on_clock (queue_at s.pcb_blocked_on_device j)
        (queue_heads-queue_at s.pcb_blocked_on_device max_device 0 inner_heads j (omega arith)
          (omega (arith, lt)))

  pub device_made : (j : ℕ) → j < max_device → V1 s k heap (queue_at s.pcb_blocked_on_device j) ≡ []
  device_made j lt =
      update_empty (queue_lists s.pcb_blocked_on_device max_device 0 inner_lists)
        s.pcb_blocked_on_clock (queue_at s.pcb_blocked_on_device j)
        (queue_lists-queue_at s.pcb_blocked_on_device max_device 0 inner_lists j (omega arith)
          (omega (arith, lt)))
