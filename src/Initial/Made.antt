-- ===== src/Initial/Made.antt =====
-- The lists that the first half of main of phase2/initial.c makes.
use mathlib.Core.Path.{subst}
use project.Common.{
  ℕ, ◌+◌, ◌<◌, ◌≡◌, refl, ◌∙◌, Bool, true, false, List, [], ◌∷◌, arith, ◌==◌, eq_of_==, has, update,
  Bool-cases, inl, inr, update_self,
}
use project.Listx.Heap.{IsHeap}
use project.Types.{State, max_device, max_proc, max_messages, sizeof_pcb, sizeof_msg, m_list}
use project.Types.Table.{entry}
use project.Types.View.{Yields}
use project.Pcb.{init_pcbs}
use project.Pcb.Init.{init_pcbs-all, all_blocks}
use project.Msg.{init_msgs}
use project.Msg.Init.{init_msgs-all, all_messages}
use project.Utils.Queues.{queue_at}
use project.Initial.{init_globals}
use project.Initial.Blocks.{block, below, Clean}
use project.Initial.Queues.{
  queue_heads_all, queue_heads_kept, queue_lists-other, queue_lists-fewer, queue_heads, queue_lists,
  update_fewer, kernel_heads, kernel_lists, reset, init_globals-Yields,
}
use project.Initial.Boot.{
  in_pcbs, IsOut, IsLinked, pool_heads, no_lists, pool_heads-IsOut, block_in, message_in, not_block,
  not_message,
}

-- A list that is none of the queues of the kernel is not touched.
kernel_lists-other :
    (s : State) (V : ℕ → List ℕ) (b : ℕ)
    → (s.ready_queue == b) ≡ false
    → (s.pcb_blocked_on_clock == b) ≡ false
    → ((j : ℕ) → j < max_device → (queue_at s.pcb_blocked_on_device j == b) ≡ false)
    → kernel_lists s V b ≡ V b
kernel_lists-other s V b not_ready not_clock not_device =
    let devices : queue_lists s.pcb_blocked_on_device max_device 0 (update V s.ready_queue []) b
        ≡ V b =
      queue_lists-other s.pcb_blocked_on_device max_device 0 (update V s.ready_queue []) b
        (λ j lo hi. not_device j (omega arith))
      ∙ rw not_ready refl in
    rw not_clock devices

-- A new head is a head, whatever was one before.
pub update_stays : (H : ℕ → Bool) (hd a : ℕ) → H a ≡ true → update H hd true a ≡ true
update_stays H hd a h = ground (arith, h)

module _ (s : State) (k : IsLinked s.layout)
    (heap : IsHeap s.links (pool_heads s.layout) no_lists) where
  abbrev H0 : ℕ → Bool
  H0 = pool_heads s.layout

  abbrev with_blocks : ℕ → List ℕ
  with_blocks = update no_lists s.pcb_free_h (all_blocks s.pcb_table)

  abbrev pub with_pools : ℕ → List ℕ
  with_pools = update with_blocks s.msg_free_h (all_messages s.msg_table)

  pcb_head : H0 s.pcb_free_h ≡ true
  pcb_head = ground arith

  msg_head : H0 s.msg_free_h ≡ true
  msg_head = ground arith

  pub blocks_made : Yields (init_pcbs s) tt s H0 with_blocks
  blocks_made = init_pcbs-all s heap pcb_head refl (λ j lt a ha.
      ground (arith, (pool_heads-IsOut s.layout k a ha).0, block_in s.layout j 0 lt (omega arith)))

  abbrev pub blocks_state : State
  blocks_state = record s { links = blocks_made.links }

  message_out :
      (j a : ℕ)
      → j < max_messages
      → H0 a ≡ true
      → has (m_list (entry s.msg_table sizeof_msg j)) (a ∷ with_blocks a) ≡ false
  message_out j a lt ha =
      let x = m_list (entry s.msg_table sizeof_msg j) in
      let inside = message_in s.layout j lt in
      let not_head : (a == x) ≡ false =
        ground (arith, (pool_heads-IsOut s.layout k a ha).1, inside) in
      let out : in_pcbs s.layout x ≡ false = elim (Bool-cases (in_pcbs s.layout x)) [
        | inl both ↦ absurd (ground (arith, k.tables x both, inside))
        | inr out ↦ out
      ] in
      ground (arith, not_head, not_block s.layout x out)

  pub messages_made : Yields (init_msgs blocks_state) tt blocks_state H0 with_pools
  messages_made =
      init_msgs-all blocks_state blocks_made.heap msg_head (ground (arith, k.pools_ne))
        (λ j lt a ha. message_out j a lt ha)

  abbrev pub pools_state : State
  pools_state = record s { links = messages_made.links }

  out_of_pools : (x a : ℕ) → IsOut s.layout x → has x (with_pools a) ≡ false
  out_of_pools x a (pcb, msg) = ground (arith, not_block s.layout x pcb, not_message s.layout x msg)

  pub globals_made :
      Yields
        (init_globals pools_state)
        tt
        (reset pools_state)
        (kernel_heads s H0)
        (kernel_lists s with_pools)
  globals_made =
      init_globals-Yields pools_state messages_made.heap
        (λ a. out_of_pools s.ready_queue a k.ready_out)
        (λ a. out_of_pools s.pcb_blocked_on_clock a k.clock_out)
        (λ j a lt. out_of_pools (queue_at s.pcb_blocked_on_device j) a (k.devices_out j lt))

  abbrev pub H1 : ℕ → Bool
  H1 = kernel_heads s H0

  abbrev pub V1 : ℕ → List ℕ
  V1 = kernel_lists s with_pools

  free_pool : with_pools s.pcb_free_h ≡ below s.layout max_proc
  free_pool =
      let ne : (s.msg_free_h == s.pcb_free_h) ≡ false = ground (arith, k.pools_ne) in
      rw ne (update_self no_lists s.pcb_free_h (all_blocks s.pcb_table))

  pub free_made : V1 s.pcb_free_h ≡ below s.layout max_proc
  free_made =
      kernel_lists-other s with_pools s.pcb_free_h k.ready_ne.0 k.clock_ne.0
        (λ j lt. (k.devices_ne j lt).0)
      ∙ free_pool

  pub pool_made : V1 s.msg_free_h ≡ all_messages s.msg_table
  pool_made =
      kernel_lists-other s with_pools s.msg_free_h k.ready_ne.1 k.clock_ne.1
        (λ j lt. (k.devices_ne j lt).1)
      ∙ update_self with_blocks s.msg_free_h (all_messages s.msg_table)

  pub ready_made : V1 s.ready_queue ≡ []
  ready_made = rw k.clock_ne.2 (
      queue_lists-other s.pcb_blocked_on_device max_device 0 (update with_pools s.ready_queue [])
        s.ready_queue (λ j lo hi. (k.devices_ne j hi).2)
      ∙ update_self with_pools s.ready_queue [])

  pub free_head : H1 s.pcb_free_h ≡ true
  free_head =
      update_stays (queue_heads s.pcb_blocked_on_device max_device 0 (update H0 s.ready_queue true))
        s.pcb_blocked_on_clock s.pcb_free_h
        (queue_heads_kept s.pcb_blocked_on_device max_device 0 (update H0 s.ready_queue true)
          s.pcb_free_h (update_stays H0 s.ready_queue s.pcb_free_h pcb_head))

  pub ready_head : H1 s.ready_queue ≡ true
  ready_head =
      update_stays (queue_heads s.pcb_blocked_on_device max_device 0 (update H0 s.ready_queue true))
        s.pcb_blocked_on_clock s.ready_queue
        (queue_heads_kept s.pcb_blocked_on_device max_device 0 (update H0 s.ready_queue true)
          s.ready_queue (update_self H0 s.ready_queue true))

  pub pool_is : H1 s.msg_free_h ≡ true
  pool_is =
      update_stays (queue_heads s.pcb_blocked_on_device max_device 0 (update H0 s.ready_queue true))
        s.pcb_blocked_on_clock s.msg_free_h
        (queue_heads_kept s.pcb_blocked_on_device max_device 0 (update H0 s.ready_queue true)
          s.msg_free_h (update_stays H0 s.ready_queue s.msg_free_h msg_head))

  heads-IsOut : (a : ℕ) → H1 a ≡ true → IsOut s.layout a
  heads-IsOut a h = elim (Bool-cases (s.pcb_blocked_on_clock == a)) [
    | inl clock ↦ subst (IsOut s.layout) (eq_of_== s.pcb_blocked_on_clock a clock) k.clock_out
    | inr other ↦
        queue_heads_all (IsOut s.layout) s.pcb_blocked_on_device max_device 0
          (update H0 s.ready_queue true)
          (λ b hb. elim (Bool-cases (s.ready_queue == b)) [
            | inl ready ↦ subst (IsOut s.layout) (eq_of_== s.ready_queue b ready) k.ready_out
            | inr not_ready ↦ pool_heads-IsOut s.layout k b (rw not_ready at hb)
          ])
          (λ j lo hi. k.devices_out j hi) a (rw other at h)
  ]

  lists_out :
      (i r a : ℕ)
      → i < max_proc
      → r < sizeof_pcb
      → (s.pcb_free_h == a) ≡ false
      → has (block s.layout i + r) (V1 a) ≡ false
  lists_out i r a lt small other =
      let inside = block_in s.layout i r lt small in
      let not_msg = k.tables (block s.layout i + r) inside in
      let before : has (block s.layout i + r) (with_pools a) ≡ false =
        ground (arith, not_message s.layout (block s.layout i + r) not_msg, other) in
      update_fewer
        (queue_lists s.pcb_blocked_on_device max_device 0 (update with_pools s.ready_queue []))
        s.pcb_blocked_on_clock a (block s.layout i + r)
        (queue_lists-fewer s.pcb_blocked_on_device max_device 0 (update with_pools s.ready_queue [])
          a (block s.layout i + r)
          (update_fewer with_pools s.ready_queue a (block s.layout i + r) before))

  pub clean_made : Clean s.layout H1 V1 max_proc
  clean_made a i r ha lt small = (
    ground (arith, (heads-IsOut a ha).0, block_in s.layout i r lt small),
    lists_out i r a lt small,
  )
