-- ===== src/Interrupts/Frame.antt =====
-- The handlers of phase2/interrupts.c leave the layout of the device registers as it is.
use project.Common.{
  ℕ, zero, suc, ◌+◌, ◌%◌, ◌≡◌, Bool, true, false, not, ◌&&◌, ◌==◌, if◌then◌else◌, Bool-cases, inl,
  inr,
}
use project.Listx.{null, list_empty, list_add_tail, container_of}
use project.Types.{
  State, Arch, p_list, msg_inbox, il_terminal, interrupt_handler_msg, offset_p_list,
}
use project.Types.Machine.{Cmd, pure, without_mie, Outcome, ret, exit, and_then, list_for_each}
use project.Pcb.{search_pcb, search_pcb_round, insert_proc_q, queue_fuel}
use project.Msg.{alloc_msg, free_msg, insert_message}
use project.Exceptions.{
  at_pcb, deliver_message, fill_message, mark_softblocking, is_blocked_for, is_waiting_for_me, wake,
  post, send_message, send_message_to_ssi,
}
use project.Exceptions.Deliver.{deliver_runs}
use project.Exceptions.Post.{
  unblocked, fill_message-posted, mark_softblocking-marked, unblock-unblocked,
}
use project.Interrupts.{
  lowest_bit, acknowledge, device_interrupt_handler, it_interrupt_handler, plt_interrupt_handler,
}

-- If the run returns, the layout is `a`.
abbrev pub Keeps : {A : Type 0} → Arch → Outcome A → Type 0
Keeps a (ret r s) = s.arch ≡ a
Keeps a (exit e s) = Unit {0}

Keeps-and_then :
    {A B : Type 0} (a : Arch) (o : Outcome A) (k : A → Cmd B)
    → Keeps a o
    → ((r : A) (s : State) → s.arch ≡ a → Keeps a (k r s))
    → Keeps a (and_then o k)
Keeps-and_then a (ret r s) k first rest = rest r s first
Keeps-and_then a (exit e s) k first rest = tt

module _ (a : Arch) where
  search_loop-Keeps :
      (fuel pos head p : ℕ) (l : Bool) (s : State)
      → s.arch ≡ a
      → Keeps a (list_for_each fuel pos head l (search_pcb_round p) pure s)
  unfolding list_for_each search_pcb_round
  search_loop-Keeps zero pos head p l s e = tt
  search_loop-Keeps (suc fuel) pos head p l s e = elim (Bool-cases (pos == head)) [
    | inl at_head ↦ rw (Keeps, at_head) e
    | inr on ↦ elim (Bool-cases (container_of pos offset_p_list == p)) [
      | inl found ↦
          rw (Keeps, on, found) (search_loop-Keeps fuel (s.links.next pos) head p true s e)
      | inr other ↦ rw (Keeps, on, other) (search_loop-Keeps fuel (s.links.next pos) head p l s e)
    ]
  ]

  search_pcb-Keeps : (head p : ℕ) (s : State) → s.arch ≡ a → Keeps a (search_pcb head p s)
  unfolding search_pcb
  search_pcb-Keeps head p s e =
      let s1 = record s { mstatus = without_mie s.mstatus } in
      Keeps-and_then a
        (list_for_each queue_fuel (s1.links.next head) head false (search_pcb_round p) pure s1) _
        (search_loop-Keeps queue_fuel (s1.links.next head) head p false s1 e) (λ r s2 e2. e2)

  alloc_msg-Keeps : (s : State) → s.arch ≡ a → Keeps a (alloc_msg s)
  unfolding alloc_msg
  alloc_msg-Keeps s e = elim (Bool-cases (list_empty s.links s.msg_free_h)) [
    | inl none_free ↦ rw none_free e
    | inr some_free ↦ rw some_free e
  ]

  is_blocked_for-Keeps :
      (sender dest : ℕ) (s : State) → s.arch ≡ a → Keeps a (is_blocked_for sender dest s)
  unfolding is_blocked_for is_waiting_for_me
  is_blocked_for-Keeps sender dest s e =
      Keeps-and_then a (search_pcb s.ready_queue dest s) _ (search_pcb-Keeps s.ready_queue dest s e)
        (λ ready s1 e1. elim (Bool-cases ready) [
          | inl is_ready ↦ rw is_ready e1
          | inr not_ready ↦ elim (Bool-cases (dest == s1.current_process)) [
            | inl runs ↦ rw (not_ready, runs) e1
            | inr waits ↦ rw (not_ready, waits) e1
          ]
        ])

  deliver_message-Keeps :
      (dest msg : ℕ) (s : State) → s.arch ≡ a → Keeps a (deliver_message (at_pcb dest) msg s)
  unfolding free_msg
  deliver_message-Keeps dest msg s e = rw (deliver_runs (at_pcb dest) msg s) e

  wake-Keeps : (dest msg : ℕ) (s : State) → s.arch ≡ a → Keeps a (wake dest msg s)
  unfolding wake insert_proc_q
  wake-Keeps dest msg s e =
      let s1 = record s { links = list_add_tail s.links (p_list dest) s.ready_queue } in
      rw (unblock-unblocked dest s1) (deliver_message-Keeps dest msg (unblocked dest s1) e)

  mark_softblocking-Keeps :
      (dest payload sender : ℕ) (s : State)
      → s.arch ≡ a
      → Keeps a (mark_softblocking dest payload sender s)
  mark_softblocking-Keeps dest payload sender s e =
      rw (mark_softblocking-marked dest payload sender s) e

  fill_message-Keeps :
      (msg payload sender : ℕ) (s : State)
      → s.arch ≡ a
      → Keeps a (fill_message msg payload sender s)
  fill_message-Keeps msg payload sender s e = rw (fill_message-posted msg payload sender s) e

  post_rest-Keeps :
      (dest msg : ℕ) (blocked : Bool) (s : State)
      → s.arch ≡ a
      → Keeps a (
          and_then
            ((if blocked then wake dest msg else insert_message (msg_inbox dest) msg) s)
            (λ _. pure (zero)))
  unfolding insert_message
  post_rest-Keeps dest msg true s e =
      Keeps-and_then a (wake dest msg s) _ (wake-Keeps dest msg s e) (λ r s1 e1. e1)
  post_rest-Keeps dest msg false s e = e

  post-Keeps :
      (dest payload sender msg : ℕ) (s : State)
      → s.arch ≡ a
      → Keeps a (post dest payload sender msg s)
  unfolding post fill_message
  post-Keeps dest payload sender msg s e =
      Keeps-and_then a (fill_message msg payload sender s) _
        (fill_message-Keeps msg payload sender s e)
        (λ r s1 e1.
          Keeps-and_then a (mark_softblocking dest payload sender s1) _
            (mark_softblocking-Keeps dest payload sender s1 e1)
            (λ r s2 e2.
              Keeps-and_then a (is_blocked_for sender dest s2) _
                (is_blocked_for-Keeps sender dest s2 e2)
                (λ blocked s3 e3. post_rest-Keeps dest msg blocked s3 e3)))

  send_message-Keeps :
      (dest payload sender : ℕ) (s : State)
      → s.arch ≡ a
      → Keeps a (send_message dest payload sender s)
  unfolding send_message
  send_message-Keeps dest payload sender s e =
      Keeps-and_then a (alloc_msg s) _ (alloc_msg-Keeps s e) (λ m s1 e1.
        elim (Bool-cases (m == null)) [
          | inl full ↦ rw full e1
          | inr taken ↦ rw taken (post-Keeps dest payload sender m s1 e1)
        ])

  pub send_message_to_ssi-Keeps :
      (payload : ℕ) (s : State) → s.arch ≡ a → Keeps a (send_message_to_ssi payload s)
  unfolding send_message_to_ssi
  send_message_to_ssi-Keeps payload s e =
      Keeps-and_then a _ _ (send_message-Keeps s.ssi_pcb_real payload interrupt_handler_msg s e)
        (λ r s1 e1. e1)

  acknowledge-Keeps : (iln dev : ℕ) (s : State) → s.arch ≡ a → Keeps a (acknowledge iln dev s)
  unfolding acknowledge
  acknowledge-Keeps iln dev s e =
      let status = s.ram (s.arch.dev_reg_addr iln dev + s.arch.transm_status_offset) % 256 in
      elim (Bool-cases (il_terminal == iln)) [
        | inl terminal ↦ elim (Bool-cases (not (status == 1) && not (status == 3))) [
          | inl sent ↦ rw (terminal, sent) e
          | inr quiet ↦ rw (terminal, quiet) e
        ]
        | inr other ↦ rw other e
      ]

  pub device_interrupt_handler-Keeps :
      (iln : ℕ) (s : State) → s.arch ≡ a → Keeps a (device_interrupt_handler iln s)
  unfolding device_interrupt_handler
  device_interrupt_handler-Keeps iln s e =
      let dev = lowest_bit s.arch.n_dev_per_il 0 (s.ram (s.arch.cdev_bitmap_addr iln) % 256) in
      elim (Bool-cases (dev == s.arch.n_dev_per_il)) [
        | inl nobody ↦ rw nobody tt
        | inr somebody ↦ rw somebody (
            Keeps-and_then a (acknowledge iln dev s) _ (acknowledge-Keeps iln dev s e)
              (λ r s1 e1. send_message_to_ssi-Keeps _ s1 e1))
      ]

  pub it_interrupt_handler-Keeps : (s : State) → s.arch ≡ a → Keeps a (it_interrupt_handler s)
  unfolding it_interrupt_handler
  it_interrupt_handler-Keeps s e = send_message_to_ssi-Keeps _ _ e

  pub plt_interrupt_handler-Keeps : (s : State) → s.arch ≡ a → Keeps a (plt_interrupt_handler s)
  unfolding plt_interrupt_handler insert_proc_q
  plt_interrupt_handler-Keeps s e = e
