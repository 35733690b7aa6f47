-- ===== src/Exceptions/Send.antt =====
-- send_message of phase2/exceptions.c: where the message goes, on each branch.
use project.Common.{
  ℕ, ◌≤◌, ◌≡◌, ◌≢◌, refl, ap, fun_ext, Bool, true, false, List, [], ◌∷◌, ◌++◌, arith, ◌==◌, length,
  update, has-append, ◌∙◌,
}
use project.Listx.{null}
use project.Listx.Heap.{IsHeap, Unowned, Unowned-first}
use project.Types.{State, max_proc, msg_no_good, m_list, p_list, msg_inbox}
use project.Types.Machine.{ret}
use project.Types.View.{Yields, Yields-cast}
use project.Pcb.{insert_proc_q}
use project.Pcb.Queue.{insert_proc_q-snoc}
use project.Msg.{fresh_msg, alloc_msg, insert_message}
use project.Msg.Alloc.{alloc_msg-cons, alloc_msg-nil}
use project.Msg.Queue.{insert_message-snoc}
use project.Exceptions.Deliver.{delivered, deliver_message-delivered}
use project.Exceptions.Post.{
  posted, marked, awaits, unblocked, fill_message_fresh, mark_softblocking-marked,
  is_blocked_for-awaits, post_runs, send_runs, wake_runs, unblock-unblocked,
}
use project.Exceptions.{
  is_blocked_for, is_a_softblocking_request, send_message, at_pcb, deliver_message,
}

-- A message can be taken from the pool: `m` is the first free one. The lists of the kernel that a
-- send uses have heads of their own.
pub record CanSend (s : State) (H : ℕ → Bool) (V : ℕ → List ℕ) (dest m : ℕ) (rest : List ℕ)
    : Type 0 where
  pub heap : IsHeap s.links H V
  pub ready_head : H s.ready_queue ≡ true
  pub free_head : H s.msg_free_h ≡ true
  pub inbox_head : H (msg_inbox dest) ≡ true
  pub ready_ne : (s.msg_free_h == s.ready_queue) ≡ false
  pub inbox_ne : (s.msg_free_h == msg_inbox dest) ≡ false
  pub few : length (V s.ready_queue) ≤ max_proc
  pub not_null : m ≢ null
  pub free : V s.msg_free_h ≡ m_list m ∷ rest

module _ (s : State) {H : ℕ → Bool} {V : ℕ → List ℕ} (dest payload sender m : ℕ) (rest : List ℕ)
    (c : CanSend s H V dest m rest) where
  -- The state when the message is filled in and the sender is marked, but for the links.
  abbrev pub sent : State
  sent = record s {
    msg = update s.msg m (posted s payload sender);
    pcb = marked s dest payload sender;
  }

  allocated :
      Yields
        (alloc_msg s)
        m
        (record s { msg = update s.msg m fresh_msg })
        H
        (update V s.msg_free_h rest)
  allocated = alloc_msg-cons s c.heap c.free_head m rest c.free

  abbrev sent_links : State
  sent_links = record sent { links = allocated.links }

  abbrev fresh_state : State
  fresh_state = record s { msg = update s.msg m fresh_msg; links = allocated.links }

  abbrev filled_state : State
  filled_state = record s {
    msg = update s.msg m (posted s payload sender);
    links = allocated.links;
  }

  blocked_runs :
      is_blocked_for sender dest sent_links
      ≡ ret (awaits sent (V s.ready_queue) dest sender) sent_links
  blocked_runs =
      let few : length (update V s.msg_free_h rest s.ready_queue) ≤ max_proc =
        rw c.ready_ne c.few in
      ground (
        arith,
        c.ready_ne,
        is_blocked_for-awaits sent_links dest sender allocated.heap c.ready_head few,
      )

  -- The message waits at the end of the inbox.
  queued :
      Unowned H (update V s.msg_free_h rest) (m_list m)
      → Yields (insert_message (msg_inbox dest) m sent_links) tt sent_links H (
          update
            (update V s.msg_free_h rest)
            (msg_inbox dest)
            (V (msg_inbox dest) ++ (m_list m ∷ [])))
  queued out =
      Yields-cast refl
        (ap (λ l. update (update V s.msg_free_h rest) (msg_inbox dest) (l ++ (m_list m ∷ [])))
          (rw c.inbox_ne refl))
        (insert_message-snoc sent_links allocated.heap (msg_inbox dest) c.inbox_head m out)

  taken : Unowned H (update V s.msg_free_h rest) (m_list m)
  taken = Unowned-first c.heap (m_list m) s.msg_free_h rest c.free_head c.free

  -- When a message is free, at most 50 processes are ready, and the receiver does not wait for this
  -- sender, `send_message` returns 0, the message with its sender and payload stands at the end of
  -- the receiver's inbox, it is gone from the pool, and no other list changes.
  pub send_message-queued :
      awaits sent (V s.ready_queue) dest sender ≡ false
      → Yields (send_message dest payload sender s) 0 sent H (
          update
            (update V s.msg_free_h rest)
            (msg_inbox dest)
            (V (msg_inbox dest) ++ (m_list m ∷ [])))
  unfolding send_message
  send_message-queued not_waiting = record {
    links = (queued taken).links;
    runs = send_runs dest payload sender m s fresh_state _ allocated.runs c.not_null (
        post_runs dest payload sender m false fresh_state filled_state sent_links _
          (fill_message_fresh m payload sender s allocated.links)
          (mark_softblocking-marked dest payload sender filled_state)
          (blocked_runs ∙ ap (λ b. ret b sent_links) not_waiting) (queued taken).runs);
    heap = (queued taken).heap;
  }

  -- The lists while the message is out of the pool, and when the receiver is ready too.
  abbrev without_msg : ℕ → List ℕ
  without_msg = update V s.msg_free_h rest

  abbrev with_dest : ℕ → List ℕ
  with_dest = update without_msg s.ready_queue (without_msg s.ready_queue ++ (p_list dest ∷ []))

  dest_apart : Unowned H V (p_list dest) → Unowned H without_msg (p_list dest)
  dest_apart out a ha = ground (arith, out a ha, out s.msg_free_h c.free_head, c.free)

  msg_apart : Unowned H V (p_list dest) → Unowned H with_dest (m_list m)
  msg_apart out a ha = ground (
    arith,
    taken a ha,
    taken s.ready_queue c.ready_head,
    out s.msg_free_h c.free_head,
    c.free,
    has-append (m_list m) (without_msg s.ready_queue) (p_list dest ∷ []),
    c.ready_ne,
  )

  -- All in all the pool is as before, and the receiver is ready.
  lists_after :
      update with_dest s.msg_free_h (m_list m ∷ with_dest s.msg_free_h)
      ≡ update V s.ready_queue (V s.ready_queue ++ (p_list dest ∷ []))
  lists_after = fun_ext λ a. ground (arith, c.ready_ne, c.free)

  readied :
      Unowned H V (p_list dest)
      → Yields (insert_proc_q s.ready_queue dest sent_links) tt sent_links H with_dest
  readied out =
      insert_proc_q-snoc {s = sent_links} allocated.heap s.ready_queue c.ready_head dest
        (dest_apart out)

  -- The state in which the receiver is given the message.
  abbrev receiving : Unowned H V (p_list dest) → State
  receiving out = unblocked dest (record sent_links { links = (readied out).links })

  handed :
      (out : Unowned H V (p_list dest))
      → Yields
          (deliver_message (at_pcb dest) m (receiving out))
          tt
          (delivered (at_pcb dest) m (receiving out))
          H
          (update with_dest s.msg_free_h (m_list m ∷ with_dest s.msg_free_h))
  handed out =
      deliver_message-delivered (receiving out) (readied out).heap c.free_head (at_pcb dest) m
        (msg_apart out)

  -- When a message is free, at most 50 processes are ready, and the receiver is in no queue and
  -- waits for this sender, `send_message` returns 0, the receiver stands at the end of the ready
  -- queue with the message in its registers, no longer waits for the outside, and every other list,
  -- the pool of messages included, is as before.
  pub send_message-woken :
      Unowned H V (p_list dest)
      → awaits sent (V s.ready_queue) dest sender ≡ true
      → Yields
          (send_message dest payload sender s)
          0
          (delivered (at_pcb dest) m (unblocked dest sent))
          H
          (update V s.ready_queue (V s.ready_queue ++ (p_list dest ∷ [])))
  unfolding is_a_softblocking_request
  send_message-woken out waiting = record {
    links = (handed out).links;
    runs = send_runs dest payload sender m s fresh_state _ allocated.runs c.not_null (
        post_runs dest payload sender m true fresh_state filled_state sent_links _
          (fill_message_fresh m payload sender s allocated.links)
          (mark_softblocking-marked dest payload sender filled_state)
          (blocked_runs ∙ ap (λ b. ret b sent_links) waiting)
          (wake_runs dest m sent_links (record sent_links { links = (readied out).links })
            (receiving out) _ (readied out).runs
            (unblock-unblocked dest (record sent_links { links = (readied out).links }))
            (handed out).runs));
    heap = rw lists_after at (handed out).heap;
  }

-- When no message is free, `send_message` returns MSGNOGOOD and changes nothing.
pub send_message-full :
    (s : State) {H : ℕ → Bool} {V : ℕ → List ℕ} (dest payload sender : ℕ)
    → IsHeap s.links H V
    → H s.msg_free_h ≡ true
    → V s.msg_free_h ≡ []
    → send_message dest payload sender s ≡ ret msg_no_good s
unfolding send_message
send_message-full s dest payload sender heap is_head e = rw (alloc_msg-nil s heap is_head e) refl
