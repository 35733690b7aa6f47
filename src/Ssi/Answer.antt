-- ===== src/Ssi/Answer.antt =====
-- How the SSI answers an interrupt: answer_do_io of phase2/ssi.c, through the kernel's send.
use mathlib.Core.Path.{subst}
use project.Common.{
  ℕ, ◌≤◌, ◌≡◌, ◌≢◌, refl, ap, ◌∙◌, Bool, true, false, ◌||◌, List, [], ◌∷◌, ◌++◌, arith, ◌==◌, ==_ne,
  has, length, update, tail, first,
}
use project.Listx.{Links, null, container_of}
use project.Listx.Heap.{IsHeap, Unowned}
use project.Types.{
  State, max_proc, any_message, ssi_fake_addr, p_list, p_io, offset_p_io, msg_inbox, m_list,
}
use project.Types.Machine.{ret}
use project.Types.View.{Yields, Yields-cast}
use project.Pcb.{is_pcb_valid, remove_proc_q_for_io}
use project.Utils.{hash_from_device_type_number, device_queue}
use project.Scheduler.Outcome.{restarted}
use project.Exceptions.{send_message, at_pcb}
use project.Pcb.Queue.{remove_proc_q_for_io-tail}
use project.Pcb.Valid.{InTable, is_pcb_valid_iff}
use project.Exceptions.Deliver.{seen_as, delivered}
use project.Exceptions.Post.{posted, marked, awaits, unblocked}
use project.Exceptions.Send.{CanSend, send_message-woken}
use project.Ssi.{syscall_send, answer_do_io}
use project.Ssi.Sending.{charged, calling, returned, syscall_send_runs, charged-p_s, marked-same}

answer_do_io_runs :
    (s s1 s2 : State) (device_type device_number transm status dest : ℕ)
    → remove_proc_q_for_io
        (device_queue s (hash_from_device_type_number s.arch device_type device_number transm))
        s
      ≡ ret dest s1
    → dest ≢ null
    → syscall_send dest status s1 ≡ ret tt s2
    → answer_do_io device_type device_number transm status s ≡ ret tt s2
unfolding answer_do_io
answer_do_io_runs s s1 s2 device_type device_number transm status dest e ne r =
    rw (e, ==_ne dest null ne) r

-- The first process in the queue of a device can be answered: `dest` is an allocated block that waits for the running
-- process, `m` is a free message, and the lists that the answer uses have heads of their own.
pub record CanAnswer (s : State) (H : ℕ → Bool) (V : ℕ → List ℕ) (queue dest m : ℕ)
    (others rest : List ℕ) : Type 0 where
  pub heap : IsHeap s.links H V
  pub queue_head : H queue ≡ true
  pub ready_head : H s.ready_queue ≡ true
  pub free_head : H s.msg_free_h ≡ true
  pub pcb_head : H s.pcb_free_h ≡ true
  pub inbox_head : H (msg_inbox dest) ≡ true
  pub queue_ready : (queue == s.ready_queue) ≡ false
  pub queue_free : (queue == s.msg_free_h) ≡ false
  pub queue_pcb : (queue == s.pcb_free_h) ≡ false
  pub free_ready : (s.msg_free_h == s.ready_queue) ≡ false
  pub free_inbox : (s.msg_free_h == msg_inbox dest) ≡ false
  pub few : length (V s.ready_queue) ≤ max_proc
  pub few_free : length (V s.pcb_free_h) ≤ max_proc
  pub waiting : V queue ≡ p_io dest ∷ others
  pub nodes : (x : ℕ) → has x (V queue) ≡ true → offset_p_io ≤ x
  pub message : V s.msg_free_h ≡ m_list m ∷ rest
  pub not_null : m ≢ null
  pub in_table : InTable s.pcb_table dest
  pub not_queued : Unowned H V (p_list dest)
  pub real : dest ≢ null
  pub not_fake : dest ≢ ssi_fake_addr
  pub not_ssi : dest ≢ s.ssi_pcb_real
  pub not_running : dest ≢ s.current_process
  pub asks :
      (((s.pcb dest).p_s.reg_a1 == seen_as s s.current_process)
        || ((s.pcb dest).p_s.reg_a1 == any_message))
      ≡ true

module _ (s : State) {H : ℕ → Bool} {V : ℕ → List ℕ} (queue dest m status : ℕ)
    (others rest : List ℕ) (c : CanAnswer s H V queue dest m others rest) where
  -- The lists when the process has left the queue.
  abbrev pub left_queue : ℕ → List ℕ
  left_queue = update V queue others

  pub removed : Yields (remove_proc_q_for_io queue s) dest s H left_queue
  removed =
      let back : container_of (first (V queue)) offset_p_io ≡ dest = ground (arith, c.waiting) in
      Yields-cast back (ap (λ l. update V queue (tail l)) c.waiting)
        (remove_proc_q_for_io-tail {s = s} c.heap queue c.queue_head c.nodes)

  -- The state in which the kernel serves the call.
  abbrev pub serving : Links → State
  serving l = charged (calling dest status (record s { links = l }))

  abbrev pub at_call : State
  at_call = serving removed.links

  valid : is_pcb_valid dest at_call ≡ ret true at_call
  valid =
      let few_free : length (left_queue s.pcb_free_h) ≤ max_proc = rw c.queue_pcb c.few_free in
      let (ok, runs, iff) = is_pcb_valid_iff at_call removed.heap c.pcb_head few_free dest in
      let out : has (p_list dest) (left_queue s.pcb_free_h) ≡ false =
        rw c.queue_pcb (ground (arith, c.not_queued s.pcb_free_h c.pcb_head)) in
      runs ∙ ap (λ b. ret b at_call) (iff.1 (c.in_table, out))

  can_send : CanSend at_call H left_queue dest m rest
  can_send = record {
    heap = removed.heap;
    ready_head = c.ready_head;
    free_head = c.free_head;
    inbox_head = c.inbox_head;
    ready_ne = c.free_ready;
    inbox_ne = c.free_inbox;
    few = rw c.queue_ready c.few;
    not_null = c.not_null;
    free = rw c.queue_free c.message;
  }

  not_listed : Unowned H left_queue (p_list dest)
  not_listed a ha = ground (arith, c.not_queued a ha, c.not_queued queue c.queue_head, c.waiting)

  -- The state when the message is filled in.
  abbrev pub with_message : State → State
  with_message now = record now {
    msg = update now.msg m (posted now status now.current_process);
    pcb = marked now dest status now.current_process;
  }

  same_block : (marked at_call dest status s.current_process dest).p_s ≡ (s.pcb dest).p_s
  same_block =
      ap (λ f. (f dest).p_s) (marked-same at_call dest status s.current_process c.not_ssi)
      ∙ charged-p_s (calling dest status (record s { links = removed.links })) dest

  is_awaited :
      awaits (with_message at_call) (left_queue s.ready_queue) dest s.current_process ≡ true
  is_awaited =
      let e1 : has (p_list dest) (left_queue s.ready_queue) ≡ false =
        ground (arith, not_listed s.ready_queue c.ready_head) in
      rw (e1, ==_ne dest s.current_process c.not_running, same_block) c.asks

  pub sent_off :
      Yields
        (send_message dest status s.current_process at_call)
        0
        (delivered (at_pcb dest) m (unblocked dest (with_message at_call)))
        H
        (update left_queue s.ready_queue (left_queue s.ready_queue ++ (p_list dest ∷ [])))
  sent_off =
      send_message-woken at_call dest status s.current_process m rest can_send not_listed is_awaited

  same_ready :
      update left_queue s.ready_queue (left_queue s.ready_queue ++ (p_list dest ∷ []))
      ≡ update left_queue s.ready_queue (V s.ready_queue ++ (p_list dest ∷ []))
  same_ready =
      ap (λ l. update left_queue s.ready_queue (l ++ (p_list dest ∷ []))) (rw c.queue_ready refl)

  -- The state behind the answer, and its lists.
  abbrev pub answered : State
  answered = restarted (
      returned 0 (record (delivered (at_pcb dest) m (unblocked dest (with_message at_call))) {
        links = sent_off.links;
      }))

  abbrev pub answered_lists : ℕ → List ℕ
  answered_lists = update left_queue s.ready_queue (V s.ready_queue ++ (p_list dest ∷ []))

  pub answer_runs : syscall_send dest status (record s { links = removed.links }) ≡ ret tt answered
  answer_runs =
      syscall_send_runs (record s { links = removed.links }) _ dest status 0 c.not_fake c.real valid
        sent_off.runs

  pub answered-IsHeap : IsHeap answered.links H answered_lists
  answered-IsHeap = subst (IsHeap sent_off.links H) same_ready sent_off.heap

  -- When the first process in the queue of a device is an allocated block that waits for the running
  -- process, is in no queue by its `p_list`, and a message is free, `answer_do_io` takes it out of
  -- the queue and sends it the status through the kernel: it becomes ready, with the status
  -- delivered, and is no longer counted as waiting; the caller gets 0 and goes on behind its call,
  -- its time is charged, and all other lists are as before.
  pub answer_do_io-woken :
      (device_type device_number transm : ℕ)
      → queue
        ≡ device_queue s (hash_from_device_type_number s.arch device_type device_number transm)
      → (l1 : Links) × (l2 : Links) × (answer_do_io device_type device_number transm status s
          ≡ ret tt (
              restarted (
                returned 0
                  (record (delivered (at_pcb dest) m (unblocked dest (with_message (serving l1)))) {
                    links = l2;
                  }))))
        × IsHeap l2 H (update left_queue s.ready_queue (V s.ready_queue ++ (p_list dest ∷ [])))
  answer_do_io-woken device_type device_number transm here =
      let removes =
        subst (λ q. remove_proc_q_for_io q s ≡ ret dest (record s { links = removed.links })) here
          removed.runs in
      (
        removed.links,
        sent_off.links,
        answer_do_io_runs s (record s { links = removed.links }) _ device_type device_number transm
            status dest removes c.real answer_runs,
        answered-IsHeap,
      )
