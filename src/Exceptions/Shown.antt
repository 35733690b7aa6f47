-- ===== src/Exceptions/Shown.antt =====
-- What Mailbox shows of a memory after each branch of send_message of phase2/exceptions.c.
use project.Common.{
  ℕ, ◌≤◌, ◌≡◌, refl, ◌∙◌, Bool, true, false, List, [], ◌∷◌, ◌++◌, arith, ◌==◌, if◌then◌else◌, has,
  length, update, Bool-cases, update_self, ==_refl, inl, inr,
}
use project.Listx.{null}
use project.Listx.Heap.{IsHeap}
use project.Types.{State, msg_inbox, p_list, m_list, max_proc}
use project.Exceptions.{at_pcb}
use project.Exceptions.Deliver.{seen_as, delivered}
use project.Exceptions.Post.{posted, marked, awaits, unblocked}
use project.Exceptions.Send.{CanSend}
use project.Exceptions.Mailbox.{
  Letter, is_expecting, hand_over, put_by, letters, view, has_inbox, has_inbox-msg_inbox,
  letters-append, letters-update, Mailboxes-equal,
}

-- The heads that the two calls use are there, and are different ones: neither the pool of messages nor
-- the ready queue has its head at the inbox of a process of the table.
pub record IsPosted (s : State) (H : ℕ → Bool) (V : ℕ → List ℕ) : Type 0 where
  pub heap : IsHeap s.links H V
  pub ready_head : H s.ready_queue ≡ true
  pub free_head : H s.msg_free_h ≡ true
  pub ready_ne : (s.msg_free_h == s.ready_queue) ≡ false
  pub inbox_ne :
      (p : ℕ)
      → has_inbox s.pcb_table H p ≡ true
      → ((s.msg_free_h == msg_inbox p) ≡ false) × ((s.ready_queue == msg_inbox p) ≡ false)
  pub no_null : has null (V s.msg_free_h) ≡ false

-- The letter that a send makes.
abbrev pub letter : State → (payload sender : ℕ) → Letter
letter s payload sender = record { author = seen_as s sender; word = payload }

module _ (s : State) {H : ℕ → Bool} {V : ℕ → List ℕ} (dest payload sender : ℕ) (k : IsPosted s H V)
    (is_inbox : has_inbox s.pcb_table H dest ≡ true)
    (few : length (V s.ready_queue) ≤ max_proc) where
  -- The memory after a send with the message `m`, but for the links.
  abbrev pub filled : ℕ → State
  filled m = record s {
    msg = update s.msg m (posted s payload sender);
    pcb = marked s dest payload sender;
  }

  -- With `m` as the first free message.
  module _ (m : ℕ) (rest : List ℕ) (e : V s.msg_free_h ≡ m_list m ∷ rest) where
    pub awaits-is_expecting :
        awaits (filled m) (V s.ready_queue) dest sender
        ≡ is_expecting (view s H V) dest (seen_as s sender)
    awaits-is_expecting = ground arith

    pub can_send : CanSend s H V dest m rest
    can_send = record {
      heap = k.heap;
      ready_head = k.ready_head;
      free_head = k.free_head;
      inbox_head = has_inbox-msg_inbox s.pcb_table H dest is_inbox;
      ready_ne = k.ready_ne;
      inbox_ne = (k.inbox_ne dest is_inbox).0;
      few = few;
      not_null = ground (arith, k.no_null, e);
      free = e;
    }

    inbox-without : (p : ℕ) → has_inbox s.pcb_table H p ≡ true → has m (V (msg_inbox p)) ≡ false
    inbox-without p h = elim (Bool-cases (has m (V (msg_inbox p)))) [
      | inl mine ↦ absurd (
          ground (
            arith,
            e,
            k.heap.apart s.msg_free_h (msg_inbox p) m k.free_head
                (has_inbox-msg_inbox s.pcb_table H p h),
            (k.inbox_ne p h).0,
          ))
      | inr out ↦ out
    ]

    -- Letters in the inboxes are as before.
    same_letters :
        (p : ℕ)
        → has_inbox s.pcb_table H p ≡ true
        → letters (update s.msg m (posted s payload sender)) (V (msg_inbox p))
          ≡ letters s.msg (V (msg_inbox p))
    same_letters p h =
        letters-update s.msg m (posted s payload sender) (V (msg_inbox p)) (inbox-without p h)

    abbrev pub with_letter : List ℕ
    with_letter = V (msg_inbox dest) ++ (m_list m ∷ [])

    abbrev pub queued_lists : ℕ → List ℕ
    queued_lists = update (update V s.msg_free_h rest) (msg_inbox dest) with_letter

    new_letter :
        letters (update s.msg m (posted s payload sender)) with_letter
        ≡ letters s.msg (V (msg_inbox dest)) ++ (letter s payload sender ∷ [])
    new_letter =
        let plain : m_list m ≡ m = omega arith in
        letters-append (update s.msg m (posted s payload sender)) (V (msg_inbox dest))
          (m_list m ∷ [])
        ∙ rw (same_letters dest is_inbox, plain, ==_refl m) refl

    queued_inbox :
        (p : ℕ)
        → (view (filled m) H queued_lists).inbox p
          ≡ (put_by dest (letter s payload sender) (view s H V)).inbox p
    queued_inbox p = elim (Bool-cases (dest == p)) [
      | inl here ↦ ground (arith, here, is_inbox, new_letter)
      | inr other ↦ ground (arith, other, same_letters p, k.inbox_ne p)
    ]

    woken_lists :
        (p : ℕ)
        → (view
              (delivered (at_pcb dest) m (unblocked dest (filled m)))
              H
              (update V s.ready_queue (V s.ready_queue ++ (p_list dest ∷ [])))).inbox
            p
          ≡ (view s H V).inbox p
    woken_lists p = ground (arith, same_letters p, k.inbox_ne p)

    -- The registers that the view reads are those that the send leaves or writes.
    pub view-queued :
        view (filled m) H queued_lists ≡ put_by dest (letter s payload sender) (view s H V)
    view-queued =
        Mailboxes-equal refl (ground (arith, k.ready_ne, k.inbox_ne dest is_inbox)) queued_inbox
          (ground (arith, e, k.inbox_ne dest is_inbox)) (λ p. ground arith) (λ p. ground arith)
          (λ p. ground arith) refl

    abbrev pub woken : State
    woken = delivered (at_pcb dest) m (unblocked dest (filled m))

    abbrev pub woken_all : ℕ → List ℕ
    woken_all = update V s.ready_queue (V s.ready_queue ++ (p_list dest ∷ []))

    -- Marking the sender and unblocking the receiver leaves the saved registers of all processes.
    same_saved : (p : ℕ) → ((unblocked dest (filled m)).pcb p).p_s ≡ (s.pcb p).p_s
    same_saved p = ground arith

    same_wants : (p : ℕ) → (woken.pcb p).p_s.reg_a1 ≡ (s.pcb p).p_s.reg_a1
    same_wants p = ground (arith, same_saved p, same_saved dest)

    same_slot : (p : ℕ) → (woken.pcb p).p_s.reg_a2 ≡ (s.pcb p).p_s.reg_a2
    same_slot p = ground (arith, same_saved p, same_saved dest)

    woken_heard :
        (p : ℕ)
        → (woken.pcb p).p_s.reg_a0 ≡ update (λ q. (s.pcb q).p_s.reg_a0) dest (seen_as s sender) p
    woken_heard p = ground (arith, same_saved p, same_saved dest)

    woken_ram : woken.ram ≡ (
        if (s.pcb dest).p_s.reg_a2 == null
        then s.ram
        else update s.ram (s.pcb dest).p_s.reg_a2 payload)
    woken_ram = rw (same_saved dest, ==_refl m) refl

    pub view-woken : view woken H woken_all ≡ hand_over dest (letter s payload sender) (view s H V)
    view-woken =
        Mailboxes-equal refl (update_self V s.ready_queue (V s.ready_queue ++ (p_list dest ∷ [])))
          woken_lists (ground (arith, k.ready_ne)) same_wants same_slot woken_heard woken_ram
