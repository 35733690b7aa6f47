-- ===== src/Exceptions/Refinement.antt =====
-- send_message of phase2/exceptions.c does what Mailbox promises.
use mathlib.Core.Path.{subst}
use project.Common.{
  ℕ, ◌≤◌, ◌≡◌, refl, sym, ◌∙◌, ap, Bool, true, false, List, [], ◌∷◌, arith, length, Bool-cases, inl,
  inr,
}
use project.Listx.Heap.{Unowned}
use project.Types.{State, p_list, m_list, max_proc}
use project.Types.Machine.{Outcome, ret}
use project.Exceptions.{send_message}
use project.Exceptions.Deliver.{seen_as}
use project.Exceptions.Send.{send_message-woken, send_message-queued, send_message-full}
use project.Exceptions.Mailbox.{
  Mailboxes, is_expecting, sending, view, has_inbox, sending_full, sending-hand_over,
  sending-put_by,
}
use project.Exceptions.Shown.{
  IsPosted, letter, filled, awaits-is_expecting, can_send, queued_lists, view-queued, woken,
  woken_all, view-woken,
}

-- A run that does what the specification asks: it returns its answer, and the memory shows its
-- mailboxes.
pub record DoesSend (o : Outcome ℕ) (H : ℕ → Bool) (spec : ℕ × Mailboxes) : Type 0 where
  pub state : State
  pub lists : ℕ → List ℕ
  pub runs : o ≡ ret spec.0 state
  pub posted : IsPosted state H lists
  pub shows : view state H lists ≡ spec.1

module _ (s : State) {H : ℕ → Bool} {V : ℕ → List ℕ} (dest payload sender : ℕ) (k : IsPosted s H V)
    (is_inbox : has_inbox s.pcb_table H dest ≡ true)
    (few : length (V s.ready_queue) ≤ max_proc) where
  abbrev spec : ℕ × Mailboxes
  spec = sending dest (letter s payload sender) (view s H V)

  does_queue :
      (m : ℕ) (rest : List ℕ)
      → V s.msg_free_h ≡ m_list m ∷ rest
      → is_expecting (view s H V) dest (seen_as s sender) ≡ false
      → DoesSend (send_message dest payload sender s) H spec
  does_queue m rest e not_expecting =
      let not_waiting =
        awaits-is_expecting s dest payload sender k is_inbox few m rest e ∙ not_expecting in
      let y =
        send_message-queued s dest payload sender m rest
          (can_send s dest payload sender k is_inbox few m rest e) not_waiting in
      subst (DoesSend (send_message dest payload sender s) H)
        (sym (
          sending-put_by dest (letter s payload sender) (view s H V) (ground (arith, e))
            not_expecting))
        (record {
          state = record (filled s dest payload sender k is_inbox few m) { links = y.links };
          lists = queued_lists s dest payload sender k is_inbox few m rest e;
          runs = y.runs;
          posted = record {
            heap = y.heap;
            ready_head = k.ready_head;
            free_head = k.free_head;
            ready_ne = k.ready_ne;
            inbox_ne = k.inbox_ne;
            no_null = ground (arith, k.no_null, e, k.inbox_ne dest is_inbox);
          };
          shows = view-queued s dest payload sender k is_inbox few m rest e;
        })

  does_wake :
      (m : ℕ) (rest : List ℕ)
      → V s.msg_free_h ≡ m_list m ∷ rest
      → Unowned H V (p_list dest)
      → is_expecting (view s H V) dest (seen_as s sender) ≡ true
      → DoesSend (send_message dest payload sender s) H spec
  does_wake m rest e out expecting =
      let waiting = awaits-is_expecting s dest payload sender k is_inbox few m rest e ∙ expecting in
      let y =
        send_message-woken s dest payload sender m rest
          (can_send s dest payload sender k is_inbox few m rest e) out waiting in
      subst (DoesSend (send_message dest payload sender s) H)
        (sym (
          sending-hand_over dest (letter s payload sender) (view s H V) (ground (arith, e))
            expecting))
        (record {
          state = record (woken s dest payload sender k is_inbox few m rest e) { links = y.links };
          lists = woken_all s dest payload sender k is_inbox few m rest e;
          runs = y.runs;
          posted = record {
            heap = y.heap;
            ready_head = k.ready_head;
            free_head = k.free_head;
            ready_ne = k.ready_ne;
            inbox_ne = k.inbox_ne;
            no_null = ground (arith, k.no_null, k.ready_ne);
          };
          shows = view-woken s dest payload sender k is_inbox few m rest e;
        })

  does_nothing : V s.msg_free_h ≡ [] → DoesSend (send_message dest payload sender s) H spec
  does_nothing e =
      subst (DoesSend (send_message dest payload sender s) H)
        (sym (sending_full dest (letter s payload sender) (view s H V) (ground (arith, e))))
        (record {
          state = s;
          lists = V;
          runs = send_message-full s dest payload sender k.heap k.free_head e;
          posted = k;
          shows = refl;
        })

  by_pool :
      (free : List ℕ)
      → V s.msg_free_h ≡ free
      → (is_expecting (view s H V) dest (seen_as s sender) ≡ true → Unowned H V (p_list dest))
      → DoesSend (send_message dest payload sender s) H spec
  by_pool [] e apart = does_nothing e
  by_pool (m ∷ rest) e apart =
      let plain : m ≡ m_list m = omega arith in
      let e' : V s.msg_free_h ≡ m_list m ∷ rest = rw e (ap (λ n. n ∷ rest) plain) in
      elim (Bool-cases (is_expecting (view s H V) dest (seen_as s sender))) [
        | inl expecting ↦ does_wake m rest e' (apart expecting) expecting
        | inr not_expecting ↦ does_queue m rest e' not_expecting
      ]

  -- In a memory whose lists are well-formed, with at most 50 ready processes and an inbox for the
  -- receiver, a block of the table which is in no list by its `p_list` if it waits for this sender,
  -- `send_message` does what Mailbox specifies, whichever way it goes: it returns MSGNOGOOD and
  -- changes nothing when no message is free; else it returns 0, and hands the letter over to a
  -- receiver that waits for its author, which becomes ready, or puts it at the end of the inbox; the
  -- view of the memory afterwards is the specified one, and the lists are again well-formed.
  pub send_message-DoesSend :
      (is_expecting (view s H V) dest (seen_as s sender) ≡ true → Unowned H V (p_list dest))
      → DoesSend
          (send_message dest payload sender s)
          H
          (sending dest (letter s payload sender) (view s H V))
  send_message-DoesSend apart = by_pool (V s.msg_free_h) refl apart
