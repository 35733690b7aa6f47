-- ===== src/Exceptions/Taking.antt =====
-- RECEIVEMESSAGE of phase2/exceptions.c does what Mailbox promises, when a letter is there.
use project.Common.{
  ℕ, suc, ◌+◌, ◌%◌, ◌^◌, ◌≤◌, ◌≡◌, ◌≢◌, refl, ◌∙◌, ap, Bool, true, false, ◌||◌, List, [], ◌∷◌,
  arith, ◌==◌, if◌then◌else◌, has, length, update, Bool-cases, inl, inr,
}
use project.Listx.{null}
use project.Listx.Heap.{Distinct-entries}
use project.Types.{State, StateT, Msg, msg_inbox, m_list, max_messages}
use project.Types.Machine.{Outcome, exit, ldst}
use project.Msg.Queue.{popped, left_over}
use project.Msg.Popped.{has_message, popped-some}
use project.Exceptions.{receive_case, at_bios}
use project.Exceptions.Deliver.{seen_as, delivered}
use project.Exceptions.Receive.{quiet, receive_case-received}
use project.Scheduler.Outcome.{restarted}
use project.Exceptions.Mailbox.{
  Letter, Mailboxes, letters, view, has_inbox, has_inbox-msg_inbox, Mailboxes-equal,
}
use project.Exceptions.Shown.{IsPosted}

-- Whether a receive from `wanted`, or from anyone for NULL, takes the letter.
abbrev pub suits : (wanted : ℕ) → Letter → Bool
suits wanted l = (wanted == null) || (l.author == wanted)

abbrev pub has_letter : (wanted : ℕ) → List Letter → Bool
has_letter wanted [] = false
has_letter wanted (l ∷ ls) = suits wanted l || has_letter wanted ls

-- The first letter that suits, and the others.
abbrev pub chosen : (wanted : ℕ) → List Letter → Letter
chosen wanted [] = record { author = 0; word = 0 }
chosen wanted (l ∷ ls) = if suits wanted l then l else chosen wanted ls

abbrev pub others : (wanted : ℕ) → List Letter → List Letter
others wanted [] = []
others wanted (l ∷ ls) = if suits wanted l then ls else l ∷ others wanted ls

-- The specification of a receive of the running process, with the word at `target`.
abbrev pub taking : (wanted target : ℕ) → Mailboxes → Mailboxes
taking wanted target b = record b {
  inbox = update b.inbox b.running (others wanted (b.inbox b.running));
  free = suc b.free;
  ram =
      if target == null
      then b.ram
      else update b.ram target (chosen wanted (b.inbox b.running)).word;
}

-- The letter in a message.
abbrev letter_in : (ℕ → Msg) → ℕ → Letter
letter_in msg m = record { author = (msg m).m_sender; word = (msg m).m_payload }

pub has_message-has_letter :
    (msg : ℕ → Msg) (p : ℕ) (xs : List ℕ) → has_message msg p xs ≡ has_letter p (letters msg xs)
has_message-has_letter msg p [] = ground arith
has_message-has_letter msg p (x ∷ xs) = ground (arith, has_message-has_letter msg p xs)

others-left_over :
    (msg : ℕ → Msg) (p : ℕ) (xs : List ℕ)
    → letters msg (left_over msg p xs) ≡ others p (letters msg xs)
others-left_over msg p [] = ground arith
others-left_over msg p (x ∷ xs) = ground (arith, others-left_over msg p xs)

chosen-popped :
    (msg : ℕ → Msg) (p : ℕ) (xs : List ℕ)
    → has_letter p (letters msg xs) ≡ true
    → letter_in msg (popped msg p xs) ≡ chosen p (letters msg xs)
chosen-popped msg p [] h = cc
chosen-popped msg p (x ∷ xs) h = ground (arith, chosen-popped msg p xs)

-- A run that resumes the running process with the letter: its registers name the author, and the
-- memory shows the mailboxes after the receive.
pub record DoesTake {A : Type 0} (o : Outcome A) (H : ℕ → Bool) (regs : StateT) (b : Mailboxes)
    : Type 0 where
  pub state : State
  pub lists : ℕ → List ℕ
  pub runs : o ≡ exit (ldst regs) state
  pub posted : IsPosted state H lists
  pub shows : view state H lists ≡ b

-- The registers of a process that has received from `author`.
abbrev pub resumed_by : (author : ℕ) → StateT → StateT
resumed_by author r = record r { reg_a0 = author; pc_epc = (r.pc_epc + 4) % 2 ^ 32 }

module _ (s : State) {H : ℕ → Bool} {V : ℕ → List ℕ} (k : IsPosted s H V)
    (is_inbox : has_inbox s.pcb_table H s.current_process ≡ true)
    (few : length (V (msg_inbox s.current_process)) ≤ max_messages) where
  -- The inbox of the running process, its letters, and the message that is taken.
  abbrev nodes : List ℕ
  nodes = V (msg_inbox s.current_process)

  abbrev pub mail : List Letter
  mail = (view s H V).inbox s.current_process

  abbrev m : ℕ
  m = popped s.msg s.bios.reg_a1 nodes

  abbrev after : State
  after = restarted (delivered at_bios m (quiet s))

  abbrev lists_without : ℕ → List ℕ
  lists_without = update V (msg_inbox s.current_process) (left_over s.msg s.bios.reg_a1 nodes)

  abbrev lists_after : ℕ → List ℕ
  lists_after = update lists_without s.msg_free_h (m_list m ∷ lists_without s.msg_free_h)

  mail_lem : mail ≡ letters s.msg nodes
  mail_lem = rw is_inbox refl

  same_saved : (p : ℕ) → ((quiet s).pcb p).p_s ≡ (s.pcb p).p_s
  same_saved p = ground arith

  inbox_after :
      (p : ℕ)
      → (view after H lists_after).inbox p
        ≡ (taking s.bios.reg_a1 s.bios.reg_a2 (view s H V)).inbox p
  inbox_after p = elim (Bool-cases (s.current_process == p)) [
    | inl here ↦
        ground (arith, here, is_inbox, k.inbox_ne p, others-left_over s.msg s.bios.reg_a1 nodes)
    | inr other ↦ ground (arith, other, k.inbox_ne p)
  ]

  module _ (some_letter : has_letter s.bios.reg_a1 mail ≡ true) where
    right_letter : letter_in s.msg m ≡ chosen s.bios.reg_a1 mail
    right_letter =
        rw mail_lem (chosen-popped s.msg s.bios.reg_a1 nodes (rw mail_lem at some_letter))

    view-after : view after H lists_after ≡ taking s.bios.reg_a1 s.bios.reg_a2 (view s H V)
    view-after =
        Mailboxes-equal refl (ground (arith, k.ready_ne, k.inbox_ne s.current_process is_inbox))
          inbox_after (ground (arith, k.inbox_ne s.current_process is_inbox))
          (λ p. ap (λ r. r.reg_a1) (same_saved p)) (λ p. ap (λ r. r.reg_a2) (same_saved p))
          (λ p. ap (λ r. r.reg_a0) (same_saved p))
          (ap (λ l. if s.bios.reg_a2 == null then s.ram else update s.ram s.bios.reg_a2 l.word)
            right_letter)

    -- In a memory whose lists are well-formed, with an inbox for the running process, a block of the
    -- table, of at most 50 messages and no NULL, when a letter in it suits the receive,
    -- RECEIVEMESSAGE does what the specification says: the process resumes behind the call with the
    -- author of the first such letter in `reg_a0`, the SSI under its public name, the word stands
    -- where `reg_a2` points unless that is NULL, this letter alone leaves the inbox, one more
    -- message is free, the rest of the view is as before, and the lists are again well-formed.
    pub receive_case-DoesTake :
        {A : Type 0}
        → has null nodes ≡ false
        → s.current_process ≢ null
        → DoesTake
            (receive_case {A = A} s)
            H
            (resumed_by (seen_as s (chosen s.bios.reg_a1 mail).author) s.bios)
            (taking s.bios.reg_a1 s.bios.reg_a2 (view s H V))
    receive_case-DoesTake {A} no_null runs_on =
        let some_msg : has_message s.msg s.bios.reg_a1 nodes ≡ true =
          has_message-has_letter s.msg s.bios.reg_a1 nodes ∙ (rw mail_lem at some_letter) in
        let (mine, rest) = popped-some s.msg s.bios.reg_a1 nodes some_msg (
          Distinct-entries k.heap (msg_inbox s.current_process)
            (has_inbox-msg_inbox s.pcb_table H s.current_process is_inbox)) in
        let not_null : m ≢ null = λ is_null. ground (arith, rw is_null at mine, no_null) in
        let y =
          receive_case-received s k.heap
            (has_inbox-msg_inbox s.pcb_table H s.current_process is_inbox) few {A = A} k.free_head
            k.ready_head no_null runs_on some_msg in
        record {
          state = record after { links = y.links };
          lists = lists_after;
          runs =
              y.runs
              ∙ ap
                  (λ l.
                    exit (ldst (resumed_by (seen_as s l.author) s.bios))
                      (record after { links = y.links }))
                  right_letter;
          posted = record {
            heap = y.heap;
            ready_head = k.ready_head;
            free_head = k.free_head;
            ready_ne = k.ready_ne;
            inbox_ne = k.inbox_ne;
            no_null = ground (arith, k.no_null, not_null, k.inbox_ne s.current_process is_inbox);
          };
          shows = view-after;
        }
