-- ===== src/Exceptions/Post.antt =====
-- The steps of send_message of phase2/exceptions.c, each with the state that it leaves.
use project.Common.{
  ℕ, ◌+◌, ◌-◌, ◌%◌, ◌^◌, ◌≤◌, ◌≡◌, ◌≢◌, refl, ap, fun_ext, Bool, true, false, not, ◌&&◌, ◌||◌, List,
  arith, ◌==◌, if◌then◌else◌, has, length, update, update-update, Bool-cases, inl, inr, ◌∙◌,
}
use project.Listx.{Links, null}
use project.Listx.Heap.{IsHeap}
use project.Types.{State, Pcb, Msg, max_proc, any_message, interrupt_handler_msg, p_list, msg_inbox}
use project.Types.Machine.{Outcome, ret}
use project.Pcb.{insert_proc_q}
use project.Pcb.Queue.{search_pcb-has}
use project.Msg.{fresh_msg, alloc_msg, insert_message}
use project.Exceptions.Deliver.{seen_as}
use project.Exceptions.{
  mark_softblocking, is_blocked_for, is_a_softblocking_request, send_message, unblock, post,
  fill_message, at_pcb, wake, deliver_message,
}

-- The message that is sent.
abbrev pub posted : State → (payload sender : ℕ) → Msg
posted s payload sender = record { m_sender = seen_as s sender; m_payload = payload }

-- Whether the sender asks the SSI for input, output or the clock.
abbrev pub is_io_request : State → (dest payload sender : ℕ) → Bool
is_io_request s dest payload sender =
    (dest == s.ssi_pcb_real)
    && (not (sender == interrupt_handler_msg) && is_a_softblocking_request s payload)

-- The process blocks after `mark_softblocking`.
abbrev pub marked : State → (dest payload sender : ℕ) → ℕ → Pcb
marked s dest payload sender =
    if is_io_request s dest payload sender
    then update s.pcb s.current_process (record (s.pcb s.current_process) { do_io = 1 })
    else s.pcb

-- Whether `dest` waits for a message from `sender`: it is neither ready nor running, and asked for
-- this sender or for any.
abbrev pub awaits : State → List ℕ → (dest sender : ℕ) → Bool
awaits s ready dest sender =
    not (has (p_list dest) ready)
    && (not (dest == s.current_process)
        && (((s.pcb dest).p_s.reg_a1 == seen_as s sender)
            || ((s.pcb dest).p_s.reg_a1 == any_message)))

pub mark_softblocking-marked :
    (dest payload sender : ℕ) (s : State)
    → mark_softblocking dest payload sender s
      ≡ ret tt (record s { pcb = marked s dest payload sender })
unfolding mark_softblocking
mark_softblocking-marked dest payload sender s = ground arith

pub is_blocked_for-awaits :
    (s : State) {H : ℕ → Bool} {V : ℕ → List ℕ} (dest sender : ℕ)
    → IsHeap s.links H V
    → H s.ready_queue ≡ true
    → length (V s.ready_queue) ≤ max_proc
    → is_blocked_for sender dest s ≡ ret (awaits s (V s.ready_queue) dest sender) s
unfolding is_blocked_for
is_blocked_for-awaits s dest sender heap is_head few =
    ground (arith, search_pcb-has {s = s} heap s.ready_queue is_head dest few)

filled :
    (f : ℕ → Msg) (m p q : ℕ)
    → update
        (update f m (record (f m) { m_payload = p }))
        m
        (record (update f m (record (f m) { m_payload = p }) m) { m_sender = q })
      ≡ update f m (record { m_sender = q; m_payload = p })
filled f m p q = fun_ext λ x. ground arith

pub fill_message-posted :
    (m payload sender : ℕ) (s : State)
    → fill_message m payload sender s
      ≡ ret tt (record s { msg = update s.msg m (posted s payload sender) })
unfolding fill_message
fill_message-posted m payload sender s =
    ap (λ f. ret tt (record s { msg = f })) (filled s.msg m payload (seen_as s sender))

-- Right after `allocMsg`.
pub fill_message_fresh :
    (m payload sender : ℕ) (s : State) (l : Links)
    → fill_message m payload sender (record s { msg = update s.msg m fresh_msg; links = l })
      ≡ ret tt (record s { msg = update s.msg m (posted s payload sender); links = l })
fill_message_fresh m payload sender s l =
    fill_message-posted m payload sender (record s { msg = update s.msg m fresh_msg; links = l })
    ∙ ap (λ f. ret tt (record s { msg = f; links = l }))
        (update-update s.msg m fresh_msg (posted s payload sender))

pub post_runs :
    (dest payload sender m : ℕ) (blocked : Bool) (s1 s2 s3 s4 : State)
    → fill_message m payload sender s1 ≡ ret tt s2
    → mark_softblocking dest payload sender s2 ≡ ret tt s3
    → is_blocked_for sender dest s3 ≡ ret blocked s3
    → (if blocked then wake dest m s3 else insert_message (msg_inbox dest) m s3) ≡ ret tt s4
    → post dest payload sender m s1 ≡ ret 0 s4
unfolding post
post_runs dest payload sender m true s1 s2 s3 s4 e1 e2 e3 e4 = ground (arith, e1, e2, e3, e4)
post_runs dest payload sender m false s1 s2 s3 s4 e1 e2 e3 e4 = ground (arith, e1, e2, e3, e4)

pub send_runs :
    (dest payload sender m : ℕ) (s s1 : State) (o : Outcome ℕ)
    → alloc_msg s ≡ ret m s1
    → m ≢ null
    → post dest payload sender m s1 ≡ o
    → send_message dest payload sender s ≡ o
unfolding send_message
send_runs dest payload sender m s s1 o e1 ne e2 = ground (arith, e1, e2)

-- The state after `dest` has stopped to wait for the outside.
abbrev pub unblocked : ℕ → State → State
unblocked dest s = record s {
  pcb =
      if (s.pcb dest).do_io == 0
      then s.pcb
      else update s.pcb dest (record (s.pcb dest) { do_io = 0 });
  softblock_count =
      if (s.pcb dest).do_io == 0
      then s.softblock_count
      else (s.softblock_count + 2 ^ 32 - 1) % 2 ^ 32;
}

pub unblock-unblocked : (dest : ℕ) (s : State) → unblock dest s ≡ ret tt (unblocked dest s)
unfolding unblock
unblock-unblocked dest s = elim (Bool-cases ((s.pcb dest).do_io == 0)) [
  | inl quiet ↦ rw quiet refl
  | inr waited ↦ rw waited refl
]

pub wake_runs :
    (dest m : ℕ) (s s1 s2 : State) (o : Outcome (Unit {0}))
    → insert_proc_q s.ready_queue dest s ≡ ret tt s1
    → unblock dest s1 ≡ ret tt s2
    → deliver_message (at_pcb dest) m s2 ≡ o
    → wake dest m s ≡ o
unfolding wake
wake_runs dest m s s1 s2 o e1 e2 e3 = rw e1 (rw e2 e3)
