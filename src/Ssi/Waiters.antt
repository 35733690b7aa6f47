-- ===== src/Ssi/Waiters.antt =====
-- The processes that answer_wait_for_clock of phase2/ssi.c wakes, and what it takes to answer the first.
use mathlib.Core.Path.{subst}
use project.Common.{
  ℕ, ◌+◌, ◌≤◌, ◌≡◌, ◌≢◌, Bool, true, false, ◌||◌, List, [], ◌∷◌, arith, ◌==◌, Bool-cases, inl, inr,
  has, length,
}
use project.Listx.{null}
use project.Listx.Heap.{IsHeap, Unowned}
use project.Types.{
  State, max_proc, any_message, ssi_fake_addr, p_list, p_io, offset_p_io, msg_inbox, m_list,
}
use project.Pcb.Valid.{InTable}
use project.Exceptions.Deliver.{seen_as}
use project.Ssi.Answer.{CanAnswer}

-- The nodes of the processes in the queue of the clock, and in the ready queue.
abbrev pub io_nodes : List ℕ → List ℕ
io_nodes [] = []
io_nodes (d ∷ ds) = p_io d ∷ io_nodes ds

abbrev pub list_nodes : List ℕ → List ℕ
list_nodes [] = []
list_nodes (d ∷ ds) = p_list d ∷ list_nodes ds

-- An allocated block, in no list by its `p_list`, that waits for the running process.
pub record IsWaiter (s : State) (H : ℕ → Bool) (V : ℕ → List ℕ) (d : ℕ) : Type 0 where
  pub in_table : InTable s.pcb_table d
  pub inbox_head : H (msg_inbox d) ≡ true
  pub free_inbox : (s.msg_free_h == msg_inbox d) ≡ false
  pub not_queued : Unowned H V (p_list d)
  pub real : d ≢ null
  pub not_fake : d ≢ ssi_fake_addr
  pub not_ssi : d ≢ s.ssi_pcb_real
  pub not_running : d ≢ s.current_process
  pub asks :
      (((s.pcb d).p_s.reg_a1 == seen_as s s.current_process)
        || ((s.pcb d).p_s.reg_a1 == any_message))
      ≡ true

-- The processes `ds` wait for the clock, in this order, and `m` is a free message.
pub record CanTick (s : State) (H : ℕ → Bool) (V : ℕ → List ℕ) (ds : List ℕ) (m : ℕ) (rest : List ℕ)
    : Type 0 where
  pub heap : IsHeap s.links H V
  pub clock_head : H s.pcb_blocked_on_clock ≡ true
  pub ready_head : H s.ready_queue ≡ true
  pub free_head : H s.msg_free_h ≡ true
  pub pcb_head : H s.pcb_free_h ≡ true
  pub clock_ready : (s.pcb_blocked_on_clock == s.ready_queue) ≡ false
  pub clock_free : (s.pcb_blocked_on_clock == s.msg_free_h) ≡ false
  pub clock_pcb : (s.pcb_blocked_on_clock == s.pcb_free_h) ≡ false
  pub free_ready : (s.msg_free_h == s.ready_queue) ≡ false
  pub pcb_ready : (s.ready_queue == s.pcb_free_h) ≡ false
  pub few : length (V s.ready_queue) + length ds ≤ max_proc
  pub few_free : length (V s.pcb_free_h) ≤ max_proc
  pub message : V s.msg_free_h ≡ m_list m ∷ rest
  pub not_null : m ≢ null
  pub waiting : V s.pcb_blocked_on_clock ≡ io_nodes ds
  pub each : (d : ℕ) → has d ds ≡ true → IsWaiter s H V d

pub io_nodes_big : (ds : List ℕ) (x : ℕ) → has x (io_nodes ds) ≡ true → offset_p_io ≤ x
io_nodes_big [] x h = cc
io_nodes_big (d ∷ ds) x h = elim (Bool-cases (p_io d == x)) [
  | inl here ↦ ground (arith, here)
  | inr other ↦ io_nodes_big ds x (rw other at h)
]

pub has-io_nodes : (ds : List ℕ) (d : ℕ) → has d ds ≡ true → has (p_io d) (io_nodes ds) ≡ true
has-io_nodes [] d h = h
has-io_nodes (e ∷ ds) d h = elim (Bool-cases (e == d)) [
  | inl here ↦ ground (arith, here)
  | inr other ↦ ground (arith, has-io_nodes ds d (rw other at h))
]

pub first_answers :
    (s : State) {H : ℕ → Bool} {V : ℕ → List ℕ} (d : ℕ) (ds : List ℕ) (m : ℕ) (rest : List ℕ)
    → CanTick s H V (d ∷ ds) m rest
    → CanAnswer s H V s.pcb_blocked_on_clock d m (io_nodes ds) rest
first_answers s {V} d ds m rest c =
    let w = c.each d (ground arith) in
    record {
      heap = c.heap;
      queue_head = c.clock_head;
      ready_head = c.ready_head;
      free_head = c.free_head;
      pcb_head = c.pcb_head;
      inbox_head = w.inbox_head;
      queue_ready = c.clock_ready;
      queue_free = c.clock_free;
      queue_pcb = c.clock_pcb;
      free_ready = c.free_ready;
      free_inbox = w.free_inbox;
      few = omega (arith, c.few);
      few_free = c.few_free;
      waiting = c.waiting;
      nodes = λ x h. io_nodes_big (d ∷ ds) x (subst (λ l. has x l ≡ true) c.waiting h);
      message = c.message;
      not_null = c.not_null;
      in_table = w.in_table;
      not_queued = w.not_queued;
      real = w.real;
      not_fake = w.not_fake;
      not_ssi = w.not_ssi;
      not_running = w.not_running;
      asks = w.asks;
    }
