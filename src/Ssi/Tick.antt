-- ===== src/Ssi/Tick.antt =====
-- How the SSI answers a tick: answer_wait_for_clock of phase2/ssi.c, for all processes that wait.
pub mod Loop
use mathlib.Core.Path.{subst}
use project.Common.{
  ℕ, zero, suc, ◌+◌, ◌-◌, ◌%◌, ◌^◌, ◌≤◌, ◌<◌, ◌≡◌, ◌≢◌, refl, sym, ap, fun_ext, ◌∙◌, Bool, true,
  false, ◌||◌, List, [], ◌∷◌, ◌++◌, arith, ◌==◌, ==_ne, if◌then◌else◌, Bool-cases, inl, inr, has,
  has-append, length, length-append, update, update_self, first, Distinct, eq_of_==,
}
use project.Listx.{Links, null, container_of}
use project.Listx.Heap.{IsHeap, Unowned}
use project.Types.{
  State, max_proc, any_message, ssi_fake_addr, p_list, p_io, offset_p_io, msg_inbox, m_list,
}
use project.Types.Machine.{Outcome, ret}
use project.Types.View.{Yields}
use project.Pcb.{remove_proc_q_for_io}
use project.Pcb.Queue.{remove_proc_q_for_io-tail}
use project.Pcb.Valid.{InTable}
use project.Exceptions.Deliver.{seen_as}
use project.Ssi.{syscall_send, answer_loop, answer_wait_for_clock}
use project.Ssi.Answer.{CanAnswer, removed, answered, answered_lists, answer_runs, answered-IsHeap}
use project.Ssi.Waiters.{io_nodes, list_nodes, IsWaiter, CanTick, first_answers, has-io_nodes}

-- The process `d` was woken between `s` and `t`: it waits for nothing outside, got the word 0 from the
-- running process, and goes on behind its call.
pub record IsWoken (s t : State) (d : ℕ) : Type 0 where
  pub quiet : (t.pcb d).do_io ≡ 0
  pub sender : (t.pcb d).p_s.reg_a0 ≡ seen_as s s.current_process
  pub behind : (t.pcb d).p_s.pc_epc ≡ ((s.pcb d).p_s.pc_epc + 4) % 2 ^ 32

-- A node that is neither in a list nor its new last entry.
out_snoc :
    (hd x e : ℕ) (xs ys : List ℕ)
    → ys ≡ xs ++ (e ∷ [])
    → has x (hd ∷ xs) ≡ false
    → (e == x) ≡ false
    → has x (hd ∷ ys) ≡ false
out_snoc hd x e xs ys is out ne = ground (arith, is, out, ne, has-append x xs (e ∷ []))

out_tail :
    (hd x e : ℕ) (xs ys zs : List ℕ)
    → xs ≡ e ∷ zs
    → ys ≡ zs
    → has x (hd ∷ xs) ≡ false
    → has x (hd ∷ ys) ≡ false
out_tail hd x e xs ys zs was is out = ground (arith, was, is, out)

-- After the first process is answered the others can be.
module _ (s : State) {H : ℕ → Bool} {V : ℕ → List ℕ} (d : ℕ) (ds : List ℕ) (m : ℕ) (rest : List ℕ)
    (c : CanTick s H V (d ∷ ds) m rest) where
  abbrev pub answers : CanAnswer s H V s.pcb_blocked_on_clock d m (io_nodes ds) rest
  answers = first_answers s d ds m rest c

  abbrev pub one_less : State
  one_less = answered s s.pcb_blocked_on_clock d m 0 (io_nodes ds) rest answers

  abbrev pub less_lists : ℕ → List ℕ
  less_lists = answered_lists s s.pcb_blocked_on_clock d m 0 (io_nodes ds) rest answers

  pub other_block :
      (x : ℕ) → (d == x) ≡ false → (s.current_process == x) ≡ false → one_less.pcb x ≡ s.pcb x
  other_block x n1 n2 = ground (arith, n1, n2)

  -- The count of the processes that wait for the outside.
  pub count_one : one_less.softblock_count ≡ (
      if (s.pcb d).do_io == 0 then s.softblock_count else (s.softblock_count + 2 ^ 32 - 1) % 2 ^ 32)
  count_one =
      let w = c.each d (ground arith) in
      let apart = ==_ne s.current_process d (λ e. w.not_running (sym e)) in ground (arith, apart)

  pub once : has (p_io d) (io_nodes ds) ≡ false
  once = (subst Distinct c.waiting (c.heap.ring s.pcb_blocked_on_clock c.clock_head).distinct.1).0

  pub differs : (x : ℕ) → has x ds ≡ true → (d == x) ≡ false
  differs x h = elim (Bool-cases (d == x)) [
    | inl same ↦ absurd (ground (arith, once, has-io_nodes ds x h, same))
    | inr other ↦ other
  ]

  less_clock : less_lists s.pcb_blocked_on_clock ≡ io_nodes ds
  less_clock = ground (arith, c.clock_ready)

  less_free : less_lists s.msg_free_h ≡ V s.msg_free_h
  less_free = ground (arith, c.clock_free, c.free_ready)

  less_pcb : less_lists s.pcb_free_h ≡ V s.pcb_free_h
  less_pcb = ground (arith, c.clock_pcb, c.pcb_ready)

  less_ready : less_lists s.ready_queue ≡ V s.ready_queue ++ (p_list d ∷ [])
  less_ready = ground arith

  still_out : (x : ℕ) → (d == x) ≡ false → Unowned H V (p_list x) → Unowned H less_lists (p_list x)
  still_out x ne out a ha = elim (Bool-cases (s.ready_queue == a)) [
    | inl ready ↦
        subst (λ b. has (p_list x) (b ∷ less_lists b) ≡ false) (eq_of_== s.ready_queue a ready)
          (out_snoc s.ready_queue (p_list x) (p_list d) (V s.ready_queue) (less_lists s.ready_queue)
            less_ready (out s.ready_queue c.ready_head) (ground (arith, ne)))
    | inr not_ready ↦ elim (Bool-cases (s.pcb_blocked_on_clock == a)) [
      | inl clock ↦
          subst (λ b. has (p_list x) (b ∷ less_lists b) ≡ false)
            (eq_of_== s.pcb_blocked_on_clock a clock)
            (out_tail s.pcb_blocked_on_clock (p_list x) (p_io d) (V s.pcb_blocked_on_clock)
              (less_lists s.pcb_blocked_on_clock) (io_nodes ds) c.waiting less_clock
              (out s.pcb_blocked_on_clock c.clock_head))
      | inr not_clock ↦ ground (arith, out a ha, not_ready, not_clock)
    ]
  ]

  still_waits : (x : ℕ) → has x ds ≡ true → IsWaiter one_less H less_lists x
  still_waits x h =
      let w = c.each x (ground (arith, h)) in
      let same =
        other_block x (differs x h) (==_ne s.current_process x (λ e. w.not_running (sym e))) in
      record {
        in_table = w.in_table;
        inbox_head = w.inbox_head;
        free_inbox = w.free_inbox;
        not_queued = still_out x (differs x h) w.not_queued;
        real = w.real;
        not_fake = w.not_fake;
        not_ssi = w.not_ssi;
        not_running = w.not_running;
        asks =
            ap (λ b. (b.p_s.reg_a1 == seen_as s s.current_process) || (b.p_s.reg_a1 == any_message))
              same
            ∙ w.asks;
      }

  pub tick_after : CanTick one_less H less_lists ds m rest
  tick_after = record {
    heap = answered-IsHeap s s.pcb_blocked_on_clock d m 0 (io_nodes ds) rest answers;
    clock_head = c.clock_head;
    ready_head = c.ready_head;
    free_head = c.free_head;
    pcb_head = c.pcb_head;
    clock_ready = c.clock_ready;
    clock_free = c.clock_free;
    clock_pcb = c.clock_pcb;
    free_ready = c.free_ready;
    pcb_ready = c.pcb_ready;
    few = rw less_ready (omega (arith, length-append (V s.ready_queue) (p_list d ∷ []), c.few));
    few_free = rw less_pcb c.few_free;
    message = less_free ∙ c.message;
    not_null = c.not_null;
    waiting = less_clock;
    each = still_waits;
  }

  pub first_woken : IsWoken s one_less d
  first_woken =
      let w = c.each d (ground arith) in
      let apart = ==_ne s.current_process d (λ e. w.not_running (sym e)) in
      record {
        quiet = ground (arith, apart);
        sender = ground (arith, apart);
        behind = ground (arith, apart);
      }

pub loop_runs :
    (fuel : ℕ) (s s1 s2 : State) (d : ℕ) (o : Outcome (Unit {0}))
    → remove_proc_q_for_io s.pcb_blocked_on_clock s ≡ ret d s1
    → d ≢ null
    → syscall_send d 0 s1 ≡ ret tt s2
    → answer_loop fuel s2 ≡ o
    → answer_loop (suc fuel) s ≡ o
unfolding answer_loop
loop_runs fuel s s1 s2 d o e ne sends rest = rw (e, ==_ne d null ne) (rw sends rest)

pub loop_ends :
    (fuel : ℕ) (s s1 : State) (d : ℕ)
    → remove_proc_q_for_io s.pcb_blocked_on_clock s ≡ ret null s1
    → answer_loop (suc fuel) s ≡ ret tt s1
unfolding answer_loop
loop_ends fuel s s1 d e = rw e refl
