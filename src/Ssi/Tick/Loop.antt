-- ===== src/Ssi/Tick/Loop.antt =====
-- The loop of answer_wait_for_clock of phase2/ssi.c.
use mathlib.Core.Path.{subst}
use project.Common.{
  ℕ, zero, suc, ◌+◌, ◌-◌, ◌<◌, ◌≡◌, refl, sym, ap, fun_ext, ◌∙◌, Bool, true, false, List, [], ◌∷◌,
  ◌++◌, arith, ◌==◌, ==_refl, ==_ne, eq_of_==, ◌%◌, ◌^◌, if◌then◌else◌, Bool-cases, inl, inr, has,
  length, update, update_other, update_same, tail, first,
}
use project.Listx.{null, container_of}
use project.Listx.Heap.{IsHeap}
use project.Types.{State, Pcb, max_proc, offset_p_io, p_list}
use project.Types.Machine.{ret}
use project.Pcb.Queue.{remove_proc_q_for_io-tail}
use project.Ssi.{answer_loop, answer_wait_for_clock}
use project.Ssi.Answer.{removed, answer_runs}
use project.Ssi.Waiters.{io_nodes, list_nodes, io_nodes_big, CanTick}
use project.Ssi.Tick.{
  IsWoken, answers, one_less, less_lists, other_block, count_one, differs, tick_after, first_woken,
  loop_runs, loop_ends,
}

-- The lists when all processes that waited for the clock are ready.
abbrev pub ticked : (clock ready : ℕ) → (ℕ → List ℕ) → List ℕ → ℕ → List ℕ
ticked clock ready V ds = update (update V clock []) ready (V ready ++ list_nodes ds)

-- How many of the processes count as waiting for the outside.
abbrev pub blocked : (ℕ → Pcb) → List ℕ → ℕ
blocked pcb [] = 0
blocked pcb (d ∷ ds) = (if (pcb d).do_io == 0 then 0 else 1) + blocked pcb ds

blocked_same :
    (f g : ℕ → Pcb) (ds : List ℕ)
    → ((x : ℕ) → has x ds ≡ true → f x ≡ g x)
    → blocked f ds ≡ blocked g ds
blocked_same f g [] same = refl
blocked_same f g (d ∷ ds) same =
    let here : f d ≡ g d = same d (ground arith) in
    let more = blocked_same f g ds (λ x h. same x (ground (arith, h))) in rw (here, more) refl

-- What a tick does to the processes `ds`, from state `s` to state `t`.
pub record IsTicked (s t : State) (H : ℕ → Bool) (V : ℕ → List ℕ) (ds : List ℕ) : Type 0 where
  pub heap : IsHeap t.links H (ticked s.pcb_blocked_on_clock s.ready_queue V ds)
  pub woken : (d : ℕ) → has d ds ≡ true → IsWoken s t d
  pub others : (x : ℕ) → has x ds ≡ false → (s.current_process == x) ≡ false → t.pcb x ≡ s.pcb x
  pub count : (t.softblock_count + blocked s.pcb ds) % 2 ^ 32 ≡ s.softblock_count % 2 ^ 32

append_nil : (xs : List ℕ) → xs ++ [] ≡ xs
append_nil [] = refl
append_nil (x ∷ xs) = ap (λ l. x ∷ l) (append_nil xs)

append_one : (xs : List ℕ) (x : ℕ) (ys : List ℕ) → (xs ++ (x ∷ [])) ++ ys ≡ xs ++ (x ∷ ys)
append_one [] x ys = refl
append_one (z ∷ zs) x ys = ap (λ l. z ∷ l) (append_one zs x ys)

no_waiters :
    (V : ℕ → List ℕ) (clock ready : ℕ)
    → (clock == ready) ≡ false
    → V clock ≡ []
    → update V clock (tail (V clock)) ≡ ticked clock ready V []
no_waiters V clock ready ne e =
    ap (λ l. update V clock (tail l)) e
    ∙ sym (
        update_same (update V clock []) ready (V ready ++ [])
          (update_other V clock ready [] ne ∙ sym (append_nil (V ready))))

one_waiter :
    (V : ℕ → List ℕ) (clock ready p : ℕ) (nodes ds : List ℕ)
    → (clock == ready) ≡ false
    → ticked clock ready (update (update V clock nodes) ready (V ready ++ (p_list p ∷ []))) ds
      ≡ ticked clock ready V (p ∷ ds)
one_waiter V clock ready p nodes ds ne = fun_ext λ a. elim (Bool-cases (ready == a)) [
  | inl here ↦ rw (here, ==_refl ready) (append_one (V ready) (p_list p) (list_nodes ds))
  | inr not_ready ↦ elim (Bool-cases (clock == a)) [
    | inl there ↦ rw (not_ready, there) refl
    | inr not_clock ↦ rw (not_ready, not_clock) refl
  ]
]

module _ (s : State) {H : ℕ → Bool} {V : ℕ → List ℕ} (d : ℕ) (ds : List ℕ) (m : ℕ) (rest : List ℕ)
    (c : CanTick s H V (d ∷ ds) m rest) where
  abbrev less : State
  less = one_less s d ds m rest c

  not_again : has d ds ≡ false
  not_again = elim (Bool-cases (has d ds)) [
    | inl again ↦ absurd (ground (arith, differs s d ds m rest c d again))
    | inr out ↦ out
  ]

  running_ne : (x : ℕ) → has x (d ∷ ds) ≡ true → (s.current_process == x) ≡ false
  running_ne x h = ==_ne s.current_process x (λ e. (c.each x h).not_running (sym e))

  more-IsWoken :
      (t : State)
      → IsTicked less t H (less_lists s d ds m rest c) ds
      → (x : ℕ) → has x (d ∷ ds) ≡ true
      → IsWoken s t x
  more-IsWoken t later x h = elim (Bool-cases (d == x)) [
    | inl here ↦
        let kept = later.others d not_again (running_ne d (ground arith)) in
        let w = first_woken s d ds m rest c in
        subst (IsWoken s t) (eq_of_== d x here) (record {
          quiet = ap (λ b. b.do_io) kept ∙ w.quiet;
          sender = ap (λ b. b.p_s.reg_a0) kept ∙ w.sender;
          behind = ap (λ b. b.p_s.pc_epc) kept ∙ w.behind;
        })
    | inr other ↦
        let w = later.woken x (rw other at h) in
        let before = other_block s d ds m rest c x other (running_ne x h) in
        record {
          quiet = w.quiet;
          sender = w.sender;
          behind = w.behind ∙ ap (λ b. (b.p_s.pc_epc + 4) % 2 ^ 32) before;
        }
  ]

  more_count :
      (t : State)
      → IsTicked less t H (less_lists s d ds m rest c) ds
      → (t.softblock_count + blocked s.pcb (d ∷ ds)) % 2 ^ 32 ≡ s.softblock_count % 2 ^ 32
  more_count t later =
      let same : blocked less.pcb ds ≡ blocked s.pcb ds = blocked_same less.pcb s.pcb ds (λ x h.
        other_block s d ds m rest c x (differs s d ds m rest c x h)
          (running_ne x (ground (arith, h)))) in
      let after : (t.softblock_count + blocked s.pcb ds) % 2 ^ 32 ≡ less.softblock_count % 2 ^ 32 =
        rw same at later.count in
      elim (Bool-cases ((s.pcb d).do_io == 0)) [
        | inl quiet ↦
            let one : less.softblock_count ≡ s.softblock_count =
              rw quiet at (count_one s d ds m rest c) in
            rw quiet (omega (arith, after, one))
        | inr waited ↦
            let one : less.softblock_count ≡ (s.softblock_count + 2 ^ 32 - 1) % 2 ^ 32 =
              rw waited at (count_one s d ds m rest c) in
            rw waited (omega (arith, after, one))
      ]

  more-IsTicked :
      (t : State) → IsTicked less t H (less_lists s d ds m rest c) ds → IsTicked s t H V (d ∷ ds)
  more-IsTicked t later = record {
    heap =
        subst (IsHeap t.links H)
          (one_waiter V s.pcb_blocked_on_clock s.ready_queue d (io_nodes ds) ds c.clock_ready)
          later.heap;
    woken = more-IsWoken t later;
    others = λ x out idle.
        later.others x (ground (arith, out)) idle
        ∙ other_block s d ds m rest c x (ground (arith, out)) idle;
    count = more_count t later;
  }

pub answer_loop-IsTicked :
    (ds : List ℕ) (fuel : ℕ) (s : State) {H : ℕ → Bool} {V : ℕ → List ℕ} (m : ℕ) (rest : List ℕ)
    → length ds < fuel
    → CanTick s H V ds m rest
    → (t : State) × (answer_loop fuel s ≡ ret tt t) × IsTicked s t H V ds
answer_loop-IsTicked ds zero s m rest lt c = absurd (omega (arith, lt))
answer_loop-IsTicked [] (suc fuel) s {H} {V} m rest lt c =
    let y =
      remove_proc_q_for_io-tail {s = s} c.heap s.pcb_blocked_on_clock c.clock_head
        (λ x h. io_nodes_big [] x (subst (λ l. has x l ≡ true) c.waiting h)) in
    let none : container_of (first (V s.pcb_blocked_on_clock)) offset_p_io ≡ null =
      ground (arith, c.waiting) in
    (
      record s { links = y.links },
      loop_ends fuel s (record s { links = y.links }) 0
          (y.runs ∙ ap (λ d. ret d (record s { links = y.links })) none),
      record {
        heap =
            subst (IsHeap y.links H)
              (no_waiters V s.pcb_blocked_on_clock s.ready_queue c.clock_ready c.waiting) y.heap;
        woken = λ d h. cc;
        others = λ x out idle. refl;
        count = omega arith;
      },
    )
answer_loop-IsTicked (d ∷ ds) (suc fuel) s {H} {V} m rest lt c =
    let (t, runs, then_) =
      answer_loop-IsTicked ds fuel (one_less s d ds m rest c) m rest (omega (arith, lt))
        (tick_after s d ds m rest c) in
    let k = answers s d ds m rest c in
    let gone = removed s s.pcb_blocked_on_clock d m 0 (io_nodes ds) rest k in
    (
      t,
      loop_runs fuel s (record s { links = gone.links }) (one_less s d ds m rest c) d (ret tt t)
          gone.runs k.real (answer_runs s s.pcb_blocked_on_clock d m 0 (io_nodes ds) rest k) runs,
      more-IsTicked s d ds m rest c t then_,
    )

-- In a memory whose lists are well-formed, when a message is free, at most 50 processes are ready or
-- wait for the clock, and every process that waits there is an allocated block other than the
-- running one and the SSI, is in no list by its `p_list`, and waits for a message of the running
-- process or of any, `answer_wait_for_clock` ends, whatever their number: the queue of the clock is
-- empty, its processes stand in the same order at the end of the ready queue, each has the sender in
-- its registers, goes on behind its call and is no longer marked as blocked for the outside;
-- `softblock_count` is less, as a word, by the number of those that were; and all other lists, and
-- the blocks of all other processes but the running one, are as before.
pub answer_wait_for_clock-IsTicked :
    (s : State) {H : ℕ → Bool} {V : ℕ → List ℕ} (ds : List ℕ) (m : ℕ) (rest : List ℕ)
    → CanTick s H V ds m rest
    → (t : State) × (answer_wait_for_clock s ≡ ret tt t) × IsTicked s t H V ds
unfolding answer_wait_for_clock
answer_wait_for_clock-IsTicked s {V} ds m rest c =
    answer_loop-IsTicked ds (max_proc + 1) s m rest (omega (arith, c.few)) c
