-- ===== src/Interrupts/Order.antt =====
-- The loop of interrupt_handler of phase2/interrupts.c: it ends, and serves each source once.
use mathlib.Core.Path.{subst}
use Prim.Native.Nat.{bit_and}
use project.Common.{
  ℕ, zero, suc, ◌+◌, ◌<◌, ◌≤◌, ◌≡◌, refl, ap, ◌∙◌, true, false, List, [], ◌∷◌, arith, ◌==◌, ==_ne,
  if◌then◌else◌, Bool-cases, inl, inr, length, first,
}
use project.Types.{State, Arch}
use project.Types.Machine.{Cmd, Outcome, ret, exit, and_then, pure, ◌>>◌}
use project.Interrupts.{
  bit_set, clear_bit, lowest_bit, interr, handle_one, interrupt_loop, it_interrupt_handler,
  plt_interrupt_handler, device_interrupt_handler,
}
use project.Interrupts.Frame.{
  Keeps, it_interrupt_handler-Keeps, plt_interrupt_handler-Keeps, device_interrupt_handler-Keeps,
}
use project.Interrupts.Pending.{
  kept, length-kept, sources, pending, pending-clear_bit, pending_none, none_pending,
}

-- What is done for a source: the interval timer, the processor's timer, or a line of devices.
abbrev pub serve : (source : ℕ) → Cmd (Unit {0})
serve source =
    if source == 3
    then it_interrupt_handler
    else if source == 7
    then plt_interrupt_handler
    else device_interrupt_handler source

abbrev pub serve_all : List ℕ → Cmd (Unit {0})
serve_all [] = pure tt
serve_all (i ∷ is) = serve i >> serve_all is

serve-Keeps : (a : Arch) (i : ℕ) (s : State) → s.arch ≡ a → Keeps a (serve i s)
serve-Keeps a i s e = elim (Bool-cases (i == 3)) [
  | inl timer ↦ rw timer (it_interrupt_handler-Keeps a s e)
  | inr other ↦ elim (Bool-cases (i == 7)) [
    | inl cputimer ↦ rw (other, cputimer) (plt_interrupt_handler-Keeps a s e)
    | inr device ↦ rw (other, device) (device_interrupt_handler-Keeps a i s e)
  ]
]

-- The numbers from `i` on.
abbrev lines : (n i : ℕ) → List ℕ
lines zero i = []
lines (suc n) i = i ∷ lines n (i + 1)

-- The loop over the lines of devices finds the first one that is set.
lowest_bit-first :
    (n i w line : ℕ) (rest : List ℕ)
    → kept (bit_set w) (lines n i) ≡ line ∷ rest
    → (lowest_bit n i w ≡ line) × (i ≤ line) × (line < i + n)
unfolding lowest_bit
lowest_bit-first zero i w line rest e = cc
lowest_bit-first (suc n) i w line rest e = elim (Bool-cases (bit_set w i)) [
  | inl here ↦
      let same : i ≡ line = ground (arith, rw here at e) in
      (rw (lowest_bit, here) same, omega arith, omega arith)
  | inr other ↦
      let (found, low, high) = lowest_bit-first n (i + 1) w line rest (rw other at e) in
      (rw (lowest_bit, other) found, omega arith, omega arith)
]

handle_one-line :
    (mip line : ℕ) (s : State)
    → bit_set mip 3 ≡ false
    → bit_set mip 7 ≡ false
    → lowest_bit s.arch.n_ext_il s.arch.dev_il_start mip ≡ line
    → (line == s.arch.dev_il_start + s.arch.n_ext_il) ≡ false
    → handle_one mip s ≡ (device_interrupt_handler line >> pure (clear_bit mip line)) s
unfolding handle_one
handle_one-line mip line s h3 h7 found below = rw (h3, h7, found, below) refl

handle_one-timer :
    (mip : ℕ) (s : State)
    → bit_set mip 3 ≡ true
    → handle_one mip s ≡ (it_interrupt_handler >> pure (clear_bit mip 3)) s
unfolding handle_one
handle_one-timer mip s h3 = rw h3 refl

handle_one-cputimer :
    (mip : ℕ) (s : State)
    → bit_set mip 3 ≡ false
    → bit_set mip 7 ≡ true
    → handle_one mip s ≡ (plt_interrupt_handler >> pure (clear_bit mip 7)) s
unfolding handle_one
handle_one-cputimer mip s h3 h7 = rw (h3, h7) refl

serve-line : (i : ℕ) → 17 ≤ i → serve i ≡ device_interrupt_handler i
serve-line i le =
    let not3 : (i == 3) ≡ false = ground arith in
    let not7 : (i == 7) ≡ false = ground arith in rw (not3, not7) refl

-- A round serves the first pending source, and clears its bit.
handle_one-first :
    (mip i : ℕ) (rest : List ℕ) (s : State)
    → s.arch.n_ext_il ≡ 5
    → s.arch.dev_il_start ≡ 17
    → pending mip ≡ i ∷ rest
    → handle_one mip s ≡ (serve i >> pure (clear_bit mip i)) s
handle_one-first mip i rest s count start e = elim (Bool-cases (bit_set mip 3)) [
  | inl h3 ↦
      let same : 3 ≡ i = ap first (rw h3 at e) in
      subst (λ j. handle_one mip s ≡ (serve j >> pure (clear_bit mip j)) s) same
        (handle_one-timer mip s h3)
  | inr h3 ↦ elim (Bool-cases (bit_set mip 7)) [
    | inl h7 ↦
        let same : 7 ≡ i = ap first (rw (h3, h7) at e) in
        subst (λ j. handle_one mip s ≡ (serve j >> pure (clear_bit mip j)) s) same
          (handle_one-cputimer mip s h3 h7)
    | inr h7 ↦
        let (found, low, high) = lowest_bit-first 5 17 mip i rest (rw (h3, h7) at e) in
        let found' : lowest_bit s.arch.n_ext_il s.arch.dev_il_start mip ≡ i =
          ap (λ n. lowest_bit n s.arch.dev_il_start mip) count
          ∙ ap (λ b. lowest_bit 5 b mip) start
          ∙ found in
        rw (serve-line i low) (handle_one-line mip i s h3 h7 found' (ground (arith, count, start)))
  ]
]

loop_over :
    (fuel mip : ℕ) (s : State)
    → (bit_and mip interr == 0) ≡ true
    → interrupt_loop (suc fuel) mip s ≡ ret tt s
unfolding interrupt_loop
loop_over fuel mip s over = rw (interrupt_loop, over) refl

loop_round :
    (fuel mip : ℕ) (s : State)
    → (bit_and mip interr == 0) ≡ false
    → interrupt_loop (suc fuel) mip s ≡ and_then (handle_one mip s) (interrupt_loop fuel)
unfolding interrupt_loop
loop_round fuel mip s on = rw (interrupt_loop, on) refl

-- One source, and then the rest of the loop.
loop_next :
    (fuel mip' : ℕ) (a : Arch) (is : List ℕ) (o : Outcome (Unit {0}))
    → Keeps a o
    → ((s : State) → s.arch ≡ a → interrupt_loop fuel mip' s ≡ serve_all is s)
    → and_then (and_then o (λ _. pure mip')) (interrupt_loop fuel) ≡ and_then o (λ _. serve_all is)
loop_next fuel mip' a is (ret tt s) e rest = rest s e
loop_next fuel mip' a is (exit x s) e rest = refl

loop_serves :
    (is : List ℕ) (fuel mip : ℕ) (a : Arch) (s : State)
    → s.arch ≡ a
    → a.n_ext_il ≡ 5
    → a.dev_il_start ≡ 17
    → pending mip ≡ is
    → length is < fuel
    → interrupt_loop fuel mip s ≡ serve_all is s
loop_serves is zero mip a s e lines start p lt = absurd (omega arith)
loop_serves [] (suc fuel) mip a s e lines start p lt =
    loop_over fuel mip s (rw (none_pending mip p) refl)
loop_serves (i ∷ is) (suc fuel) mip a s e lines start p lt =
    let on : (bit_and mip interr == 0) ≡ false =
      ==_ne (bit_and mip interr) 0 (λ none. ground (arith, pending_none mip none, p)) in
    let lines' : s.arch.n_ext_il ≡ 5 = ap (λ b. b.n_ext_il) e ∙ lines in
    let start' : s.arch.dev_il_start ≡ 17 = ap (λ b. b.dev_il_start) e ∙ start in
    loop_round fuel mip s on
    ∙ ap (λ o. and_then o (interrupt_loop fuel)) (handle_one-first mip i is s lines' start' p)
    ∙ loop_next fuel (clear_bit mip i) a is (serve i s) (serve-Keeps a i s e) (λ s1 e1.
      loop_serves is fuel (clear_bit mip i) a s1 e1 lines start (pending-clear_bit mip i is p)
        (omega arith))

-- On a machine with five lines of devices from bit 17 on, the loop of `interrupt_handler` needs no
-- more than eight rounds of fuel, whatever word `mip` holds: with more than seven it serves the
-- sources whose bit is set, each once, the interval timer first, then the processor's timer, then
-- the lines of devices from the lowest, and stops.
pub interrupt_loop-serve_all :
    (fuel mip : ℕ) (s : State)
    → 7 < fuel
    → s.arch.n_ext_il ≡ 5
    → s.arch.dev_il_start ≡ 17
    → interrupt_loop fuel mip s ≡ serve_all (pending mip) s
interrupt_loop-serve_all fuel mip s enough lines start =
    loop_serves (pending mip) fuel mip s.arch s refl lines start refl
      (omega (arith, length-kept (bit_set mip) sources))
