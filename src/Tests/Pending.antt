-- ===== src/Tests/Pending.antt =====
-- The loop of the interrupt handler at the memory of `Memory`, with both timers and the terminals
-- pending.
use project.Common.{ℕ, ◌≡◌, refl, [], ◌∷◌, arith, ◌+◌, ◌^◌}
use project.Interrupts.{interrupt_loop, bit_set}
use project.Interrupts.Pending.{pending}
use project.Interrupts.Order.{serve_all, interrupt_loop-serve_all}
use project.Tests.Memory.{memory}

abbrev mip : ℕ
mip = 2 ^ 3 + 2 ^ 7 + 2 ^ 21

pending_all : pending mip ≡ 3 ∷ 7 ∷ 21 ∷ []
unfolding bit_set
pending_all = refl

interrupt_loop-serve_all_example : interrupt_loop 8 mip memory ≡ serve_all (pending mip) memory
interrupt_loop-serve_all_example = interrupt_loop-serve_all 8 mip memory (omega arith) refl refl
