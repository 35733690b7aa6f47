-- ===== src/Types/Machine.antt =====
-- Commands over the shared memory. The calls of the machine library that never return end a run.
use Prim.Native.Nat.{bit_and}
use project.Common.{ℕ, zero, suc, ◌-◌, ◌^◌, true, false, ◌==◌, update}
use project.Listx.{Links}
use project.Types.{State, StateT, Pcb, Msg, mstatus_mie_bit}

-- Why a run does not return: LDST, LDCXT, HALT, PANIC, WAIT, or a loop with no end.
pub data Exit : Type 0 where
  ldst : StateT → Exit
  ldcxt : (stack_ptr status pc : ℕ) → Exit
  halted panicked waiting endless : Exit

pub data Outcome (A : Type 0) : Type 0 where
  ret : A → State → Outcome A
  exit : Exit → State → Outcome A

abbrev pub Cmd : Type 0 → Type 0
Cmd A = State → Outcome A

abbrev pub pure : {A : Type 0} → A → Cmd A
pure a s = ret a s

abbrev pub and_then : {A B : Type 0} → Outcome A → (A → Cmd B) → Outcome B
and_then (ret a s) k = k a s
and_then (exit e s) k = exit e s

infixl 5 ◌>>=◌ ◌>>◌
abbrev pub ◌>>=◌ : {A B : Type 0} → Cmd A → (A → Cmd B) → Cmd B
◌>>=◌ m k s = and_then (m s) k

abbrev pub ◌>>◌ : {B : Type 0} → Cmd (Unit {0}) → Cmd B → Cmd B
◌>>◌ m k s = and_then (m s) (λ _. k)

abbrev pub gets : {A : Type 0} → (State → A) → Cmd A
gets f s = ret (f s) s

abbrev pub modify : (State → State) → Cmd (Unit {0})
modify f s = ret tt (f s)

abbrev pub leave : {A : Type 0} → Exit → Cmd A
leave e s = exit e s

abbrev pub on_links : (Links → Links) → Cmd (Unit {0})
on_links f = modify (λ s. record s { links = f s.links })

abbrev pub on_pcb : ℕ → (Pcb → Pcb) → Cmd (Unit {0})
on_pcb p f = modify (λ s. record s { pcb = update s.pcb p (f (s.pcb p)) })

abbrev pub on_msg : ℕ → (Msg → Msg) → Cmd (Unit {0})
on_msg m f = modify (λ s. record s { msg = update s.msg m (f (s.msg m)) })

-- `status & ~(1 << MSTATUS_MIE_BIT)`
abbrev pub without_mie : ℕ → ℕ
without_mie status = bit_and status (2 ^ 32 - 1 - 2 ^ mstatus_mie_bit)

-- The frame of every function of phase 1: interrupts off before, the status as it was after.
abbrev pub critical : {A : Type 0} → Cmd A → Cmd A
critical body = do
  status ← gets (λ s. s.mstatus)
  modify (λ s. record s { mstatus = without_mie status })
  a ← body
  modify (λ s. record s { mstatus = status })
  pure a

-- What a round of a loop does: go on, with the loop's local variables, or return.
pub data Flow (L A : Type 0) : Type 0 where
  go : L → Flow L A
  done : A → Flow L A

-- `list_for_each (pos, head) body` from a position; `at_end` is what follows the loop. The next
-- position is read after the body. A loop that outlasts its fuel counts as endless.
unfoldable pub list_for_each :
    {L A : Type 0} → (fuel pos head : ℕ) → L → (L → ℕ → Cmd (Flow L A)) → (L → Cmd A) → Cmd A
list_for_each zero pos head l body at_end s = exit endless s
list_for_each (suc fuel) pos head l body at_end s = elim (pos == head) [
  | true ↦ at_end l s
  | false ↦ and_then (body l pos s) λ r s'. elim r [
    | go l' ↦ list_for_each fuel (s'.links.next pos) head l' body at_end s'
    | done a ↦ ret a s'
  ]
]
