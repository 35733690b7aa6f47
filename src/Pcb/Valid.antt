-- ===== src/Pcb/Valid.antt =====
-- isPcbValid of phase1/pcb.c decides which pointers a process may name.
use project.Common.{
  ℕ, ◌+◌, ◌-◌, ◌*◌, ◌/◌, ◌%◌, ◌≤◌, ◌<◌, ◌≡◌, ◌↔◌, Bool, true, false, not, ◌&&◌, List, arith, ◌==◌,
  ltb, has, length,
}
use project.Listx.Heap.{IsHeap}
use project.Types.{State, max_proc, sizeof_pcb, p_list}
use project.Types.Machine.{ret, without_mie}
use project.Pcb.{is_pcb_valid}
use project.Pcb.Queue.{search_pcb-has}
use project.Types.Table.{entry}

-- The address of an entry of `pcbTable`.
abbrev pub InTable : ℕ → ℕ → Type 0
InTable table p = (i : ℕ) × (i < max_proc) × (p ≡ entry table sizeof_pcb i)

-- The three tests on the address.
abbrev pub in_table : ℕ → ℕ → Bool
in_table table p =
    not (ltb p table)
    && (not (ltb (table + (max_proc - 1) * sizeof_pcb) p) && ((p - table) % sizeof_pcb == 0))

in_table→InTable : (table p : ℕ) → in_table table p ≡ true → InTable table p
in_table→InTable table p h = ((p - table) / sizeof_pcb, ground arith, ground arith)

InTable→in_table : (table p : ℕ) → InTable table p → in_table table p ≡ true
InTable→in_table table p (i, small, e) = ground arith

module _ (s : State) {H : ℕ → Bool} {V : ℕ → List ℕ} (heap : IsHeap s.links H V)
    (is_head : H s.pcb_free_h ≡ true) (few : length (V s.pcb_free_h) ≤ max_proc) (p : ℕ) where
  abbrev pub answer : Bool
  answer = in_table s.pcb_table p && not (has (p_list p) (V s.pcb_free_h))

  pub is_pcb_valid-answer : is_pcb_valid p s ≡ ret answer s
  unfolding is_pcb_valid
  is_pcb_valid-answer = ground (
    arith,
    search_pcb-has {s = record s { mstatus = without_mie s.mstatus }} heap s.pcb_free_h is_head p
        few,
  )

  -- With at most 50 free blocks, `isPcbValid` returns, changes nothing, and says yes exactly to the
  -- addresses of entries of the table that are not in the free list.
  pub is_pcb_valid_iff :
      (b : Bool) × (is_pcb_valid p s ≡ ret b s)
      × ((b ≡ true) ↔ (InTable s.pcb_table p × (has (p_list p) (V s.pcb_free_h) ≡ false)))
  is_pcb_valid_iff = (
    answer,
    is_pcb_valid-answer,
    (
      (λ h. (in_table→InTable s.pcb_table p (ground arith), ground arith)),
      λ (t, out). ground (arith, InTable→in_table s.pcb_table p t),
    ),
  )
