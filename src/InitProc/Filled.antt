-- ===== src/InitProc/Filled.antt =====
-- What phase3/initProc.c writes into the support structures, and where it lays the stacks.
use project.Common.{
  ℕ, zero, suc, ◌+◌, ◌-◌, ◌*◌, ◌%◌, ◌^◌, ◌≤◌, ◌<◌, ◌≡◌, refl, ap, ◌∙◌, false, List, [], ◌∷◌, arith,
  ◌==◌, ==_refl, update, update_self, Bool-cases, inl, inr,
}
use project.Types.{State, uproc_max}
use project.Actor.{Reply}
use project.InitProc.{
  UserImage, Globals, qpage, lay_stacks, fill_support, filled_support, handler_context,
}

-- The stack pointer with `n` pages in use below `top`.
abbrev pub page_below : (top n : ℕ) → ℕ
page_below top n = top - n * qpage

-- The structure `p` and the thread of address space `i`: the address space, the handlers of a page
-- fault and of any other exception, which run in kernel mode with interrupts on, each on a stack of its
-- own of two quarters of a page, and the process that the SSI has answered.
pub record IsFilled (k : UserImage) (top : ℕ) (g : Globals) (i p : ℕ) (r : Reply) : Type 0 where
  pub asid : (g.memory.support p).sup_asid ≡ i
  pub on_page_fault :
      (g.memory.support p).sup_except_context 0
      ≡ record { stack_ptr = page_below top (2 * i); status = 0x1888; pc = k.tlb_handler }
  pub on_exception : (g.memory.support p).sup_except_context 1 ≡ record {
    stack_ptr = page_below top (2 * (8 + i));
    status = 0x1888;
    pc = k.general_exception_handler;
  }
  pub thread : g.sst_pcbs (i - 1) ≡ r.payload

-- The structures for the address spaces from `i` on.
abbrev pub AllFilled : UserImage → (top : ℕ) → Globals → (i : ℕ) → List ℕ → List Reply → Type 0
AllFilled k top g i [] rs = Unit {0}
AllFilled k top g i (p ∷ ps) [] = Unit {0}
AllFilled k top g i (p ∷ ps) (r ∷ rs) = IsFilled k top g i p r × AllFilled k top g (i + 1) ps rs

-- The stacks of the handlers, from the top down.
abbrev pub AreLaid : (top : ℕ) → (ℕ → ℕ) → Type 0
AreLaid top stacks = (j : ℕ) → j < 16 → stacks j ≡ page_below top (2 * (j + 1))

pub lay_stacks-page_below :
    (n i top t : ℕ) (stacks : ℕ → ℕ)
    → n * (2 * qpage) ≤ t
    → t < 2 ^ 32
    → t ≡ page_below top (2 * i)
    → ((j : ℕ) → j < i → stacks j ≡ page_below top (2 * (j + 1)))
    → (j : ℕ) → j < i + n
    → (lay_stacks n i t stacks).1 j ≡ page_below top (2 * (j + 1))
unfolding lay_stacks
lay_stacks-page_below zero i top t stacks lo hi at laid j lt = laid j (omega (arith, lt))
lay_stacks-page_below (suc n) i top t stacks lo hi at laid j lt =
    let next = (t + 2 ^ 32 - 2 * qpage) % 2 ^ 32 in
    let e : next ≡ page_below top (2 * (i + 1)) = omega (arith, at) in
    lay_stacks-page_below n (i + 1) top next (update stacks i next) (omega arith) (omega arith) e
      (λ m small. elim (Bool-cases (i == m)) [
        | inl here ↦ ground (arith, here, e)
        | inr other ↦ ground (arith, other, laid m (ground (arith, other, small)))
      ])
      j (omega (arith, lt))

-- What a round of the loop leaves.
abbrev pub after_one : UserImage → (i p : ℕ) → Globals → State → (pid : ℕ) → Globals
after_one k i p g s pid =
    let g2 = fill_support k i p (record g { memory = s }) in
    record g2 { sst_pcbs = update g2.sst_pcbs (i - 1) pid }

module _ (k : UserImage) (i p : ℕ) (g : Globals) (s : State) (r : Reply) where
  pub after_one-IsFilled :
      (top : ℕ)
      → AreLaid top g.stacks
      → 0 < i
      → i < 9
      → IsFilled k top (after_one k i p g s r.payload) i p r
  unfolding fill_support filled_support handler_context
  after_one-IsFilled top laid pos small =
      let first : g.stacks (i - 1) ≡ page_below top (2 * i) =
        laid (i - 1) (omega arith) ∙ omega arith in
      let second : g.stacks (uproc_max + i - 1) ≡ page_below top (2 * (8 + i)) =
        laid (uproc_max + i - 1) (omega arith) ∙ omega arith in
      record {
        asid = rw (==_refl p) refl;
        on_page_fault =
            rw (==_refl p)
              (ap (λ t. record { stack_ptr = t; status = 0x1888; pc = k.tlb_handler }) first);
        on_exception = rw (==_refl p) (
            ap (λ t. record { stack_ptr = t; status = 0x1888; pc = k.general_exception_handler })
              second);
        thread = update_self g.sst_pcbs (i - 1) r.payload;
      }

  -- The other structures and threads stay.
  pub after_one-support :
      (x : ℕ) → (p == x) ≡ false → (after_one k i p g s r.payload).memory.support x ≡ s.support x
  unfolding fill_support
  after_one-support x ne = rw ne refl

pub keeps-IsFilled :
    {k : UserImage} {top i p : ℕ} {g g' : Globals} {r : Reply}
    → g'.memory.support p ≡ g.memory.support p
    → g'.sst_pcbs (i - 1) ≡ g.sst_pcbs (i - 1)
    → IsFilled k top g i p r
    → IsFilled k top g' i p r
keeps-IsFilled e1 e2 f = record {
  asid = ap (λ s. s.sup_asid) e1 ∙ f.asid;
  on_page_fault = ap (λ s. s.sup_except_context 0) e1 ∙ f.on_page_fault;
  on_exception = ap (λ s. s.sup_except_context 1) e1 ∙ f.on_exception;
  thread = e2 ∙ f.thread;
}
