-- ===== src/Utils/Children.antt =====
-- The loop of terminate_process of phase2/utils.c over the children.
use project.Common.{
  arith, ==_ne, ==_refl, erase, Bool-cases, inl, inr, ℕ, suc, ◌+◌, ◌-◌, ◌^◌, ◌≤◌, ◌<◌, ◌≡◌, ◌≢◌,
  refl, Bool, true, false, List, ◌∷◌, ◌==◌, has, length, Distinct,
}
use project.Listx.{Links, null, container_of}
use project.Listx.Heap.{IsHeap}
use project.Types.{State, max_proc, max_device, p_list, p_sib, p_io, p_child, offset_p_sib}
use project.Types.Machine.{Cmd, Outcome, ret}
use project.Pcb.{empty_child, is_pcb_valid, free_pcb}
use project.Utils.{device_queue, terminate_children, terminate_process_fuel, take_out, tree_fuel}
use project.Utils.Queues.{without_sib, Few}
use project.Utils.Thin.{IsApart}
use project.Utils.Family.{Family, blocks, tops, Fixed, IsMember, IsFamily, Frame}

abbrev pub fixed : State → Fixed
fixed s = record { layout = s.layout; pcb = s.pcb; ssi = s.ssi_pcb_real }

-- The lists that the end of a process uses: they are there, apart, and of at most 50 entries.
pub record IsKernel (s : State) (H : ℕ → Bool) (V : ℕ → List ℕ) : Type 0 where
  pub heap : IsHeap s.links H V
  pub few : Few H V
  pub ready_head : H s.ready_queue ≡ true
  pub clock_head : H s.pcb_blocked_on_clock ≡ true
  pub device_heads : (j : ℕ) → j < max_device → H (device_queue s j) ≡ true
  pub free_head : H s.pcb_free_h ≡ true
  pub free_apart : IsApart s.layout s.pcb_free_h

-- The blocks `bs` can be given back: they are distinct, fit in the table, and are counted.
pub record IsCounted (s : State) (V : ℕ → List ℕ) (bs : List ℕ) : Type 0 where
  pub distinct : Distinct bs
  pub room : length bs + length (V s.pcb_free_h) ≤ max_proc
  pub counted : length bs ≤ s.process_count
  pub word : s.process_count < 2 ^ 32

-- The run returns with the blocks `bs` given back and no longer counted, and none of them in
-- the ready queue or a queue of a device; `rest` are the children of `skip` that are left.
pub record Ended (s : State) (H : ℕ → Bool) (V : ℕ → List ℕ) (bs : List ℕ) (skip : ℕ)
    (rest : List ℕ) (o : Outcome (Unit {0})) : Type 0 where
  pub softblocked : ℕ
  pub links : Links
  pub lists : ℕ → List ℕ
  pub runs :
      o
      ≡ ret tt (record s {
        process_count = s.process_count - length bs;
        softblock_count = softblocked;
        links = links;
      })
  pub heap : IsHeap links H lists
  pub frame : Frame s.layout V lists bs skip
  pub skipped : skip ≢ null → lists (p_child skip) ≡ rest
  pub gone :
      (q : ℕ)
      → has (p_list q) bs ≡ true
      → (has (p_list q) (lists s.ready_queue) ≡ false)
        × ((j : ℕ) → j < max_device → has (p_io q) (lists (device_queue s j)) ≡ false)

-- A process `p`, its children and its parent, before it is ended.
pub record CanEnd (s : State) (H : ℕ → Bool) (V : ℕ → List ℕ) (p parent : ℕ) (kids : Family)
    : Type 0 where
  pub kernel : IsKernel s H V
  pub me : IsMember (fixed s) H V p
  pub child_of : (s.pcb p).p_parent ≡ parent
  pub shows : V (p_child p) ≡ tops kids
  pub family : IsFamily (fixed s) H V p kids
  pub fits : IsCounted s V (p_list p ∷ blocks kids)
  pub parent_out : has (p_list parent) (p_list p ∷ blocks kids) ≡ false
  pub is_child :
      parent ≢ null → (H (p_child parent) ≡ true) × (has (p_sib p) (V (p_child parent)) ≡ true)
  pub parent_apart : parent ≢ null → IsApart s.layout (p_child parent)
  pub parent_ne : parent ≢ null → (s.pcb_free_h == p_child parent) ≡ false

-- What is to be shown of the end of one process, with some fuel.
abbrev pub Ends : (fuel : ℕ) → Type 0
Ends fuel =
    (s : State) (H : ℕ → Bool) (V : ℕ → List ℕ) (p parent : ℕ) (kids : Family)
    → length (p_list p ∷ blocks kids) ≤ fuel
    → CanEnd s H V p parent kids
    → Ended s H V (p_list p ∷ blocks kids) parent (erase (p_sib p) (V (p_child parent)))
        (terminate_process_fuel fuel p s)

-- A process `p` and its children, before they are ended.
pub record CanEndAll (s : State) (H : ℕ → Bool) (V : ℕ → List ℕ) (p : ℕ) (kids : Family)
    : Type 0 where
  pub kernel : IsKernel s H V
  pub not_null : p ≢ null
  pub head : H (p_child p) ≡ true
  pub apart : IsApart s.layout (p_child p)
  pub ne : (s.pcb_free_h == p_child p) ≡ false
  pub shows : V (p_child p) ≡ tops kids
  pub family : IsFamily (fixed s) H V p kids
  pub fits : IsCounted s V (blocks kids)
  pub out : has (p_list p) (blocks kids) ≡ false

pub over_runs :
    (t : ℕ → Cmd (Unit {0})) (fuel p : ℕ) (s : State)
    → empty_child p s ≡ ret true s
    → terminate_children t (suc fuel) p s ≡ ret tt s
unfolding terminate_children
over_runs t fuel p s e = rw e refl

pub next_runs :
    (t : ℕ → Cmd (Unit {0})) (fuel p c : ℕ) (s s1 : State)
    → empty_child p s ≡ ret false s
    → container_of (s.links.next (p_child p)) offset_p_sib ≡ c
    → t c s ≡ ret tt s1
    → terminate_children t (suc fuel) p s ≡ terminate_children t fuel p s1
unfolding terminate_children
next_runs t fuel p c s s1 e1 e2 e3 = rw (e1, e2, e3) refl

pub end_runs :
    (n p : ℕ) (s s1 s2 : State) (o : Outcome (Unit {0}))
    → (p == s.ssi_pcb_real) ≡ false
    → is_pcb_valid p s ≡ ret true s
    → take_out p s ≡ ret tt s1
    → terminate_children (terminate_process_fuel n) tree_fuel p s1 ≡ ret tt s2
    → (s2.pcb p).p_support_struct ≡ null
    → free_pcb p s2 ≡ o
    → terminate_process_fuel (suc n) p s ≡ o
unfolding terminate_process_fuel
end_runs n p s s1 s2 o e1 e2 e3 e4 e5 e6 =
    let bare : ((s2.pcb p).p_support_struct == null) ≡ true = rw e5 refl in
    rw (terminate_process_fuel, e1, e2, e3, e4, bare, e6) refl

pub without_sib-other :
    (s : State) (p b : ℕ) (V : ℕ → List ℕ)
    → ((s.pcb p).p_parent ≢ null → (p_child (s.pcb p).p_parent == b) ≡ false)
    → without_sib s p V b ≡ V b
without_sib-other s p b V other = elim (Bool-cases ((s.pcb p).p_parent == null)) [
  | inl orphan ↦ rw orphan refl
  | inr child ↦ rw (child, other (λ e. ground (arith, child, e))) refl
]

pub without_sib-parent :
    (s : State) (p : ℕ) (V : ℕ → List ℕ)
    → (s.pcb p).p_parent ≢ null
    → without_sib s p V (p_child (s.pcb p).p_parent)
      ≡ erase (p_sib p) (V (p_child (s.pcb p).p_parent))
without_sib-parent s p V ne =
    rw (==_ne (s.pcb p).p_parent null ne, ==_refl (p_child (s.pcb p).p_parent)) refl
