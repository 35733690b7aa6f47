-- ===== src/Utils/Siblings.antt =====
-- The loop of terminate_process of phase2/utils.c ends all children, if it ends each of them.
use mathlib.Core.Path.{subst}
use project.Common.{
  ℕ, zero, suc, ◌+◌, ◌-◌, ◌≤◌, ◌<◌, ◌≡◌, refl, ap, ◌∙◌, Bool, false, List, [], ◌∷◌, ◌++◌, arith,
  ◌==◌, eq_of_==, has, has-append, length, length-append, Distinct, Distinct-left, Distinct-right,
  Distinct-disjoint, Bool-cases, inl, inr, is_empty, erase,
}
use project.Listx.{container_of}
use project.Listx.Ring.{next-first}
use project.Types.{State, Layout, max_proc, p_list, p_sib, p_io, p_child, offset_p_sib}
use project.Types.Machine.{Cmd, Outcome, ret}
use project.Pcb.Tree.{empty_child-is_empty}
use project.Utils.{device_queue, terminate_children, terminate_process_fuel}
use project.Utils.Thin.{IsApart}
use project.Utils.Family.{Family, nobody, member, blocks, tops, Frame, IsFamily-Frame, Frame-trans}
use project.Utils.Children.{fixed, IsKernel, Ended, CanEnd, CanEndAll, Ends, over_runs, next_runs}

-- The state in which a run of `Ended` returns.
abbrev pub state_after :
    {s : State} {H : ℕ → Bool} {V : ℕ → List ℕ} {bs : List ℕ} {skip : ℕ} {rest : List ℕ}
    {o : Outcome (Unit {0})}
    → Ended s H V bs skip rest o
    → State
state_after {s} {bs} e = record s {
  process_count = s.process_count - length bs;
  softblock_count = e.softblocked;
  links = e.links;
}

pub IsKernel-after :
    {s : State} {H : ℕ → Bool} {V : ℕ → List ℕ} {bs : List ℕ} {skip : ℕ} {rest : List ℕ}
    {o : Outcome (Unit {0})} (e : Ended s H V bs skip rest o)
    → IsKernel s H V
    → length bs + length (V s.pcb_free_h) ≤ max_proc
    → IsKernel (state_after e) H e.lists
IsKernel-after {s} {V} e k room = record {
  heap = e.heap;
  few = λ a ha. elim (Bool-cases (s.pcb_free_h == a)) [
    | inl here ↦
        subst (λ b. length (e.lists b) ≤ max_proc) (eq_of_== s.pcb_free_h a here)
          (omega (arith, room, e.frame.grown))
    | inr other ↦ omega (arith, e.frame.shorter a other, k.few a ha)
  ];
  ready_head = k.ready_head;
  clock_head = k.clock_head;
  device_heads = k.device_heads;
  free_head = k.free_head;
  free_apart = k.free_apart;
}

pub ne_sym : (x y : ℕ) → (x == y) ≡ false → (y == x) ≡ false
ne_sym x y h = ground arith

pub gone_still :
    {V W : ℕ → List ℕ} {bs : List ℕ} {skip : ℕ} (l : Layout)
    → Frame l V W bs skip
    → (a x : ℕ) → (a == l.pcb_free_h) ≡ false
    → has x (V a) ≡ false
    → has x (W a) ≡ false
gone_still {W} l f a x ne out = elim (Bool-cases (has x (W a))) [
  | inl there ↦ absurd (ground (arith, f.fewer a x (ne_sym a l.pcb_free_h ne) there, out))
  | inr gone ↦ gone
]

-- One run after another.
Ended-then :
    {s : State} {H : ℕ → Bool} {V : ℕ → List ℕ} {bs cs : List ℕ} {skip : ℕ} {rest left : List ℕ}
    {o o2 o' : Outcome (Unit {0})}
    → IsApart s.layout s.pcb_free_h
    → (e : Ended s H V bs skip rest o) → Ended (state_after e) H e.lists cs skip left o2
    → o' ≡ o2
    → Ended s H V (bs ++ cs) skip left o'
Ended-then {s} {bs} {cs} apart e e2 same = record {
  softblocked = e2.softblocked;
  links = e2.links;
  lists = e2.lists;
  runs =
      let total : s.process_count - length bs - length cs ≡ s.process_count - length (bs ++ cs) =
        omega (arith, length-append bs cs) in
      same
      ∙ e2.runs
      ∙ ap
          (λ n.
            ret tt
              (record s { process_count = n; softblock_count = e2.softblocked; links = e2.links }))
          total;
  heap = e2.heap;
  frame = Frame-trans e.frame e2.frame;
  skipped = e2.skipped;
  gone = λ q h. elim (Bool-cases (has (p_list q) cs)) [
    | inl later ↦ e2.gone q later
    | inr earlier ↦
        let (ready, io) = e.gone q (ground (arith, has-append (p_list q) bs cs)) in
        (
          gone_still s.layout e2.frame s.ready_queue (p_list q) apart.ready ready,
          λ j lt.
              gone_still s.layout e2.frame (device_queue s j) (p_io q) (apart.devices j lt)
                (io j lt),
        )
  ];
}

-- Nothing to end.
nobody-Ended :
    (t : ℕ → Cmd (Unit {0})) (fuel p : ℕ) (s : State) {H : ℕ → Bool} {V : ℕ → List ℕ}
    → CanEndAll s H V p nobody
    → Ended s H V [] p [] (terminate_children t (suc fuel) p s)
nobody-Ended t fuel p s {V} c = record {
  softblocked = s.softblock_count;
  links = s.links;
  lists = V;
  runs =
      let empty = empty_child-is_empty s c.kernel.heap p c.head in
      let same : s.process_count ≡ s.process_count - 0 = omega arith in
      over_runs t fuel p s (empty ∙ ap (λ l. ret (is_empty l) s) c.shows)
      ∙ ap (λ n. ret tt (record s { process_count = n })) same;
  heap = c.kernel.heap;
  frame = record {
    fewer = λ a x ne h. h;
    shorter = λ a ne. omega arith;
    freed = λ x. refl;
    grown = omega arith;
    kept = λ q apart ne other out. refl;
  };
  skipped = λ ne. c.shows;
  gone = λ q h. cc;
}

module _ (n : ℕ) (ends : Ends n) where
  first_child :
      (s : State) {H : ℕ → Bool} {V : ℕ → List ℕ} (p c : ℕ) (kids sibs : Family)
      → CanEndAll s H V p (member c kids sibs)
      → CanEnd s H V c p kids
  first_child s {H} {V} p c kids sibs a =
      let ((me, child_of, shows), (ik, is)) = a.family in
      let whole : Distinct ((p_list c ∷ blocks kids) ++ blocks sibs) = a.fits.distinct in
      let size = length-append (p_list c ∷ blocks kids) (blocks sibs) in
      record {
        kernel = a.kernel;
        me = me;
        child_of = child_of;
        shows = shows;
        family = ik;
        fits = record {
          distinct = Distinct-left (p_list c ∷ blocks kids) (blocks sibs) whole;
          room = omega (arith, size, a.fits.room);
          counted = omega (arith, size, a.fits.counted);
          word = a.fits.word;
        };
        parent_out =
            ground (arith, a.out, has-append (p_list p) (p_list c ∷ blocks kids) (blocks sibs));
        is_child = λ ne. (a.head, rw a.shows (ground arith));
        parent_apart = λ ne. a.apart;
        parent_ne = λ ne. a.ne;
      }

  -- The others, when the first child has ended.
  others :
      (s : State) {H : ℕ → Bool} {V : ℕ → List ℕ} (p c : ℕ) (kids sibs : Family) {rest : List ℕ}
      {o : Outcome (Unit {0})}
      → CanEndAll s H V p (member c kids sibs)
      → (e : Ended s H V (p_list c ∷ blocks kids) p rest o) → rest ≡ tops sibs
      → CanEndAll (state_after e) H e.lists p sibs
  others s {H} {V} p c kids sibs a e left =
      let ((me, child_of, shows), (ik, is)) = a.family in
      let first = p_list c ∷ blocks kids in
      let whole : Distinct (first ++ blocks sibs) = a.fits.distinct in
      let size = length-append first (blocks sibs) in
      let out : has (p_list p) (blocks sibs) ≡ false =
        ground (arith, a.out, has-append (p_list p) first (blocks sibs)) in
      record {
        kernel = IsKernel-after e a.kernel (omega (arith, size, a.fits.room));
        not_null = a.not_null;
        head = a.head;
        apart = a.apart;
        ne = a.ne;
        shows = e.skipped a.not_null ∙ left;
        family =
            IsFamily-Frame (fixed s) H V e.lists p sibs e.frame a.kernel.free_head
              a.kernel.free_apart (λ x h. Distinct-disjoint first (blocks sibs) x whole h) out is;
        fits = record {
          distinct = Distinct-right first (blocks sibs) whole;
          room = omega (arith, size, a.fits.room, e.frame.grown);
          counted = omega (arith, size, a.fits.counted);
          word = omega (arith, a.fits.word);
        };
        out = out;
      }

  pub siblings-Ended :
      (g : Family) (fuel p : ℕ) (s : State) {H : ℕ → Bool} {V : ℕ → List ℕ}
      → length (tops g) < fuel
      → length (blocks g) ≤ n
      → CanEndAll s H V p g
      → Ended s H V (blocks g) p [] (terminate_children (terminate_process_fuel n) fuel p s)
  siblings-Ended g zero p s few small a = absurd (omega arith)
  siblings-Ended nobody (suc fuel) p s few small a =
      nobody-Ended (terminate_process_fuel n) fuel p s a
  siblings-Ended (member c kids sibs) (suc fuel) p s {H} {V} few small a =
      let size = length-append (p_list c ∷ blocks kids) (blocks sibs) in
      let left : erase (p_sib c) (V (p_child p)) ≡ tops sibs = rw a.shows (ground arith) in
      let e = ends s H V c p kids (omega (arith, size, small)) (first_child s p c kids sibs a) in
      let later =
        siblings-Ended sibs fuel p (state_after e) (omega (arith, few)) (omega (arith, size, small))
          (others s p c kids sibs a e left) in
      let ring = a.kernel.heap.ring (p_child p) a.head in
      let empty =
        empty_child-is_empty s a.kernel.heap p a.head ∙ ap (λ l. ret (is_empty l) s) a.shows in
      let plain : container_of (p_sib c) offset_p_sib ≡ c = omega arith in
      let child : container_of (s.links.next (p_child p)) offset_p_sib ≡ c =
        ap (λ x. container_of x offset_p_sib) (next-first (V (p_child p)) ring a.shows) ∙ plain in
      Ended-then a.kernel.free_apart e later
        (next_runs (terminate_process_fuel n) fuel p c s (state_after e) empty child e.runs)
