-- ===== src/Utils/Family.antt =====
-- A process and its progeny, as terminate_process of phase2/utils.c meets them in the lists.
use mathlib.Core.Path.{subst}
use project.Common.{
  ℕ, ◌+◌, ◌≤◌, ◌≡◌, ◌≢◌, refl, ◌∙◌, Bool, true, false, ◌||◌, List, [], ◌∷◌, ◌++◌, arith, ◌==◌,
  eq_of_==, has, has-append, length, length-append, Bool-cases, inl, inr,
}
use project.Listx.{null}
use project.Types.{Layout, Pcb, p_list, p_sib, p_child}
use project.Pcb.Valid.{in_table}
use project.Utils.Thin.{IsApart}

-- Siblings, each with its children: nobody, or a process with its children and its next siblings.
pub data Family : Type 0 where
  nobody : Family
  member : (p : ℕ) (kids sibs : Family) → Family

-- The nodes of all blocks of a family, and the sibling nodes of its first generation.
abbrev pub blocks : Family → List ℕ
blocks nobody = []
blocks (member p kids sibs) = p_list p ∷ (blocks kids ++ blocks sibs)

abbrev pub tops : Family → List ℕ
tops nobody = []
tops (member p kids sibs) = p_sib p ∷ tops sibs

pub length-tops : (g : Family) → length (tops g) ≤ length (blocks g)
length-tops nobody = omega arith
length-tops (member p kids sibs) =
    omega (arith, length-tops sibs, length-append (blocks kids) (blocks sibs))

-- What does not change while processes end.
pub record Fixed : Type 0 where
  pub layout : Layout
  pub pcb : ℕ → Pcb
  pub ssi : ℕ

-- A process that can be ended: an allocated block with no support structure, which is not the SSI,
-- and whose `p_list` is in no list but the ready queue and that of the clock.
pub record IsMember (k : Fixed) (H : ℕ → Bool) (V : ℕ → List ℕ) (p : ℕ) : Type 0 where
  pub table : in_table k.layout.pcb_table p ≡ true
  pub not_null : p ≢ null
  pub not_ssi : (p == k.ssi) ≡ false
  pub no_support : (k.pcb p).p_support_struct ≡ null
  pub no_head : H (p_list p) ≡ false
  pub child_head : H (p_child p) ≡ true
  pub child_apart : IsApart k.layout (p_child p)
  pub child_ne : (k.layout.pcb_free_h == p_child p) ≡ false
  pub placed :
      (a : ℕ)
      → H a ≡ true
      → (k.layout.ready_queue == a) ≡ false
      → (k.layout.pcb_blocked_on_clock == a) ≡ false
      → has (p_list p) (V a) ≡ false

-- The lists show the family as the children of `parent`.
abbrev pub IsFamily : Fixed → (ℕ → Bool) → (ℕ → List ℕ) → (parent : ℕ) → Family → Type 0
IsFamily k H V parent nobody = Unit {0}
IsFamily k H V parent (member p kids sibs) =
    (IsMember k H V p × ((k.pcb p).p_parent ≡ parent) × (V (p_child p) ≡ tops kids))
    × (IsFamily k H V p kids × IsFamily k H V parent sibs)

-- How the lists change from `V` to `W` while the blocks `bs` are given back: a list other than the free
-- one only loses entries, the free list has these blocks more, and the children of other
-- processes than `skip` stay.
pub record Frame (l : Layout) (V W : ℕ → List ℕ) (bs : List ℕ) (skip : ℕ) : Type 0 where
  pub fewer : (a x : ℕ) → (l.pcb_free_h == a) ≡ false → has x (W a) ≡ true → has x (V a) ≡ true
  pub shorter : (a : ℕ) → (l.pcb_free_h == a) ≡ false → length (W a) ≤ length (V a)
  pub freed : (x : ℕ) → has x (W l.pcb_free_h) ≡ (has x bs || has x (V l.pcb_free_h))
  pub grown : length (W l.pcb_free_h) ≡ length bs + length (V l.pcb_free_h)
  pub kept :
      (q : ℕ)
      → IsApart l (p_child q)
      → (l.pcb_free_h == p_child q) ≡ false
      → (skip == q) ≡ false
      → has (p_list q) bs ≡ false
      → W (p_child q) ≡ V (p_child q)

-- A process outside of the blocks that are given back stays one that can be ended.
IsMember-Frame :
    {k : Fixed} {H : ℕ → Bool} {V W : ℕ → List ℕ} {bs : List ℕ} {skip : ℕ} (p : ℕ)
    → Frame k.layout V W bs skip
    → H k.layout.pcb_free_h ≡ true
    → IsApart k.layout k.layout.pcb_free_h
    → has (p_list p) bs ≡ false
    → IsMember k H V p
    → IsMember k H W p
IsMember-Frame {k} {V} {W} p f free_head free_apart out m = record {
  table = m.table;
  not_null = m.not_null;
  not_ssi = m.not_ssi;
  no_support = m.no_support;
  no_head = m.no_head;
  child_head = m.child_head;
  child_apart = m.child_apart;
  child_ne = m.child_ne;
  placed = λ a ha r c. elim (Bool-cases (k.layout.pcb_free_h == a)) [
    | inl here ↦
        subst (λ b. has (p_list p) (W b) ≡ false) (eq_of_== _ a here)
          (rw
            (
              f.freed (p_list p),
              out,
              m.placed k.layout.pcb_free_h free_head free_apart.ready free_apart.clock,
            )
            refl)
    | inr other ↦ elim (Bool-cases (has (p_list p) (W a))) [
      | inl there ↦ absurd (ground (arith, f.fewer a (p_list p) other there, m.placed a ha r c))
      | inr gone ↦ gone
    ]
  ];
}

-- So does a family outside of them, of a parent other than the one whose children change.
pub IsFamily-Frame :
    (k : Fixed) (H : ℕ → Bool) (V W : ℕ → List ℕ) {bs : List ℕ} {skip : ℕ} (parent : ℕ) (g : Family)
    → Frame k.layout V W bs skip
    → H k.layout.pcb_free_h ≡ true
    → IsApart k.layout k.layout.pcb_free_h
    → ((x : ℕ) → has x (blocks g) ≡ true → has x bs ≡ false)
    → has (p_list skip) (blocks g) ≡ false
    → IsFamily k H V parent g
    → IsFamily k H W parent g
IsFamily-Frame k H V W parent nobody f fh fa out ns i = tt
IsFamily-Frame k H V W {bs} {skip} parent (member p kids sibs) f fh fa out ns
      ((m, e, l), (ik, is)) =
    let mine = out (p_list p) (ground arith) in
    let both = λ (x : ℕ). has-append x (blocks kids) (blocks sibs) in
    (
      (
        IsMember-Frame p f fh fa mine m,
        e,
        f.kept p m.child_apart m.child_ne (ground (arith, ns)) mine ∙ l,
      ),
      (
        IsFamily-Frame k H V W p kids f fh fa (λ x h. out x (ground (arith, both x)))
            (ground (arith, ns, both (p_list skip))) ik,
        IsFamily-Frame k H V W parent sibs f fh fa (λ x h. out x (ground (arith, both x)))
            (ground (arith, ns, both (p_list skip))) is,
      ),
    )

-- Two changes one after the other.
pub Frame-trans :
    {l : Layout} {U V W : ℕ → List ℕ} {bs cs : List ℕ} {skip : ℕ}
    → Frame l U V bs skip
    → Frame l V W cs skip
    → Frame l U W (bs ++ cs) skip
Frame-trans {l} {U} {V} {W} {bs} {cs} f g = record {
  fewer = λ a x ne h. f.fewer a x ne (g.fewer a x ne h);
  shorter = λ a ne. omega (arith, f.shorter a ne, g.shorter a ne);
  freed = λ x. ground (arith, f.freed x, g.freed x, has-append x bs cs);
  grown = omega (arith, f.grown, g.grown, length-append bs cs);
  kept = λ q apart ne other out.
      let in_both = has-append (p_list q) bs cs in
      g.kept q apart ne other (ground (arith, in_both, out))
      ∙ f.kept q apart ne other (ground (arith, in_both, out));
}
