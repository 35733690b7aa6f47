-- ===== src/Utils/Ending.antt =====
-- terminate_process of phase2/utils.c ends a process and all of its progeny.
use mathlib.Core.Path.{subst}
use project.Common.{
  ℕ, suc, ◌-◌, ◌≤◌, ◌<◌, ◌≡◌, ◌≢◌, refl, ap, ◌∙◌, Bool, true, false, List, [], ◌∷◌, arith, ◌==◌,
  ==_refl, ==_ne, eq_of_==, has, length, Bool-cases, inl, inr, erase, update,
}
use project.Listx.{null}
use project.Listx.Heap.{Unowned}
use project.Types.{State, max_device, p_list, p_sib, p_io, p_child}
use project.Types.Machine.{ret}
use project.Types.View.{Yields}
use project.Pcb.{is_pcb_valid, free_pcb}
use project.Pcb.Alloc.{free_pcb-cons}
use project.Pcb.Valid.{is_pcb_valid-answer}
use project.Utils.{device_queue, take_out, terminate_children, terminate_process_fuel, tree_fuel}
use project.Utils.Queues.{CanLeave, lists4, uncounted, take_out-lists4, Few-lists4}
use project.Utils.Thin.{Thin-lists4, lists4-other, gone_ready, gone_clock, gone_io, still_out}
use project.Utils.Family.{length-tops, Family, blocks, Frame, IsFamily-Frame}
use project.Utils.Children.{
  end_runs, without_sib-other, without_sib-parent, fixed, Ended, CanEnd, CanEndAll, Ends,
}
use project.Utils.Siblings.{state_after, siblings-Ended, gone_still, ne_sym}

module _ (n : ℕ) (ends : Ends n) (s : State) (H : ℕ → Bool) (V : ℕ → List ℕ) (p : ℕ) (kids : Family)
    (small : length (p_list p ∷ blocks kids) ≤ suc n)
    (c : CanEnd s H V p (s.pcb p).p_parent kids) where
  abbrev parent : ℕ
  parent = (s.pcb p).p_parent

  leaves : CanLeave s H V p
  leaves = record {
    heap = c.kernel.heap;
    few = c.kernel.few;
    not_null = c.me.not_null;
    ready_head = c.kernel.ready_head;
    clock_head = c.kernel.clock_head;
    device_heads = c.kernel.device_heads;
    is_child = c.is_child;
  }

  taken : Yields (take_out p s) tt (uncounted s p leaves) H (lists4 s p leaves)
  taken = take_out-lists4 s p leaves

  abbrev taken_state : State
  taken_state = record (uncounted s p leaves) { links = taken.links }

  abbrev V4 : ℕ → List ℕ
  V4 = lists4 s p leaves

  free_same : V4 s.pcb_free_h ≡ V s.pcb_free_h
  free_same =
      lists4-other s p leaves s.pcb_free_h c.kernel.free_apart
      ∙ without_sib-other s p s.pcb_free_h V (λ ne. ground (arith, c.parent_ne ne))

  taken-Frame : Frame s.layout V V4 [] parent
  taken-Frame = record {
    fewer = λ a x ne h. (Thin-lists4 s p leaves).fewer a x h;
    shorter = λ a ne. (Thin-lists4 s p leaves).shorter a;
    freed = λ x. ap (λ l. has x l) free_same;
    grown = omega (arith, ap (λ l. length l) free_same);
    kept = λ q apart ne other out.
        lists4-other s p leaves (p_child q) apart
        ∙ without_sib-other s p (p_child q) V (λ ne. ground (arith, other));
  }

  kids_ready : CanEndAll taken_state H V4 p kids
  kids_ready = record {
    kernel = record {
      heap = taken.heap;
      few = Few-lists4 s p leaves;
      ready_head = c.kernel.ready_head;
      clock_head = c.kernel.clock_head;
      device_heads = c.kernel.device_heads;
      free_head = c.kernel.free_head;
      free_apart = c.kernel.free_apart;
    };
    not_null = c.me.not_null;
    head = c.me.child_head;
    apart = c.me.child_apart;
    ne = c.me.child_ne;
    shows =
        taken-Frame.kept p c.me.child_apart c.me.child_ne (ground (arith, c.parent_out)) refl
        ∙ c.shows;
    family =
        IsFamily-Frame (fixed s) H V V4 p kids taken-Frame c.kernel.free_head c.kernel.free_apart
          (λ x h. refl) (ground (arith, c.parent_out)) c.family;
    fits = record {
      distinct = c.fits.distinct.1;
      room = omega (arith, c.fits.room, taken-Frame.grown);
      counted = omega (arith, c.fits.counted, c.fits.word);
      word = omega arith;
    };
    out = c.fits.distinct.0;
  }

  kids_ended :
      Ended taken_state H V4
        (blocks kids)
        p
        []
        (terminate_children (terminate_process_fuel n) tree_fuel p taken_state)
  kids_ended =
      siblings-Ended n ends kids tree_fuel p taken_state
        (omega (arith, length-tops kids, c.fits.room)) (omega (arith, small)) kids_ready

  abbrev kids_state : State
  kids_state = state_after kids_ended

  -- Its node is in no list any more.
  unowned : Unowned H kids_ended.lists (p_list p)
  unowned a ha =
      let not_head : (a == p_list p) ≡ false =
        ==_ne a (p_list p) (λ e. ground (arith, c.me.no_head, rw e at ha)) in
      let out : has (p_list p) (kids_ended.lists a) ≡ false =
        elim (Bool-cases (s.pcb_free_h == a)) [
          | inl here ↦
              subst (λ b. has (p_list p) (kids_ended.lists b) ≡ false)
                (eq_of_== s.pcb_free_h a here)
                (ground (
                  arith,
                  kids_ended.frame.freed (p_list p),
                  c.fits.distinct.0,
                  taken-Frame.freed (p_list p),
                  c.me.placed s.pcb_free_h c.kernel.free_head c.kernel.free_apart.ready
                      c.kernel.free_apart.clock,
                ))
          | inr other ↦
              gone_still s.layout kids_ended.frame a (p_list p) (ground (arith, other))
                (elim (Bool-cases (s.ready_queue == a)) [
                  | inl ready ↦
                      subst (λ b. has (p_list p) (V4 b) ≡ false) (eq_of_== s.ready_queue a ready)
                        (gone_ready s p leaves)
                  | inr not_ready ↦ elim (Bool-cases (s.pcb_blocked_on_clock == a)) [
                    | inl clock ↦
                        subst (λ b. has (p_list p) (V4 b) ≡ false)
                          (eq_of_== s.pcb_blocked_on_clock a clock) (gone_clock s p leaves)
                    | inr not_clock ↦
                        still_out (Thin-lists4 s p leaves) a (p_list p)
                          (c.me.placed a ha not_ready not_clock)
                  ]
                ])
        ] in
      rw (not_head, out) refl

  freed :
      Yields
        (free_pcb p kids_state)
        tt
        kids_state
        H
        (update kids_ended.lists s.pcb_free_h (p_list p ∷ kids_ended.lists s.pcb_free_h))
  freed = free_pcb-cons kids_state kids_ended.heap c.kernel.free_head p unowned

  abbrev final : ℕ → List ℕ
  final = update kids_ended.lists s.pcb_free_h (p_list p ∷ kids_ended.lists s.pcb_free_h)

  final-Frame : Frame s.layout V final (p_list p ∷ blocks kids) parent
  final-Frame = record {
    fewer = λ a x ne h. taken-Frame.fewer a x ne (kids_ended.frame.fewer a x ne (rw ne at h));
    shorter =
        λ a ne. rw ne (omega (arith, taken-Frame.shorter a ne, kids_ended.frame.shorter a ne));
    freed = λ x. ground (arith, kids_ended.frame.freed x, taken-Frame.freed x);
    grown = rw (==_refl s.pcb_free_h) (omega (arith, kids_ended.frame.grown, taken-Frame.grown));
    kept = λ q apart ne other out. rw ne (
        kids_ended.frame.kept q apart ne (ground (arith, out)) (ground (arith, out))
        ∙ taken-Frame.kept q apart ne other refl);
  }

  -- The children that the parent has left.
  parent_left : parent ≢ null → final (p_child parent) ≡ erase (p_sib p) (V (p_child parent))
  parent_left ne =
      let apart = c.parent_apart ne in
      let not_free = c.parent_ne ne in
      rw not_free (
        kids_ended.frame.kept parent apart not_free (ground (arith, c.parent_out))
          (ground (arith, c.parent_out))
        ∙ lists4-other s p leaves (p_child parent) apart
        ∙ without_sib-parent s p V ne)

  gone_all :
      (q : ℕ)
      → has (p_list q) (p_list p ∷ blocks kids) ≡ true
      → (has (p_list q) (final s.ready_queue) ≡ false)
        × ((j : ℕ) → j < max_device → has (p_io q) (final (device_queue s j)) ≡ false)
  gone_all q h =
      let free = c.kernel.free_apart in
      let not_ready : (s.pcb_free_h == s.ready_queue) ≡ false = ground (arith, free.ready) in
      let not_device = λ (j : ℕ) (lt : j < max_device).
        ne_sym (device_queue s j) s.pcb_free_h (free.devices j lt) in
      elim (Bool-cases (has (p_list q) (blocks kids))) [
        | inl kid ↦
            let (ready, io) = kids_ended.gone q kid in
            (rw not_ready ready, λ j lt. rw (not_device j lt) (io j lt))
        | inr other ↦
            let same : p ≡ q = ground (arith, h, other) in
            let f = kids_ended.frame in
            subst
              (λ x.
                (has (p_list x) (final s.ready_queue) ≡ false)
                × ((j : ℕ) → j < max_device → has (p_io x) (final (device_queue s j)) ≡ false))
              same
              (
                rw not_ready (
                    gone_still s.layout f s.ready_queue (p_list p) free.ready
                      (gone_ready s p leaves)),
                λ j lt. rw (not_device j lt) (
                    gone_still s.layout f (device_queue s j) (p_io p) (free.devices j lt)
                      (gone_io s p leaves j lt)),
              )
      ]

  pub one_Ended :
      Ended s H V
        (p_list p ∷ blocks kids)
        parent
        (erase (p_sib p) (V (p_child parent)))
        (terminate_process_fuel (suc n) p s)
  one_Ended = record {
    softblocked = kids_ended.softblocked;
    links = freed.links;
    lists = final;
    runs =
        let valid : is_pcb_valid p s ≡ ret true s =
          let busy =
            c.me.placed s.pcb_free_h c.kernel.free_head c.kernel.free_apart.ready
              c.kernel.free_apart.clock in
          is_pcb_valid-answer s c.kernel.heap c.kernel.free_head
            (c.kernel.few s.pcb_free_h c.kernel.free_head) p
          ∙ rw (c.me.table, busy) refl in
        let count : kids_state.process_count ≡ s.process_count - length (p_list p ∷ blocks kids) =
          omega (arith, c.fits.counted, c.fits.word) in
        end_runs n p s taken_state kids_state _ c.me.not_ssi valid taken.runs kids_ended.runs
          c.me.no_support freed.runs
        ∙ ap
            (λ x. ret tt (record s {
              process_count = x;
              softblock_count = kids_ended.softblocked;
              links = freed.links;
            }))
            count;
    heap = freed.heap;
    frame = final-Frame;
    skipped = parent_left;
    gone = gone_all;
  }
