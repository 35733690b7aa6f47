-- ===== src/Utils/Queues.antt =====
-- The part of terminate_process of phase2/utils.c that takes a process out of the lists of others.
use mathlib.Core.Path.{subst}
use project.Common.{
  ℕ, zero, suc, ◌+◌, ◌-◌, ◌*◌, ◌%◌, ◌^◌, ◌≤◌, ◌<◌, ◌≡◌, ◌≢◌, refl, sym, ap, ◌∙◌, Bool, true, false,
  ◌||◌, List, arith, ◌==◌, ==_refl, if◌then◌else◌, has, length, erase, update, Bool-cases, inl, inr,
  length-erase_le, eq_of_==,
}
use project.Listx.{null}
use project.Listx.Heap.{IsHeap}
use project.Types.{State, max_proc, max_device, p_list, p_io, p_sib, p_child, sizeof_list_head}
use project.Types.Machine.{ret}
use project.Types.View.{Yields}
use project.Pcb.{out_child, out_proc_q, out_proc_q_for_io}
use project.Pcb.Queue.{out_proc_q-erase, out_proc_q_for_io-erase}
use project.Pcb.Tree.{out_child-erase, out_child-orphan}
use project.Utils.{device_queue, out_of_devices, take_out}

-- Queue `i` of the array at `base`.
abbrev pub queue_at : (base i : ℕ) → ℕ
queue_at base i = base + i * sizeof_list_head

-- The lists without the process: `n` queues of devices from queue `i` on.
unfoldable pub without_io : (base p n i : ℕ) → (ℕ → List ℕ) → ℕ → List ℕ
without_io base p zero i V = V
without_io base p (suc n) i V =
    let hd = queue_at base i in without_io base p n (i + 1) (update V hd (erase (p_io p) (V hd)))

-- Whether one of the queues has the process.
unfoldable pub is_in_devices : (base p n i : ℕ) → (ℕ → List ℕ) → Bool
is_in_devices base p zero i V = false
is_in_devices base p (suc n) i V =
    let hd = queue_at base i in
    has (p_io p) (V hd) || is_in_devices base p n (i + 1) (update V hd (erase (p_io p) (V hd)))

-- No list has more than 50 entries.
abbrev pub Few : (ℕ → Bool) → (ℕ → List ℕ) → Type 0
Few H V = (a : ℕ) → H a ≡ true → length (V a) ≤ max_proc

pub Few-erase :
    {H : ℕ → Bool} (V : ℕ → List ℕ) (hd x : ℕ) → Few H V → Few H (update V hd (erase x (V hd)))
Few-erase V hd x few a ha = elim (Bool-cases (hd == a)) [
  | inl here ↦
      let shorter = length-erase_le x (V hd) in
      let at_a : length (V hd) ≤ max_proc =
        subst (λ b. length (V b) ≤ max_proc) (sym (eq_of_== hd a here)) (few a ha) in
      rw here (omega (arith, shorter, at_a))
  | inr other ↦ rw other (few a ha)
]

out_step :
    (p n i : ℕ) (acc : Bool) (s s1 : State) (found : ℕ)
    → out_proc_q_for_io (device_queue s i) p s ≡ ret found s1
    → out_of_devices p (suc n) i acc s
      ≡ out_of_devices p n (i + 1) (if found == p then true else acc) s1
unfolding out_of_devices
out_step p n i acc s s1 found e = rw e refl

found_iff : (p : ℕ) (b : Bool) → p ≢ null → ((if b then p else null) == p) ≡ b
found_iff p true ne = ==_refl p
found_iff p false ne = ground (arith, ne)

either_way :
    (p : ℕ) (h other : Bool)
    → p ≢ null
    → (if (if h then p else null) == p then true else other) ≡ (h || other)
either_way p true other ne = rw (==_refl p) refl
either_way p false other ne = ground (arith, ne)

pub out_of_devices-without_io :
    (p n i : ℕ) (acc : Bool) (s : State) {H : ℕ → Bool} {V : ℕ → List ℕ}
    → IsHeap s.links H V
    → Few H V
    → p ≢ null
    → ((j : ℕ) → i ≤ j → j < i + n → H (device_queue s j) ≡ true)
    → Yields
        (out_of_devices p n i acc s)
        (acc || is_in_devices s.pcb_blocked_on_device p n i V)
        s
        H
        (without_io s.pcb_blocked_on_device p n i V)
unfolding out_of_devices without_io is_in_devices
out_of_devices-without_io p zero i acc s heap few ne heads = record {
  links = s.links;
  runs = ground arith;
  heap = heap;
}
out_of_devices-without_io p (suc n) i acc s {H} {V} heap few ne heads =
    let hd = device_queue s i in
    let is_head = heads i (omega arith) (omega arith) in
    let y = out_proc_q_for_io-erase {s = s} heap hd is_head p ne (few hd is_head) in
    let s1 = record s { links = y.links } in
    let acc' = if (if has (p_io p) (V hd) then p else null) == p then true else acc in
    let later =
      out_of_devices-without_io p n (i + 1) acc' s1 y.heap (Few-erase V hd (p_io p) few) ne
        (λ j lo high. heads j (omega arith) (omega arith)) in
    let next =
      is_in_devices s.pcb_blocked_on_device p n (i + 1) (update V hd (erase (p_io p) (V hd))) in
    let flag : (acc' || next) ≡ (acc || (has (p_io p) (V hd) || next)) =
      ground (arith, found_iff p (has (p_io p) (V hd)) ne) in
    record {
      links = later.links;
      runs =
          out_step p n i acc s s1 _ y.runs
          ∙ later.runs
          ∙ ap (λ b. ret b (record s { links = later.links })) flag;
      heap = later.heap;
    }

-- The lists after `outChild`.
abbrev pub without_sib : State → (p : ℕ) → (ℕ → List ℕ) → ℕ → List ℕ
without_sib s p V =
    let parent = (s.pcb p).p_parent in
    if parent == null then V else update V (p_child parent) (erase (p_sib p) (V (p_child parent)))

-- What `terminate_process` needs of the lists in which a process can be.
pub record CanLeave (s : State) (H : ℕ → Bool) (V : ℕ → List ℕ) (p : ℕ) : Type 0 where
  pub heap : IsHeap s.links H V
  pub few : Few H V
  pub not_null : p ≢ null
  pub ready_head : H s.ready_queue ≡ true
  pub clock_head : H s.pcb_blocked_on_clock ≡ true
  pub device_heads : (j : ℕ) → j < max_device → H (device_queue s j) ≡ true
  pub is_child :
      (s.pcb p).p_parent ≢ null
      → (H (p_child (s.pcb p).p_parent) ≡ true)
        × (has (p_sib p) (V (p_child (s.pcb p).p_parent)) ≡ true)

take_runs :
    (p : ℕ) (s s1 s2 s3 s4 : State) (r1 r2 found : ℕ) (on_device was_blocked : Bool)
    → out_child p s ≡ ret r1 s1
    → out_proc_q s1.ready_queue p s1 ≡ ret r2 s2
    → out_of_devices p max_device 0 false s2 ≡ ret on_device s3
    → out_proc_q s3.pcb_blocked_on_clock p s3 ≡ ret found s4
    → (if found == p then true else on_device) ≡ was_blocked
    → take_out p s
      ≡ ret tt (record s4 {
        process_count = (s4.process_count + 2 ^ 32 - 1) % 2 ^ 32;
        softblock_count =
            if was_blocked
            then (s4.softblock_count + 2 ^ 32 - (s4.pcb p).do_io) % 2 ^ 32
            else s4.softblock_count;
      })
unfolding take_out
take_runs p s s1 s2 s3 s4 r1 r2 found on_device true e1 e2 e3 e4 b = rw (e1, e2, e3, e4, b) refl
take_runs p s s1 s2 s3 s4 r1 r2 found on_device false e1 e2 e3 e4 b = rw (e1, e2, e3, e4, b) refl

module _ (s : State) {H : ℕ → Bool} {V : ℕ → List ℕ} (p : ℕ) (c : CanLeave s H V p) where
  left_family : (r : ℕ) × Yields (out_child p s) r s H (without_sib s p V)
  left_family = elim (Bool-cases ((s.pcb p).p_parent == null)) [
    | inl orphan ↦ (
      null,
      rw orphan (record {
        links = s.links;
        runs = out_child-orphan s c.heap p (eq_of_== _ _ orphan);
        heap = c.heap;
      }),
    )
    | inr child ↦
        let ne : (s.pcb p).p_parent ≢ null = λ e. ground (arith, child, e) in
        let (is_head, mine) = c.is_child ne in
        (p, rw child (out_child-erase s c.heap p ne is_head mine))
  ]

  -- The lists after each of the steps.
  abbrev pub lists1 : ℕ → List ℕ
  lists1 = without_sib s p V

  abbrev pub lists2 : ℕ → List ℕ
  lists2 = update lists1 s.ready_queue (erase (p_list p) (lists1 s.ready_queue))

  abbrev pub lists3 : ℕ → List ℕ
  lists3 = without_io s.pcb_blocked_on_device p max_device 0 lists2

  abbrev pub lists4 : ℕ → List ℕ
  lists4 = update lists3 s.pcb_blocked_on_clock (erase (p_list p) (lists3 s.pcb_blocked_on_clock))

  -- Whether it was blocked, and the counters afterwards.
  abbrev pub was_blocked : Bool
  was_blocked =
      has (p_list p) (lists3 s.pcb_blocked_on_clock)
      || is_in_devices s.pcb_blocked_on_device p max_device 0 lists2

  abbrev pub uncounted : State
  uncounted = record s {
    process_count = (s.process_count + 2 ^ 32 - 1) % 2 ^ 32;
    softblock_count =
        if was_blocked
        then (s.softblock_count + 2 ^ 32 - (s.pcb p).do_io) % 2 ^ 32
        else s.softblock_count;
  }

  few1 : Few H lists1
  few1 = elim (Bool-cases ((s.pcb p).p_parent == null)) [
    | inl orphan ↦ rw orphan c.few
    | inr child ↦ rw child (Few-erase V (p_child (s.pcb p).p_parent) (p_sib p) c.few)
  ]

  Few-without_io :
      (n i : ℕ) (W : ℕ → List ℕ) → Few H W → Few H (without_io s.pcb_blocked_on_device p n i W)
  unfolding without_io
  Few-without_io zero i W few = few
  Few-without_io (suc n) i W few =
      Few-without_io n (i + 1) _ (Few-erase W (queue_at s.pcb_blocked_on_device i) (p_io p) few)

  few2 : Few H lists2
  few2 = Few-erase lists1 s.ready_queue (p_list p) few1

  few3 : Few H lists3
  few3 = Few-without_io max_device 0 lists2 few2

  pub Few-lists4 : Few H lists4
  Few-lists4 = Few-erase lists3 s.pcb_blocked_on_clock (p_list p) few3

  pub take_out-lists4 : Yields (take_out p s) tt uncounted H lists4
  take_out-lists4 =
      let (r1, y1) = left_family in
      let s1 = record s { links = y1.links } in
      let y2 =
        out_proc_q-erase {s = s1} y1.heap s.ready_queue c.ready_head p c.not_null
          (few1 s.ready_queue c.ready_head) in
      let s2 = record s { links = y2.links } in
      let y3 =
        out_of_devices-without_io p max_device 0 false s2 y2.heap few2 c.not_null
          (λ j lo hi. c.device_heads j hi) in
      let s3 = record s { links = y3.links } in
      let y4 =
        out_proc_q-erase {s = s3} y3.heap s.pcb_blocked_on_clock c.clock_head p c.not_null
          (few3 s.pcb_blocked_on_clock c.clock_head) in
      record {
        links = y4.links;
        runs =
            take_runs p s s1 s2 s3 (record s { links = y4.links }) r1 _ _ _ was_blocked y1.runs
              y2.runs y3.runs y4.runs
              (either_way p (has (p_list p) (lists3 s.pcb_blocked_on_clock))
                (is_in_devices s.pcb_blocked_on_device p max_device 0 lists2) c.not_null);
        heap = y4.heap;
      }
