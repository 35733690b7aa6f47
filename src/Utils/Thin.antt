-- ===== src/Utils/Thin.antt =====
-- What take_out of a process changes in the lists: they only lose entries, and most keep all.
use mathlib.Core.Path.{subst}
use project.Common.{
  ℕ, zero, suc, ◌+◌, ◌≤◌, ◌<◌, ◌≡◌, refl, sym, ◌∙◌, Bool, true, false, List, [], ◌∷◌, arith, ◌==◌,
  ==_refl, has, length, erase, update, Bool-cases, inl, inr, has-erase_self, Distinct,
  Distinct-erase, length-erase_le, eq_of_==,
}
use project.Listx.{null}
use project.Listx.Heap.{Distinct-entries}
use project.Types.{Layout, State, max_device, p_list, p_io, p_sib, p_child}
use project.Utils.{device_queue}
use project.Utils.Queues.{
  queue_at, without_io, without_sib, CanLeave, lists1, lists2, lists3, lists4,
}

-- `W` has no entries but those of `V`, list by list.
pub record Thin (V W : ℕ → List ℕ) : Type 0 where
  pub fewer : (a x : ℕ) → has x (W a) ≡ true → has x (V a) ≡ true
  pub shorter : (a : ℕ) → length (W a) ≤ length (V a)

pub Thin-refl : (V : ℕ → List ℕ) → Thin V V
Thin-refl V = record { fewer = λ a x h. h; shorter = λ a. omega arith }

pub Thin-trans : {U V W : ℕ → List ℕ} → Thin U V → Thin V W → Thin U W
Thin-trans t u = record {
  fewer = λ a x h. t.fewer a x (u.fewer a x h);
  shorter = λ a. omega (arith, t.shorter a, u.shorter a);
}

has_of_erase : (x y : ℕ) (xs : List ℕ) → has x (erase y xs) ≡ true → has x xs ≡ true
has_of_erase x y [] h = h
has_of_erase x y (z ∷ zs) h = ground (arith, has_of_erase x y zs)

pub Thin-erase : (V : ℕ → List ℕ) (hd y : ℕ) → Thin V (update V hd (erase y (V hd)))
Thin-erase V hd y = record {
  fewer = λ a x h. elim (Bool-cases (hd == a)) [
    | inl here ↦
        subst (λ b. has x (V b) ≡ true) (eq_of_== hd a here)
          (has_of_erase x y (V hd) (rw here at h))
    | inr other ↦ rw other at h
  ];
  shorter = λ a. elim (Bool-cases (hd == a)) [
    | inl here ↦ rw here (
        subst (λ b. length (erase y (V hd)) ≤ length (V b)) (eq_of_== hd a here)
          (length-erase_le y (V hd)))
    | inr other ↦ rw other (omega arith)
  ];
}

pub Thin-without_io : (base p n i : ℕ) (V : ℕ → List ℕ) → Thin V (without_io base p n i V)
unfolding without_io
Thin-without_io base p zero i V = Thin-refl V
Thin-without_io base p (suc n) i V = Thin-trans (Thin-erase V (queue_at base i) (p_io p)) (
    Thin-without_io base p n (i + 1)
      (update V (queue_at base i) (erase (p_io p) (V (queue_at base i)))))

-- A list that is no queue of a device keeps its entries.
pub without_io-other :
    (base p n i b : ℕ) (V : ℕ → List ℕ)
    → ((j : ℕ) → i ≤ j → j < i + n → (queue_at base j == b) ≡ false)
    → without_io base p n i V b ≡ V b
unfolding without_io
without_io-other base p zero i b V other = refl
without_io-other base p (suc n) i b V other =
    let hd = queue_at base i in
    let mine : update V hd (erase (p_io p) (V hd)) b ≡ V b =
      rw (other i (omega arith) (omega arith)) refl in
    without_io-other base p n (i + 1) b (update V hd (erase (p_io p) (V hd)))
      (λ j lo high. other j (omega arith) (omega arith))
    ∙ mine

-- What is not in a list is not in what is left of it.
pub still_out :
    {V W : ℕ → List ℕ} → Thin V W → (a x : ℕ) → has x (V a) ≡ false → has x (W a) ≡ false
still_out {V} {W} t a x out = elim (Bool-cases (has x (W a))) [
  | inl there ↦ absurd (ground (arith, t.fewer a x there, out))
  | inr gone ↦ gone
]

-- No list has an entry twice.
abbrev pub AllDistinct : (ℕ → Bool) → (ℕ → List ℕ) → Type 0
AllDistinct H V = (a : ℕ) → H a ≡ true → Distinct (V a)

pub AllDistinct-erase :
    {H : ℕ → Bool} (V : ℕ → List ℕ) (hd y : ℕ)
    → AllDistinct H V
    → AllDistinct H (update V hd (erase y (V hd)))
AllDistinct-erase V hd y d a ha = elim (Bool-cases (hd == a)) [
  | inl here ↦
      rw here
        (Distinct-erase y (V hd) (subst (λ b. Distinct (V b)) (sym (eq_of_== hd a here)) (d a ha)))
  | inr other ↦ rw other (d a ha)
]

pub AllDistinct-without_io :
    (base p n i : ℕ) {H : ℕ → Bool} (V : ℕ → List ℕ)
    → AllDistinct H V
    → AllDistinct H (without_io base p n i V)
unfolding without_io
AllDistinct-without_io base p zero i V d = d
AllDistinct-without_io base p (suc n) i V d =
    let hd = queue_at base i in
    AllDistinct-without_io base p n (i + 1) (update V hd (erase (p_io p) (V hd)))
      (AllDistinct-erase V hd (p_io p) d)

-- None of the queues of devices has the process any more.
pub without_io-gone :
    (base p n i j : ℕ) {H : ℕ → Bool} (V : ℕ → List ℕ)
    → AllDistinct H V
    → H (queue_at base j) ≡ true
    → i ≤ j
    → j < i + n
    → has (p_io p) (without_io base p n i V (queue_at base j)) ≡ false
unfolding without_io
without_io-gone base p zero i j V d is_head lo high = absurd (omega arith)
without_io-gone base p (suc n) i j V d is_head lo high =
    let hd = queue_at base i in
    let W = update V hd (erase (p_io p) (V hd)) in
    elim (Bool-cases (i == j)) [
      | inl here ↦
          let same : i ≡ j = eq_of_== i j here in
          let mine = has-erase_self (p_io p) (V (queue_at base j)) (d (queue_at base j) is_head) in
          let first : has (p_io p) (W (queue_at base j)) ≡ false =
            subst
              (λ k.
                has (p_io p) (
                  update V (queue_at base k) (erase (p_io p) (V (queue_at base k)))
                    (queue_at base j))
                ≡ false)
              (sym same) (rw (==_refl (queue_at base j)) mine) in
          still_out (Thin-without_io base p n (i + 1) W) (queue_at base j) (p_io p) first
      | inr other ↦
          let past : i + 1 ≤ j = ground (arith, other) in
          without_io-gone base p n (i + 1) j W (AllDistinct-erase V hd (p_io p) d) is_head past
            (omega arith)
    ]

-- The list of children of `q` is none of the lists of the kernel.
pub record IsApart (s : Layout) (b : ℕ) : Type 0 where
  pub ready : (s.ready_queue == b) ≡ false
  pub clock : (s.pcb_blocked_on_clock == b) ≡ false
  pub devices : (j : ℕ) → j < max_device → (queue_at s.pcb_blocked_on_device j == b) ≡ false

module _ (s : State) {H : ℕ → Bool} {V : ℕ → List ℕ} (p : ℕ) (c : CanLeave s H V p) where
  Thin-lists1 : Thin V (lists1 s p c)
  Thin-lists1 = elim (Bool-cases ((s.pcb p).p_parent == null)) [
    | inl orphan ↦ rw orphan (Thin-refl V)
    | inr child ↦ rw child (Thin-erase V (p_child (s.pcb p).p_parent) (p_sib p))
  ]

  pub Thin-lists4 : Thin V (lists4 s p c)
  Thin-lists4 = Thin-trans Thin-lists1 (
      Thin-trans (Thin-erase (lists1 s p c) s.ready_queue (p_list p)) (
        Thin-trans (Thin-without_io s.pcb_blocked_on_device p max_device 0 (lists2 s p c))
          (Thin-erase (lists3 s p c) s.pcb_blocked_on_clock (p_list p))))

  -- A list other than the queues is as `outChild` leaves it.
  pub lists4-other : (b : ℕ) → IsApart s.layout b → lists4 s p c b ≡ without_sib s p V b
  lists4-other b out =
      let e3 : lists3 s p c b ≡ lists2 s p c b =
        without_io-other s.pcb_blocked_on_device p max_device 0 b (lists2 s p c)
          (λ j lo high. out.devices j high) in
      let e4 : lists4 s p c b ≡ lists3 s p c b = rw out.clock refl in
      let e2 : lists2 s p c b ≡ without_sib s p V b = rw out.ready refl in e4 ∙ e3 ∙ e2

  all_distinct : AllDistinct H V
  all_distinct a ha = Distinct-entries c.heap a ha

  distinct1 : AllDistinct H (lists1 s p c)
  distinct1 = elim (Bool-cases ((s.pcb p).p_parent == null)) [
    | inl orphan ↦ rw orphan all_distinct
    | inr child ↦ rw child (AllDistinct-erase V (p_child (s.pcb p).p_parent) (p_sib p) all_distinct)
  ]

  distinct2 : AllDistinct H (lists2 s p c)
  distinct2 = AllDistinct-erase (lists1 s p c) s.ready_queue (p_list p) distinct1

  distinct3 : AllDistinct H (lists3 s p c)
  distinct3 = AllDistinct-without_io s.pcb_blocked_on_device p max_device 0 (lists2 s p c) distinct2

  after_io : Thin (lists3 s p c) (lists4 s p c)
  after_io = Thin-erase (lists3 s p c) s.pcb_blocked_on_clock (p_list p)

  pub gone_ready : has (p_list p) (lists4 s p c s.ready_queue) ≡ false
  gone_ready =
      let erased : has (p_list p) (lists2 s p c s.ready_queue) ≡ false =
        rw (==_refl s.ready_queue) (
          has-erase_self (p_list p) (lists1 s p c s.ready_queue)
            (distinct1 s.ready_queue c.ready_head)) in
      still_out
        (Thin-trans (Thin-without_io s.pcb_blocked_on_device p max_device 0 (lists2 s p c))
          after_io)
        s.ready_queue (p_list p) erased

  pub gone_clock : has (p_list p) (lists4 s p c s.pcb_blocked_on_clock) ≡ false
  gone_clock = rw (==_refl s.pcb_blocked_on_clock) (
      has-erase_self (p_list p) (lists3 s p c s.pcb_blocked_on_clock)
        (distinct3 s.pcb_blocked_on_clock c.clock_head))

  pub gone_io : (j : ℕ) → j < max_device → has (p_io p) (lists4 s p c (device_queue s j)) ≡ false
  gone_io j lt = still_out after_io (device_queue s j) (p_io p) (
      without_io-gone s.pcb_blocked_on_device p max_device 0 j (lists2 s p c) distinct2
        (c.device_heads j lt) (omega arith) (omega (arith, lt)))
