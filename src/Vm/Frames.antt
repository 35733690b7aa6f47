-- ===== src/Vm/Frames.antt =====
-- The swap pool of phase3/vmSupport.c: which frame a missing page gets, and how frames become free.
use mathlib.Core.Path.{subst}
use project.Common.{
  ℕ, zero, suc, ◌+◌, ◌%◌, ◌^◌, ◌≤◌, ◌<◌, ◌≡◌, ◌≢◌, refl, ◌⊎◌, inl, inr, true, false, not, ◌&&◌,
  arith, ◌==◌, ltb, Bool-cases, eq_of_==, sym, ◌∙◌, if◌then◌else◌, update,
}
use project.Types.{no_proc}
use project.Vm.{
  Swap, VmState, pool_size, is_frame_free, free_frame_from, get_frame_index, mark_free_from,
  mark_free_pages,
}

-- What the search for a free frame says of its result.
record Searched (table : ℕ → Swap) (i limit found : ℕ) : Type 0 where
  at_least : i ≤ found
  at_most : found ≤ limit
  used : (j : ℕ) → i ≤ j → j < found → is_frame_free (table j) ≡ false
  free : found < limit → is_frame_free (table found) ≡ true

free_frame_from-Searched :
    (n i : ℕ) (table : ℕ → Swap) → Searched table i (i + n) (free_frame_from n i table)
unfolding free_frame_from
free_frame_from-Searched zero i table = record {
  at_least = omega arith;
  at_most = omega arith;
  used = λ j lo hi. absurd (omega arith);
  free = λ lt. absurd (omega arith);
}
free_frame_from-Searched (suc n) i table = elim (Bool-cases (is_frame_free (table i))) [
  | inl hit ↦
      rw (free_frame_from, hit)
        (record {
          at_least = omega arith;
          at_most = omega arith;
          used = λ j lo hi. absurd (omega arith);
          free = λ lt. hit;
        })
  | inr miss ↦
      let r = free_frame_from-Searched n (i + 1) table in
      rw (free_frame_from, miss)
        (record {
          at_least = omega (arith, r.at_least);
          at_most = omega (arith, r.at_most);
          used = λ j lo hi. elim (Bool-cases (i == j)) [
            | inl here ↦ subst (λ x. is_frame_free (table x) ≡ false) (eq_of_== i j here) miss
            | inr later ↦ r.used j (ground arith) hi
          ];
          free = λ lt. r.free (omega arith);
        })
]

-- Whether some frame of the pool is free.
abbrev pub HasFree : (ℕ → Swap) → Type 0
HasFree table = (i : ℕ) × (i < pool_size) × (is_frame_free (table i) ≡ true)

-- `getFrameIndex` returns a frame of the pool, and either this frame is free, or no frame is and it
-- is the one after the last choice, in turn.
pub get_frame_index-cases :
    (s : VmState)
    → ((get_frame_index s).0 < pool_size)
      × ((is_frame_free (s.swap_pool_table (get_frame_index s).0) ≡ true)
          ⊎ (((j : ℕ) → j < pool_size → is_frame_free (s.swap_pool_table j) ≡ false)
              × ((get_frame_index s).0 ≡ (s.frame_index + 1) % 2 ^ 32 % pool_size)))
unfolding get_frame_index
get_frame_index-cases s =
    let r = free_frame_from-Searched pool_size 0 s.swap_pool_table in
    elim (Bool-cases (ltb (free_frame_from pool_size 0 s.swap_pool_table) pool_size)) [
      | inl some_free ↦ rw some_free (ground arith, inl (r.free (ground arith)))
      | inr none_free ↦
          rw none_free
            (omega arith, inr (λ j lt. r.used j (omega arith) (ground (arith, r.at_most)), refl))
    ]

-- The pool after `mark_free_pages`, frame by frame.
abbrev pub marked_free : ℕ → Swap → Swap
marked_free asid frame = if frame.sw_asid == asid then record frame { sw_asid = no_proc } else frame

-- One round of the loop.
abbrev mark_one : ℕ → ℕ → (ℕ → Swap) → ℕ → Swap
mark_one i asid table =
    if (table i).sw_asid == asid
    then update table i (record (table i) { sw_asid = no_proc })
    else table

mark_one_here :
    (i asid : ℕ) (table : ℕ → Swap) → mark_one i asid table i ≡ marked_free asid (table i)
mark_one_here i asid table = ground arith

mark_one_other :
    (i j asid : ℕ) (table : ℕ → Swap) → (i == j) ≡ false → mark_one i asid table j ≡ table j
mark_one_other i j asid table ne = ground (arith, ne)

mark_free_from-frame :
    (n i asid : ℕ) (table : ℕ → Swap) (j : ℕ)
    → mark_free_from n i asid table j
      ≡ (if not (ltb j i) && ltb j (i + n) then marked_free asid (table j) else table j)
unfolding mark_free_from
mark_free_from-frame zero i asid table j = ground arith
mark_free_from-frame (suc n) i asid table j = elim (Bool-cases (i == j)) [
  | inl here ↦
      let e1 : ltb i (i + 1) ≡ true = ground arith in
      let e2 : ltb i i ≡ false = ground arith in
      let e3 : ltb i (i + suc n) ≡ true = ground arith in
      let rest =
        rw (e1, mark_one_here i asid table) at
          (mark_free_from-frame n (i + 1) asid (mark_one i asid table) i) in
      subst
        (λ x.
          mark_free_from n (i + 1) asid (mark_one i asid table) x
          ≡ (if not (ltb x i) && ltb x (i + suc n) then marked_free asid (table x) else table x))
        (eq_of_== i j here) (rw (e2, e3) rest)
  | inr other ↦
      let e1 : ltb j (i + 1) ≡ ltb j i = ground (arith, other) in
      let e2 : ltb j (i + 1 + n) ≡ ltb j (i + suc n) = ground arith in
      rw (e1, e2, mark_one_other i j asid table other) at
        (mark_free_from-frame n (i + 1) asid (mark_one i asid table) j)
]

mark_free_pages-frame :
    (asid : ℕ) (s : VmState) (j : ℕ)
    → j < pool_size
    → (mark_free_pages asid s).swap_pool_table j ≡ marked_free asid (s.swap_pool_table j)
unfolding mark_free_pages
mark_free_pages-frame asid s j lt =
    let e1 : ltb j 0 ≡ false = ground arith in
    let e2 : ltb j (0 + pool_size) ≡ true = ground (arith, lt) in
    rw (e1, e2) at (mark_free_from-frame pool_size 0 asid s.swap_pool_table j)

marked_free-cases :
    (asid : ℕ) (frame : Swap)
    → asid ≢ no_proc
    → ((marked_free asid frame).sw_asid ≢ asid)
      × (frame.sw_asid ≡ asid → is_frame_free (marked_free asid frame) ≡ true)
      × (frame.sw_asid ≢ asid → marked_free asid frame ≡ frame)
unfolding is_frame_free
marked_free-cases asid frame ne = elim (Bool-cases (frame.sw_asid == asid)) [
  | inl own ↦
      rw own
        (λ e. ne (sym e), (λ e. refl), λ other. absurd (other (eq_of_== frame.sw_asid asid own)))
  | inr other ↦ rw other ((λ e. ground arith), (λ e. ground arith), λ e. refl)
]

-- For an address space other than NOPROC, after `mark_free_pages` no frame of the pool belongs to
-- it, the frames that did are free, and the others are as before.
pub mark_free_pages-released :
    (asid : ℕ) (s : VmState) (j : ℕ)
    → asid ≢ no_proc
    → j < pool_size
    → (((mark_free_pages asid s).swap_pool_table j).sw_asid ≢ asid)
      × ((s.swap_pool_table j).sw_asid ≡ asid
          → is_frame_free ((mark_free_pages asid s).swap_pool_table j) ≡ true)
      × ((s.swap_pool_table j).sw_asid ≢ asid
          → (mark_free_pages asid s).swap_pool_table j ≡ s.swap_pool_table j)
mark_free_pages-released asid s j ne lt =
    rw (mark_free_pages-frame asid s j lt) (marked_free-cases asid (s.swap_pool_table j) ne)

-- `n` choices in a row, and the last of them.
abbrev pub after_choices : ℕ → VmState → VmState
after_choices zero s = s
after_choices (suc n) s = after_choices n (get_frame_index s).1

get_frame_index-full :
    (s : VmState)
    → ((j : ℕ) → j < pool_size → is_frame_free (s.swap_pool_table j) ≡ false)
    → get_frame_index s ≡ (
      (s.frame_index + 1) % 2 ^ 32 % pool_size,
      record s { frame_index = (s.frame_index + 1) % 2 ^ 32 % pool_size },
    )
unfolding get_frame_index
get_frame_index-full s full =
    let r = free_frame_from-Searched pool_size 0 s.swap_pool_table in
    elim (Bool-cases (ltb (free_frame_from pool_size 0 s.swap_pool_table) pool_size)) [
      | inl some_free ↦ absurd (
          ground (
            arith,
            r.free (ground (arith, some_free)),
            full (free_frame_from pool_size 0 s.swap_pool_table) (ground (arith, some_free)),
          ))
      | inr none_free ↦ rw none_free refl
    ]

-- While no frame is free and the last choice was a frame of the pool, the choices of `getFrameIndex`
-- go round the 16 frames: after `n` choices the next one is `n + 1` frames further.
pub get_frame_index-in_turn :
    (n : ℕ) (s : VmState)
    → ((j : ℕ) → j < pool_size → is_frame_free (s.swap_pool_table j) ≡ false)
    → s.frame_index < pool_size
    → (get_frame_index (after_choices n s)).0 ≡ (s.frame_index + 1 + n) % pool_size
get_frame_index-in_turn zero s full lt = rw (get_frame_index-full s full) (omega arith)
get_frame_index-in_turn (suc n) s full lt =
    let next = (s.frame_index + 1) % 2 ^ 32 % pool_size in
    let small : next < pool_size = omega arith in
    let rest = get_frame_index-in_turn n (record s { frame_index = next }) full small in
    let sums : (next + 1 + n) % pool_size ≡ (s.frame_index + 1 + suc n) % pool_size = omega arith in
    rw (get_frame_index-full s full) (rest ∙ sums)
