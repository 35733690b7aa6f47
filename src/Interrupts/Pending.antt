-- ===== src/Interrupts/Pending.antt =====
-- The bits of `mip` that interrupt_handler of phase2/interrupts.c looks at, as a list of sources.
use mathlib.Core.Path.{subst}
use Prim.Native.Nat.{bit_and}
use project.Common.{
  ◌≤◌, length, ℕ, zero, suc, ◌-◌, ◌^◌, ◌<◌, ◌≡◌, refl, ◌∙◌, Bool, true, false, not, ◌&&◌, List, [],
  ◌∷◌, arith, ◌==◌, ==_refl, eq_of_==, ltb, if◌then◌else◌, Bool-cases, inl, inr, has, Distinct, bit,
  bit_lt, bit_zero, bit-bit_and, bit_and_clear, bit_and_zero, zero_of_bits, bit_above,
}
use project.Interrupts.{bit_set, clear_bit, interr}

-- The entries of a list that pass a test.
abbrev pub kept : (ℕ → Bool) → List ℕ → List ℕ
kept f [] = []
kept f (x ∷ xs) = if f x then x ∷ kept f xs else kept f xs

pub length-kept : (f : ℕ → Bool) (xs : List ℕ) → length (kept f xs) ≤ length xs
length-kept f [] = omega arith
length-kept f (x ∷ xs) = ground (arith, length-kept f xs)

-- The interval timer, the processor's timer, and the five lines of devices: the highest priority first.
abbrev pub sources : List ℕ
sources = 3 ∷ 7 ∷ 17 ∷ 18 ∷ 19 ∷ 20 ∷ 21 ∷ []

abbrev pub pending : (mip : ℕ) → List ℕ
pending mip = kept (bit_set mip) sources

bit_set-bit : (w i : ℕ) → bit_set w i ≡ (bit w i == 1)
unfolding bit_set
bit_set-bit w i = ground (arith, bit_lt w i, bit_and_clear w i, bit_and_zero w i)

-- A source other than the one that is cleared stays as it is.
bit_set-clear_bit :
    (w i j : ℕ)
    → bit (2 ^ 32 - 1 - 2 ^ i) j ≡ (if i == j then 0 else 1)
    → bit_set (clear_bit w i) j ≡ (bit_set w j && not (i == j))
unfolding clear_bit
bit_set-clear_bit w i j mask = ground (
  arith,
  bit_set-bit (bit_and w (2 ^ 32 - 1 - 2 ^ i)) j,
  bit_set-bit w j,
  bit-bit_and w (2 ^ 32 - 1 - 2 ^ i) j,
  mask,
  bit_lt w j,
)

-- Whether the mask that clears `i` has the right digits for some others.
abbrev is_mask : ℕ → List ℕ → Bool
is_mask i [] = true
is_mask i (j ∷ js) = (bit (2 ^ 32 - 1 - 2 ^ i) j == (if i == j then 0 else 1)) && is_mask i js

kept-clear_bit :
    (w i : ℕ) (js : List ℕ)
    → is_mask i js ≡ true
    → kept (bit_set (clear_bit w i)) js ≡ kept (λ j. bit_set w j && not (i == j)) js
kept-clear_bit w i [] good = refl
kept-clear_bit w i (j ∷ js) good = ground (arith, bit_set-clear_bit w i j, kept-clear_bit w i js)

kept_same :
    (f : ℕ → Bool) (i : ℕ) (js : List ℕ)
    → has i js ≡ false
    → kept (λ j. f j && not (i == j)) js ≡ kept f js
kept_same f i [] out = refl
kept_same f i (j ∷ js) out = ground (arith, kept_same f i js)

kept_without :
    (f : ℕ → Bool) (i : ℕ) (rest js : List ℕ)
    → Distinct js
    → kept f js ≡ i ∷ rest
    → kept (λ j. f j && not (i == j)) js ≡ rest
kept_without f i rest [] d e = cc
kept_without f i rest (j ∷ js) d e =
    ground (arith, kept_without f i rest js d.1, kept_same f i js, d.0)

-- A test that holds of a whole list.
abbrev all : (ℕ → Bool) → List ℕ → Bool
all p [] = true
all p (x ∷ xs) = p x && all p xs

all-has : (p : ℕ → Bool) (x : ℕ) (xs : List ℕ) → all p xs ≡ true → has x xs ≡ true → p x ≡ true
all-has p x [] h m = cc
all-has p x (y ∷ ys) h m = elim (Bool-cases (y == x)) [
  | inl here ↦ subst (λ z. p z ≡ true) (eq_of_== y x here) (ground (arith, h))
  | inr other ↦ all-has p x ys (ground (arith, h)) (ground (arith, m, other))
]

all_masks : (i : ℕ) → has i sources ≡ true → is_mask i sources ≡ true
all_masks i h = all-has (λ i. is_mask i sources) i sources refl h

has-kept : (f : ℕ → Bool) (i : ℕ) (js : List ℕ) → has i (kept f js) ≡ true → has i js ≡ true
has-kept f i [] h = h
has-kept f i (j ∷ js) h = ground (arith, has-kept f i js)

-- Clearing the first pending source leaves the others.
pub pending-clear_bit :
    (mip i : ℕ) (rest : List ℕ) → pending mip ≡ i ∷ rest → pending (clear_bit mip i) ≡ rest
pending-clear_bit mip i rest e =
    let mine : has i (kept (bit_set mip) sources) ≡ true = rw (e, ==_refl i) refl in
    kept-clear_bit mip i sources (all_masks i (has-kept (bit_set mip) i sources mine))
    ∙ kept_without (bit_set mip) i rest sources
        (refl, (refl, (refl, (refl, (refl, (refl, (refl, tt))))))) e

kept_none :
    (f : ℕ → Bool) (js : List ℕ) → ((j : ℕ) → has j js ≡ true → f j ≡ false) → kept f js ≡ []
kept_none f [] none_holds = refl
kept_none f (j ∷ js) none_holds = ground (
  arith,
  none_holds j (rw (==_refl j) refl),
  kept_none f js (λ i h. none_holds i (ground (arith, h))),
)

none_kept : (f : ℕ → Bool) (j : ℕ) (js : List ℕ) → kept f js ≡ [] → has j js ≡ true → f j ≡ false
none_kept f j [] e h = cc
none_kept f j (i ∷ js) e h = elim (Bool-cases (f i)) [
  | inl holds ↦ absurd (ground (arith, rw holds at e))
  | inr fails ↦ elim (Bool-cases (i == j)) [
    | inl here ↦ subst (λ z. f z ≡ false) (eq_of_== i j here) fails
    | inr other ↦ none_kept f j js (rw fails at e) (ground (arith, h, other))
  ]
]

abbrev up_to : ℕ → List ℕ
up_to zero = []
up_to (suc n) = n ∷ up_to n

has-up_to : (n i : ℕ) → i < n → has i (up_to n) ≡ true
has-up_to zero i lt = absurd (omega arith)
has-up_to (suc n) i lt = ground (arith, has-up_to n i)

-- The mask of the loop has the digits of the sources, and no others.
interr_digit : (i : ℕ) → i < 22 → (bit interr i == (if has i sources then 1 else 0)) ≡ true
interr_digit i lt =
    all-has (λ i. bit interr i == (if has i sources then 1 else 0)) i (up_to 22) refl
      (has-up_to 22 i lt)

sources_below : (i : ℕ) → has i sources ≡ true → i < 22
sources_below i h = ground (arith, all-has (λ i. ltb i 22) i sources refl h)

source_clear : (mip i : ℕ) → bit_and mip interr ≡ 0 → has i sources ≡ true → bit_set mip i ≡ false
source_clear mip i e h =
    let digit = interr_digit i (sources_below i h) in
    ground (
      arith,
      rw h at digit,
      bit_set-bit mip i,
      rw e at (bit-bit_and mip interr i),
      bit_zero i,
      bit_lt mip i,
    )

-- Nothing is pending exactly when the loop's test fails.
pub pending_none : (mip : ℕ) → bit_and mip interr ≡ 0 → pending mip ≡ []
pending_none mip e = kept_none (bit_set mip) sources (λ i h. source_clear mip i e h)

digit_clear : (mip i : ℕ) → pending mip ≡ [] → bit (bit_and mip interr) i ≡ 0
digit_clear mip i e = elim (Bool-cases (ltb i 22)) [
  | inr above ↦
      ground (
        arith,
        bit-bit_and mip interr i,
        bit_above 22 i interr (omega arith) (ground (arith, above)),
      )
  | inl below ↦ elim (Bool-cases (has i sources)) [
    | inl h ↦ ground (
      arith,
      bit-bit_and mip interr i,
      none_kept (bit_set mip) i sources e h,
      bit_set-bit mip i,
      bit_lt mip i,
    )
    | inr other ↦
        ground
          (arith, bit-bit_and mip interr i, rw other at (interr_digit i (ground (arith, below))))
  ]
]

pub none_pending : (mip : ℕ) → pending mip ≡ [] → bit_and mip interr ≡ 0
none_pending mip e =
    zero_of_bits (bit_and mip interr) (bit_and mip interr) (omega arith) (λ i. digit_clear mip i e)
