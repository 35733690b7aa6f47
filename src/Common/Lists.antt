-- ===== src/Common/Lists.antt =====
-- Lists of addresses: membership as a test, distinctness, removal, last element.
use Prim.Native.Nat.{◌≤◌, ℕ, suc, ◌+◌}
use mathlib.Core.Path.{◌≡◌, refl}
use mathlib.Core.Bool.{Bool, true, false, ◌||◌}
use mathlib.Core.Option.{Option, none, some}
use mathlib.Core.List.{List, [], ◌∷◌, ◌++◌}
use native.Mathlib.Omega.{arith}
use project.Common.Tests.{◌==◌, if◌then◌else◌}

module _ {ℓ} {A : Type ℓ} where
  abbrev pub length : List A → ℕ
  length [] = 0
  length (x ∷ xs) = suc (length xs)

  abbrev pub is_empty : List A → Bool
  is_empty [] = true
  is_empty (x ∷ xs) = false

  abbrev pub head? : List A → Option A
  head? [] = none
  head? (x ∷ xs) = some x

  abbrev pub tail : List A → List A
  tail [] = []
  tail (x ∷ xs) = xs

  pub length-append : (xs ys : List A) → length (xs ++ ys) ≡ length xs + length ys
  length-append [] ys = omega arith
  length-append (x ∷ xs) ys = omega (arith, length-append xs ys)

-- The first address, 0 if there is none.
abbrev pub first : List ℕ → ℕ
first [] = 0
first (x ∷ xs) = x

-- Whether `a` stands in the list.
abbrev pub has : ℕ → List ℕ → Bool
has a [] = false
has a (x ∷ xs) = (x == a) || has a xs

abbrev pub Distinct : List ℕ → Type 0
Distinct [] = Unit {0}
Distinct (x ∷ xs) = (has x xs ≡ false) × Distinct xs

-- Drops the first occurrence of `a`.
abbrev pub erase : ℕ → List ℕ → List ℕ
erase a [] = []
erase a (x ∷ xs) = if x == a then xs else x ∷ erase a xs

pub has-append : (a : ℕ) (xs ys : List ℕ) → has a (xs ++ ys) ≡ (has a xs || has a ys)
has-append a [] ys = refl
has-append a (x ∷ xs) ys = ground (arith, has-append a xs ys)

pub has-erase_ne : (a b : ℕ) (xs : List ℕ) → has a xs ≡ false → has a (erase b xs) ≡ false
has-erase_ne a b [] h = refl
has-erase_ne a b (x ∷ xs) h = ground (arith, has-erase_ne a b xs)

pub has-erase_self : (a : ℕ) (xs : List ℕ) → Distinct xs → has a (erase a xs) ≡ false
has-erase_self a [] d = refl
has-erase_self a (x ∷ xs) d = ground (arith, has-erase_self a xs d.1)

pub has-erase_other : (a b : ℕ) (xs : List ℕ) → (a == b) ≡ false → has b (erase a xs) ≡ has b xs
has-erase_other a b [] h = refl
has-erase_other a b (x ∷ xs) h = ground (arith, has-erase_other a b xs)

pub erase_absent : (a : ℕ) (xs : List ℕ) → has a xs ≡ false → erase a xs ≡ xs
erase_absent a [] h = refl
erase_absent a (x ∷ xs) h = ground (arith, erase_absent a xs)

pub Distinct-erase : (a : ℕ) (xs : List ℕ) → Distinct xs → Distinct (erase a xs)
Distinct-erase a [] d = tt
Distinct-erase a (x ∷ xs) d = ground (arith, Distinct-erase a xs d.1, has-erase_ne x a xs d.0)

pub Distinct-snoc :
    (xs : List ℕ) (a : ℕ) → Distinct xs → has a xs ≡ false → Distinct (xs ++ (a ∷ []))
Distinct-snoc [] a d h = (refl, tt)
Distinct-snoc (x ∷ xs) a d h = ground (arith, Distinct-snoc xs a d.1, has-append x xs (a ∷ []))

pub length-erase : (a : ℕ) (xs : List ℕ) → has a xs ≡ true → suc (length (erase a xs)) ≡ length xs
length-erase a [] h = ground arith
length-erase a (x ∷ xs) h = ground (arith, length-erase a xs)

pub length-erase_le : (a : ℕ) (xs : List ℕ) → length (erase a xs) ≤ length xs
length-erase_le a [] = omega arith
length-erase_le a (x ∷ xs) = ground (arith, length-erase_le a xs)

has_same : (z x : ℕ) (ys : List ℕ) → (z == x) ≡ true → has x ys ≡ has z ys
has_same z x [] h = refl
has_same z x (y ∷ ys) h = ground (arith, has_same z x ys h)

-- Both parts of a list without repetitions have none, and no entry in common.
pub Distinct-left : (xs ys : List ℕ) → Distinct (xs ++ ys) → Distinct xs
Distinct-left [] ys d = tt
Distinct-left (x ∷ xs) ys d = (ground (arith, d.0, has-append x xs ys), Distinct-left xs ys d.1)

pub Distinct-right : (xs ys : List ℕ) → Distinct (xs ++ ys) → Distinct ys
Distinct-right [] ys d = d
Distinct-right (x ∷ xs) ys d = Distinct-right xs ys d.1

pub Distinct-disjoint :
    (xs ys : List ℕ) (x : ℕ) → Distinct (xs ++ ys) → has x ys ≡ true → has x xs ≡ false
Distinct-disjoint [] ys x d h = refl
Distinct-disjoint (z ∷ zs) ys x d h =
    ground (arith, d.0, has-append z zs ys, Distinct-disjoint zs ys x d.1 h, has_same z x ys)
