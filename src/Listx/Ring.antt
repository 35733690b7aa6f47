-- ===== src/Listx/Ring.antt =====
-- What a list head stands for: a path of links through distinct nodes, back to the head.
use project.Common.{ℕ, ◌≡◌, true, ◌||◌, List, [], ◌∷◌, arith, ◌==◌, has, Distinct, is_empty, first}
use project.Listx.{Links, list_empty, list_next}

-- From `a` the links lead through `xs` to `b`, and back.
abbrev pub Linked : Links → ℕ → List ℕ → ℕ → Type 0
Linked m a [] b = (m.next a ≡ b) × (m.prev b ≡ a)
Linked m a (x ∷ xs) b = (m.next a ≡ x) × (m.prev x ≡ a) × Linked m x xs b

-- The circular list with the head `a` and the entries `xs`.
pub record Ring (m : Links) (a : ℕ) (xs : List ℕ) : Type 0 where
  pub linked : Linked m a xs a
  pub distinct : Distinct (a ∷ xs)

-- The links agree on the nodes of a path: on `next` before the end, on `prev` after the start.
pub Linked-frame :
    (m m' : Links) (a : ℕ) (xs : List ℕ) (b : ℕ)
    → ((x : ℕ) → has x (a ∷ xs) ≡ true → m'.next x ≡ m.next x)
    → ((x : ℕ) → ((x == b) || has x xs) ≡ true → m'.prev x ≡ m.prev x)
    → Linked m a xs b
    → Linked m' a xs b
Linked-frame m m' a [] b fn fp l = ground (arith, fn a, fp b)
Linked-frame m m' a (x ∷ xs) b fn fp l =
    let rest =
      Linked-frame m m' x xs b (λ y h. fn y (ground arith)) (λ y h. fp y (ground arith)) l.2 in
    ground (arith, fn a, fp x, rest)

-- The node before the end of a path.
abbrev pub last_from : ℕ → List ℕ → ℕ
last_from a [] = a
last_from a (x ∷ xs) = last_from x xs

pub prev-last :
    (m : Links) (a : ℕ) (xs : List ℕ) (b : ℕ) → Linked m a xs b → m.prev b ≡ last_from a xs
prev-last m a [] b l = l.1
prev-last m a (x ∷ xs) b l = prev-last m x xs b l.2

pub has-last : (a : ℕ) (xs : List ℕ) → has (last_from a xs) (a ∷ xs) ≡ true
has-last a [] = ground arith
has-last a (x ∷ xs) = ground (arith, has-last x xs)

pub next-head :
    (m : Links) (a : ℕ) (xs : List ℕ) (b : ℕ)
    → Linked m a xs b
    → ((b == m.next a) || has (m.next a) xs) ≡ true
next-head m a [] b l = ground arith
next-head m a (x ∷ xs) b l = ground arith

-- `list_empty` answers whether the list has no entry.
pub list_empty-is_empty :
    {m : Links} {a : ℕ} {xs : List ℕ} → Ring m a xs → list_empty m a ≡ is_empty xs
unfolding list_empty
list_empty-is_empty {m} {a} {xs = []} r = ground (arith, r.linked.0)
list_empty-is_empty {m} {a} {xs = x ∷ xs} r = ground (arith, r.linked.0, r.distinct.0)

-- `list_next` of the head is the first entry, and NULL if there is none.
pub list_next-first : {m : Links} {a : ℕ} {xs : List ℕ} → Ring m a xs → list_next m a ≡ first xs
unfolding list_next
list_next-first {m} {a} {xs = []} r = ground (arith, r.linked.0)
list_next-first {m} {a} {xs = x ∷ xs} r = ground (arith, r.linked.0, r.distinct.0)

pub next-first :
    {m : Links} {a : ℕ} (xs : List ℕ) {x : ℕ} {rest : List ℕ}
    → Ring m a xs
    → xs ≡ x ∷ rest
    → m.next a ≡ x
next-first [] r e = cc
next-first (y ∷ ys) r e = ground (arith, r.linked.0)
