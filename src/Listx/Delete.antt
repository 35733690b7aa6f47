-- ===== src/Listx/Delete.antt =====
-- list_del of headers/listx.h on a path of links.
use project.Common.{
  ℕ, ◌≡◌, false, true, ◌||◌, List, [], ◌∷◌, arith, ◌==◌, has, Distinct, erase, Bool-cases, inl, inr,
}
use project.Listx.{Links, list_del, list_del_between}
use project.Listx.Ring.{Linked, Linked-frame}

-- The neighbours of an entry lie on the path.
pub next_of :
    (m : Links) (a : ℕ) (xs : List ℕ) (b e : ℕ)
    → Linked m a xs b
    → has e xs ≡ true
    → ((b == m.next e) || has (m.next e) xs) ≡ true
next_of m a [] b e l h = ground arith
next_of m a (x ∷ []) b e l h = ground (arith, l.2.0)
next_of m a (x ∷ y ∷ xs) b e l h = ground (arith, l.2.0, next_of m x (y ∷ xs) b e l.2)

pub prev_of :
    (m : Links) (a : ℕ) (xs : List ℕ) (b e : ℕ)
    → Linked m a xs b
    → has e xs ≡ true
    → has (m.prev e) (a ∷ xs) ≡ true
prev_of m a [] b e l h = ground arith
prev_of m a (x ∷ xs) b e l h = ground (arith, l.1, prev_of m x xs b e l.2)

-- The first entry of a path that has another.
Linked-del_first :
    (m : Links) (e a y : ℕ) (xs : List ℕ) (b : ℕ)
    → Linked m a (e ∷ y ∷ xs) b
    → Distinct (a ∷ e ∷ y ∷ xs)
    → has b (e ∷ y ∷ xs) ≡ false
    → Linked (list_del m e) a (y ∷ xs) b
unfolding list_del list_del_between
Linked-del_first m e a y xs b l d nb =
    let rest =
      Linked-frame m (list_del m e) y xs b (λ z h. ground (arith, l.1))
        (λ z h. ground (arith, l.2.0)) l.2.2 in
    ground (arith, rest, l.1, l.2.0)

Linked-del_later :
    (m : Links) (e a x : ℕ) (xs : List ℕ) (b : ℕ)
    → Linked m a (x ∷ xs) b
    → has e xs ≡ true
    → Distinct (a ∷ x ∷ xs)
    → has b (x ∷ xs) ≡ false
    → Linked (list_del m e) x (erase e xs) b
    → Linked (list_del m e) a (x ∷ erase e xs) b
unfolding list_del list_del_between
Linked-del_later m e a x xs b l h d nb rest =
    ground (arith, rest, next_of m x xs b e l.2 h, prev_of m x xs b e l.2 h, l.0, l.1)

pub Linked-del :
    (m : Links) (e a : ℕ) (xs : List ℕ) (b : ℕ)
    → Linked m a xs b
    → has e xs ≡ true
    → Distinct (a ∷ xs)
    → has b xs ≡ false
    → Linked (list_del m e) a (erase e xs) b
unfolding list_del list_del_between
Linked-del m e a [] b l h d nb = ground arith
Linked-del m e a (x ∷ []) b l h d nb = ground (arith, l.0, l.1, l.2.0, l.2.1)
Linked-del m e a (x ∷ y ∷ xs) b l h d nb = elim (Bool-cases (x == e)) [
  | inl hit ↦ rw hit (ground (arith, Linked-del_first m x a y xs b l d nb))
  | inr miss ↦ rw miss (
      Linked-del_later m e a x (y ∷ xs) b l (ground arith) d nb
        (Linked-del m e x (y ∷ xs) b l.2 (ground arith) d.1 (ground arith)))
]
