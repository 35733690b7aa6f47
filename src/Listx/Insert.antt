-- ===== src/Listx/Insert.antt =====
-- list_add and list_add_tail of headers/listx.h on a path of links.
use project.Common.{ℕ, ◌≡◌, false, List, [], ◌∷◌, ◌++◌, arith, ◌==◌, has, Distinct}
use project.Listx.{Links, list_add_between}
use project.Listx.Ring.{Linked, Linked-frame, prev-last, has-last}

-- At the end of a path.
pub Linked-add_tail :
    (m : Links) (new a : ℕ) (xs : List ℕ) (b : ℕ)
    → Linked m a xs b
    → has new (a ∷ xs) ≡ false
    → (new == b) ≡ false
    → Distinct (a ∷ xs)
    → has b xs ≡ false
    → Linked (list_add_between m new (m.prev b) b) a (xs ++ (new ∷ [])) b
unfolding list_add_between
Linked-add_tail m new a [] b l out ne d nb = ground (arith, l.0, l.1)
Linked-add_tail m new a (x ∷ xs) b l out ne d nb =
    let rest = Linked-add_tail m new x xs b l.2 (ground arith) ne d.1 (ground arith) in
    ground (arith, rest, prev-last m x xs b l.2, has-last x xs, l.0, l.1)

-- At the start of a path.
pub Linked-add :
    (m : Links) (new a : ℕ) (xs : List ℕ) (b : ℕ)
    → Linked m a xs b
    → has new (a ∷ xs) ≡ false
    → (new == b) ≡ false
    → Distinct (a ∷ xs)
    → has b xs ≡ false
    → Linked (list_add_between m new a (m.next a)) a (new ∷ xs) b
unfolding list_add_between
Linked-add m new a [] b l out ne d nb = ground (arith, l.0, l.1)
Linked-add m new a (x ∷ xs) b l out ne d nb =
    let rest =
      Linked-frame m (list_add_between m new a (m.next a)) x xs b (λ y h. ground arith)
        (λ y h. ground (arith, l.0)) l.2 in
    ground (arith, rest, l.0, l.1)
