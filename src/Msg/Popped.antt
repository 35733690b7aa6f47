-- ===== src/Msg/Popped.antt =====
-- Whether an inbox has a message for a receive, and which one popMessage of phase1/msg.c takes.
use project.Common.{
  ℕ, ◌≡◌, refl, Bool, true, false, not, List, [], ◌∷◌, arith, ◌==◌, if◌then◌else◌, has, Distinct,
  erase, is_empty, update,
}
use project.Listx.{Links, null}
use project.Listx.Heap.{IsHeap, Unowned, Unowned-erase, Distinct-entries}
use project.Types.{Msg}
use project.Msg.Loops.{any_from, first_from, has-first_from, erase-first_from, without_first-none}
use project.Msg.Queue.{popped, left_over}

-- There is a message from `p`, or any at all for NULL.
abbrev pub has_message : (ℕ → Msg) → ℕ → List ℕ → Bool
has_message msg p xs = if p == null then not (is_empty xs) else any_from msg p xs

first_from-none :
    (msg : ℕ → Msg) (p : ℕ) (xs : List ℕ) → any_from msg p xs ≡ false → first_from msg p xs ≡ null
first_from-none msg p [] h = refl
first_from-none msg p (x ∷ xs) h = ground (arith, first_from-none msg p xs)

pub popped-none :
    (msg : ℕ → Msg) (p : ℕ) (xs : List ℕ)
    → has_message msg p xs ≡ false
    → (popped msg p xs ≡ null) × (left_over msg p xs ≡ xs)
popped-none msg p [] h = ground arith
popped-none msg p (x ∷ xs) h =
    ground (arith, first_from-none msg p (x ∷ xs), without_first-none msg p (x ∷ xs))

pub popped-some :
    (msg : ℕ → Msg) (p : ℕ) (xs : List ℕ)
    → has_message msg p xs ≡ true
    → Distinct xs
    → (has (popped msg p xs) xs ≡ true) × (erase (popped msg p xs) xs ≡ left_over msg p xs)
popped-some msg p [] h d = ground arith
popped-some msg p (x ∷ xs) h d =
    ground (arith, has-first_from msg p (x ∷ xs), erase-first_from msg p (x ∷ xs) d)

-- The message that was taken is in no list.
pub Unowned-popped :
    (msg : ℕ → Msg) (p : ℕ) {m : Links} {H : ℕ → Bool} {V : ℕ → List ℕ} (heap : IsHeap m H V)
    (head : ℕ)
    → H head ≡ true
    → has_message msg p (V head) ≡ true
    → Unowned H (update V head (left_over msg p (V head))) (popped msg p (V head))
Unowned-popped msg p {V} heap head is_head h =
    let (mine, rest) = popped-some msg p (V head) h (Distinct-entries heap head is_head) in
    rw rest at (Unowned-erase heap (popped msg p (V head)) head is_head mine)
