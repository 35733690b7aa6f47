-- ===== src/Types/Table.antt =====
-- A static table of structures, and the free list that an initialisation loop makes of it.
use project.Common.{
  ℕ, zero, suc, ◌+◌, ◌*◌, ◌≡◌, refl, ap, ◌∙◌, Bool, false, ◌||◌, List, ◌∷◌, arith, ◌==◌, has,
  length, update, update_self, update-update,
}

-- The address of entry `i` of a table with entries of `size` bytes.
abbrev pub entry : (table size i : ℕ) → ℕ
entry table size i = table + i * size

-- The nodes at `offset` in the entries `i`, `i + 1`, … (`n` of them), each put in front of the last.
abbrev pub push_entries : (table size offset n i : ℕ) → List ℕ → List ℕ
push_entries table size off zero i xs = xs
push_entries table size off (suc n) i xs =
    push_entries table size off n (i + 1) ((entry table size i + off) ∷ xs)

-- Whether an address is that of one of these nodes.
abbrev pub is_entry : (table size offset n i x : ℕ) → Bool
is_entry table size off zero i x = false
is_entry table size off (suc n) i x =
    (entry table size i + off == x) || is_entry table size off n (i + 1) x

pub length-push_entries :
    (table size off n i : ℕ) (xs : List ℕ)
    → length (push_entries table size off n i xs) ≡ n + length xs
length-push_entries table size off zero i xs = omega arith
length-push_entries table size off (suc n) i xs =
    omega (arith, length-push_entries table size off n (i + 1) ((entry table size i + off) ∷ xs))

pub has-push_entries :
    (table size off n i x : ℕ) (xs : List ℕ)
    → has x (push_entries table size off n i xs) ≡ (is_entry table size off n i x || has x xs)
has-push_entries table size off zero i x xs = refl
has-push_entries table size off (suc n) i x xs =
    ground (arith, has-push_entries table size off n (i + 1) x ((entry table size i + off) ∷ xs))

-- Two updates of one list, the second from what the first has made of it.
pub pushed_twice :
    (V : ℕ → List ℕ) (hd x : ℕ) (f : List ℕ → List ℕ)
    → update (update V hd (x ∷ V hd)) hd (f (update V hd (x ∷ V hd) hd))
      ≡ update V hd (f (x ∷ V hd))
pushed_twice V hd x f =
    ap (λ l. update (update V hd (x ∷ V hd)) hd (f l)) (update_self V hd (x ∷ V hd))
    ∙ update-update V hd (x ∷ V hd) (f (x ∷ V hd))
