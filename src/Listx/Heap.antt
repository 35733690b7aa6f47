-- ===== src/Listx/Heap.antt =====
-- All the lists of a memory at once: the heads, the entries of each, and that no node stands in
-- two lists. Each primitive of headers/listx.h moves one node between the lists of this view.
use mathlib.Core.Path.{subst}
use project.Common.{
  ℕ, ◌≡◌, refl, Bool, true, false, ◌||◌, List, [], ◌∷◌, ◌++◌, arith, ◌==◌, update, has, erase,
  Distinct, Bool-cases, inl, inr, eq_of_==, has-append, Distinct-snoc, Distinct-erase, has-erase_ne,
  has-erase_self,
}
use project.Listx.{
  Links, init_list_head, list_add, list_add_tail, list_add_between, list_del, list_del_between,
}
use project.Listx.Ring.{Ring, Linked-frame, prev-last, has-last, next-head}
use project.Listx.Insert.{Linked-add, Linked-add_tail}
use project.Listx.Delete.{Linked-del, next_of, prev_of}

-- `H` tells the heads, `V` the entries of each.
pub record IsHeap (m : Links) (H : ℕ → Bool) (V : ℕ → List ℕ) : Type 0 where
  pub ring : (a : ℕ) → H a ≡ true → Ring m a (V a)
  pub apart :
      (a b x : ℕ)
      → H a ≡ true
      → H b ≡ true
      → has x (a ∷ V a) ≡ true
      → has x (b ∷ V b) ≡ true
      → a ≡ b

-- No list has the node, as its head or as an entry.
abbrev pub Unowned : (ℕ → Bool) → (ℕ → List ℕ) → ℕ → Type 0
Unowned H V n = (a : ℕ) → H a ≡ true → has n (a ∷ V a) ≡ false

-- A ring that one operation leaves alone, since it changes links of other nodes only.
abbrev SameAt : Links → Links → ℕ → Type 0
SameAt m m' x = (m'.next x ≡ m.next x) × (m'.prev x ≡ m.prev x)

Ring-frame :
    (m m' : Links) (a : ℕ) (xs : List ℕ)
    → ((x : ℕ) → has x (a ∷ xs) ≡ true → SameAt m m' x)
    → Ring m a xs
    → Ring m' a xs
Ring-frame m m' a xs same r = record {
  linked =
      Linked-frame m m' a xs a (λ x h. (same x h).0) (λ x h. (same x (ground arith)).1) r.linked;
  distinct = r.distinct;
}

-- The rings of a heap after a change that touches the list of one head only.
module _ {m : Links} {H : ℕ → Bool} {V : ℕ → List ℕ} (heap : IsHeap m H V) (m' : Links) (hd : ℕ)
    (zs : List ℕ) where
  alone :
      (a x : ℕ)
      → H hd ≡ true
      → H a ≡ true
      → (hd == a) ≡ false
      → has x (a ∷ V a) ≡ true
      → has x (hd ∷ V hd) ≡ false
  alone a x head ha ne h = elim (Bool-cases (has x (hd ∷ V hd))) [
    | inl both ↦ absurd (ground (arith, heap.apart a hd x ha head h both))
    | inr out ↦ out
  ]

  rings_after :
      H hd ≡ true
      → ((x : ℕ) (a : ℕ)
          → H a ≡ true
          → has x (a ∷ V a) ≡ true
          → has x (hd ∷ V hd) ≡ false
          → SameAt m m' x)
      → Ring m' hd zs
      → (a : ℕ) → H a ≡ true
      → Ring m' a (update V hd zs a)
  rings_after head same new a ha = elim (Bool-cases (hd == a)) [
    | inl hit ↦ rw hit (subst (λ k. Ring m' k zs) (eq_of_== hd a hit) new)
    | inr miss ↦
        rw miss (
          Ring-frame m m' a (V a) (λ x h. same x a ha h (alone a x head ha miss h))
            (heap.ring a ha))
  ]

module _ {m : Links} {H : ℕ → Bool} {V : ℕ → List ℕ} (heap : IsHeap m H V) where
  -- The new entries are those of the old list and `new`, which no list has.
  apart_after :
      (new hd : ℕ) (zs : List ℕ)
      → Unowned H V new
      → ((x : ℕ) → has x zs ≡ true → ((new == x) || has x (V hd)) ≡ true)
      → (a b x : ℕ) → H a ≡ true
      → H b ≡ true
      → has x (a ∷ update V hd zs a) ≡ true
      → has x (b ∷ update V hd zs b) ≡ true
      → a ≡ b
  apart_after new hd zs free sub a b x ha hb p q =
      ground (arith, heap.apart a b x ha hb, free a ha, free b hb, sub x)

  add_tail-Ring :
      (new hd : ℕ)
      → H hd ≡ true
      → Unowned H V new
      → Ring (list_add_tail m new hd) hd (V hd ++ (new ∷ []))
  unfolding list_add_tail
  add_tail-Ring new hd head free = record {
    linked =
        Linked-add_tail m new hd (V hd) hd r.linked (free hd head) (ground (arith, free hd head))
          r.distinct r.distinct.0;
    distinct = ground (arith, Distinct-snoc (hd ∷ V hd) new r.distinct (free hd head));
  }
    where
      r : Ring m hd (V hd)
      r = heap.ring hd head

  -- In a memory of disjoint circular lists, `list_add_tail` puts a node that no list has at the end
  -- of a list, and changes no other list.
  pub list_add_tail-IsHeap :
      (new hd : ℕ)
      → H hd ≡ true
      → Unowned H V new
      → IsHeap (list_add_tail m new hd) H (update V hd (V hd ++ (new ∷ [])))
  unfolding list_add_tail list_add_between
  list_add_tail-IsHeap new hd head free = record {
    ring =
        rings_after heap (list_add_tail m new hd) hd _ head
          (λ x a ha h out. ground (
            arith,
            free a ha,
            prev-last m hd (V hd) hd (heap.ring hd head).linked,
            has-last hd (V hd),
          ))
          (add_tail-Ring new hd head free);
    apart = apart_after new hd _ free (λ x h. ground (arith, has-append x (V hd) (new ∷ [])));
  }

  add-Ring : (new hd : ℕ) → H hd ≡ true → Unowned H V new → Ring (list_add m new hd) hd (new ∷ V hd)
  unfolding list_add
  add-Ring new hd head free = record {
    linked =
        Linked-add m new hd (V hd) hd r.linked (free hd head) (ground (arith, free hd head))
          r.distinct r.distinct.0;
    distinct = ground (arith, r.distinct, free hd head);
  }
    where
      r : Ring m hd (V hd)
      r = heap.ring hd head

  -- In a memory of disjoint circular lists, `list_add` puts a node that no list has in front of a
  -- list, and changes no other list.
  pub list_add-IsHeap :
      (new hd : ℕ)
      → H hd ≡ true
      → Unowned H V new
      → IsHeap (list_add m new hd) H (update V hd (new ∷ V hd))
  unfolding list_add list_add_between
  list_add-IsHeap new hd head free = record {
    ring =
        rings_after heap (list_add m new hd) hd _ head
          (λ x a ha h out.
            ground (arith, free a ha, next-head m hd (V hd) hd (heap.ring hd head).linked))
          (add-Ring new hd head free);
    apart = apart_after new hd _ free (λ x h. ground arith);
  }

  del-Ring :
      (e hd : ℕ) → H hd ≡ true → has e (V hd) ≡ true → Ring (list_del m e) hd (erase e (V hd))
  del-Ring e hd head h = record {
    linked = Linked-del m e hd (V hd) hd r.linked h r.distinct r.distinct.0;
    distinct = (has-erase_ne hd e (V hd) r.distinct.0, Distinct-erase e (V hd) r.distinct.1);
  }
    where
      r : Ring m hd (V hd)
      r = heap.ring hd head

  apart_erase :
      (e hd : ℕ)
      → (a b x : ℕ) → H a ≡ true
      → H b ≡ true
      → has x (a ∷ update V hd (erase e (V hd)) a) ≡ true
      → has x (b ∷ update V hd (erase e (V hd)) b) ≡ true
      → a ≡ b
  apart_erase e hd a b x ha hb p q = ground (arith, heap.apart a b x ha hb, has-erase_ne x e (V hd))

  -- In a memory of disjoint circular lists, `list_del` of an entry takes it out of its list, keeps
  -- the order of the others, and changes no other list.
  pub list_del-IsHeap :
      (e hd : ℕ)
      → H hd ≡ true
      → has e (V hd) ≡ true
      → IsHeap (list_del m e) H (update V hd (erase e (V hd)))
  unfolding list_del list_del_between
  list_del-IsHeap e hd head h = record {
    ring =
        rings_after heap (list_del m e) hd _ head
          (λ x a ha i out.
            ground
              (arith, next_of m hd (V hd) hd e r.linked h, prev_of m hd (V hd) hd e r.linked h))
          (del-Ring e hd head h);
    apart = apart_erase e hd;
  }
    where
      r : Ring m hd (V hd)
      r = heap.ring hd head

  -- `INIT_LIST_HEAD` on a node that no list has.
  pub init_list_head-Unowned : (n : ℕ) → Unowned H V n → IsHeap (init_list_head m n) H V
  unfolding init_list_head
  init_list_head-Unowned n free = record {
    ring = λ a ha.
        Ring-frame m (init_list_head m n) a (V a) (λ x h. ground (arith, free a ha))
          (heap.ring a ha);
    apart = heap.apart;
  }

  -- `INIT_LIST_HEAD` on a node that is no entry makes it the head of an empty list. What its list
  -- held before is in no list afterwards.
  pub init_list_head-IsHeap :
      (n : ℕ)
      → ((a : ℕ) → H a ≡ true → has n (V a) ≡ false)
      → IsHeap (init_list_head m n) (update H n true) (update V n [])
  unfolding init_list_head
  init_list_head-IsHeap n free = record {
    ring = λ a ha. elim (Bool-cases (n == a)) [
      | inl hit ↦ rw hit (record { linked = ground arith; distinct = (refl, tt) })
      | inr miss ↦ rw miss (
          Ring-frame m (init_list_head m n) a (V a) (λ x h. ground (arith, free a (ground arith)))
            (heap.ring a (ground arith)))
    ];
    apart = λ a b x ha hb p q. ground (arith, heap.apart a b x, free a, free b);
  }

  -- An entry that was taken out of its list is in none.
  pub Unowned-erase :
      (e hd : ℕ) → H hd ≡ true → has e (V hd) ≡ true → Unowned H (update V hd (erase e (V hd))) e
  Unowned-erase e hd head h a ha = elim (Bool-cases (has e (a ∷ V a))) [
    | inl own ↦
        let same : a ≡ hd = heap.apart a hd e ha head own (ground arith) in
        ground (
          arith,
          has-erase_self e (V hd) (heap.ring hd head).distinct.1,
          (heap.ring hd head).distinct.0,
        )
    | inr out ↦ ground (arith, has-erase_ne e e (V hd))
  ]

  pub Distinct-entries : (hd : ℕ) → H hd ≡ true → Distinct (V hd)
  Distinct-entries hd head = (heap.ring hd head).distinct.1

-- `list_del` and `INIT_LIST_HEAD` of the first entry.
pub unlink_first :
    {m : Links} {H : ℕ → Bool} {V : ℕ → List ℕ} (heap : IsHeap m H V) (e hd : ℕ) (rest : List ℕ)
    → H hd ≡ true
    → V hd ≡ e ∷ rest
    → IsHeap (init_list_head (list_del m e) e) H (update V hd rest)
unlink_first {m} {H} {V} heap e hd rest head eq =
    let mine : has e (V hd) ≡ true = ground (arith, eq) in
    let left : erase e (V hd) ≡ rest = ground (arith, eq) in
    rw left at (
      init_list_head-Unowned (list_del-IsHeap heap e hd head mine) e
        (Unowned-erase heap e hd head mine))

pub Unowned-first :
    {m : Links} {H : ℕ → Bool} {V : ℕ → List ℕ} (heap : IsHeap m H V) (e hd : ℕ) (rest : List ℕ)
    → H hd ≡ true
    → V hd ≡ e ∷ rest
    → Unowned H (update V hd rest) e
Unowned-first {V} heap e hd rest head eq =
    let mine : has e (V hd) ≡ true = ground (arith, eq) in
    let left : erase e (V hd) ≡ rest = ground (arith, eq) in
    rw left at (Unowned-erase heap e hd head mine)
