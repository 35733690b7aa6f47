-- ===== src/Pcb/Loops.antt =====
-- The loops of phase1/pcb.c over a queue: they end, and what they compute.
use project.Common.{
  ℕ, zero, suc, ◌+◌, ◌-◌, ◌<◌, ◌≡◌, ◌≢◌, Bool, true, false, ◌||◌, List, [], ◌∷◌, arith, ◌==◌,
  if◌then◌else◌, Bool-cases, inl, inr, has, Distinct, length,
}
use project.Listx.{Links, null, list_del, list_del_between}
use project.Listx.Ring.{Linked}
use project.Types.{State, p_list}
use project.Types.Machine.{ret, pure, list_for_each}
use project.Pcb.{out_round, search_pcb_round}

-- The `next` links lead from `a` through `xs` to `b`.
abbrev pub Forward : Links → ℕ → List ℕ → ℕ → Type 0
Forward m a [] b = m.next a ≡ b
Forward m a (x ∷ xs) b = (m.next a ≡ x) × Forward m x xs b

pub Forward-Linked : (m : Links) (a : ℕ) (xs : List ℕ) (b : ℕ) → Linked m a xs b → Forward m a xs b
Forward-Linked m a [] b l = l.0
Forward-Linked m a (x ∷ xs) b l = (l.0, Forward-Linked m x xs b l.2)

Forward-frame :
    (m m' : Links) (a : ℕ) (xs : List ℕ) (b : ℕ)
    → ((x : ℕ) → has x (a ∷ xs) ≡ true → m'.next x ≡ m.next x)
    → Forward m a xs b
    → Forward m' a xs b
Forward-frame m m' a [] b same l = ground (arith, same a)
Forward-frame m m' a (x ∷ xs) b same l =
    ground (arith, same a, Forward-frame m m' x xs b (λ y h. same y (ground arith)) l.1)

-- The search answers whether `p` is in the rest of the queue, and changes nothing.
pub search_loop :
    (fuel p head a : ℕ) (xs : List ℕ) (acc : Bool) (s : State)
    → Forward s.links a xs head
    → has head xs ≡ false
    → length xs < fuel
    → list_for_each fuel (s.links.next a) head acc (search_pcb_round p) pure s
      ≡ ret (acc || has (p_list p) xs) s
unfolding list_for_each search_pcb_round
search_loop zero p head a xs acc s l nb h = absurd (omega arith)
search_loop (suc fuel) p head a [] acc s l nb h = ground arith
search_loop (suc fuel) p head a (x ∷ xs) acc s l nb h =
    let ih = λ (b : Bool). search_loop fuel p head x xs b s l.1 (ground arith) (omega arith) in
    ground (arith, ih true, ih acc)

-- The links after the loop of `outProcQ`.
abbrev pub out_links : (off p : ℕ) → Links → List ℕ → Links
out_links off p m xs = if has (p + off) xs then list_del m (p + off) else m

module _ (off p head : ℕ) (ne : p ≢ null) where
  -- Where the rest of the queue does not hold `p`, the loop changes nothing.
  out_loop_absent :
      (fuel a : ℕ) (xs : List ℕ) (acc : ℕ) (s : State)
      → Forward s.links a xs head
      → has head xs ≡ false
      → has (p + off) xs ≡ false
      → length xs < fuel
      → list_for_each fuel (s.links.next a) head acc (out_round off p) pure s ≡ ret acc s
  unfolding list_for_each out_round
  out_loop_absent zero a xs acc s l nb out h = absurd (omega arith)
  out_loop_absent (suc fuel) a [] acc s l nb out h = ground arith
  out_loop_absent (suc fuel) a (x ∷ xs) acc s l nb out h =
      ground
        (arith, out_loop_absent fuel x xs acc s l.1 (ground arith) (ground arith) (omega arith))

  -- The first node of the rest is that of `p`: it is taken out, and the loop runs on to the end.
  out_loop_found :
      (fuel a x : ℕ) (xs : List ℕ) (s : State)
      → x ≡ p + off
      → Linked s.links a (x ∷ xs) head
      → Distinct (a ∷ x ∷ xs)
      → has head (x ∷ xs) ≡ false
      → length xs < fuel
      → list_for_each fuel
          ((list_del s.links x).next x)
          head
          p
          (out_round off p)
          pure
          (record s { links = list_del s.links x })
        ≡ ret p (record s { links = list_del s.links x })
  unfolding list_del list_del_between
  out_loop_found fuel a x xs s e l d nb h =
      out_loop_absent fuel x xs p (record s { links = list_del s.links x })
        (Forward-frame s.links (list_del s.links x) x xs head (λ y i. ground (arith, l.1))
          (Forward-Linked s.links x xs head l.2))
        (ground arith) (ground arith) h

  pub out_loop :
      (fuel a : ℕ) (xs : List ℕ) (acc : ℕ) (s : State)
      → Linked s.links a xs head
      → Distinct (a ∷ xs)
      → has head xs ≡ false
      → length xs < fuel
      → list_for_each fuel (s.links.next a) head acc (out_round off p) pure s
        ≡ ret
            (if has (p + off) xs then p else acc)
            (record s { links = out_links off p s.links xs })
  unfolding list_for_each out_round
  out_loop zero a xs acc s l d nb h = absurd (omega arith)
  out_loop (suc fuel) a [] acc s l d nb h = ground arith
  out_loop (suc fuel) a (x ∷ xs) acc s l d nb h = elim (Bool-cases (x == p + off)) [
    | inl hit ↦
        let e : x ≡ p + off = ground arith in
        let back : x - off ≡ p = omega arith in
        ground (arith, out_loop_found fuel a x xs s e l d nb (omega arith))
    | inr miss ↦ ground (arith, out_loop fuel x xs acc s l.2 d.1 (ground arith) (omega arith))
  ]
