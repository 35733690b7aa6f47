-- ===== src/Msg/Loops.antt =====
-- The loops of phase1/msg.c over a queue: they end, and what they compute.
use project.Common.{
  ℕ, zero, suc, ◌<◌, ◌≡◌, refl, Bool, true, false, ◌||◌, List, [], ◌∷◌, arith, ◌==◌, if◌then◌else◌,
  has, length, erase, Distinct,
}
use project.Listx.{Links, null, container_of, list_del}
use project.Types.{State, Msg, offset_m_list}
use project.Types.Machine.{ret, pure, list_for_each}
use project.Pcb.Loops.{Forward}
use project.Msg.{pop_message_round, search_msg_round}

-- The sender of the message with the node `x`.
abbrev pub sender : (ℕ → Msg) → ℕ → ℕ
sender msg x = (msg (container_of x offset_m_list)).m_sender

-- Whether a message of the queue is from `p`, the first such message, and the queue without it.
abbrev pub any_from : (ℕ → Msg) → ℕ → List ℕ → Bool
any_from msg p [] = false
any_from msg p (x ∷ xs) = (sender msg x == p) || any_from msg p xs

abbrev pub first_from : (ℕ → Msg) → ℕ → List ℕ → ℕ
first_from msg p [] = null
first_from msg p (x ∷ xs) = if sender msg x == p then x else first_from msg p xs

abbrev pub without_first : (ℕ → Msg) → ℕ → List ℕ → List ℕ
without_first msg p [] = []
without_first msg p (x ∷ xs) = if sender msg x == p then xs else x ∷ without_first msg p xs

pub has-first_from :
    (msg : ℕ → Msg) (p : ℕ) (xs : List ℕ)
    → any_from msg p xs ≡ true
    → has (first_from msg p xs) xs ≡ true
has-first_from msg p [] h = h
has-first_from msg p (x ∷ xs) h = ground (arith, has-first_from msg p xs)

pub erase-first_from :
    (msg : ℕ → Msg) (p : ℕ) (xs : List ℕ)
    → Distinct xs
    → any_from msg p xs ≡ true
    → erase (first_from msg p xs) xs ≡ without_first msg p xs
erase-first_from msg p [] d h = refl
erase-first_from msg p (x ∷ xs) d h =
    ground (arith, erase-first_from msg p xs d.1, has-first_from msg p xs)

pub without_first-none :
    (msg : ℕ → Msg) (p : ℕ) (xs : List ℕ) → any_from msg p xs ≡ false → without_first msg p xs ≡ xs
without_first-none msg p [] h = refl
without_first-none msg p (x ∷ xs) h = ground (arith, without_first-none msg p xs)

-- The links after the loop of `popMessage`.
abbrev pub popped_links : (ℕ → Msg) → ℕ → Links → List ℕ → Links
popped_links msg p m xs = if any_from msg p xs then list_del m (first_from msg p xs) else m

pub pop_loop :
    (fuel p head a : ℕ) (xs : List ℕ) (s : State)
    → Forward s.links a xs head
    → has head xs ≡ false
    → length xs < fuel
    → list_for_each fuel (s.links.next a) head tt (pop_message_round p) (λ _. pure null) s
      ≡ ret
          (container_of (first_from s.msg p xs) offset_m_list)
          (record s { links = popped_links s.msg p s.links xs })
unfolding list_for_each pop_message_round
pop_loop zero p head a xs s l nb h = absurd (omega arith)
pop_loop (suc fuel) p head a [] s l nb h = ground arith
pop_loop (suc fuel) p head a (x ∷ xs) s l nb h =
    ground (arith, pop_loop fuel p head x xs s l.1 (ground arith) (omega arith))

pub search_msg_loop :
    (fuel p head a : ℕ) (xs : List ℕ) (acc : Bool) (s : State)
    → Forward s.links a xs head
    → has head xs ≡ false
    → length xs < fuel
    → list_for_each fuel (s.links.next a) head acc (search_msg_round p) pure s
      ≡ ret (acc || any_from s.msg p xs) s
unfolding list_for_each search_msg_round
search_msg_loop zero p head a xs acc s l nb h = absurd (omega arith)
search_msg_loop (suc fuel) p head a [] acc s l nb h = ground arith
search_msg_loop (suc fuel) p head a (x ∷ xs) acc s l nb h =
    let ih = λ (b : Bool). search_msg_loop fuel p head x xs b s l.1 (ground arith) (omega arith) in
    ground (arith, ih true, ih acc)
