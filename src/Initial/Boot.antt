-- ===== src/Initial/Boot.antt =====
-- The first half of main of phase2/initial.c: both pools and all queues of the kernel are made.
use mathlib.Core.Path.{subst}
use project.Common.{
  ℕ, zero, suc, ◌+◌, ◌*◌, ◌≤◌, ◌<◌, ◌≡◌, refl, ◌∙◌, Bool, true, false, not, ◌&&◌, List, [], arith,
  ◌==◌, ltb, eq_of_==, has, update, Bool-cases, inl, inr,
}
use project.Types.{
  Layout, max_device, max_proc, max_messages, sizeof_pcb, sizeof_msg, p_list, m_list,
}
use project.Types.Table.{entry, is_entry, has-push_entries}
use project.Pcb.Init.{all_blocks}
use project.Msg.Init.{all_messages}
use project.Utils.Queues.{queue_at}
use project.Initial.Blocks.{block, below}

-- Whether an address lies in the table of blocks, or in that of messages.
abbrev pub in_pcbs : Layout → ℕ → Bool
in_pcbs l x = not (ltb x l.pcb_table) && ltb x (l.pcb_table + max_proc * sizeof_pcb)

abbrev pub in_msgs : Layout → ℕ → Bool
in_msgs l x = not (ltb x l.msg_table) && ltb x (l.msg_table + max_messages * sizeof_msg)

abbrev pub IsOut : Layout → ℕ → Type 0
IsOut l x = (in_pcbs l x ≡ false) × (in_msgs l x ≡ false)

-- Where the linker may put the static variables: no head lies in a table, the tables are apart, and
-- the heads of the pools and of the ready queue are not those of other lists.
pub record IsLinked (l : Layout) : Type 0 where
  pub tables : (x : ℕ) → in_pcbs l x ≡ true → in_msgs l x ≡ false
  pub pcb_free_out : IsOut l l.pcb_free_h
  pub msg_free_out : IsOut l l.msg_free_h
  pub ready_out : IsOut l l.ready_queue
  pub clock_out : IsOut l l.pcb_blocked_on_clock
  pub devices_out : (j : ℕ) → j < max_device → IsOut l (queue_at l.pcb_blocked_on_device j)
  pub pools_ne : (l.pcb_free_h == l.msg_free_h) ≡ false
  pub ready_ne :
      ((l.ready_queue == l.pcb_free_h) ≡ false) × ((l.ready_queue == l.msg_free_h) ≡ false)
  pub clock_ne :
      ((l.pcb_blocked_on_clock == l.pcb_free_h) ≡ false)
      × ((l.pcb_blocked_on_clock == l.msg_free_h) ≡ false)
      × ((l.pcb_blocked_on_clock == l.ready_queue) ≡ false)
  pub devices_ne :
      (j : ℕ)
      → j < max_device
      → ((queue_at l.pcb_blocked_on_device j == l.pcb_free_h) ≡ false)
        × ((queue_at l.pcb_blocked_on_device j == l.msg_free_h) ≡ false)
        × ((queue_at l.pcb_blocked_on_device j == l.ready_queue) ≡ false)

-- The two heads that are initialised statically, and all lists empty.
abbrev pub pool_heads : Layout → ℕ → Bool
pool_heads l = update (update (λ _. false) l.pcb_free_h true) l.msg_free_h true

abbrev pub no_lists : ℕ → List ℕ
no_lists _ = []

pub pool_heads-IsOut : (l : Layout) → IsLinked l → (a : ℕ) → pool_heads l a ≡ true → IsOut l a
pool_heads-IsOut l k a ha = elim (Bool-cases (l.msg_free_h == a)) [
  | inl msg ↦ subst (IsOut l) (eq_of_== l.msg_free_h a msg) k.msg_free_out
  | inr other ↦ elim (Bool-cases (l.pcb_free_h == a)) [
    | inl pcb ↦ subst (IsOut l) (eq_of_== l.pcb_free_h a pcb) k.pcb_free_out
    | inr none ↦ absurd (ground (arith, rw (other, none) at ha))
  ]
]

-- Addresses in the blocks and in the messages.
pub block_in :
    (l : Layout) (i r : ℕ) → i < max_proc → r < sizeof_pcb → in_pcbs l (block l i + r) ≡ true
block_in l i r lt small = ground arith

pub message_in :
    (l : Layout) (i : ℕ)
    → i < max_messages
    → in_msgs l (m_list (entry l.msg_table sizeof_msg i)) ≡ true
message_in l i lt = ground arith

pub below_in : (l : Layout) (n x : ℕ) → n ≤ max_proc → has x (below l n) ≡ true → in_pcbs l x ≡ true
below_in l zero x le h = cc
below_in l (suc n) x le h = elim (Bool-cases (p_list (block l n) == x)) [
  | inl here ↦
      subst (λ y. in_pcbs l y ≡ true) (eq_of_== (p_list (block l n)) x here)
        (block_in l n 0 (omega arith) (omega arith))
  | inr other ↦ below_in l n x (omega arith) (rw other at h)
]

pub is_entry_in :
    (l : Layout) (n i x : ℕ)
    → i + n ≤ max_messages
    → is_entry l.msg_table sizeof_msg 0 n i x ≡ true
    → in_msgs l x ≡ true
is_entry_in l zero i x le h = cc
is_entry_in l (suc n) i x le h = elim (Bool-cases (entry l.msg_table sizeof_msg i + 0 == x)) [
  | inl here ↦
      subst (λ y. in_msgs l y ≡ true) (eq_of_== (m_list (entry l.msg_table sizeof_msg i)) x here)
        (message_in l i (omega arith))
  | inr other ↦ is_entry_in l n (i + 1) x (omega arith) (rw other at h)
]

pub all_blocks-below : (l : Layout) → all_blocks l.pcb_table ≡ below l max_proc
all_blocks-below l = refl

pub not_block : (l : Layout) (x : ℕ) → in_pcbs l x ≡ false → has x (all_blocks l.pcb_table) ≡ false
not_block l x out = elim (Bool-cases (has x (below l max_proc))) [
  | inl mine ↦ absurd (ground (arith, below_in l max_proc x (omega arith) mine, out))
  | inr gone ↦ gone
]

pub not_message :
    (l : Layout) (x : ℕ) → in_msgs l x ≡ false → has x (all_messages l.msg_table) ≡ false
not_message l x out = elim (Bool-cases (is_entry l.msg_table sizeof_msg 0 max_messages 0 x)) [
  | inl mine ↦ absurd (ground (arith, is_entry_in l max_messages 0 x (omega arith) mine, out))
  | inr gone ↦ has-push_entries l.msg_table sizeof_msg 0 max_messages 0 x [] ∙ rw gone refl
]
