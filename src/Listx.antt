-- ===== src/Listx.antt =====
-- headers/listx.h: the intrusive circular doubly linked lists of the kernel. Memory is read through
-- the two fields of every `struct list_head`, at numeric addresses.
pub mod Ring
pub mod Insert
pub mod Delete
pub mod Heap
use project.Common.{ℕ, zero, suc, ◌-◌, Bool, Option, none, some, ◌==◌, if◌then◌else◌, update}

-- The `next` and `prev` fields of every list head.
pub record Links : Type 0 where
  pub next : ℕ → ℕ
  pub prev : ℕ → ℕ

abbrev pub null : ℕ
null = 0

pub set_next : Links → ℕ → ℕ → Links
set_next m a v = record m { next = update m.next a v }

pub set_prev : Links → ℕ → ℕ → Links
set_prev m a v = record m { prev = update m.prev a v }

-- `container_of`, with `offsetof` given as a number of bytes. A node lies at its offset or above, so
-- the subtraction is that of the source.
abbrev pub container_of : ℕ → ℕ → ℕ
container_of ptr offset = ptr - offset

unfoldable pub init_list_head : Links → ℕ → Links
unfolding set_next set_prev
init_list_head m list = set_prev (set_next m list list) list list

unfoldable pub list_add_between : Links → (new prv nxt : ℕ) → Links
unfolding set_next set_prev
list_add_between m new prv nxt =
    let m1 = set_prev m nxt new in
    let m2 = set_next m1 new nxt in let m3 = set_prev m2 new prv in set_next m3 prv new

unfoldable pub list_add : Links → (new head : ℕ) → Links
list_add m new head = list_add_between m new head (m.next head)

unfoldable pub list_add_tail : Links → (new head : ℕ) → Links
list_add_tail m new head = list_add_between m new (m.prev head) head

unfoldable pub list_del_between : Links → (prv nxt : ℕ) → Links
unfolding set_next set_prev
list_del_between m prv nxt = set_next (set_prev m nxt prv) prv nxt

unfoldable pub list_del : Links → ℕ → Links
list_del m entry = list_del_between m (m.prev entry) (m.next entry)

unfoldable pub list_is_last : Links → (list head : ℕ) → Bool
list_is_last m list head = m.next list == head

unfoldable pub list_empty : Links → ℕ → Bool
list_empty m head = m.next head == head

unfoldable pub list_next : Links → ℕ → ℕ
unfolding list_empty
list_next m current = if list_empty m current then null else m.next current

unfoldable pub list_prev : Links → ℕ → ℕ
unfolding list_empty
list_prev m current = if list_empty m current then null else m.prev current
