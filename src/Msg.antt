-- ===== src/Msg.antt =====
-- phase1/msg.c: the message descriptors and the queues of messages.
pub mod Loops
pub mod Queue
pub mod Alloc
pub mod Init
pub mod Popped
use project.Common.{ℕ, zero, suc, ◌+◌, ◌*◌, Bool, true, false, ◌==◌, if◌then◌else◌}
use project.Listx.{
  null, container_of, init_list_head, list_add, list_add_tail, list_del, list_empty, list_next,
}
use project.Types.{State, Msg, max_messages, offset_m_list, sizeof_msg, m_list}
use project.Types.Machine.{
  Cmd, pure, ◌>>=◌, ◌>>◌, gets, on_links, on_msg, critical, Flow, go, done, list_for_each,
}

unfoldable pub free_msg : ℕ → Cmd (Unit {0})
free_msg m =
    critical (do free_h ← gets (λ s. s.msg_free_h); on_links (λ l. list_add l (m_list m) free_h))

abbrev pub fresh_msg : Msg
fresh_msg = record { m_sender = null; m_payload = 0 }

unfoldable pub alloc_msg : Cmd ℕ
alloc_msg = critical (do
  free_h ← gets (λ s. s.msg_free_h)
  is_empty ← gets (λ s. list_empty s.links free_h)
  if is_empty then pure null else do
    tmp ← gets (λ s. container_of (s.links.next free_h) offset_m_list)
    on_links (λ l. list_del l (m_list tmp))
    on_links (λ l. init_list_head l (m_list tmp))
    on_msg tmp (λ m. record m { m_sender = null })
    on_msg tmp (λ m. record m { m_payload = 0 })
    pure tmp)

-- `for (i = 0; i < MAXMESSAGES; i++)`, by the rounds left.
unfoldable pub init_msgs_from : (rounds i : ℕ) → Cmd (Unit {0})
init_msgs_from zero i = pure tt
init_msgs_from (suc n) i = do
  table ← gets (λ s. s.msg_table)
  free_h ← gets (λ s. s.msg_free_h)
  on_links (λ l. list_add l (m_list (table + i * sizeof_msg)) free_h)
  init_msgs_from n (i + 1)

unfoldable pub init_msgs : Cmd (Unit {0})
unfolding init_msgs_from
init_msgs = critical (init_msgs_from max_messages 0)

unfoldable pub mk_empty_message_q : ℕ → Cmd (Unit {0})
mk_empty_message_q head = critical (on_links (λ l. init_list_head l head))

unfoldable pub empty_message_q : ℕ → Cmd Bool
empty_message_q head = critical (gets (λ s. list_empty s.links head))

unfoldable pub insert_message : (head m : ℕ) → Cmd (Unit {0})
insert_message head m = critical (on_links (λ l. list_add_tail l (m_list m) head))

unfoldable pub push_message : (head m : ℕ) → Cmd (Unit {0})
push_message head m = critical (on_links (λ l. list_add l (m_list m) head))

-- No queue of messages is longer than the table; one round more finds the end.
abbrev pub message_fuel : ℕ
message_fuel = max_messages + 1

-- One round of the loop of `popMessage`.
unfoldable pub pop_message_round : (p_ptr : ℕ) → Unit {0} → ℕ → Cmd (Flow (Unit {0}) ℕ)
pop_message_round p_ptr l iter = do
  let tmp = container_of iter offset_m_list
  sender ← gets (λ s. (s.msg tmp).m_sender)
  if sender == p_ptr
      then (do on_links (λ l. list_del l (m_list tmp)); pure (done tmp))
      else pure (go tt)

unfoldable pub pop_message : (head p_ptr : ℕ) → Cmd ℕ
unfolding pop_message_round
pop_message head p_ptr = critical (do
  is_empty ← gets (λ s. list_empty s.links head)
  if is_empty
      then pure null
      else if p_ptr == null
      then (do
        tmp ← gets (λ s. container_of (list_next s.links head) offset_m_list)
        on_links (λ l. list_del l (m_list tmp))
        pure tmp)
      else (do
        first ← gets (λ s. s.links.next head)
        list_for_each message_fuel first head tt (pop_message_round p_ptr) (λ _. pure null)))

unfoldable pub head_message : ℕ → Cmd ℕ
head_message head = critical (do
  is_empty ← gets (λ s. list_empty s.links head)
  if is_empty then pure null else gets (λ s. container_of (list_next s.links head) offset_m_list))

unfoldable pub search_msg_round : (p_ptr : ℕ) → Bool → ℕ → Cmd (Flow Bool Bool)
search_msg_round p_ptr a iter = do
  let tmp = container_of iter offset_m_list
  sender ← gets (λ s. (s.msg tmp).m_sender)
  if sender == p_ptr then pure (go true) else pure (go a)

unfoldable pub search_msg : (head p_ptr : ℕ) → Cmd Bool
unfolding search_msg_round
search_msg head p_ptr = critical (do
  is_empty ← gets (λ s. list_empty s.links head)
  if is_empty then pure false else if p_ptr == null then pure false else (do
    first ← gets (λ s. s.links.next head)
    list_for_each message_fuel first head false (search_msg_round p_ptr) pure))
