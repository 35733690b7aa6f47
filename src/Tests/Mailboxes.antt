-- ===== src/Tests/Mailboxes.antt =====
-- The two system calls and their mailboxes, at the memory of `Memory`.
use project.Common.{refl, arith}
use project.Exceptions.{send_message, receive_case}
use project.Exceptions.Mailbox.{sending, view, has_inbox}
use project.Exceptions.Refinement.{DoesSend, send_message-DoesSend}
use project.Exceptions.Shown.{IsPosted, letter}
use project.Exceptions.Taking.{DoesTake, resumed_by, taking, receive_case-DoesTake}
use project.Tests.Memory.{memory, memory-IsHeap, heads, some_lists, a, c, d}

memory-IsPosted : IsPosted memory heads some_lists
unfolding has_inbox
memory-IsPosted = record {
  heap = memory-IsHeap;
  ready_head = refl;
  free_head = refl;
  ready_ne = refl;
  inbox_ne = λ p h. (ground arith, ground arith);
  no_null = refl;
}

send_message-DoesSend_example :
    DoesSend
      (send_message d 700 a memory)
      heads
      (sending d (letter memory 700 a) (view memory heads some_lists))
unfolding has_inbox
send_message-DoesSend_example =
    send_message-DoesSend memory d 700 a memory-IsPosted refl (omega arith) (λ h x hx. ground arith)

receive_case-DoesTake_example :
    DoesTake
      (receive_case {A = Unit {0}} memory)
      heads
      (resumed_by c memory.bios)
      (taking 0 0 (view memory heads some_lists))
unfolding has_inbox
receive_case-DoesTake_example =
    receive_case-DoesTake memory memory-IsPosted refl (omega arith) refl {A = Unit {0}} refl
      (λ h. ground (arith, h))
