-- ===== src/Tests/Phase2.antt =====
-- phase2/exceptions.c, phase2/scheduler.c, phase2/utils.c and phase2/ssi.c at the memories of
-- `Memory`.
use project.Common.{◌<◌, ◌≤◌, ◌↔◌, ℕ, ◌+◌, ◌≡◌, refl, true, [], ◌∷◌, arith, update}
use project.Listx.{Links}
use project.Listx.Heap.{IsHeap}
use project.Types.{max_device, State, msg_inbox}
use project.Types.Machine.{exit, ldst}
use project.Types.View.{Yields, Leaves}
use project.Pcb.{zero_state}
use project.Utils.{hash_from_device_type_number, comm_add_to_number}
use project.Utils.Devices.{IsUriscv, comm_add-injective, comm_add_bounds, is_transmitter}
use project.Scheduler.{scheduler}
use project.Scheduler.Outcome.{restarted, scheduler-first, scheduler-next_exit}
use project.Exceptions.{at_bios, at_pcb, is_a_softblocking_request, send_message, receive_case}
use project.Exceptions.Deliver.{received, delivered}
use project.Exceptions.Post.{unblocked}
use project.Exceptions.Send.{CanSend, send_message-woken, send_message-queued}
use project.Exceptions.Receive.{blocked, receive_case-received, receive_case-blocked}
use project.Interrupts.{payload_of}
use project.Ssi.{serve_interrupt, answer_do_io}
use project.Ssi.Payload.{serve-payload_of, hash-comm_add}
use project.Tests.Memory.{memory, memory-IsHeap, heads, some_lists, a, c, d, free_one, from_c, arch}

to_d : CanSend memory heads some_lists d free_one []
to_d = record {
  heap = memory-IsHeap;
  ready_head = refl;
  free_head = refl;
  inbox_head = refl;
  ready_ne = refl;
  inbox_ne = refl;
  few = omega arith;
  not_null = omega arith;
  free = refl;
}

to_a : CanSend memory heads some_lists a free_one []
to_a = record {
  heap = memory-IsHeap;
  ready_head = refl;
  free_head = refl;
  inbox_head = refl;
  ready_ne = refl;
  inbox_ne = refl;
  few = omega arith;
  not_null = omega arith;
  free = refl;
}

-- The memory when the message is filled in.
abbrev filled : (payload sender : ℕ) → State
filled payload sender = record memory {
  msg = update memory.msg free_one (record { m_sender = sender; m_payload = payload });
}

send_message-woken_example :
    Yields
      (send_message d 700 a memory)
      0
      (delivered (at_pcb d) free_one (unblocked d (filled 700 a)))
      heads
      (update some_lists 32 (a ∷ d ∷ []))
unfolding is_a_softblocking_request
send_message-woken_example =
    send_message-woken memory d 700 a free_one [] to_d (λ x h. ground arith) refl

send_message-queued_example :
    Yields
      (send_message a 5 c memory)
      0
      (filled 5 c)
      heads
      (update (update some_lists 16 []) (msg_inbox a) (from_c ∷ free_one ∷ []))
send_message-queued_example = send_message-queued memory a 5 c free_one [] to_a refl

receive_case-received_example :
    Leaves
      (receive_case {A = Unit {0}} memory)
      (ldst (received memory from_c memory.bios))
      (restarted (delivered at_bios from_c memory))
      heads
      (update (update some_lists (msg_inbox a) []) 16 (from_c ∷ free_one ∷ []))
receive_case-received_example =
    receive_case-received memory memory-IsHeap refl (omega arith) {A = Unit {0}} refl refl refl
      (omega arith) refl

-- `a` asks for a message from the SSI, and has none.
abbrev asking : State
asking = record memory { bios = record zero_state { reg_a1 = d } }

receive_case-blocked_example :
    (l : Links) × (receive_case {A = Unit {0}} asking
      ≡ scheduler (blocked (record asking { links = l })))
    × IsHeap l heads some_lists
receive_case-blocked_example =
    receive_case-blocked asking memory-IsHeap refl (omega arith) {A = Unit {0}} refl

abbrev idle : State
idle = record memory { current_process = 0 }

scheduler-first_example :
    Leaves
      (scheduler {A = Unit {0}} idle)
      (ldst (memory.pcb a).p_s)
      (restarted memory)
      heads
      (update some_lists 32 [])
scheduler-first_example =
    scheduler-first idle memory-IsHeap refl (omega arith) refl {A = Unit {0}} refl refl

scheduler-next_exit_example :
    (s : State) × (scheduler {A = Unit {0}} idle ≡ exit (ldst (memory.pcb a).p_s) s)
scheduler-next_exit_example =
    scheduler-next_exit idle memory-IsHeap refl (omega arith) refl {A = Unit {0}}

arch-IsUriscv : IsUriscv arch
arch-IsUriscv = record {
  start = refl;
  size = refl;
  lines = refl;
  per_line = refl;
  first_line = refl;
  index = λ il. refl;
  addr = λ il dev. refl;
  dtp_status = refl;
  dtp_command = refl;
  dtp_data0 = refl;
  recv_status = refl;
  recv_command = refl;
  transm_status = refl;
  transm_command = refl;
}

comm_add_same :
    comm_add_to_number arch (0x10000054 + 560 + 8) ≡ comm_add_to_number arch (0x10000054 + 560 + 12)
unfolding comm_add_to_number
comm_add_same = refl

comm_add-injective_example :
    (◌≡◌ {A = ℕ} 4 4) × (◌≡◌ {A = ℕ} 3 3) × (is_transmitter 4 8 ≡ is_transmitter 4 12)
comm_add-injective_example =
    comm_add-injective arch-IsUriscv 4 3 8 4 3 12 (omega arith) (omega arith) refl (omega arith)
      (omega arith) refl comm_add_same

hash-comm_add_example :
    hash_from_device_type_number arch 4 3 128 ≡ comm_add_to_number arch (0x10000054 + 560 + 12)
hash-comm_add_example = hash-comm_add arch-IsUriscv 4 3 12 (omega arith) (omega arith) refl

serve-payload_of_example :
    serve_interrupt
      (payload_of (record { service = 0; status = 5; device_type = 4; device_number = 131 }))
      memory
    ≡ answer_do_io 4 3 128 5 memory
serve-payload_of_example =
    serve-payload_of 4 3 true 5 memory (omega arith) (omega arith) (omega arith)

comm_add_bounds_example :
    (comm_add_to_number arch 0x10000060 < max_device)
    ↔ ((0x10000054 ≤ 0x10000060) × (0x10000060 < 0x10000054 + 768))
comm_add_bounds_example = comm_add_bounds arch-IsUriscv 0x10000060 (omega arith)
