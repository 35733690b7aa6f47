-- ===== src/Exceptions/Deliver.antt =====
-- deliver_message of phase2/exceptions.c: what the receiver of a message finds in its registers.
use project.Common.{
  ℕ, ◌+◌, ◌%◌, ◌^◌, ◌≡◌, refl, ◌∙◌, Bool, true, List, ◌∷◌, ◌==◌, if◌then◌else◌, Bool-cases, inl,
  inr, update,
}
use project.Listx.{null}
use project.Listx.Heap.{IsHeap, Unowned}
use project.Types.{State, StateT, ssi_fake_addr, m_list}
use project.Types.View.{Yields}
use project.Msg.{free_msg}
use project.Msg.Alloc.{free_msg-cons}
use project.Exceptions.{StateRef, at_bios, at_pcb, deliver_message}

-- The name under which the receiver sees the sender.
abbrev pub seen_as : State → ℕ → ℕ
seen_as s sender = if sender == s.ssi_pcb_real then ssi_fake_addr else sender

-- The registers of the receiver of `m`, and the memory with the payload.
abbrev pub received : State → (m : ℕ) → StateT → StateT
received s m r = record r {
  reg_a0 = seen_as s (s.msg m).m_sender;
  pc_epc = (r.pc_epc + 4) % 2 ^ 32;
}

abbrev pub with_payload : State → (m : ℕ) → StateT → ℕ → ℕ
with_payload s m r = if r.reg_a2 == null then s.ram else update s.ram r.reg_a2 (s.msg m).m_payload

-- The state after the delivery, but for the links.
abbrev pub delivered : StateRef → (m : ℕ) → State → State
delivered at_bios m s = record s { bios = received s m s.bios; ram = with_payload s m s.bios }
delivered (at_pcb d) m s = record s {
  pcb = update s.pcb d (record (s.pcb d) { p_s = received s m (s.pcb d).p_s });
  ram = with_payload s m (s.pcb d).p_s;
}

pub deliver_runs :
    (p : StateRef) (m : ℕ) (s : State) → deliver_message p m s ≡ free_msg m (delivered p m s)
unfolding deliver_message
deliver_runs at_bios m s = elim (Bool-cases (s.bios.reg_a2 == null)) [
  | inl nowhere ↦ rw nowhere refl
  | inr somewhere ↦ rw somewhere refl
]
deliver_runs (at_pcb d) m s = elim (Bool-cases ((s.pcb d).p_s.reg_a2 == null)) [
  | inl nowhere ↦ rw nowhere refl
  | inr somewhere ↦ rw somewhere refl
]

module _ (s : State) {H : ℕ → Bool} {V : ℕ → List ℕ} (heap : IsHeap s.links H V)
    (is_head : H s.msg_free_h ≡ true) where
  freed :
      (p : StateRef) (m : ℕ)
      → Unowned H V (m_list m)
      → Yields
          (free_msg m (delivered p m s))
          tt
          (delivered p m s)
          H
          (update V s.msg_free_h (m_list m ∷ V s.msg_free_h))
  freed at_bios m out = free_msg-cons (delivered at_bios m s) heap is_head m out
  freed (at_pcb d) m out = free_msg-cons (delivered (at_pcb d) m s) heap is_head m out

  -- For a message that is in no list, `deliver_message` leaves the sender in `reg_a0`, the SSI under
  -- its public name, moves the program counter behind the call, writes the payload where `reg_a2`
  -- points unless that is NULL, and frees the message.
  pub deliver_message-delivered :
      (p : StateRef) (m : ℕ)
      → Unowned H V (m_list m)
      → Yields
          (deliver_message p m s)
          tt
          (delivered p m s)
          H
          (update V s.msg_free_h (m_list m ∷ V s.msg_free_h))
  deliver_message-delivered p m out =
      let y = freed p m out in
      record { links = y.links; runs = deliver_runs p m s ∙ y.runs; heap = y.heap }
