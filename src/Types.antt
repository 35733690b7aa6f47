-- ===== src/Types.antt =====
-- headers/types.h and headers/const.h: the structures of the kernel, where their fields lie, and the
-- memory that all functions share.
pub mod Machine
pub mod View
pub mod Table
pub mod Constants
pub use project.Types.Constants.{
  max_proc, max_messages, any_message, msg_no_good, dest_not_exist, no_proc, send_message_code,
  receive_message_code, parent, pg_fault_except, general_except, il_timer, il_cputimer, il_terminal,
  time_scale_addr, time_slice, psecond, get_exec_code, mie_all, mie_mtie_mask, mstatus_mpp_m,
  mstatus_mpie_mask, interrupt_handler_msg, ssi_fake_addr, max_device, sizeof_list_head,
  mstatus_mie_bit, page_size, uproc_max, max_pages,
}
use project.Common.{ℕ, ◌+◌, ◌-◌, ◌%◌, ◌^◌, Bool, List}
use project.Listx.{Links}

-- `state_t` of the machine's headers: the registers that the code names, and the others.
pub record StateT : Type 0 where
  pub entry_hi : ℕ
  pub cause : ℕ
  pub status : ℕ
  pub pc_epc : ℕ
  pub mie : ℕ
  pub reg_sp : ℕ
  pub reg_a0 : ℕ
  pub reg_a1 : ℕ
  pub reg_a2 : ℕ
  pub gpr : ℕ → ℕ

pub record PteEntry : Type 0 where
  pub pte_entry_hi : ℕ
  pub pte_entry_lo : ℕ

pub record Context : Type 0 where
  pub stack_ptr : ℕ
  pub status : ℕ
  pub pc : ℕ

-- The index of an address space in the arrays of phase3/, as an unsigned word.
abbrev pub asid_index : ℕ → ℕ
asid_index asid = (asid + 2 ^ 32 - 1) % 2 ^ 32

-- `support_t`; its list head `s_list` lies at an address of its own.
pub record Support : Type 0 where
  pub sup_asid : ℕ
  pub sup_except_state : ℕ → StateT
  pub sup_except_context : ℕ → Context
  pub sup_private_pg_tbl : ℕ → PteEntry

-- The fields of `pcb_t` that are no list heads. Pointers are addresses, NULL is 0.
pub record Pcb : Type 0 where
  pub p_parent : ℕ
  pub p_s : StateT
  pub p_time : ℕ
  pub p_support_struct : ℕ
  pub do_io : ℕ
  pub p_pid : ℕ

-- The fields of `msg_t` beside `m_list`.
pub record Msg : Type 0 where
  pub m_sender : ℕ
  pub m_payload : ℕ

-- Byte offsets in `pcb_t`: five words and 32 registers make a `state_t`, at 28.
abbrev pub offset_p_list : ℕ
offset_p_list = 0

abbrev pub offset_p_child : ℕ
offset_p_child = 12

abbrev pub offset_p_sib : ℕ
offset_p_sib = 20

abbrev pub offset_msg_inbox : ℕ
offset_msg_inbox = 180

abbrev pub offset_p_io : ℕ
offset_p_io = 192

abbrev pub sizeof_pcb : ℕ
sizeof_pcb = 208

abbrev pub sizeof_msg : ℕ
sizeof_msg = 16

abbrev pub offset_m_list : ℕ
offset_m_list = 0

-- `support_t`: an int, two states, two contexts of three words and 32 page table entries.
abbrev pub offset_s_list : ℕ
offset_s_list = 580

abbrev pub sizeof_support : ℕ
sizeof_support = 588

-- `&p->field`.
abbrev pub p_list : ℕ → ℕ
p_list p = p + offset_p_list

abbrev pub p_child : ℕ → ℕ
p_child p = p + offset_p_child

abbrev pub p_sib : ℕ → ℕ
p_sib p = p + offset_p_sib

abbrev pub msg_inbox : ℕ → ℕ
msg_inbox p = p + offset_msg_inbox

abbrev pub p_io : ℕ → ℕ
p_io p = p + offset_p_io

abbrev pub m_list : ℕ → ℕ
m_list m = m + offset_m_list

abbrev pub s_list : ℕ → ℕ
s_list s = s + offset_s_list

-- Where the linker puts the static variables.
pub record Layout : Type 0 where
  pub pcb_table : ℕ
  pub msg_table : ℕ
  pub support_table : ℕ
  pub pcb_free_h : ℕ
  pub msg_free_h : ℕ
  pub support_free_h : ℕ
  pub ready_queue : ℕ
  pub pcb_blocked_on_device : ℕ
  pub pcb_blocked_on_clock : ℕ

-- What the machine's headers (uriscv/arch.h, uriscv/cpu.h) define of the devices and of mcause.
pub record Arch : Type 0 where
  pub dev_reg_start : ℕ
  pub dev_reg_size : ℕ
  pub n_ext_il : ℕ
  pub n_dev_per_il : ℕ
  pub dev_il_start : ℕ
  pub ext_il_index : ℕ → ℕ
  pub dev_reg_addr : ℕ → ℕ → ℕ
  pub cdev_bitmap_addr : ℕ → ℕ
  pub dtp_status_offset : ℕ
  pub dtp_command_offset : ℕ
  pub dtp_data0_offset : ℕ
  pub recv_status_offset : ℕ
  pub recv_command_offset : ℕ
  pub transm_status_offset : ℕ
  pub transm_command_offset : ℕ
  pub ack : ℕ
  pub cause_is_int : ℕ → Bool

-- The memory and the registers that the kernel reads and writes.
pub record State : Type 0 where
  pub layout : Layout
  pub open layout use *
  pub arch : Arch
  pub links : Links
  pub pcb : ℕ → Pcb
  pub msg : ℕ → Msg
  pub support : ℕ → Support
  pub next_pid : ℕ
  -- globals of phase2/initial.c
  pub process_count : ℕ
  pub softblock_count : ℕ
  pub tod_timer : ℕ
  pub current_process : ℕ
  pub ssi_pcb : ℕ
  pub ssi_pcb_real : ℕ
  -- the saved state at BIOSDATAPAGE, other states in memory by address, and words in memory
  pub bios : StateT
  pub state_at : ℕ → StateT
  pub ram : ℕ → ℕ
  -- registers: mstatus, mcause, mip, mie, the timer, and the time of day
  pub mstatus : ℕ
  pub mcause : ℕ
  pub mip : ℕ
  pub mie : ℕ
  pub timer : ℕ
  pub interval_timer : ℕ
  pub tod : ℕ
  -- the registers through which entries go to the TLB, and the entries written, the last one first
  pub entry_hi : ℕ
  pub entry_lo : ℕ
  pub tlb : List PteEntry
