-- ===== src/Interrupts.antt =====
-- phase2/interrupts.c: the pending interrupts, in the order of their priority.
pub mod Frame
pub mod Pending
pub mod Order
use Prim.Native.Nat.{bit_and, bit_or}
use project.Common.{
  ℕ, zero, suc, ◌+◌, ◌-◌, ◌*◌, ◌%◌, ◌^◌, Bool, true, false, not, ◌&&◌, ◌==◌, update, if◌then◌else◌,
}
use project.Listx.{null}
use project.Types.{il_timer, il_cputimer, il_terminal, psecond}
use project.Types.Machine.{
  Cmd, pure, ◌>>=◌, ◌>>◌, gets, modify, leave, exit, on_pcb, panicked, endless,
}
use project.Pcb.{insert_proc_q}
use project.Exceptions.{send_message_to_ssi}
use project.Scheduler.{scheduler}

-- `interrupt_handler_io_msg_t` of phase2/headers/ssi.h: four bytes, the first one lowest.
pub record IoMsg : Type 0 where
  pub service : ℕ
  pub status : ℕ
  pub device_type : ℕ
  pub device_number : ℕ

unfoldable pub payload_of : IoMsg → ℕ
payload_of m =
    m.service % 256
    + m.status % 256 * 2 ^ 8
    + m.device_type % 256 * 2 ^ 16
    + m.device_number % 256 * 2 ^ 24

-- `w & 1 << i`, and `w & ~(1 << i)`.
unfoldable pub bit_set : (w i : ℕ) → Bool
bit_set w i = not (bit_and w (2 ^ i) == 0)

unfoldable pub clear_bit : (w i : ℕ) → ℕ
clear_bit w i = bit_and w (2 ^ 32 - 1 - 2 ^ i)

-- The lowest bit from `i` on that is set; `i` plus the rounds left is the limit.
unfoldable pub lowest_bit : (rounds i w : ℕ) → ℕ
lowest_bit zero i w = i
lowest_bit (suc n) i w = elim (bit_set w i) [ true ↦ i | false ↦ lowest_bit n (i + 1) w ]

-- The status of the (sub)device that raised the interrupt, and whether it is a transmitter.
unfoldable pub acknowledge : (iln dev_n : ℕ) → Cmd (ℕ × Bool)
acknowledge iln dev_n = do
  a ← gets (λ s. s.arch)
  let base = a.dev_reg_addr iln dev_n
  transm_status ← gets (λ s. s.ram (base + a.transm_status_offset) % 256)
  recv_status ← gets (λ s. s.ram (base + a.recv_status_offset) % 256)
  if il_terminal == iln
      then (if not (transm_status == 1) && not (transm_status == 3)
          then (do
            modify (λ s. record s { ram = update s.ram (base + a.transm_command_offset) a.ack })
            pure (transm_status, true))
          else (do
            modify (λ s. record s { ram = update s.ram (base + a.recv_command_offset) a.ack })
            pure (recv_status, false)))
      else (do
        status ← gets (λ s. s.ram (base + a.dtp_status_offset) % 256)
        modify (λ s. record s { ram = update s.ram (base + a.dtp_command_offset) a.ack })
        pure (status, false))

unfoldable pub device_interrupt_handler : ℕ → Cmd (Unit {0})
unfolding lowest_bit bit_set acknowledge payload_of
device_interrupt_handler iln = do
  a ← gets (λ s. s.arch)
  bitmap ← gets (λ s. s.ram (a.cdev_bitmap_addr iln) % 256)
  let dev_n = lowest_bit a.n_dev_per_il 0 bitmap
  if dev_n == a.n_dev_per_il then leave panicked else do
    (status_code, terminal_transm) ← acknowledge iln dev_n
    send_message_to_ssi (
        payload_of (record {
          service = 0;
          status = status_code;
          device_type = a.ext_il_index iln;
          device_number = if terminal_transm then bit_or dev_n (2 ^ 7) else dev_n;
        }))

unfoldable pub plt_interrupt_handler : Cmd (Unit {0})
plt_interrupt_handler = do
  current ← gets (λ s. s.current_process)
  saved ← gets (λ s. s.bios)
  on_pcb current (λ b. record b { p_s = saved })
  ready ← gets (λ s. s.ready_queue)
  insert_proc_q ready current
  modify (λ s. record s { current_process = null })

unfoldable pub it_interrupt_handler : Cmd (Unit {0})
unfolding payload_of
it_interrupt_handler = do
  modify (λ s. record s { interval_timer = psecond })
  send_message_to_ssi
      (payload_of (record { service = 1; status = 0; device_type = 0; device_number = 0 }))

-- The bits that the handler looks at: the two timers and the five lines of devices.
abbrev pub interr : ℕ
interr = 2 ^ il_timer + 2 ^ il_cputimer + 31 * 2 ^ 17

-- One interrupt: the bits that are left of `mip`.
unfoldable pub handle_one : (mip : ℕ) → Cmd ℕ
handle_one mip =
    if bit_set mip il_timer
    then (do it_interrupt_handler; pure (clear_bit mip il_timer))
    else if bit_set mip il_cputimer
    then (do plt_interrupt_handler; pure (clear_bit mip il_cputimer))
    else (do
      a ← gets (λ s. s.arch)
      let max_il = a.dev_il_start + a.n_ext_il
      let iln = lowest_bit a.n_ext_il a.dev_il_start mip
      if iln == max_il
          then leave panicked
          else do device_interrupt_handler iln; pure (clear_bit mip iln))

unfoldable pub interrupt_loop : (fuel mip : ℕ) → Cmd (Unit {0})
interrupt_loop zero mip s = exit endless s
interrupt_loop (suc fuel) mip s = elim (bit_and mip interr == 0) [
  | true ↦ pure tt s
  | false ↦ (handle_one mip >>= interrupt_loop fuel) s
]

-- Seven bits can be set, and each round clears one.
unfoldable pub interrupt_handler : {A : Type 0} → Cmd A
interrupt_handler = do mip ← gets (λ s. s.mip); interrupt_loop 8 mip; scheduler
