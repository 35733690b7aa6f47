-- ===== src/Utils/Devices.antt =====
-- The maps of phase2/utils.c from device registers to queues of blocked processes.
use project.Common.{
  ℕ, ◌+◌, ◌-◌, ◌*◌, ◌/◌, ◌%◌, ◌^◌, ◌<◌, ◌≤◌, ◌↔◌, ◌≡◌, refl, sym, ◌∙◌, Bool, true, not, ◌&&◌, ltb,
  arith, ◌==◌, if◌then◌else◌,
}
use project.Types.{Arch, max_device, il_terminal}
use project.Utils.{hash_from_device_type_number, comm_add_to_number}

-- The layout of the device registers that uriscv documents: five interrupt lines of eight devices,
-- four words for each device, and a receiver and a transmitter in each terminal.
pub record IsUriscv (a : Arch) : Type 0 where
  pub start : a.dev_reg_start ≡ 0x10000054
  pub size : a.dev_reg_size ≡ 16
  pub lines : a.n_ext_il ≡ 5
  pub per_line : a.n_dev_per_il ≡ 8
  pub first_line : a.dev_il_start ≡ 17
  pub index : (il : ℕ) → a.ext_il_index il ≡ il - 17
  pub addr : (il dev : ℕ) → a.dev_reg_addr il dev ≡ 0x10000054 + (il - 17) * 128 + dev * 16
  pub dtp_status : a.dtp_status_offset ≡ 0
  pub dtp_command : a.dtp_command_offset ≡ 4
  pub dtp_data0 : a.dtp_data0_offset ≡ 8
  pub recv_status : a.recv_status_offset ≡ 0
  pub recv_command : a.recv_command_offset ≡ 4
  pub transm_status : a.transm_status_offset ≡ 8
  pub transm_command : a.transm_command_offset ≡ 12

-- Whether the register at `offset` belongs to the transmitter of a terminal: terminals are on line 4,
-- counted from the first external line, and have the receiver's status and command in their first two
-- words, the transmitter's in the other two.
abbrev pub is_transmitter : (line offset : ℕ) → Bool
is_transmitter line offset = line == 4 && not (ltb offset 8)

-- The registers that can be told apart: of a terminal those but the receiver's status, which the code
-- takes for one of the transmitter; of other devices all four words.
abbrev pub is_told_apart : (line offset : ℕ) → Bool
is_told_apart line offset =
    if line == 4 && not (offset == 4) then not (ltb offset 8) && ltb offset 16 else ltb offset 16

-- The queue of a (sub)device: one for each device, and eight more for the transmitters.
abbrev pub queue_of : (line dev : ℕ) → Bool → ℕ
queue_of line dev transm = (if transm then line + 1 else line) * 8 + dev

module _ {a : Arch} (u : IsUriscv a) where
  pub hash-queue_of :
      (line dev transm : ℕ)
      → hash_from_device_type_number a line dev transm
        ≡ queue_of line dev (line == 4 && not (transm == 0))
  unfolding hash_from_device_type_number
  hash-queue_of line dev transm = ground (arith, u.index il_terminal, u.per_line)

  -- On a machine with uriscv's layout, `comm_add_to_number` maps a register of a device, but not the
  -- status of a receiver,  to the queue of its line and number, and to that of the next line if it belongs to
  -- the transmitter of a terminal.
  pub comm_add-queue_of :
      (line dev offset : ℕ)
      → line < 5
      → dev < 8
      → is_told_apart line offset ≡ true
      → comm_add_to_number a (a.dev_reg_addr (line + 17) dev + offset)
        ≡ queue_of line dev (is_transmitter line offset)
  unfolding comm_add_to_number
  comm_add-queue_of line dev offset h1 h2 h3 =
      let small : offset < 16 = ground (arith, h3) in
      let reg : a.dev_reg_addr (line + 17) dev + offset
          ≡ 0x10000054 + line * 128 + dev * 16 + offset =
        omega (arith, u.addr (line + 17) dev) in
      let slot : (0x10000054 + line * 128 + dev * 16 + offset + 2 ^ 32 - 0x10000054) % 2 ^ 32 / 16
          ≡ line * 8 + dev =
        omega arith in
      let il : (line * 8 + dev) / 8 ≡ line = omega arith in
      let nr : line * 8 + dev - line * 8 ≡ dev = omega arith in
      rw (reg, u.start, u.size, u.per_line, slot, il, nr)
        (ground (
          arith,
          hash-queue_of line dev 0,
          hash-queue_of line dev 1,
          u.addr (line + 17) dev,
          u.recv_command,
        ))

  -- Distinct (sub)devices have distinct queues, all of them in the array.
  pub queue_of_bounds :
      (line dev : ℕ) (transm : Bool) → line < 5 → dev < 8 → queue_of line dev transm < max_device
  queue_of_bounds line dev transm h1 h2 = ground arith

  -- On a machine with uriscv's layout, two device registers that `comm_add_to_number` maps to one
  -- queue belong to the same line, device and subdevice, if none of them lies in the status word of
  -- a receiver or between the words of one.
  pub comm_add-injective :
      (line dev offset line' dev' offset' : ℕ)
      → line < 5
      → dev < 8
      → is_told_apart line offset ≡ true
      → line' < 5
      → dev' < 8
      → is_told_apart line' offset' ≡ true
      → comm_add_to_number a (a.dev_reg_addr (line + 17) dev + offset)
        ≡ comm_add_to_number a (a.dev_reg_addr (line' + 17) dev' + offset')
      → (line ≡ line') × (dev ≡ dev') × (is_transmitter line offset ≡ is_transmitter line' offset')
  comm_add-injective line dev offset line' dev' offset' h1 h2 h3 h1' h2' h3' e =
      let same =
        sym (comm_add-queue_of line dev offset h1 h2 h3)
        ∙ e
        ∙ comm_add-queue_of line' dev' offset' h1' h2' h3' in
      (ground arith, ground arith, ground arith)

  slot_queue :
      (line dev transm : ℕ)
      → dev < 8
      → (hash_from_device_type_number a line dev transm < max_device) ↔ (line * 8 + dev < 48)
  slot_queue line dev transm lt =
      let h = hash-queue_of line dev transm in (λ b. ground (arith, h), λ b. ground (arith, h))

  -- The line and the number that `comm_add_to_number` computes.
  abbrev line_at : ℕ → ℕ
  line_at addr = (addr + 2 ^ 32 - 0x10000054) % 2 ^ 32 / 16 / 8

  abbrev dev_at : ℕ → ℕ
  dev_at addr = (addr + 2 ^ 32 - 0x10000054) % 2 ^ 32 / 16 - line_at addr * 8

  comm_add-hash :
      (addr : ℕ)
      → comm_add_to_number a addr
        ≡ hash_from_device_type_number a (line_at addr) (dev_at addr) (
            if addr == a.dev_reg_addr (line_at addr + 17) (dev_at addr) + a.recv_command_offset
            then 0
            else 1)
  unfolding comm_add_to_number
  comm_add-hash addr = rw (u.start, u.size, u.per_line) refl

  in_window :
      (addr : ℕ)
      → addr < 2 ^ 32
      → (line_at addr * 8 + dev_at addr < 48) ↔ ((0x10000054 ≤ addr) × (addr < 0x10000054 + 768))
  in_window addr lt = (λ h. (omega arith, omega arith), λ h. omega arith)

  -- On a machine with uriscv's layout, `comm_add_to_number` of a 32-bit address is an index of the
  -- array of device queues exactly when the address is one of the 768 bytes from the first device
  -- register on.
  pub comm_add_bounds :
      (addr : ℕ)
      → addr < 2 ^ 32
      → (comm_add_to_number a addr < max_device) ↔ ((0x10000054 ≤ addr) × (addr < 0x10000054 + 768))
  comm_add_bounds addr lt =
      let transm : ℕ =
        if addr == a.dev_reg_addr (line_at addr + 17) (dev_at addr) + a.recv_command_offset
        then 0
        else 1 in
      let (down, up) = slot_queue (line_at addr) (dev_at addr) transm (omega arith) in
      let (inside, back) = in_window addr lt in
      rw (comm_add-hash addr) (λ h. inside (down h), λ h. up (back h))
