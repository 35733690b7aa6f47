-- ===== src/Sst.antt =====
-- phase3/sst.c: the service thread of a user process.
pub mod Write
use Prim.Native.Nat.{bit_or}
use project.Common.{
  ℕ, zero, suc, ◌+◌, ◌-◌, ◌*◌, ◌%◌, ◌^◌, ◌≡◌, Bool, true, not, ltb, ◌==◌, if◌then◌else◌,
}
use project.Listx.{null}
use project.Types.{
  asid_index, StateT, Support, Arch, parent, ssi_fake_addr, il_terminal, mie_all, mstatus_mpie_mask,
}
use project.Actor.{
  Actor, Reply, word, do_io, get_support_ptr, send, receive, p_term, p_create, panic, done_with,
  ◌>>=◌, ◌>>◌,
}
use project.SysSupport.{Env, trap_handler}

abbrev pub il_printer : ℕ
il_printer = 20

abbrev pub print_chr : ℕ
print_chr = 2

abbrev pub recvd : ℕ
recvd = 5

-- `*(string + count)`, a char.
unfoldable pub char_at : Env → (string count : ℕ) → ℕ
char_at env string count = env.ram (string + count) % 256

-- The printer's loop, by the characters left: the character, the command, and the status.
unfoldable pub print_from : Env → (base : ℕ) → (rounds string count : ℕ) → Actor (Unit {0})
print_from env base zero string count = done_with tt
print_from env base (suc n) string count = do
  send ssi_fake_addr (do_io (base + env.arch.dtp_data0_offset) (char_at env string count))
  send ssi_fake_addr (do_io (base + env.arch.dtp_command_offset) print_chr)
  status ← receive ssi_fake_addr
  if not (status.payload % 2 ^ 8 == 1) then trap_handler env else done_with tt
  print_from env base n string (count + 1)

-- What goes to the transmitter of a terminal.
unfoldable pub transmitted : ℕ → ℕ
transmitted char = bit_or print_chr (char * 2 ^ 8)

unfoldable pub transmit_from : Env → (base : ℕ) → (rounds string count : ℕ) → Actor (Unit {0})
unfolding transmitted char_at
transmit_from env base zero string count = done_with tt
transmit_from env base (suc n) string count = do
  send ssi_fake_addr
      (do_io (base + env.arch.transm_command_offset) (transmitted (char_at env string count)))
  status ← receive ssi_fake_addr
  if not (status.payload % 2 ^ 8 == recvd) then trap_handler env else done_with tt
  transmit_from env base n string (count + 1)

-- The length is an `int`: with the top bit set it is negative, and nothing is written.
unfoldable pub int_length : ℕ → ℕ
int_length w = if ltb w (2 ^ 31) then w else 0

-- `write`; `sst_print_t` is a length and a pointer.
unfoldable pub write : Env → (write_payload asid dev : ℕ) → Actor (Unit {0})
unfolding print_from transmit_from int_length
write env write_payload asid dev =
    let base = env.arch.dev_reg_addr dev (asid_index asid) in
    let length = int_length (env.ram write_payload) in
    let string = env.ram (write_payload + 4) in
    if dev == il_printer
    then print_from env base length string 0
    else if dev == il_terminal
    then transmit_from env base length string 0
    else panic

-- `sst` up to its loop, with the state that STST reads: the child, and the address space.
unfoldable pub sst_start : Env → StateT → Actor (ℕ × ℕ)
sst_start env st = do
  send ssi_fake_addr get_support_ptr
  r ← receive ssi_fake_addr
  child ←
      p_create
        (record st {
          pc_epc = 0x800000B0;
          reg_sp = 0xC0000000;
          status = mstatus_mpie_mask;
          mie = mie_all;
        })
        r.payload
  done_with (child, (env.support_at r.payload).sup_asid)

-- One round of its loop.
unfoldable pub sst_round : Env → (child_pcb asid : ℕ) → Actor (Unit {0})
sst_round env child_pcb asid = do
  r ← receive child_pcb
  let code = env.ram r.payload
  let arg = env.ram (r.payload + 4)
  if code == 1
      then send child_pcb (word env.tod)
      else if code == 2
      then (do p_term child_pcb; send parent (word 0); p_term null)
      else if code == 3
      then (do write env arg asid il_printer; send child_pcb (word 0))
      else if code == 4
      then (do write env arg asid il_terminal; send child_pcb (word 0))
      else done_with tt
