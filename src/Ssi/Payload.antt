-- ===== src/Ssi/Payload.antt =====
-- The word that carries an interrupt from phase2/interrupts.c to phase2/ssi.c.
use Prim.Native.Nat.{bit_and, bit_or}
use project.Common.{
  ℕ, List, [], ◌∷◌, has, ◌+◌, ◌-◌, ◌/◌, ◌%◌, ◌^◌, ◌<◌, ◌≡◌, refl, Bool, true, false, ◌&&◌, arith,
  ◌==◌, if◌then◌else◌,
}
use project.Types.{State, Arch}
use project.Utils.{hash_from_device_type_number, comm_add_to_number}
use project.Utils.Devices.{
  IsUriscv, is_transmitter, is_told_apart, hash-queue_of, comm_add-queue_of,
}
use project.Interrupts.{IoMsg, payload_of}
use project.Ssi.{serve_interrupt, answer_do_io}

-- The devices of an interrupt line.
abbrev devices : List ℕ
devices = 0 ∷ 1 ∷ 2 ∷ 3 ∷ 4 ∷ 5 ∷ 6 ∷ 7 ∷ []

each : (ℕ → Bool) → List ℕ → Bool
each test [] = true
each test (y ∷ ys) = if test y then each test ys else false

each-has :
    (test : ℕ → Bool) (ys : List ℕ) (dev : ℕ)
    → has dev ys ≡ true
    → each test ys ≡ true
    → test dev ≡ true
unfolding each
each-has test [] dev i e = absurd (ground arith)
each-has test (y ∷ ys) dev i e = ground (arith, each-has test ys dev)

-- The number of a device with the mark of a transmitter.
abbrev pub marked_number : ℕ → Bool → ℕ
marked_number dev transm = if transm then bit_or dev (2 ^ 7) else dev

-- The marked number fits a byte, and gives back the device and the mark.
abbrev reads_back : Bool → ℕ → Bool
reads_back transm dev =
    (marked_number dev transm % 256 == marked_number dev transm)
    && ((bit_and (marked_number dev transm) (2 ^ 32 - 1 - 2 ^ 7) == dev)
        && (bit_and (marked_number dev transm) (2 ^ 7) == (if transm then 128 else 0)))

each-reads_back : (transm : Bool) → each (reads_back transm) devices ≡ true
unfolding each
each-reads_back true = refl
each-reads_back false = refl

marked_number-reads_back : (transm : Bool) (dev : ℕ) → dev < 8 → reads_back transm dev ≡ true
marked_number-reads_back transm dev h =
    each-has (reads_back transm) devices dev (ground arith) (each-reads_back transm)

-- The message of a device interrupt.
abbrev pub io_msg : (line dev : ℕ) → Bool → ℕ → IoMsg
io_msg line dev transm status = record {
  service = 0;
  status = status;
  device_type = line;
  device_number = marked_number dev transm;
}

-- The bytes of the word are those of the message.
payload_bytes :
    (line n status : ℕ)
    → line < 5
    → status < 256
    → n % 256 ≡ n
    → let w =
        payload_of
          (record { service = 0; status = status; device_type = line; device_number = n }) in
      (w % 256 ≡ 0)
      × (w / 2 ^ 8 % 256 ≡ status)
      × (w / 2 ^ 16 % 256 ≡ line)
      × (w / 2 ^ 24 % 256 ≡ n)
unfolding payload_of
payload_bytes line n status h1 h2 h3 = (omega arith, omega arith, omega arith, omega arith)

-- For a line below 5, a device below 8 and a status of one byte, the SSI decodes the word that the
-- interrupt handler made into this line, device, transmitter mark and status, and answers them.
pub serve-payload_of :
    (line dev : ℕ) (transm : Bool) (status : ℕ) (s : State)
    → line < 5
    → dev < 8
    → status < 256
    → serve_interrupt (payload_of (io_msg line dev transm status)) s
      ≡ answer_do_io line dev (if transm then 128 else 0) status s
unfolding serve_interrupt
serve-payload_of line dev transm status s h1 h2 h3 =
    let back = marked_number-reads_back transm dev h2 in
    let fits : marked_number dev transm % 256 ≡ marked_number dev transm = ground (arith, back) in
    let low : bit_and (marked_number dev transm) (2 ^ 32 - 1 - 2 ^ 7) ≡ dev =
      ground (arith, back) in
    let high : bit_and (marked_number dev transm) (2 ^ 7) ≡ (if transm then 128 else 0) =
      ground (arith, back) in
    let (e1, e2, e3, e4) = payload_bytes line (marked_number dev transm) status h1 h3 fits in
    rw (e1, e2, e3, e4, low, high) refl

-- On a machine with uriscv's layout of the device registers, for a line below 5, a device below 8
-- and an offset below 16 that is not in the word of a receiver's status, nor between the words of a
-- receiver, the queue that an interrupt of a (sub)device is answered from is the queue that a
-- request for that (sub)device's register waits in.
pub hash-comm_add :
    {a : Arch} (u : IsUriscv a) (line dev offset : ℕ)
    → line < 5
    → dev < 8
    → is_told_apart line offset ≡ true
    → hash_from_device_type_number a line dev (if is_transmitter line offset then 128 else 0)
      ≡ comm_add_to_number a (a.dev_reg_addr (line + 17) dev + offset)
hash-comm_add u line dev offset h1 h2 h3 = ground (
  arith,
  hash-queue_of u line dev 128,
  hash-queue_of u line dev 0,
  comm_add-queue_of u line dev offset h1 h2 h3,
)
