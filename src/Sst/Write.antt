-- ===== src/Sst/Write.antt =====
-- What a service thread of phase3/sst.c does to print a string.
use project.Common.{
  ℕ, zero, suc, ◌+◌, ◌*◌, ◌<◌, ◌%◌, ◌^◌, ◌≡◌, refl, ap, Bool, true, false, ◌&&◌, List, [], ◌∷◌,
  arith, ◌==◌, eq_of_==, if◌then◌else◌, Bool-cases, inl, inr,
}
use project.Types.{asid_index, ssi_fake_addr, il_terminal}
use project.Actor.{Reply, Call, sent, asked, do_io, done, send, receive}
use project.SysSupport.{Env}
use project.Sst.{
  char_at, transmitted, transmit_from, print_from, int_length, write, recvd, print_chr, il_printer,
}

-- A test that holds of all numbers below a bound.
holds_below : (ℕ → Bool) → ℕ → Bool
holds_below test zero = true
holds_below test (suc n) = if test n then holds_below test n else false

holds_below-lt : (test : ℕ → Bool) (n i : ℕ) → holds_below test n ≡ true → i < n → test i ≡ true
unfolding holds_below
holds_below-lt test zero i all lt = absurd (omega (arith, lt))
holds_below-lt test (suc n) i all lt = elim (Bool-cases (i == n)) [
  | inl last ↦ ground (arith, all, last)
  | inr before ↦ holds_below-lt test n i (ground (arith, all)) (ground (arith, before, lt))
]

all_bytes : holds_below (λ c. transmitted c == c * 256 + 2) 256 ≡ true
unfolding holds_below transmitted
all_bytes = refl

-- The command has the character in its second byte, and 2 in the lowest.
transmitted_lem : (c : ℕ) → c < 256 → transmitted c ≡ c * 256 + 2
transmitted_lem c lt =
    eq_of_== (transmitted c) (c * 256 + 2)
      (holds_below-lt (λ c. transmitted c == c * 256 + 2) 256 c all_bytes lt)

char_at_lem :
    (env : Env) (string count : ℕ)
    → transmitted (char_at env string count) ≡ env.ram (string + count) % 256 * 256 + 2
unfolding char_at
char_at_lem env string count = transmitted_lem (env.ram (string + count) % 256) (omega arith)

-- The string in memory.
abbrev pub chars : Env → (rounds string count : ℕ) → List ℕ
chars env zero string count = []
chars env (suc n) string count = (env.ram (string + count) % 256) ∷ chars env n string (count + 1)

-- The calls that write a string to a terminal, and to a printer.
abbrev pub to_terminal : (command : ℕ) → List ℕ → List Call
to_terminal command [] = []
to_terminal command (c ∷ cs) =
    sent ssi_fake_addr (do_io command (c * 256 + 2)) ∷ asked ssi_fake_addr ∷ to_terminal command cs

abbrev pub to_printer : (data0 command : ℕ) → List ℕ → List Call
to_printer data0 command [] = []
to_printer data0 command (c ∷ cs) =
    sent ssi_fake_addr (do_io data0 c)
    ∷ sent ssi_fake_addr (do_io command print_chr)
    ∷ asked ssi_fake_addr
    ∷ to_printer data0 command cs

-- The next `n` replies have the status `ok` in their lowest byte.
abbrev pub all_ok : (ok n : ℕ) → List Reply → Bool
all_ok ok zero script = true
all_ok ok (suc n) [] = false
all_ok ok (suc n) (r ∷ rest) = (r.payload % 2 ^ 8 == ok) && all_ok ok n rest

abbrev pub without_first : ℕ → List Reply → List Reply
without_first zero script = script
without_first (suc n) [] = []
without_first (suc n) (r ∷ rest) = without_first n rest

and_true : (x y : Bool) → (x && y) ≡ true → (x ≡ true) × (y ≡ true)
and_true x y h = ground arith

transmit_from-to_terminal :
    (env : Env) (base n string count : ℕ) (script : List Reply)
    → all_ok recvd n script ≡ true
    → transmit_from env base n string count script ≡ record {
      ending = done tt;
      left = without_first n script;
      calls = to_terminal (base + env.arch.transm_command_offset) (chars env n string count);
    }
unfolding transmit_from send receive
transmit_from-to_terminal env base zero string count script h = refl
transmit_from-to_terminal env base (suc n) string count [] h = absurd (ground arith)
transmit_from-to_terminal env base (suc n) string count (r ∷ rest) h =
    let (ok, more) = and_true (r.payload % 2 ^ 8 == recvd) (all_ok recvd n rest) h in
    rw (transmit_from, ok)
      (rw (transmit_from-to_terminal env base n string (count + 1) rest more) (
        ap
          (λ v. record {
            ending = done tt;
            left = without_first n rest;
            calls =
                sent ssi_fake_addr (do_io (base + env.arch.transm_command_offset) v)
                ∷ asked ssi_fake_addr
                ∷ to_terminal (base + env.arch.transm_command_offset)
                    (chars env n string (count + 1));
          })
          (char_at_lem env string count)))

print_from-to_printer :
    (env : Env) (base n string count : ℕ) (script : List Reply)
    → all_ok 1 n script ≡ true
    → print_from env base n string count script ≡ record {
      ending = done tt;
      left = without_first n script;
      calls =
          to_printer
            (base + env.arch.dtp_data0_offset)
            (base + env.arch.dtp_command_offset)
            (chars env n string count);
    }
unfolding print_from char_at send receive
print_from-to_printer env base zero string count script h = refl
print_from-to_printer env base (suc n) string count [] h = absurd (ground arith)
print_from-to_printer env base (suc n) string count (r ∷ rest) h =
    let (ok, more) = and_true (r.payload % 2 ^ 8 == 1) (all_ok 1 n rest) h in
    rw (print_from, ok) (rw (print_from-to_printer env base n string (count + 1) rest more) refl)

module _ (env : Env) (write_payload asid : ℕ) (script : List Reply) where
  -- The length of the string and its characters.
  abbrev pub count_of : ℕ
  count_of = int_length (env.ram write_payload)

  abbrev pub text : List ℕ
  text = chars env count_of (env.ram (write_payload + 4)) 0

  -- When the terminal answers each character with status 5, `write` sends every character of the
  -- string once and in order to the transmitter of the address space's terminal, each after the
  -- answer to the one before, and takes no other message.
  pub write-to_terminal :
      all_ok recvd count_of script ≡ true
      → write env write_payload asid il_terminal script ≡ record {
        ending = done tt;
        left = without_first count_of script;
        calls =
            to_terminal
              (env.arch.dev_reg_addr il_terminal (asid_index asid) + env.arch.transm_command_offset)
              text;
      }
  unfolding write
  write-to_terminal ok = transmit_from-to_terminal env _ count_of _ 0 script ok

  -- When the printer answers each character with status 1, `write` puts every character of the
  -- string once and in order into the data register of the address space's printer and then gives
  -- the command, each after the answer to the one before, and takes no other message.
  pub write-to_printer :
      all_ok 1 count_of script ≡ true
      → write env write_payload asid il_printer script ≡ record {
        ending = done tt;
        left = without_first count_of script;
        calls =
            to_printer
              (env.arch.dev_reg_addr il_printer (asid_index asid) + env.arch.dtp_data0_offset)
              (env.arch.dev_reg_addr il_printer (asid_index asid) + env.arch.dtp_command_offset)
              text;
      }
  unfolding write
  write-to_printer ok = print_from-to_printer env _ count_of _ 0 script ok
