-- ===== src/Actor.antt =====
-- The processes of phase3/. Between its system calls such a process runs by itself: what it receives is
-- a script of replies, and what it does is the list of its calls. phase3/utils3.c is in this file.
use project.Common.{ℕ, List, [], ◌∷◌, ◌++◌}
use project.Types.{StateT, ssi_fake_addr}

-- What a message carries: a word, or a pointer to a request in the sender's stack, of which the
-- receiver reads the fields.
pub data Payload : Type 0 where
  word : ℕ → Payload
  term_process : (arg : ℕ) → Payload
  create_process : StateT → (support : ℕ) → Payload
  do_io : (command_addr command_value : ℕ) → Payload
  get_support_ptr : Payload

-- A system call: SENDMESSAGE, or RECEIVEMESSAGE from a sender, 0 for any. The word goes to a local
-- variable or nowhere, or to an address that the caller has been given.
pub data Call : Type 0 where
  sent : (dest : ℕ) → Payload → Call
  asked : (sender : ℕ) → Call
  asked_into : (sender address : ℕ) → Call

pub record Reply : Type 0 where
  pub sender : ℕ
  pub payload : ℕ

-- How a run ends: with a value, waiting for a message when the script is over, in PANIC, in
-- a loop that outlasts its fuel, or in LDST.
pub data Ending (A : Type 0) : Type 0 where
  done : A → Ending A
  starved panicked endless : Ending A
  resumed : StateT → Ending A

pub record Run (A : Type 0) : Type 0 where
  pub ending : Ending A
  pub left : List Reply
  pub calls : List Call

abbrev pub Actor : Type 0 → Type 0
Actor A = List Reply → Run A

abbrev pub done_with : {A : Type 0} → A → Actor A
done_with a script = record { ending = done a; left = script; calls = [] }

abbrev pub prefixed : {A : Type 0} → List Call → Run A → Run A
prefixed cs r = record { ending = r.ending; left = r.left; calls = cs ++ r.calls }

abbrev pub continue : {A B : Type 0} → Ending A → (A → Actor B) → Actor B
continue (done a) k script = k a script
continue starved k script = record { ending = starved; left = script; calls = [] }
continue panicked k script = record { ending = panicked; left = script; calls = [] }
continue endless k script = record { ending = endless; left = script; calls = [] }
continue (resumed st) k script = record { ending = resumed st; left = script; calls = [] }

infixl 5 ◌>>=◌ ◌>>◌
abbrev pub ◌>>=◌ : {A B : Type 0} → Actor A → (A → Actor B) → Actor B
◌>>=◌ m k script = prefixed (m script).calls (continue (m script).ending k (m script).left)

abbrev pub ◌>>◌ : {B : Type 0} → Actor (Unit {0}) → Actor B → Actor B
◌>>◌ m k script = prefixed (m script).calls (continue (m script).ending (λ _. k) (m script).left)

unfoldable pub send : (dest : ℕ) → Payload → Actor (Unit {0})
send dest p script = record { ending = done tt; left = script; calls = sent dest p ∷ [] }

unfoldable pub receive : (sender : ℕ) → Actor Reply
receive sender [] = record { ending = starved; left = []; calls = asked sender ∷ [] }
receive sender (r ∷ rest) = record { ending = done r; left = rest; calls = asked sender ∷ [] }

unfoldable pub receive_into : (sender address : ℕ) → Actor Reply
receive_into sender address [] = record {
  ending = starved;
  left = [];
  calls = asked_into sender address ∷ [];
}
receive_into sender address (r ∷ rest) = record {
  ending = done r;
  left = rest;
  calls = asked_into sender address ∷ [];
}

-- SENDMESSAGE where the code uses the result: the kernel's answer is the next one of the script.
unfoldable pub send_result : (dest : ℕ) → Payload → Actor ℕ
send_result dest p [] = record { ending = starved; left = []; calls = sent dest p ∷ [] }
send_result dest p (r ∷ rest) = record {
  ending = done r.payload;
  left = rest;
  calls = sent dest p ∷ [];
}

-- LDST and PANIC.
abbrev pub resume : {A : Type 0} → StateT → Actor A
resume st script = record { ending = resumed st; left = script; calls = [] }

abbrev pub panic : {A : Type 0} → Actor A
panic script = record { ending = panicked; left = script; calls = [] }

-- `p_term`
unfoldable pub p_term : ℕ → Actor (Unit {0})
unfolding send receive
p_term arg = do send ssi_fake_addr (term_process arg); _ ← receive ssi_fake_addr; done_with tt

-- `p_create`
unfoldable pub p_create : StateT → (support : ℕ) → Actor ℕ
unfolding send receive
p_create state support = do
  send ssi_fake_addr (create_process state support)
  r ← receive ssi_fake_addr
  done_with r.payload
