-- ===== src/Exceptions/Mailbox.antt =====
-- What the two system calls of phase2/exceptions.c promise, without links and message structures:
-- each process has an inbox of letters, and there is a number of letters that can still be sent.
use project.Common.{
  ℕ, ◌-◌, ◌≡◌, refl, ap, Bool, true, false, not, ◌&&◌, ◌||◌, List, [], ◌∷◌, ◌++◌, arith, ◌==◌,
  if◌then◌else◌, has, length, update, Bool-cases, inl, inr,
}
use project.Listx.{null}
use project.Pcb.Valid.{in_table}
use project.Types.{State, Msg, msg_inbox, p_list, any_message, msg_no_good}

-- A letter: who it is from, and its word.
pub record Letter : Type 0 where
  pub author : ℕ
  pub word : ℕ

-- The view of the kernel's memory. `ready` holds the nodes of the ready processes; a process that has
-- called for a letter wants it from `wants`, and it finds the author in `heard` and the word at `slot`.
pub record Mailboxes : Type 0 where
  pub running : ℕ
  pub ready : List ℕ
  pub inbox : ℕ → List Letter
  pub free : ℕ
  pub wants : ℕ → ℕ
  pub slot : ℕ → ℕ
  pub heard : ℕ → ℕ
  pub ram : ℕ → ℕ

-- Whether a process waits for a letter from `author`.
abbrev pub is_expecting : Mailboxes → (dest author : ℕ) → Bool
is_expecting b dest author =
    not (has (p_list dest) b.ready)
    && (not (dest == b.running) && ((b.wants dest == author) || (b.wants dest == any_message)))

-- The letter is handed over: the receiver is ready, and finds the author and the word.
abbrev pub hand_over : (dest : ℕ) → Letter → Mailboxes → Mailboxes
hand_over dest l b = record b {
  ready = b.ready ++ (p_list dest ∷ []);
  heard = update b.heard dest l.author;
  ram = if b.slot dest == null then b.ram else update b.ram (b.slot dest) l.word;
}

-- The letter waits in the inbox.
abbrev pub put_by : (dest : ℕ) → Letter → Mailboxes → Mailboxes
put_by dest l b = record b {
  inbox = update b.inbox dest (b.inbox dest ++ (l ∷ []));
  free = b.free - 1;
}

-- The specification of a send.
abbrev pub sending : (dest : ℕ) → Letter → Mailboxes → ℕ × Mailboxes
sending dest l b =
    if b.free == 0
    then (msg_no_good, b)
    else (0, if is_expecting b dest l.author then hand_over dest l b else put_by dest l b)

-- The letters in some message structures.
abbrev pub letters : (ℕ → Msg) → List ℕ → List Letter
letters msg [] = []
letters msg (m ∷ ms) =
    record { author = (msg m).m_sender; word = (msg m).m_payload } ∷ letters msg ms

-- Whether `p` is an entry of the table of processes whose inbox is there.
unfoldable pub has_inbox : (table : ℕ) → (ℕ → Bool) → ℕ → Bool
has_inbox table H p = in_table table p && H (msg_inbox p)

pub has_inbox-msg_inbox :
    (table : ℕ) (H : ℕ → Bool) (p : ℕ) → has_inbox table H p ≡ true → H (msg_inbox p) ≡ true
unfolding has_inbox
has_inbox-msg_inbox table H p h = elim (Bool-cases (in_table table p)) [
  | inl inside ↦ rw inside at h
  | inr outside ↦ absurd (ground (arith, rw outside at h))
]

-- The view of a memory with the lists `V` of the heads `H`.
abbrev pub view : State → (ℕ → Bool) → (ℕ → List ℕ) → Mailboxes
view s H V = record {
  running = s.current_process;
  ready = V s.ready_queue;
  inbox = λ p. if has_inbox s.pcb_table H p then letters s.msg (V (msg_inbox p)) else [];
  free = length (V s.msg_free_h);
  wants = λ p. (s.pcb p).p_s.reg_a1;
  slot = λ p. (s.pcb p).p_s.reg_a2;
  heard = λ p. (s.pcb p).p_s.reg_a0;
  ram = s.ram;
}

pub letters-append :
    (msg : ℕ → Msg) (xs ys : List ℕ) → letters msg (xs ++ ys) ≡ letters msg xs ++ letters msg ys
letters-append msg [] ys = refl
letters-append msg (x ∷ xs) ys =
    ap (λ l. record { author = (msg x).m_sender; word = (msg x).m_payload } ∷ l)
      (letters-append msg xs ys)

-- Letters are read in the messages of the list only.
pub letters-update :
    (msg : ℕ → Msg) (m : ℕ) (new : Msg) (xs : List ℕ)
    → has m xs ≡ false
    → letters (update msg m new) xs ≡ letters msg xs
letters-update msg m new [] out = refl
letters-update msg m new (x ∷ xs) out = ground (arith, letters-update msg m new xs)

-- Two views with the same fields.
pub Mailboxes-equal :
    {b c : Mailboxes}
    → b.running ≡ c.running
    → b.ready ≡ c.ready
    → ((p : ℕ) → b.inbox p ≡ c.inbox p)
    → b.free ≡ c.free
    → ((p : ℕ) → b.wants p ≡ c.wants p)
    → ((p : ℕ) → b.slot p ≡ c.slot p)
    → ((p : ℕ) → b.heard p ≡ c.heard p)
    → b.ram ≡ c.ram
    → b ≡ c
Mailboxes-equal e1 e2 e3 e4 e5 e6 e7 e8 = λ i. record {
  running = e1 i;
  ready = e2 i;
  inbox = λ p. e3 p i;
  free = e4 i;
  wants = λ p. e5 p i;
  slot = λ p. e6 p i;
  heard = λ p. e7 p i;
  ram = e8 i;
}

module _ (dest : ℕ) (l : Letter) (b : Mailboxes) where
  pub sending_full : (b.free == 0) ≡ true → sending dest l b ≡ (msg_no_good, b)
  sending_full e = rw e refl

  pub sending-hand_over :
      (b.free == 0) ≡ false
      → is_expecting b dest l.author ≡ true
      → sending dest l b ≡ (0, hand_over dest l b)
  sending-hand_over e f = rw (e, f) refl

  pub sending-put_by :
      (b.free == 0) ≡ false
      → is_expecting b dest l.author ≡ false
      → sending dest l b ≡ (0, put_by dest l b)
  sending-put_by e f = rw (e, f) refl
