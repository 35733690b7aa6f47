-- ===== src/Mutex/Exclusion.antt =====
-- The mutex process has one holder at a time, and serves only the holder until it releases.
use project.Common.{
  ℕ, zero, suc, ◌+◌, ◌/◌, ◌%◌, ◌≤◌, ◌<◌, ◌≡◌, ◌≢◌, refl, true, false, ap, sym, ◌∙◌, ◌⊎◌, inl, inr,
  List, [], ◌∷◌, ◌++◌, arith, ◌==◌, ==_refl, length, if◌then◌else◌, Bool-cases,
}
use project.Types.{any_message}
use project.Actor.{Call, sent, asked, asked_into, word, Reply, Run, done, starved, send, receive}
use project.Mutex.{asks, releases, wait_for_release, mutex_round, mutex_proc}

-- The mutex as calls and replies show it: free, granted but not handed out, held, released but not
-- answered, or handled wrongly.
pub data Lock : Type 0 where
  free : Lock
  granted : ℕ → Lock
  held : ℕ → Lock
  released : ℕ → Lock
  broken : Lock

-- A free mutex is asked for by anyone, with 1 in the lowest byte; while it is held only the holder is
-- listened to, and its message releases the mutex when the second byte is 1, and does nothing else.
abbrev pub on_reply : Lock → (from : ℕ) → Reply → Lock
on_reply free s r =
    if s == 0 then (if r.payload % 256 == 1 then granted r.sender else free) else broken
on_reply (held h) s r =
    if s == h then (if r.payload / 256 % 256 == 1 then released h else held h) else broken
on_reply (granted d) s r = broken
on_reply (released h) s r = broken
on_reply broken s r = broken

-- A wait for a message that does not come.
abbrev pub on_wait : Lock → (from : ℕ) → Lock
on_wait free s = if s == 0 then free else broken
on_wait (held h) s = if s == h then held h else broken
on_wait (granted d) s = broken
on_wait (released h) s = broken
on_wait broken s = broken

-- The process that was granted the mutex is told, and so is the one that released it; nobody else is.
abbrev pub on_sent : Lock → (dest : ℕ) → Lock
on_sent free d = broken
on_sent (granted h) d = if d == h then held h else broken
on_sent (held h) d = broken
on_sent (released h) d = if d == h then free else broken
on_sent broken d = broken

-- The mutex with the replies that are still to come.
abbrev pub step : Lock × List Reply → Call → Lock × List Reply
step (l, rs) (sent d p) = (on_sent l d, rs)
step (l, []) (asked s) = (on_wait l s, [])
step (l, r ∷ rs) (asked s) = (on_reply l s r, rs)
step (l, rs) (asked_into s address) = (broken, rs)

abbrev pub after : Lock × List Reply → List Call → Lock × List Reply
after l [] = l
after l (c ∷ cs) = after (step l c) cs

after-append :
    (l : Lock × List Reply) (xs ys : List Call) → after l (xs ++ ys) ≡ after (after l xs) ys
after-append l [] ys = refl
after-append l (x ∷ xs) ys = after-append (step l x) xs ys

-- Another message of the holder does nothing.
listening :
    (h : ℕ) (r : Reply) (rest : List Reply) (cs : List Call)
    → (releases r.payload == 1) ≡ false
    → after (held h, r ∷ rest) (asked h ∷ cs) ≡ after (held h, rest) cs
listening h r rest cs on =
    let one : step (held h, r ∷ rest) (asked h) ≡ (held h, rest) = rw (==_refl h, on) refl in
    ap (λ l. after l cs) one

answering :
    (h : ℕ) (rest : List Reply) → after (released h, rest) (sent h (word 0) ∷ []) ≡ (free, rest)
answering h rest = rw (==_refl h) refl

-- What the wait for the release says of its run.
Waited : (h : ℕ) → List Reply → Run (Unit {0}) → Type 0
Waited h script r =
    ((r.ending ≡ done tt)
      × (after (held h, script) r.calls ≡ (released h, r.left))
      × (length r.left ≤ length script))
    ⊎ ((r.ending ≡ starved) × (after (held h, script) r.calls ≡ (held h, [])))

wait_for_release-Waited :
    (fuel h : ℕ) (script : List Reply)
    → length script < fuel
    → Waited h script (wait_for_release fuel h script)
unfolding wait_for_release receive Waited
wait_for_release-Waited zero h script lt = absurd (omega arith)
wait_for_release-Waited (suc fuel) h [] lt = inr (refl, rw (==_refl h) refl)
wait_for_release-Waited (suc fuel) h (r ∷ rest) lt = elim (Bool-cases (releases r.payload == 1)) [
  | inl over ↦ rw (wait_for_release, over) (inl (refl, rw (==_refl h, over) refl, omega arith))
  | inr on ↦
      let w = wait_for_release-Waited fuel h rest (omega arith) in
      let calls = (wait_for_release fuel h rest).calls in
      let first : after (held h, r ∷ rest) (asked h ∷ calls) ≡ after (held h, rest) calls =
        listening h r rest calls on in
      rw (wait_for_release, on)
        (elim w [
          | inl (e, back, le) ↦ inl (e, first ∙ back, omega (arith, le))
          | inr (e, back) ↦ inr (e, first ∙ back)
        ])
]

-- What one round of the loop says of its run.
abbrev Completes : List Reply → Run (Unit {0}) → Type 0
Completes script r =
    (r.ending ≡ done tt)
    × (after (free, script) r.calls ≡ (free, r.left))
    × (length r.left < length script)

abbrev Waits : List Reply → Run (Unit {0}) → Type 0
Waits script r = (r.ending ≡ starved) × ((after (free, script) r.calls).0 ≢ broken)

free_ne : free ≢ broken
free_ne = cc

held_ne : (h : ℕ) → held h ≢ broken
held_ne h = cc

-- The calls of a round that grants the mutex.
granting :
    (r : Reply) (rest : List Reply) (cs : List Call)
    → (asks r.payload == 1) ≡ true
    → after (free, r ∷ rest) (asked any_message ∷ sent r.sender (word 0) ∷ cs)
      ≡ after (held r.sender, rest) cs
granting r rest cs wants = rw (wants, ==_refl r.sender) refl

mutex_round-cases :
    (script : List Reply)
    → Completes script (mutex_round script) ⊎ Waits script (mutex_round script)
unfolding mutex_round receive send Waited
mutex_round-cases [] = inr (refl, free_ne)
mutex_round-cases (r ∷ rest) = elim (Bool-cases (asks r.payload == 1)) [
  | inl wants ↦
      let w = wait_for_release-Waited (length (r ∷ rest) + 1) r.sender rest (omega arith) in
      let calls = (wait_for_release (length (r ∷ rest) + 1) r.sender rest).calls in
      let heard = λ (cs : List Call).
        granting r rest (calls ++ cs) wants ∙ after-append (held r.sender, rest) calls cs in
      rw (mutex_round, wants)
        (elim w [
          | inl (e, back, le) ↦
              let told = sent r.sender (word 0) ∷ [] in
              rw e (
                inl (
                  refl,
                  heard told
                      ∙ ap (λ l. after l told) back
                      ∙ answering r.sender
                          (wait_for_release (length (r ∷ rest) + 1) r.sender rest).left,
                  omega (arith, le),
                ))
          | inr (e, back) ↦
              rw e
                (inr (refl, λ bad. held_ne r.sender (sym (ap (λ l. l.0) (heard [] ∙ back)) ∙ bad)))
        ])
  | inr other ↦ rw (mutex_round, other) (inl (refl, rw other refl, omega arith))
]

-- Whatever messages it receives, the mutex process hands the mutex to one process at a time: it
-- grants it only to the sender of a message that asks for it; from then on it listens to that
-- process only, until a message that releases the mutex comes, and ignores its other messages; the
-- answer to the release goes to the same process; and it sends nothing else.
pub mutex_proc-never_broken :
    (n : ℕ) (script : List Reply) → (after (free, script) (mutex_proc n script).calls).0 ≢ broken
unfolding mutex_proc
mutex_proc-never_broken zero script = free_ne
mutex_proc-never_broken (suc n) script = elim (mutex_round-cases script) [
  | inl (e, back, less) ↦ rw e (λ bad.
      let cs = (mutex_round script).calls in
      let more = (mutex_proc n (mutex_round script).left).calls in
      mutex_proc-never_broken n (mutex_round script).left (
        sym (ap (λ l. l.0) (after-append (free, script) cs more ∙ ap (λ l. after l more) back))
        ∙ bad))
  | inr (e, fine) ↦ rw e (λ bad.
      fine (sym (ap (λ l. l.0) (after-append (free, script) (mutex_round script).calls [])) ∙ bad))
]

-- The mutex process never stops and never loops without a message: with more rounds than messages it
-- ends waiting for the next one.
pub mutex_proc-starves :
    (n : ℕ) (script : List Reply) → length script < n → (mutex_proc n script).ending ≡ starved
unfolding mutex_proc
mutex_proc-starves zero script lt = absurd (omega arith)
mutex_proc-starves (suc n) script lt = elim (mutex_round-cases script) [
  | inl (e, back, less) ↦ rw e (mutex_proc-starves n (mutex_round script).left (omega arith))
  | inr (e, fine) ↦ rw e refl
]
