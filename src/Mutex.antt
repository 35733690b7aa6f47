-- ===== src/Mutex.antt =====
-- The process of phase3/vmSupport.c that hands out the mutex of the swap pool.
pub mod Exclusion
use project.Common.{
  ℕ, zero, suc, ◌+◌, ◌/◌, ◌%◌, ◌^◌, ◌≡◌, Bool, true, false, not, List, [], ◌∷◌, ◌==◌, length,
  if◌then◌else◌,
}
use project.Types.{any_message}
use project.Actor.{Actor, Reply, Run, word, send, receive, endless, done_with, ◌>>=◌, ◌>>◌}

-- `mutex_payload_t`: two bytes, `p` lowest.
abbrev pub asks : ℕ → ℕ
asks payload = payload % 256

abbrev pub releases : ℕ → ℕ
releases payload = payload / 2 ^ 8 % 256

-- `do … while (p.fields.v != 1)`: each round takes a message, so the rounds are bounded by the script.
unfoldable pub wait_for_release : (fuel sender : ℕ) → Actor (Unit {0})
wait_for_release zero sender script = record { ending = endless; left = script; calls = [] }
wait_for_release (suc fuel) sender script =
    (do
      r ← receive sender
      if releases r.payload == 1 then done_with tt else wait_for_release fuel sender)
      script

-- One round of `while (1)`.
unfoldable pub mutex_round : Actor (Unit {0})
unfolding wait_for_release
mutex_round script =
    (do
      r ← receive any_message
      let held : Actor (Unit {0}) = do
        send r.sender (word 0)
        wait_for_release (length script + 1) r.sender
        send r.sender (word 0)
      if not (asks r.payload == 1) then done_with tt else held)
      script

-- The loop, by the rounds left.
unfoldable pub mutex_proc : (rounds : ℕ) → Actor (Unit {0})
unfolding mutex_round
mutex_proc zero script = done_with tt script
mutex_proc (suc n) script = (mutex_round >> mutex_proc n) script
