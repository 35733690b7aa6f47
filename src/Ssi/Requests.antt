-- ===== src/Ssi/Requests.antt =====
-- Requests of phase2/ssi.c: the creation of a process, and input and output.
use project.Common.{
  ℕ, ◌+◌, ◌≤◌, ◌≡◌, ◌≢◌, refl, ap, ◌∙◌, Bool, true, false, List, [], ◌∷◌, ◌++◌, arith, ◌==◌,
  if◌then◌else◌, has, length, update, erase, update_self, update-update, has-erase_self,
}
use project.Listx.{Links, null}
use project.Listx.Heap.{IsHeap, Unowned, Distinct-entries}
use project.Types.{State, max_proc, p_io}
use project.Types.Machine.{ret}
use project.Types.View.{Yields, Yields-cast}
use project.Pcb.{out_proc_q_for_io, insert_proc_q_for_io}
use project.Pcb.Queue.{out_proc_q_for_io-erase, insert_proc_q_for_io-snoc}
use project.Utils.{comm_add_to_number, device_queue}
use project.Ssi.{do_io}

-- The state after `do_io`, but for the links: the flag is set, and the command written.
abbrev pub commanded : (sender p : ℕ) → State → State
commanded sender p s = record s {
  pcb = update s.pcb sender (record (s.pcb sender) { do_io = 1 });
  ram = update s.ram (s.ram p) (s.ram (p + 4));
}

-- The queue of the device that the request names.
abbrev pub queue_for : (p : ℕ) → State → ℕ
queue_for p s = device_queue s (comm_add_to_number s.arch (s.ram p))

do_io_runs :
    (sender p : ℕ) (s : State) (l1 l2 : Links) (a : ℕ)
    → out_proc_q_for_io
        (queue_for p s)
        sender
        (record s { pcb = update s.pcb sender (record (s.pcb sender) { do_io = 1 }) })
      ≡ ret a
          (record s { pcb = update s.pcb sender (record (s.pcb sender) { do_io = 1 }); links = l1 })
    → insert_proc_q_for_io
        (queue_for p s)
        sender
        (record s { pcb = update s.pcb sender (record (s.pcb sender) { do_io = 1 }); links = l1 })
      ≡ ret tt
          (record s { pcb = update s.pcb sender (record (s.pcb sender) { do_io = 1 }); links = l2 })
    → do_io sender p s ≡ ret tt (record (commanded sender p s) { links = l2 })
unfolding do_io
do_io_runs sender p s l1 l2 a e1 e2 = rw e1 (rw e2 refl)

module _ (s : State) {H : ℕ → Bool} {V : ℕ → List ℕ} (heap : IsHeap s.links H V) (sender p : ℕ)
    (is_head : H (queue_for p s) ≡ true) (few : length (V (queue_for p s)) ≤ max_proc)
    (real : sender ≢ null) where
  -- The waiting processes, and those without the sender.
  abbrev waiting_for : List ℕ
  waiting_for = V (queue_for p s)

  abbrev flagged : State
  flagged = record s { pcb = update s.pcb sender (record (s.pcb sender) { do_io = 1 }) }

  abbrev without : ℕ → List ℕ
  without = update V (queue_for p s) (erase (p_io sender) waiting_for)

  taken_out :
      Yields
        (out_proc_q_for_io (queue_for p s) sender flagged)
        (if has (p_io sender) waiting_for then sender else null)
        flagged
        H
        without
  taken_out = out_proc_q_for_io-erase {s = flagged} heap (queue_for p s) is_head sender real few

  -- The node of the sender is in no list but, perhaps, this queue.
  abbrev pub NotElsewhere : Type 0
  NotElsewhere =
      (a : ℕ)
      → H a ≡ true
      → (has (p_io sender) (a ∷ V a) ≡ true)
      → (a ≡ queue_for p s) × ((p_io sender == a) ≡ false)

  sender_free : NotElsewhere → Unowned H without (p_io sender)
  sender_free only a ha = ground (
    arith,
    only a ha,
    has-erase_self (p_io sender) waiting_for (Distinct-entries heap (queue_for p s) is_head),
  )

  put_in :
      NotElsewhere
      → Yields
          (insert_proc_q_for_io (queue_for p s) sender (record flagged { links = taken_out.links }))
          tt
          (record flagged { links = taken_out.links })
          H
          (update V (queue_for p s) (erase (p_io sender) waiting_for ++ (p_io sender ∷ [])))
  put_in only =
      Yields-cast refl
        (ap (λ l. update without (queue_for p s) (l ++ (p_io sender ∷ [])))
            (update_self V (queue_for p s) (erase (p_io sender) waiting_for))
          ∙ update-update V (queue_for p s) (erase (p_io sender) waiting_for)
              (erase (p_io sender) waiting_for ++ (p_io sender ∷ [])))
        (insert_proc_q_for_io-snoc {s = record flagged { links = taken_out.links }} taken_out.heap
          (queue_for p s) is_head sender (sender_free only))

  -- When the queue of the device has at most 50 processes and the sender, not NULL, is in no other
  -- list by its `p_io`, `do_io` leaves the sender once in that queue, at its end, behind the others
  -- in their order, sets its flag, and writes the command to the device's register.
  pub do_io-snoc :
      NotElsewhere
      → Yields
          (do_io sender p s)
          tt
          (commanded sender p s)
          H
          (update V (queue_for p s) (erase (p_io sender) waiting_for ++ (p_io sender ∷ [])))
  do_io-snoc only = record {
    links = (put_in only).links;
    runs =
        do_io_runs sender p s taken_out.links (put_in only).links _ taken_out.runs
          (put_in only).runs;
    heap = (put_in only).heap;
  }
