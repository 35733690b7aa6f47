-- ===== src/Tests/Actors.antt =====
-- The processes of phase3/ with scripts of replies.
use project.Common.{ℕ, ◌+◌, ◌≡◌, ◌≢◌, refl, List, [], ◌∷◌, ◌++◌, arith, update}
use project.Types.{ssi_fake_addr}
use project.Actor.{Reply, sent, asked, word, get_support_ptr, done, starved}
use project.SysSupport.{Env}
use project.Sst.{write, char_at, int_length}
use project.Sst.Write.{write-to_terminal, write-to_printer, to_terminal, to_printer}
use project.Mutex.{mutex_proc}
use project.Mutex.Exclusion.{free, broken, after, mutex_proc-never_broken, mutex_proc-starves}
use project.Vm.{get_frame_index, is_frame_free, is_dirty}
use project.Pager.{Tables, tlb_handler}
use project.Pager.Failure.{tlb_handler-last_calls}
use project.SysSupport.Outcome.{last_calls}
use project.Pager.Sequence.{swap_calls}
use project.Pcb.{zero_state}
use project.Tests.Memory.{arch, a_support}

-- 7 takes the mutex, sends something else, and releases it; 9 takes it and keeps it.
abbrev takers : List Reply
takers =
    record { sender = 7; payload = 1 }
    ∷ record { sender = 7; payload = 0 }
    ∷ record { sender = 7; payload = 256 }
    ∷ record { sender = 9; payload = 1 }
    ∷ []

mutex_proc-never_broken_example : (after (free, takers) (mutex_proc 3 takers).calls).0 ≢ broken
mutex_proc-never_broken_example = mutex_proc-never_broken 3 takers

mutex_proc-starves_example : (mutex_proc 5 takers).ending ≡ starved
mutex_proc-starves_example = mutex_proc-starves 5 takers (omega arith)

-- The string `Hi` at 500, and the request to print it at 400. The saved states miss the second page of a program.
abbrev env : Env
env = record {
  arch = arch;
  mutex_pcb = 3000;
  sst_pcbs = λ _. 0;
  support_at =
      λ _. record a_support { sup_except_state = λ _. record zero_state { entry_hi = 0x80001040 } };
  ram = update (update (update (update (λ _. 0) 400 2) 404 500) 500 72) 501 105;
  tod = 0;
}

abbrev status : ℕ → Reply
status n = record { sender = 2; payload = n }

write-to_terminal_example : write env 400 1 21 (status 5 ∷ status 5 ∷ status 8 ∷ []) ≡ record {
  ending = done tt;
  left = status 8 ∷ [];
  calls = to_terminal (0x10000254 + 12) (72 ∷ 105 ∷ []);
}
unfolding int_length char_at
write-to_terminal_example = write-to_terminal env 400 1 (status 5 ∷ status 5 ∷ status 8 ∷ []) refl

write-to_printer_example : write env 400 1 20 (status 1 ∷ status 1 ∷ []) ≡ record {
  ending = done tt;
  left = [];
  calls = to_printer (0x100001D4 + 8) (0x100001D4 + 4) (72 ∷ 105 ∷ []);
}
unfolding int_length char_at
write-to_printer_example = write-to_printer env 400 1 (status 1 ∷ status 1 ∷ []) refl

-- Every frame holds a dirty page.
abbrev dirty_tables : Tables
dirty_tables = record {
  vm = record {
    swap_pool_table =
        λ _. record { sw_asid = 1; sw_page_no = 6; sw_pte = record { owner = 9; index = 3 } };
    text_pages = λ _. 0;
    frame_index = 3;
    swap_pool = 0x2000C000;
  };
  page_table = λ _ _. record { pte_entry_hi = 0x80001040; pte_entry_lo = 0x600 };
  tlb = [];
}

-- The device answers that it could not read the page.
tlb_handler-last_calls_example :
    tlb_handler env dirty_tables (status 30 ∷ status 0 ∷ status 1 ∷ status 4 ∷ []) ≡ record {
      ending = starved;
      left = [];
      calls =
          sent ssi_fake_addr get_support_ptr
          ∷ asked ssi_fake_addr
          ∷ sent 3000 (word 1)
          ∷ asked 3000
          ∷ (swap_calls env 30 dirty_tables ++ last_calls env);
    }
unfolding get_frame_index is_dirty is_frame_free
tlb_handler-last_calls_example =
    tlb_handler-last_calls env dirty_tables (status 30) (status 0) (status 1) (status 4) refl refl
      refl
