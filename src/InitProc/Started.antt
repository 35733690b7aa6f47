-- ===== src/InitProc/Started.antt =====
-- Which processes phase3/initProc.c starts, with what, and what it waits for.
use project.Common.{ℕ, zero, suc, List, [], ◌∷◌, ◌++◌}
use project.Listx.{null}
use project.Types.{State, uproc_max, sizeof_support, ssi_fake_addr, any_message}
use project.Types.Table.{entry}
use project.Actor.{Reply, Call, sent, asked, create_process, term_process}
use project.InitProc.Filled.{page_below}
use project.Vm.{VmState, mark_free_pages}
use project.InitProc.{UserImage}
use project.InitProc.Threads.{mutex_start, creations}

-- The calls that wait for `n` messages from anyone.
abbrev pub waits : ℕ → List Call
waits zero = []
waits (suc n) = asked any_message ∷ waits n

-- The swap pool when the senders of some messages have ended.
abbrev pub released : State → VmState → List Reply → VmState
released m vm [] = vm
released m vm (r ∷ rs) =
    released m (mark_free_pages (m.support (m.pcb r.sender).p_support_struct).sup_asid vm) rs

-- The structures of a table: entry `n - 1` first, entry 0 last.
abbrev pub structures : (table n : ℕ) → List ℕ
structures table zero = []
structures table (suc n) = entry table sizeof_support n ∷ structures table n

-- The calls of `test`: the mutex process is created without a support structure, and the service
-- threads with one each; as many messages are awaited; and the mutex process and the caller end.
abbrev pub starts : UserImage → (table mutex_pcb : ℕ) → List Call
starts k table mutex_pcb =
    let top = k.stst.reg_sp in
    sent ssi_fake_addr (create_process (mutex_start k (page_below top 33)) null)
    ∷ asked ssi_fake_addr
    ∷ (creations k top 1 (structures table uproc_max)
        ++ (waits uproc_max
            ++ (sent ssi_fake_addr (term_process mutex_pcb)
                ∷ asked ssi_fake_addr
                ∷ sent ssi_fake_addr (term_process null)
                ∷ asked ssi_fake_addr
                ∷ [])))
