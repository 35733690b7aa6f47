-- ===== src/Utils/Progeny.antt =====
-- terminate_process of phase2/utils.c, with the fuel that it is given, for a whole tree of processes.
use mathlib.Core.Path.{subst}
use project.Common.{ℕ, zero, suc, sym, Bool, List, ◌∷◌, arith, erase}
use project.Types.{State, p_list, p_sib, p_child}
use project.Utils.{terminate_process, terminate_process_fuel, tree_fuel}
use project.Utils.Family.{Family, blocks}
use project.Utils.Children.{Ended, CanEnd, Ends}
use project.Utils.Ending.{one_Ended}

all_end : (n : ℕ) → Ends n
all_end zero s H V p parent kids small c = absurd (omega arith)
all_end (suc n) s H V p parent kids small c =
    subst
      (λ q.
        Ended s H V (p_list p ∷ blocks kids) q (erase (p_sib p) (V (p_child q)))
          (terminate_process_fuel (suc n) p s))
      c.child_of
      (one_Ended n (all_end n) s H V p kids small
        (subst (λ q. CanEnd s H V p q kids) (sym c.child_of) c))

-- For an allocated block that is not the SSI, with any tree of descendants, none of which has a
-- support structure or stands by its `p_list` in a list other than the ready queue and that of the
-- clock, in a memory whose lists are well-formed and have at most 50 entries each,
-- `terminate_process` returns, and then: the free list has gained exactly the blocks of the process
-- and of all its descendants; `process_count` is less by their number; none of them is in the ready
-- queue or the queue of a device; the process is gone from the children of its parent; every other
-- list has lost entries at most, and the children of processes outside of the tree are as before.
pub terminate_process-Ended :
    (s : State) (H : ℕ → Bool) (V : ℕ → List ℕ) (p parent : ℕ) (kids : Family)
    → CanEnd s H V p parent kids
    → Ended s H V
        (p_list p ∷ blocks kids)
        parent
        (erase (p_sib p) (V (p_child parent)))
        (terminate_process p s)
unfolding terminate_process
terminate_process-Ended s H V p parent kids c =
    all_end tree_fuel s H V p parent kids (omega (arith, c.fits.room)) c
