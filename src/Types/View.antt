-- ===== src/Types/View.antt =====
-- How a run is described: its result, and the lists of the memory afterwards.
use mathlib.Core.Path.{subst₂}
use project.Common.{ℕ, ◌≡◌, Bool, List, [], update, update_same}
use project.Listx.{Links}
use project.Listx.Heap.{IsHeap}
use project.Types.{State}
use project.Types.Machine.{Cmd, Outcome, ret, exit, Exit, critical, without_mie}

-- The run returns `a`, the state is `s` but for its links, and those make up the lists `V` of the
-- heads `H`.
pub record Yields {A : Type 0} (o : Outcome A) (a : A) (s : State) (H : ℕ → Bool) (V : ℕ → List ℕ)
    : Type 0 where
  pub links : Links
  pub runs : o ≡ ret a (record s { links = links })
  pub heap : IsHeap links H V

-- A command that runs with interrupts off.
pub Yields-critical :
    {A : Type 0} (m : Cmd A) (a : A) {s : State} {H : ℕ → Bool} {V : ℕ → List ℕ}
    → Yields
        (m (record s { mstatus = without_mie s.mstatus }))
        a
        (record s { mstatus = without_mie s.mstatus })
        H
        V
    → Yields (critical m s) a s H V
Yields-critical m a y = record { links = y.links; runs = rw y.runs; heap = y.heap }

-- The same run described with equal results and lists.
pub Yields-cast :
    {A : Type 0} {o : Outcome A} {a b : A} {s : State} {H : ℕ → Bool} {V W : ℕ → List ℕ}
    → a ≡ b
    → V ≡ W
    → Yields o a s H V
    → Yields o b s H W
Yields-cast {o} {s} {H} {W} e f y = subst₂ (λ r U. Yields o r s H U) e f y

-- A run that leaves an empty list as it is.
pub Yields-empty :
    {s : State} {H : ℕ → Bool} {V : ℕ → List ℕ} (heap : IsHeap s.links H V) (head : ℕ) {A : Type 0}
    (o : Outcome A) (a : A)
    → V head ≡ []
    → o ≡ ret a s
    → Yields o a s H (update V head [])
Yields-empty {s} {V} heap head o a e runs = record {
  links = s.links;
  runs = runs;
  heap = rw (update_same V head [] e) heap;
}

-- The run ends in `e`, the state is `s` but for its links, and those make up the lists `V`.
pub record Leaves {A : Type 0} (o : Outcome A) (e : Exit) (s : State) (H : ℕ → Bool)
    (V : ℕ → List ℕ) : Type 0 where
  pub links : Links
  pub runs : o ≡ exit e (record s { links = links })
  pub heap : IsHeap links H V
