-- ===== src/InitProc/Threads.antt =====
-- The loop of phase3/initProc.c that creates the service threads.
use project.Common.{
  ℕ, suc, ◌+◌, ◌-◌, ◌*◌, ◌%◌, ◌^◌, ◌≤◌, ◌<◌, ◌≡◌, refl, ap, ◌∙◌, Bool, true, List, [], ◌∷◌, ◌++◌,
  arith, length, update_self, update_other, has, Distinct, false,
}
use project.Listx.Heap.{IsHeap}
use project.Types.{State, StateT, s_list, ssi_fake_addr}
use project.Types.Machine.{Cmd, ret}
use project.Support.{alloc_support}
use project.Support.Pool.{alloc_support-cons, allocated}
use project.Actor.{
  Reply, Call, sent, asked, create_process, done, send, receive, p_create, prefixed,
}
use Prim.Native.Nat.{bit_or}
use project.Listx.{Links}
use project.InitProc.Filled.{
  page_below, IsFilled, AllFilled, AreLaid, after_one, after_one-IsFilled, after_one-support,
  keeps-IsFilled,
}
use project.InitProc.{UserImage, Globals, call, qpage, sst_state, fill_support, create_ssts}

-- The list nodes of some support structures.
abbrev pub nodes : List ℕ → List ℕ
nodes [] = []
nodes (p ∷ ps) = s_list p ∷ nodes ps

-- The state of the mutex process, and that of the service thread of address space `i`.
abbrev pub mutex_start : UserImage → (sp : ℕ) → StateT
mutex_start k sp = record k.stst {
  reg_sp = sp;
  pc_epc = k.mutex_proc;
  status = 0x1880;
  mie = 0xFFFFFFFF;
}

abbrev pub thread_start : UserImage → (i sp : ℕ) → StateT
thread_start k i sp = record (k.stst_of i) {
  entry_hi = i * 64;
  reg_sp = sp;
  pc_epc = k.sst;
  status = bit_or (k.stst_of i).status 0x1880;
  mie = 0xFFFFFFFF;
}

-- The calls that create the service threads from address space `i` on, one for each support structure.
abbrev pub creations : UserImage → (top i : ℕ) → List ℕ → List Call
creations k top i [] = []
creations k top i (p ∷ ps) =
    sent ssi_fake_addr (create_process (thread_start k i (page_below top (33 + i))) p)
    ∷ asked ssi_fake_addr
    ∷ creations k top (i + 1) ps

pub call_runs :
    {A : Type 0} (m : Cmd A) (g : Globals) (a : A) (s : State) (script : List Reply)
    → m g.memory ≡ ret a s
    → call m g script
      ≡ record { ending = done (a, record g { memory = s }); left = script; calls = [] }
unfolding call
call_runs m g a s script e = rw (call, e) refl

-- A round of the loop, from the stack pointer that it computes.
one_more :
    (k : UserImage) (n i sp below p : ℕ) (g : Globals) (s : State) (r : Reply) (script : List Reply)
    → (sp + 2 ^ 32 - qpage) % 2 ^ 32 ≡ below
    → alloc_support g.memory ≡ ret p s
    → create_ssts k (suc n) i sp g (r ∷ script)
      ≡ prefixed
          (sent ssi_fake_addr (create_process (thread_start k i below) p)
            ∷ asked ssi_fake_addr
            ∷ [])
          (create_ssts k n (i + 1) below (after_one k i p g s r.payload) script)
unfolding create_ssts p_create send receive sst_state
one_more k n i sp below p g s r script b e =
    rw (b, call_runs alloc_support g p s (r ∷ script) e) refl

no_more :
    (k : UserImage) (i sp : ℕ) (g : Globals) (script : List Reply)
    → create_ssts k 0 i sp g script ≡ record { ending = done g; left = script; calls = [] }
unfolding create_ssts
no_more k i sp g script = refl

-- What the rounds for the structures `ps` leave, from address space `i` on.
pub record AreCreated (k : UserImage) (top : ℕ) (g g' : Globals) (i : ℕ) (ps : List ℕ)
    (rs : List Reply) : Type 0 where
  pub filled : AllFilled k top g' i ps rs
  pub others : (x : ℕ) → has x ps ≡ false → g'.memory.support x ≡ g.memory.support x
  pub threads : (j : ℕ) → j + 1 < i → g'.sst_pcbs j ≡ g.sst_pcbs j
  pub mutex : g'.mutex_pcb ≡ g.mutex_pcb
  pub vm : g'.vm ≡ g.vm

create_more :
    (k : UserImage) (top i p : ℕ) (g : Globals) (l : Links) (r : Reply) (ps : List ℕ)
    (rs : List Reply) (g' : Globals)
    → AreLaid top g.stacks
    → 0 < i
    → i < 9
    → has p ps ≡ false
    → AreCreated k top
        (after_one k i p g (record (allocated g.memory p) { links = l }) r.payload)
        g'
        (i + 1)
        ps
        rs
    → AreCreated k top g g' i (p ∷ ps) (r ∷ rs)
unfolding fill_support
create_more k top i p g l r ps rs g' laid pos small out c =
    let s = record (allocated g.memory p) { links = l } in
    let own : IsFilled k top (after_one k i p g s r.payload) i p r =
      after_one-IsFilled k i p g s r top laid pos small in
    record {
      filled =
          (keeps-IsFilled (c.others p out) (c.threads (i - 1) (omega (arith, pos))) own, c.filled);
      others = λ x not_in.
          c.others x (ground (arith, not_in))
          ∙ after_one-support k i p g s r x (ground (arith, not_in))
          ∙ update_other g.memory.support p x _ (ground (arith, not_in));
      threads = λ j lt.
          c.threads j (omega (arith, lt))
          ∙ update_other g.sst_pcbs (i - 1) j r.payload (ground (arith, lt, pos));
      mutex = c.mutex;
      vm = c.vm;
    }

pub create_ssts-creations :
    (k : UserImage) (top i sp : ℕ) (ps : List ℕ) (g : Globals) {H : ℕ → Bool} {V : ℕ → List ℕ}
    → IsHeap g.memory.links H V
    → H g.memory.support_free_h ≡ true
    → V g.memory.support_free_h ≡ nodes ps
    → (rs more : List Reply) → length rs ≡ length ps
    → sp ≡ page_below top (32 + i)
    → (32 + i + length ps) * qpage ≤ top
    → top < 2 ^ 32
    → Distinct ps
    → AreLaid top g.stacks
    → 0 < i
    → i + length ps < 10
    → (g' : Globals) × (create_ssts k (length ps) i sp g (rs ++ more)
        ≡ record { ending = done g'; left = more; calls = creations k top i ps })
      × AreCreated k top g g' i ps rs
unfolding fill_support
create_ssts-creations k top i sp [] g heap is_head e [] more len at lo hi distinct laid pos few = (
  g,
  no_more k i sp g more,
  record { filled = tt; others = λ x out. refl; threads = λ j lt. refl; mutex = refl; vm = refl },
)
create_ssts-creations k top i sp [] g heap is_head e (r ∷ rs) more len at lo hi distinct laid pos
      few =
    absurd (omega (arith, len))
create_ssts-creations k top i sp (p ∷ ps) g heap is_head e [] more len at lo hi distinct laid pos
      few =
    absurd (omega (arith, len))
create_ssts-creations k top i sp (p ∷ ps) g {H} {V} heap is_head e (r ∷ rs) more len at lo hi
      distinct laid pos few =
    let y = alloc_support-cons g.memory heap is_head p (nodes ps) e in
    let below : (sp + 2 ^ 32 - qpage) % 2 ^ 32 ≡ page_below top (33 + i) = omega (arith, at) in
    let s = record (allocated g.memory p) { links = y.links } in
    let (g', runs, created) =
      create_ssts-creations k top (i + 1) (page_below top (33 + i)) ps
        (after_one k i p g s r.payload) y.heap is_head
        (update_self V g.memory.support_free_h (nodes ps)) rs more (omega (arith, len))
        (omega arith) (omega arith) hi distinct.1 laid (omega arith) (omega (arith, few)) in
    (
      g',
      one_more k (length ps) i sp (page_below top (33 + i)) p g s r (rs ++ more) below y.runs
          ∙ ap
              (prefixed (
                sent ssi_fake_addr (create_process (thread_start k i (page_below top (33 + i))) p)
                ∷ asked ssi_fake_addr
                ∷ []))
              runs,
      create_more k top i p g y.links r ps rs g' laid pos (omega (arith, few)) distinct.0 created,
    )
