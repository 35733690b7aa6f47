-- ===== src/Pager/Failure.antt =====
-- How the pager of phase3/vmSupport.c ends a process whose page cannot be had.
use Prim.Native.Nat.{bit_and}
use project.Common.{
  ℕ, ◌≡◌, refl, Bool, true, false, Bool-cases, inl, inr, ap, ◌∙◌, List, [], ◌∷◌, ◌++◌, ◌==◌,
  if◌then◌else◌,
}
use project.Types.{ssi_fake_addr, get_exec_code}
use project.Actor.{Reply, Call, sent, asked, word, get_support_ptr, starved, done, send, receive}
use project.SysSupport.{Env}
use project.SysSupport.Outcome.{last_calls, trap_handler-last}
use project.Pager.{Tables, read_blk, write_blk, read_write_flash, page_in, make_room, tlb_handler}
use project.Pager.Sequence.{
  transfer, is_unsaved, if_unsaved, vacated, make_room-vacated, saved, own_asid, missing,
  frame_addr, old_page, chosen, swap_calls, swap_replies,
}

read_write_flash-last :
    (env : Env) (ram block asid : ℕ) (w : Bool) (r : Reply)
    → (r.payload == 1) ≡ false
    → read_write_flash env ram block asid w (r ∷ []) ≡ record {
      ending = starved;
      left = [];
      calls = transfer env ram block asid (if w then write_blk else read_blk) ++ last_calls env;
    }
unfolding read_write_flash send receive
read_write_flash-last env ram block asid w r bad = rw (bad, trap_handler-last env r) refl

page_in_fails :
    (env : Env) (s : ℕ) (t t2 : Tables) (script s1 : List Reply) (c1 c2 : List Call)
    → make_room env (frame_addr env s t) (old_page env s t) (chosen env s t) script
      ≡ record { ending = done t2; left = s1; calls = c1 }
    → read_write_flash env (frame_addr env s t) (missing env s t) (own_asid env s t) false s1
      ≡ record { ending = starved; left = []; calls = c2 }
    → page_in env s t script ≡ record { ending = starved; left = []; calls = c1 ++ (c2 ++ []) }
unfolding page_in
page_in_fails env s t t2 script s1 c1 c2 e1 e2 = rw e1 (rw e2 refl)

tlb_handler_fails :
    (env : Env) (t : Tables) (r m : Reply) (script : List Reply) (cs : List Call)
    → (bit_and (saved env r.payload t).cause get_exec_code == 24) ≡ false
    → page_in env r.payload t script ≡ record { ending = starved; left = []; calls = cs }
    → tlb_handler env t (r ∷ m ∷ script) ≡ record {
      ending = starved;
      left = [];
      calls =
          sent ssi_fake_addr get_support_ptr
          ∷ asked ssi_fake_addr
          ∷ sent env.mutex_pcb (word 1)
          ∷ asked env.mutex_pcb
          ∷ (cs ++ []);
    }
unfolding tlb_handler send receive
tlb_handler_fails env t r m script cs other e = rw (other, e) refl

-- The calls up to the failure.
abbrev page_calls : Env → ℕ → Tables → List Call
page_calls env s t =
    if_unsaved (old_page env s t) t (
      transfer env (frame_addr env s t) (old_page env s t).sw_page_no (old_page env s t).sw_asid
        write_blk)
    ++ (transfer env (frame_addr env s t) (missing env s t) (own_asid env s t) read_blk
        ++ last_calls env)

page_calls_end :
    (env : Env) (s : ℕ) (t : Tables)
    → page_calls env s t ++ [] ≡ swap_calls env s t ++ last_calls env
page_calls_end env s t = elim (Bool-cases (is_unsaved (old_page env s t) t)) [
  | inl unsaved ↦ rw unsaved refl
  | inr saved_already ↦ rw saved_already refl
]

-- When the exception is no modification and the flash device cannot read the missing page, after the
-- write back of the frame's page went well if there was one, `tlb_handler` has made these calls and
-- no others: the request for its support structure, that for the mutex, the transfers, the release
-- of the mutex, a message to its thread, and the request to the SSI to end the process; as long as
-- the SSI does not answer that, the process does not go on.
pub tlb_handler-last_calls :
    (env : Env) (t : Tables) (r m written read : Reply)
    → (bit_and (saved env r.payload t).cause get_exec_code == 24) ≡ false
    → (written.payload == 1) ≡ true
    → (read.payload == 1) ≡ false
    → tlb_handler env t (r ∷ m ∷ swap_replies env r.payload t written (read ∷ [])) ≡ record {
      ending = starved;
      left = [];
      calls =
          sent ssi_fake_addr get_support_ptr
          ∷ asked ssi_fake_addr
          ∷ sent env.mutex_pcb (word 1)
          ∷ asked env.mutex_pcb
          ∷ (swap_calls env r.payload t ++ last_calls env);
    }
tlb_handler-last_calls env t r m written read other ok bad =
    tlb_handler_fails env t r m (swap_replies env r.payload t written (read ∷ []))
      (page_calls env r.payload t) other
      (page_in_fails env r.payload t (vacated (old_page env r.payload t) (chosen env r.payload t))
        (swap_replies env r.payload t written (read ∷ [])) (read ∷ [])
        (if_unsaved (old_page env r.payload t) t (
          transfer env (frame_addr env r.payload t) (old_page env r.payload t).sw_page_no
            (old_page env r.payload t).sw_asid write_blk))
        (transfer env (frame_addr env r.payload t) (missing env r.payload t)
            (own_asid env r.payload t) read_blk
          ++ last_calls env)
        (make_room-vacated env (frame_addr env r.payload t) (old_page env r.payload t)
          (chosen env r.payload t) written (read ∷ []) ok)
        (read_write_flash-last env (frame_addr env r.payload t) (missing env r.payload t)
          (own_asid env r.payload t) false read bad))
    ∙ ap
        (λ cs. record {
          ending = starved;
          left = [];
          calls =
              sent ssi_fake_addr get_support_ptr
              ∷ asked ssi_fake_addr
              ∷ sent env.mutex_pcb (word 1)
              ∷ asked env.mutex_pcb
              ∷ cs;
        })
        (page_calls_end env r.payload t)
