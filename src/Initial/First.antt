-- ===== src/Initial/First.antt =====
-- main of phase2/initial.c: how the system is when the first process runs.
use project.Common.{
  ℕ, ◌+◌, ◌-◌, ◌*◌, ◌%◌, ◌^◌, ◌≡◌, refl, ap, ◌∙◌, true, false, List, [], ◌∷◌, arith, ◌==◌, update,
  update_self, update_other,
}
use project.Listx.Heap.{IsHeap}
use project.Types.{State, psecond, page_size, p_list}
use project.Types.View.{Yields, Leaves}
use project.Types.Machine.{ret, exit, ldst}
use project.Pcb.{init_pcbs, fresh_pcb, zero_state}
use project.Msg.{init_msgs}
use project.Scheduler.{scheduler}
use project.Scheduler.Outcome.{restarted}
use project.Initial.{
  Image, ram_top, write_word, fill_pass_up_vector, init_globals, new_process, start_state, main,
}
use project.Initial.Blocks.{block, below, Clean}
use project.Initial.Queues.{reset}
use project.Utils.Queues.{queue_at}
use project.Initial.Empty.{clock_head, clock_made, device_head, device_made}
use project.Initial.Pair.{
  started_ssi, started_test, p, q, after_one, s1, s2, after_two, one, H2, V2, two, free2, same2,
  head2, queue2, ssi_lists, test_lists, IsEmptyList, ssi_block2, test_block2, first2,
}
use project.Initial.Boot.{IsLinked, pool_heads, no_lists}
use project.Initial.Made.{
  blocks_made, messages_made, globals_made, free_made, pool_made, ready_made, free_head, ready_head,
  clean_made, H1, V1, pool_is, blocks_state, pools_state,
}
use project.Initial.Goal.{
  filled, IsUriscvVector, filled-HasVector, ram_top_filled, IsStarted, Starts,
}

fill_runs : (k : Image) (s : State) → fill_pass_up_vector k s ≡ ret tt (filled k s)
unfolding fill_pass_up_vector write_word
fill_runs k s = refl

main_runs :
    {A : Type 0} (k : Image) (s s1 s2 s3 s4 s5 s6 : State) (p q : ℕ)
    → fill_pass_up_vector k s ≡ ret tt s1
    → init_pcbs s1 ≡ ret tt s2
    → init_msgs s2 ≡ ret tt s3
    → init_globals s3 ≡ ret tt s4
    → new_process (record s4 { interval_timer = psecond }) ≡ ret p s5
    → new_process (started_ssi k p s5) ≡ ret q s6
    → main {A = A} k s ≡ scheduler (started_test k (ram_top s5) q s6)
unfolding main ram_top
main_runs {A} k s s1 s2 s3 s4 s5 s6 p q e1 e2 e3 e4 e5 e6 = rw (e1, e2, e3, e4, e5, e6) refl

module _ (k : Image) (before : State) (linked : IsLinked before.layout) (machine : IsUriscvVector k)
    (heap : IsHeap before.links (pool_heads before.layout) no_lists) where
  abbrev s : State
  s = filled k before

  abbrev s0 : State
  s0 = record (reset (pools_state s linked heap)) {
    links = (globals_made s linked heap).links;
    interval_timer = psecond;
  }

  free_ne : (s.pcb_free_h == s.ready_queue) ≡ false
  free_ne = ground (arith, linked.ready_ne.0)

  pool_ne : (s.pcb_free_h == s.msg_free_h) ≡ false
  pool_ne = linked.pools_ne

  abbrev made :
      Yields
        (init_globals (pools_state s linked heap))
        tt
        (reset (pools_state s linked heap))
        (H1 s linked heap)
        (V1 s linked heap)
  made = globals_made s linked heap

  free_is : H1 s linked heap s.pcb_free_h ≡ true
  free_is = free_head s linked heap

  ready_is : H1 s linked heap s.ready_queue ≡ true
  ready_is = ready_head s linked heap

  free : V1 s linked heap s.pcb_free_h ≡ below s.layout 50
  free = free_made s linked heap

  clean : Clean s.layout (H1 s linked heap) (V1 s linked heap) 50
  clean = clean_made s linked heap

  main_pair :
      {A : Type 0}
      → main {A = A} k before ≡ scheduler (s2 k s0 made.heap free_is ready_is free_ne free clean)
  main_pair {A} =
      main_runs k before s (blocks_state s linked heap) (pools_state s linked heap)
        (record (reset (pools_state s linked heap)) { links = made.links })
        (after_one k s0 made.heap free_is ready_is free_ne free clean)
        (after_two k s0 made.heap free_is ready_is free_ne free clean) (block s.layout 49)
        (block s.layout 48) (fill_runs k before) (blocks_made s linked heap).runs
        (messages_made s linked heap).runs made.runs
        (one k s0 made.heap free_is ready_is free_ne free clean).runs
        (two k s0 made.heap free_is ready_is free_ne free clean).runs

  abbrev ready_state : State
  ready_state = s2 k s0 made.heap free_is ready_is free_ne free clean

  abbrev lists : ℕ → List ℕ
  lists = V2 k s0 made.heap free_is ready_is free_ne free clean

  chosen :
      {A : Type 0}
      → Leaves
          (scheduler {A = A} ready_state)
          (ldst (start_state (ram_top s0) k.ssi zero_state))
          (restarted (record ready_state { current_process = block s.layout 49 }))
          (H2 k s0 made.heap free_is ready_is free_ne free clean)
          (update lists s.ready_queue (p_list (block s.layout 48) ∷ []))
  chosen {A} =
      first2 k s0 made.heap free_is ready_is free_ne free clean {A = A} (ready_made s linked heap)
        refl refl

  empty_queue :
      (a : ℕ)
      → H1 s linked heap a ≡ true
      → V1 s linked heap a ≡ []
      → (a == s.pcb_free_h) ≡ false
      → (a == s.ready_queue) ≡ false
      → IsEmptyList
          (H2 k s0 made.heap free_is ready_is free_ne free clean)
          (update lists s.ready_queue (p_list (block s.layout 48) ∷ []))
          a
  empty_queue a h e not_free not_ready =
      queue2 k s0 made.heap free_is ready_is free_ne free clean a h e (ground (arith, not_free))
        (ground (arith, not_ready))

  is_started :
      (f : State)
      → f ≡ record (restarted (record ready_state { current_process = block s.layout 49 })) {
        links = f.links;
      }
      → IsStarted k before f
          (H2 k s0 made.heap free_is ready_is free_ne free clean)
          (update lists s.ready_queue (p_list (block s.layout 48) ∷ []))
  unfolding ram_top start_state
  is_started f e = rw e (record {
    ssi_runs = refl;
    ssi_block =
        ssi_block2 k s0 made.heap free_is ready_is free_ne free clean
        ∙ ap (λ top. record (fresh_pcb s.next_pid) { p_s = start_state top k.ssi zero_state })
            (ram_top_filled k before machine);
    test_block =
        test_block2 k s0 made.heap free_is ready_is free_ne free clean
        ∙ ap
            (λ top. record (fresh_pcb ((s.next_pid + 1) % 2 ^ 32)) {
              p_s = start_state ((top + 2 ^ 32 - 2 * page_size) % 2 ^ 32) k.test zero_state;
            })
            (ram_top_filled k before machine);
    names = (refl, refl);
    counts = (refl, refl);
    timers = (refl, refl);
    vector = filled-HasVector k before machine;
    heads = (
      head2 k s0 made.heap free_is ready_is free_ne free clean s.ready_queue ready_is,
      head2 k s0 made.heap free_is ready_is free_ne free clean s.pcb_free_h free_is,
      head2 k s0 made.heap free_is ready_is free_ne free clean s.msg_free_h (pool_is s linked heap),
    );
    clock =
        empty_queue s.pcb_blocked_on_clock (clock_head s linked heap) (clock_made s linked heap)
          linked.clock_ne.0 linked.clock_ne.2;
    devices = λ j lt.
        empty_queue (queue_at s.pcb_blocked_on_device j) (device_head s linked heap j lt)
          (device_made s linked heap j lt) (linked.devices_ne j lt).0 (linked.devices_ne j lt).2;
    ssi_lists = ssi_lists k s0 made.heap free_is ready_is free_ne free clean;
    test_lists = test_lists k s0 made.heap free_is ready_is free_ne free clean;
    ready = update_self lists s.ready_queue (p_list (block s.layout 48) ∷ []);
    free =
        update_other lists s.ready_queue s.pcb_free_h (p_list (block s.layout 48) ∷ [])
          linked.ready_ne.0
        ∙ free2 k s0 made.heap free_is ready_is free_ne free clean;
    pool =
        update_other lists s.ready_queue s.msg_free_h (p_list (block s.layout 48) ∷ [])
          linked.ready_ne.1
        ∙ same2 k s0 made.heap free_is ready_is free_ne free clean s.msg_free_h
            (pool_is s linked heap) pool_ne linked.ready_ne.1
        ∙ pool_made s linked heap;
  })

  -- When the free list and the pool are the only list heads, both empty, the linker keeps the heads
  -- apart from the two tables and from each other as IsLinked says, and the pass up vector is laid
  -- out as uriscv documents, `main` of phase2/initial.c ends by loading the state of the SSI: the
  -- SSI is the last block of the table, runs in kernel mode with interrupts on from its entry with
  -- the top of memory as its stack, and has the public name SSI_FAKE_ADDR; the test process is the
  -- block before it, waits alone in the ready queue, and has its stack two pages lower; two
  -- processes are counted and none waits for the outside; the interval timer is set, and the pass up
  -- vector names the two handlers and the kernel's stack; the free list has the other 48 blocks, the
  -- pool all 50 messages, the queues of the clock and of all devices and the lists of children and
  -- of messages of both processes are there and empty, and the lists are well-formed.
  pub main-Starts : {A : Type 0} → Starts k before (main {A = A} k before)
  unfolding ram_top start_state
  main-Starts {A} =
      let w = chosen {A = A} in
      let f = record (restarted (record ready_state { current_process = block s.layout 49 })) {
        links = w.links;
      } in
      (
        f,
        H2 k s0 made.heap free_is ready_is free_ne free clean,
        update lists s.ready_queue (p_list (block s.layout 48) ∷ []),
        main_pair
            ∙ w.runs
            ∙ ap (λ top. exit (ldst (start_state top k.ssi zero_state)) f)
                (ram_top_filled k before machine),
        w.heap,
        is_started f refl,
      )
