-- ===== src/Uthreads/Samples.antt =====
-- Concrete runs of the thread library of Uthreads_Library/uthreads.cpp.
use operating_systems.Base.{◌*◌, ℤ, pos, ◌≡◌, refl, false, none, [], ◌∷◌}
use operating_systems.Uthreads.Containers.{find, insert, erase}
use operating_systems.Uthreads.Machine.{
  Globals, Outcome, returned, exited, fault, handed_over, M, ◌>>=◌, Os, Works, block, unblock,
}
use operating_systems.Uthreads.Scheduler.{
  drop_stack, erase_id, drain_ready, refill_ready, leave_ready_queue, release_thread, delete_thread,
  wake, wake_all, erase_all, wake_sleepers, retire, pop_ready, delete_all, reap, switch_thread,
  keep_running, requeue, dispatch, schedule_handler,
}
use operating_systems.Uthreads.Api.{
  addthread_from, addthread, set_timer, uthread_init, new_thread, uthread_spawn, call_handler,
  free_all, uthread_terminate, split_ready, restore_ready, block_ready, block_thread, uthread_block,
  resume_loop, uthread_resume, uthread_sleep, uthread_get_tid, uthread_get_total_quantums,
  uthread_get_quantums,
}

-- An operating system on which every call succeeds.
instance abbrev pub linux : Os
linux = record {
  sigprocmask = λ h. pos 0;
  sigaction = pos 0;
  setitimer = pos 0;
  new_stack = λ n. 4096 * n;
  translate_address = λ a. a;
}

pub linux-Works : Works linux
linux-Works = record { can_block = refl; can_unblock = refl }

-- The global variables before `main`.
abbrev pub boot : Globals
boot = record {
  heap = λ p. none;
  stacks = [];
  next = 1;
  sleeping_threads = [];
  threads = [];
  ready_queue = [];
  blocked_threads = [];
  termination = [];
  running_thread = 0;
  quantums_number = 0;
  sa_handler = false;
  timer = record { value_sec = 0; value_usec = 0; interval_sec = 0; interval_usec = 0 };
  temp_q = [];
  to_delete_threads = [];
  waking_up_threads = [];
  threads_cur_number = pos 0;
  masked = false;
  cerr = [];
}

abbrev pub after : {A : Type 0} → Outcome A → Globals
after (returned a s) = s
after (exited n s) = s
after fault = boot
after (handed_over s) = s

-- What a run computes with.
unfoldable pub program : Unit {0}
unfolding find insert erase block unblock drop_stack erase_id drain_ready refill_ready
    leave_ready_queue release_thread delete_thread wake wake_all erase_all wake_sleepers retire
    pop_ready delete_all reap switch_thread keep_running requeue dispatch schedule_handler
    addthread_from addthread set_timer uthread_init new_thread uthread_spawn call_handler free_all
    uthread_terminate split_ready restore_ready block_ready block_thread uthread_block resume_loop
    uthread_resume uthread_sleep uthread_get_tid uthread_get_total_quantums uthread_get_quantums
program = tt

-- The library after `uthread_init (100000)` and two calls of `uthread_spawn`.
unfoldable pub three_threads : M ℤ
three_threads = do _ ← uthread_init (pos 100000); _ ← uthread_spawn 4000; uthread_spawn 5000

three_threads_queue :
    ((after (three_threads boot)).ready_queue ≡ 2 ∷ 3 ∷ [])
    × ((after (three_threads boot)).running_thread ≡ 1)
unfolding three_threads program
three_threads_queue = (refl, refl)

-- A quantum later the first of them runs, and the main thread waits behind the second.
quantum_later :
    ((after ((three_threads >>= λ _. schedule_handler) boot)).ready_queue ≡ 3 ∷ 1 ∷ [])
    × ((after ((three_threads >>= λ _. schedule_handler) boot)).running_thread ≡ 2)
unfolding three_threads program
quantum_later = (refl, refl)

-- Thread 1 terminates itself, and the next thread spawns another.
abbrev handed : Globals
handed = after ((three_threads >>= λ _. schedule_handler >>= λ _. uthread_terminate (pos 1)) boot)

reuse : M ℤ
reuse = do _ ← uthread_spawn 6000; uthread_block (pos 1)

reuse_blocked :
    ((after (reuse handed)).blocked_threads ≡ 4 ∷ [])
    × ((after ((reuse >>= λ _. schedule_handler) handed)).blocked_threads ≡ [])
unfolding reuse three_threads program
reuse_blocked = (refl, refl)
