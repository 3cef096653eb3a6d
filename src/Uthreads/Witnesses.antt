-- ===== src/Uthreads/Witnesses.antt =====
-- The properties of Uthreads_Library/uthreads.cpp at concrete states.
use operating_systems.Base.{
  ℕ, ◌<◌, pos, ltb_ℤ, int_max, ◌≡◌, ◌≢◌, refl, sym, ◌∙◌, true, none, some, ◌∷◌, ◌++◌, ◌+◌, [], All,
  arith,
}
use operating_systems.Uthreads.Machine.{Thread, Globals, returned, exited, fault, handed_over}
use operating_systems.Uthreads.Api.{
  success, new_thread, uthread_init, uthread_spawn, uthread_terminate, uthread_block,
  uthread_resume, uthread_sleep,
}
use operating_systems.Uthreads.Scheduler.{delete_thread, schedule_handler}
use operating_systems.Uthreads.Invariant.Delete.{Valid, deleted, delete_thread-eq}
use operating_systems.Uthreads.Invariant.{Inv, Ends}
use operating_systems.Uthreads.Invariant.Caller.{tick-Inv}
use operating_systems.Uthreads.Invariant.Spawning.{IsLeastFree, spawned, spawn-least}
use operating_systems.Uthreads.Safety.{uthread_sleep-Inv, uthread_block-Inv, uthread_resume-Inv}
use operating_systems.Uthreads.Lifetime.{
  uthread_spawn-Inv, uthread_terminate-Inv, terminate_main-exits,
}
use operating_systems.Uthreads.RoundRobin.{ticks, Quiet, ticks-run}
use operating_systems.Uthreads.Starting.{Blank, uthread_init-Inv}
use operating_systems.Uthreads.Samples.{linux, linux-Works, boot, after, program}

boot-Blank : Blank boot
boot-Blank = record {
  no_objects = λ p. refl;
  no_sleeping = refl;
  no_threads = refl;
  no_ready = refl;
  no_blocked = refl;
  no_termination = refl;
  no_temp = refl;
  no_delete = refl;
  no_waking = refl;
  no_count = refl;
}

uthread_init-Inv_example : Ends (uthread_init (pos 100000) boot) (λ r s'. (r ≡ success) × Inv s')
uthread_init-Inv_example = uthread_init-Inv linux-Works boot boot-Blank 99999 refl refl

abbrev one : Globals
one = after (uthread_init (pos 100000) boot)

one-Inv : Inv one
unfolding program
one-Inv = (uthread_init-Inv linux-Works boot boot-Blank 99999 refl refl).1

-- Thread 1 is spawned.
abbrev two : Globals
two = after (uthread_spawn 4000 one)

two-Inv : Inv two
unfolding program
two-Inv = uthread_spawn-Inv linux-Works one one-Inv 4000

-- The quantum of the main thread ends.
abbrev switched : Globals
switched = after (schedule_handler two)

switched-Inv : Inv switched
unfolding program
switched-Inv = tick-Inv linux-Works two two-Inv

uthread_spawn-Inv_example : Ends (uthread_spawn 5000 switched) (λ _ s'. Inv s')
uthread_spawn-Inv_example = uthread_spawn-Inv linux-Works switched switched-Inv 5000

switched-room : ltb_ℤ switched.threads_cur_number (pos 100) ≡ true
unfolding program
switched-room = refl

spawn-least_example :
    (j : ℕ) × (j < 100)
    × IsLeastFree switched 0 j
    × (uthread_spawn 5000 switched
        ≡ returned (pos j) (spawned linux-Works switched switched-Inv 5000 j))
spawn-least_example =
    spawn-least linux-Works switched switched-Inv 5000 (λ e. absurd (omega arith)) switched-room

abbrev thread_at : Globals → ℕ → Thread
thread_at s p = elim (s.heap p) [ none ↦ new_thread 0 0 | some t ↦ t ]

-- Thread 1 runs.
abbrev runner : Thread
runner = thread_at switched switched.running_thread

switched-runner : (switched.heap switched.running_thread ≡ some runner) × (runner.id ≡ pos 1)
unfolding program
switched-runner = (refl, refl)

uthread_terminate-Inv_example :
    (pos 1 ≡ runner.id
      → (s' : Globals) × (uthread_terminate (pos 1) switched ≡ handed_over s') × Inv s')
    × (pos 1 ≢ runner.id → Ends (uthread_terminate (pos 1) switched) (λ _ s'. Inv s'))
uthread_terminate-Inv_example =
    uthread_terminate-Inv linux-Works switched switched-Inv runner switched-runner.0 (pos 1)
      (λ e. absurd (ground arith))

-- The main thread runs.
abbrev main_thread : Thread
main_thread = thread_at two two.running_thread

two-main : two.heap two.running_thread ≡ some main_thread
unfolding program
two-main = refl

terminate_main-exits_example :
    (main_thread.id ≡ pos 0
      → (s' : Globals) × (uthread_terminate (pos 0) two ≡ exited 0 s')
        × (s'.threads ≡ [])
        × All (λ e. s'.heap e.1 ≡ none) two.threads)
    × (main_thread.id ≢ pos 0 → uthread_terminate (pos 0) two ≡ fault)
terminate_main-exits_example = terminate_main-exits linux-Works two two-Inv main_thread two-main

uthread_block-Inv_example : Ends (uthread_block (pos 1) switched) (λ _ s'. Inv s')
uthread_block-Inv_example = uthread_block-Inv linux-Works switched switched-Inv (pos 1)

uthread_sleep-Inv_example :
    (pos 3 ≢ int_max → Ends (uthread_sleep (pos 3) switched) (λ _ s'. Inv s'))
    × (pos 3 ≡ int_max
        → (t : Thread) → switched.heap switched.running_thread ≡ some t
        → t.id ≢ pos 0
        → uthread_sleep (pos 3) switched ≡ fault)
uthread_sleep-Inv_example = uthread_sleep-Inv linux-Works switched switched-Inv (pos 3)

tick-Inv_example : Ends (schedule_handler switched) (λ _ s'. Inv s')
tick-Inv_example = tick-Inv linux-Works switched switched-Inv

-- Thread 1 has blocked itself, so the main thread runs.
abbrev waiting : Globals
waiting = after (uthread_block (pos 1) switched)

waiting-Inv : Inv waiting
unfolding program
waiting-Inv = uthread_block-Inv linux-Works switched switched-Inv (pos 1)

uthread_resume-Inv_example : Ends (uthread_resume (pos 1) waiting) (λ _ s'. Inv s')
uthread_resume-Inv_example = uthread_resume-Inv linux-Works waiting waiting-Inv (pos 1)

-- Thread 2 is spawned while thread 1 runs: it is ready, behind the main thread.
abbrev crowded : Globals
crowded = after (uthread_spawn 5000 switched)

crowded-thread : crowded.heap 3 ≡ some (thread_at crowded 3)
unfolding program
crowded-thread = refl

crowded-id : (thread_at crowded 3).id ≡ pos 2
unfolding program
crowded-id = refl

two-zero-apart : pos 2 ≢ pos 0
two-zero-apart = λ e. absurd (ground arith)

crowded-Valid :
    (Valid crowded.heap crowded.blocked_threads)
    × (Valid crowded.heap crowded.ready_queue)
    × (crowded.to_delete_threads ≡ [])
unfolding program
crowded-Valid = (tt, ((thread_at crowded 1, refl), ((thread_at crowded 3, refl), tt)), refl)

delete_thread-eq_example :
    delete_thread 3 crowded ≡ returned tt (deleted crowded 3 (thread_at crowded 3))
delete_thread-eq_example =
    delete_thread-eq linux-Works crowded 3 (thread_at crowded 3) crowded-thread
      (λ e. two-zero-apart (sym crowded-id ∙ e)) crowded-Valid.0 crowded-Valid.1 crowded-Valid.2

crowded-Inv : Inv crowded
unfolding program
crowded-Inv = uthread_spawn-Inv linux-Works switched switched-Inv 5000

crowded-Quiet : Quiet crowded × (crowded.ready_queue ≡ 1 ∷ 3 ∷ [])
unfolding program
crowded-Quiet = ((refl, refl), refl)

-- The main thread is before thread 2 in the queue.
ticks-run_example :
    (s' : Globals) × (ticks 2 crowded ≡ returned tt s')
    × (s'.running_thread ≡ 3)
    × (s'.ready_queue ≡ [] ++ crowded.running_thread ∷ 1 ∷ [])
    × (s'.quantums_number ≡ crowded.quantums_number + 2)
ticks-run_example =
    ticks-run linux-Works (1 ∷ []) 3 [] crowded crowded-Inv crowded-Quiet.0 crowded-Quiet.1
