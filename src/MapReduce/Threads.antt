-- ===== src/MapReduce/Threads.antt =====
-- The threads of a job (`job_ToDo` of MapReduce_Framework/MapReduceFramework.cpp) as steps that any
-- scheduler may interleave. A step is what a thread does between two points where another thread's
-- step can change what it sees: a critical section, a call of the barrier, or an atomic increment.
pub mod Invariant
pub mod Correct
pub mod Measure
pub mod Halting
pub mod Deadlock
pub mod Sorted
pub mod Thrown
pub mod Counters
use operating_systems.Base.{
  ℕ, zero, suc, ◌+◌, ◌<◌, ◌≡◌, ◌==◌, ltb, if◌then◌else◌, Bool, true, false, not, ◌||◌, Option, none,
  some, List, [], ◌∷◌, ◌++◌, length, get_elem?,
}
use operating_systems.MapReduce.Barrier.{Barrier, is_last, arrive}
use operating_systems.MapReduce.Framework.{
  Stage, map_stage, shuffle_stage, reduce_stage, is_reduce_stage, JobState, Mutex, reduce_mut,
  map_mut, emit3_mut, emit2_mut, sort_mut, shuffle_st, reduce_st, shuffle_mutex, merging_mutex,
  get_state, wait_for_job, Client, JobContext, start_map_reduce_job, merge_vectors, place_all,
}

-- Where a thread is. The lists are what the client has yet to emit in the call that runs.
pub data At (K V O : Type 0) : Type 0 where
  begins : At K V O
  maps : At K V O
  emits2 : List (K × V) → At K V O
  sorts : At K V O
  meets1 : At K V O
  waits1 : At K V O
  starts_shuffle : At K V O
  shuffles : At K V O
  meets2 : At K V O
  waits2 : At K V O
  starts_reduce : At K V O
  reduces : At K V O
  emits3 : List O → At K V O
  finished : At K V O

pub record State (I K V O : Type 0) : Type 0 where
  pub job : JobContext I K V O
  pub at : ℕ → At K V O

-- A thread goes on, cannot go on by itself, or throws (`at` of a missing key or index).
pub data Outcome (S : Type 0) : Type 0 where
  ran : S → Outcome S
  blocked : Outcome S
  thrown : Outcome S

abbrev pub is_mutex : Mutex → Mutex → Bool
is_mutex reduce_mut reduce_mut = true
is_mutex map_mut map_mut = true
is_mutex emit3_mut emit3_mut = true
is_mutex emit2_mut emit2_mut = true
is_mutex sort_mut sort_mut = true
is_mutex shuffle_st shuffle_st = true
is_mutex reduce_st reduce_st = true
is_mutex shuffle_mutex shuffle_mutex = true
is_mutex merging_mutex merging_mutex = true
is_mutex get_state get_state = true
is_mutex wait_for_job wait_for_job = true
is_mutex _ _ = false

-- `mutexes->at (name)` finds a mutex.
abbrev pub has_mutex : Mutex → List Mutex → Bool
has_mutex name [] = false
has_mutex name (m ∷ ms) = is_mutex name m || has_mutex name ms

abbrev pub assign : {A : Type 0} → (ℕ → A) → ℕ → A → ℕ → A
assign f i a j = if i == j then a else f j

-- The vectors of the first `n` threads, in the order of their ids.
unfoldable pub collect : {A : Type 0} → ℕ → ℕ → (ℕ → A) → List A
collect zero first f = []
collect (suc n) first f = f first ∷ collect n (suc first) f

-- A broadcast wakes the threads that wait at the first or the second call of the barrier.
abbrev pub wake : {K V O : Type 0} → At K V O → At K V O
wake waits1 = starts_shuffle
wake waits2 = starts_reduce
wake a = a

module _ {I K V O : Type 0} (client : Client I K V O) where
  -- A critical section.
  abbrev pub locked : Mutex → JobContext I K V O → Outcome (State I K V O) → Outcome (State I K V O)
  locked name job section = if has_mutex name job.mutexes then section else thrown

  -- Thread `i` goes on at `a` in a changed job.
  abbrev pub goes : State I K V O → ℕ → JobContext I K V O → At K V O → Outcome (State I K V O)
  goes s i job a = ran (record { job = job; at = assign s.at i a })

  -- The first step of `map_stage`.
  unfoldable pub begin_map : State I K V O → ℕ → Outcome (State I K V O)
  begin_map s i =
      locked map_mut s.job
        (goes s i (record s.job { state = record s.job.state { stage = map_stage } }) maps)

  -- The test of the loop of `map_stage`.
  unfoldable pub next_input : State I K V O → ℕ → Outcome (State I K V O)
  next_input s i =
      let job = record s.job { atomic_map_counter = suc s.job.atomic_map_counter } in
      elim (get_elem? s.job.input_vec s.job.atomic_map_counter) [
        | some input ↦ goes s i job (emits2 (client.map input))
        | none ↦ goes s i job sorts
      ]

  unfoldable pub emit2 : State I K V O → ℕ → K × V → List (K × V) → Outcome (State I K V O)
  emit2 s i pair pairs = locked emit2_mut s.job (
      goes s i
        (record s.job {
          threads_vec = assign s.job.threads_vec i (s.job.threads_vec i ++ pair ∷ []);
          atomic_pairs_counter = suc s.job.atomic_pairs_counter;
        })
        (emits2 pairs))

  -- There is a vector for each of the threads' ids.
  unfoldable pub sort_stage : State I K V O → ℕ → Outcome (State I K V O)
  sort_stage s i = locked sort_mut s.job (
      goes s i
        (record s.job {
          threads_vec =
              if ltb i s.job.num_of_threads
              then assign s.job.threads_vec i (client.sort (s.job.threads_vec i))
              else s.job.threads_vec;
        })
        meets1)

  -- A call of the barrier, by a thread that waits at `here` or goes on at `there`.
  unfoldable pub meet : State I K V O → ℕ → At K V O → At K V O → Outcome (State I K V O)
  meet s i here there =
      let job = record s.job { barrier = arrive s.job.barrier } in
      if is_last s.job.barrier
      then ran (record { job = job; at = assign (λ j. wake (s.at j)) i there })
      else goes s i job here

  -- Only thread 0 shuffles.
  unfoldable pub start_shuffle : State I K V O → ℕ → Outcome (State I K V O)
  start_shuffle s i =
      if i == 0
      then locked shuffle_st s.job (
          goes s i (record s.job { state = record s.job.state { stage = shuffle_stage } }) shuffles)
      else goes s i s.job meets2

  -- The pairs that `shuffle_stage` groups, from the vectors of `n` threads.
  unfoldable pub to_shuffle : ℕ → List Mutex → (ℕ → List (K × V)) → Option (List (K × V))
  to_shuffle n mutexes threads_vec =
      if ltb 1 n
      then (if has_mutex merging_mutex mutexes
          then merge_vectors client n (collect n 0 threads_vec)
          else none)
      else some (threads_vec 0)

  unfoldable pub shuffle : State I K V O → ℕ → Outcome (State I K V O)
  shuffle s i =
      locked shuffle_mutex s.job
        (elim (to_shuffle s.job.num_of_threads s.job.mutexes s.job.threads_vec) [
          | none ↦ thrown
          | some pairs ↦ elim (place_all client pairs s.job.shuffled_vec) [
            | none ↦ thrown
            | some groups ↦
                goes s i
                  (record s.job {
                    shuffled_vec = groups;
                    atomic_shuffle_counter = s.job.atomic_shuffle_counter + length pairs;
                  })
                  meets2
          ]
        ])

  unfoldable pub start_reduce : State I K V O → ℕ → Outcome (State I K V O)
  start_reduce s i =
      if not (is_reduce_stage s.job.state.stage)
      then locked reduce_st s.job
          (goes s i (record s.job { state = record s.job.state { stage = reduce_stage } }) reduces)
      else goes s i s.job reduces

  -- The test of the loop of `reduce_stage`.
  unfoldable pub next_group : State I K V O → ℕ → Outcome (State I K V O)
  next_group s i =
      let job = record s.job { atomic_red_counter = suc s.job.atomic_red_counter } in
      elim (get_elem? s.job.shuffled_vec s.job.atomic_red_counter) [
        | some group ↦ goes s i job (emits3 (client.reduce group))
        | none ↦ goes s i job finished
      ]

  unfoldable pub emit3 : State I K V O → ℕ → O → List O → Outcome (State I K V O)
  emit3 s i pair pairs = locked emit3_mut s.job (
      goes s i
        (record s.job {
          output_vec = s.job.output_vec ++ pair ∷ [];
          atomic_emit3_counter = suc s.job.atomic_emit3_counter;
        })
        (emits3 pairs))

  -- The next step of thread `i`, which is at `a`.
  unfoldable pub job_to_do : State I K V O → ℕ → At K V O → Outcome (State I K V O)
  job_to_do s i begins = begin_map s i
  job_to_do s i maps = next_input s i
  job_to_do s i (emits2 []) = goes s i s.job maps
  job_to_do s i (emits2 (pair ∷ pairs)) = emit2 s i pair pairs
  job_to_do s i sorts = sort_stage s i
  job_to_do s i meets1 = meet s i waits1 starts_shuffle
  job_to_do s i waits1 = blocked
  job_to_do s i starts_shuffle = start_shuffle s i
  job_to_do s i shuffles = shuffle s i
  job_to_do s i meets2 = meet s i waits2 starts_reduce
  job_to_do s i waits2 = blocked
  job_to_do s i starts_reduce = start_reduce s i
  job_to_do s i reduces = next_group s i
  job_to_do s i (emits3 []) = goes s i s.job reduces
  job_to_do s i (emits3 (pair ∷ pairs)) = emit3 s i pair pairs
  job_to_do s i finished = blocked

  -- The state in which `startMapReduceJob` returns.
  abbrev pub started : List I → ℕ → State I K V O
  started input_vec n = record { job = start_map_reduce_job input_vec n; at = λ i. begins }

  -- The states that the threads of a job reach.
  pub data Reach (input_vec : List I) (n : ℕ) : State I K V O → Type 0 where
    start : Reach input_vec n (started input_vec n)
    step :
        {s t : State I K V O} (i : ℕ)
        → Reach input_vec n s
        → i < n
        → job_to_do s i (s.at i) ≡ ran t
        → Reach input_vec n t
