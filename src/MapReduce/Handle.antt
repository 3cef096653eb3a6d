-- ===== src/MapReduce/Handle.antt =====
-- `waitForJob` and `closeJobHandle` of MapReduce_Framework/MapReduceFramework.cpp, and the objects
-- that the framework allocates.
pub mod Closing
use operating_systems.Base.{
  ℕ, zero, suc, if◌then◌else◌, Bool, true, false, List, [], ◌∷◌, ◌++◌, length, map,
}
use operating_systems.MapReduce.Framework.{Mutex, creating_mutexes, wait_for_job, JobContext}
use operating_systems.MapReduce.Threads.{At, State, has_mutex, assign}
use operating_systems.MapReduce.Threads.Invariant.{is_finished}
use operating_systems.MapReduce.Progress.{failed}

-- A job with the threads that have been joined.
pub record Handle (I K V O : Type 0) : Type 0 where
  pub state : State I K V O
  pub joined : ℕ → Bool

-- A call returns, waits for a thread, ends the process with a status, or throws.
pub data Wait (A : Type 0) : Type 0 where
  returns : A → Wait A
  waits : Wait A
  exits : ℕ → Wait A
  throws : Wait A

-- What `new` creates.
pub data Object : Type 0 where
  job_context threads threads_vec mutexes state : Object
  atomic_map_counter atomic_red_counter atomic_shuffle_counter : Object
  atomic_emit3_counter atomic_pairs_counter shuffled_vec barrier : Object
  mutex : Mutex → Object
  vector_of thread_context thread group : ℕ → Object

-- The numbers from `first`, `n` of them.
abbrev pub numbers : ℕ → ℕ → List ℕ
numbers zero first = []
numbers (suc n) first = first ∷ numbers n (suc first)

-- The loop of `startMapReduceJob` that creates the vectors and the threads.
unfoldable pub create_threads : ℕ → ℕ → List Object
create_threads zero i = []
create_threads (suc n) i = vector_of i ∷ thread i ∷ thread_context i ∷ create_threads n (suc i)

-- What `startMapReduceJob` allocates for `n` threads.
unfoldable pub start_allocates : ℕ → List Object
start_allocates n =
    job_context
      ∷ threads
      ∷ threads_vec
      ∷ mutexes
      ∷ state
      ∷ atomic_map_counter
      ∷ atomic_red_counter
      ∷ atomic_shuffle_counter
      ∷ atomic_emit3_counter
      ∷ atomic_pairs_counter
      ∷ shuffled_vec
      ∷ barrier
      ∷ map mutex creating_mutexes
    ++ create_threads n 0

-- The loop of `closeJobHandle` over the threads.
unfoldable pub delete_threads : ℕ → ℕ → List Object
delete_threads zero i = []
delete_threads (suc n) i = thread i ∷ thread_context i ∷ delete_threads n (suc i)

module _ {I K V O : Type 0} where
  -- The loop of joins. A thread that has been joined makes `pthread_join` fail.
  unfoldable pub join_threads : ℕ → ℕ → Handle I K V O → Wait (Handle I K V O)
  join_threads zero i h = returns h
  join_threads (suc rounds) i h =
      let rest = join_threads rounds (suc i) (record h { joined = assign h.joined i true }) in
      if h.joined i then exits failed else (if is_finished (h.state.at i) then rest else waits)

  -- `jobContext->wait = true`.
  abbrev pub set_wait : Handle I K V O → Handle I K V O
  set_wait h = record h { state = record h.state { job = record h.state.job { wait = true } } }

  -- The call as it ends when the threads stay where they are.
  unfoldable pub wait_for : Handle I K V O → Wait (Handle I K V O)
  wait_for h =
      if has_mutex wait_for_job h.state.job.mutexes
      then (if h.state.job.wait
          then returns h
          else elim (join_threads h.state.job.num_of_threads 0 h) [
            | returns h' ↦ returns (set_wait h')
            | waits ↦ waits
            | exits code ↦ exits code
            | throws ↦ throws
          ])
      else throws

  -- The objects that are deleted. The container of the mutexes goes through them in another order.
  unfoldable pub close_deletes : JobContext I K V O → List Object
  close_deletes job =
      delete_threads job.num_of_threads 0
      ++ threads ∷ map mutex job.mutexes
      ++ map vector_of (numbers job.num_of_threads 0)
      ++ map group (numbers (length job.shuffled_vec) 0)
      ++ mutexes ∷ state ∷ threads_vec ∷ atomic_map_counter ∷ atomic_emit3_counter
        ∷ atomic_red_counter ∷ atomic_shuffle_counter ∷ atomic_pairs_counter ∷ shuffled_vec
        ∷ barrier ∷ job_context ∷ []

  unfoldable pub close_job_handle : Handle I K V O → Wait (List Object)
  close_job_handle h = elim (wait_for h) [
    | returns h' ↦ returns (close_deletes h'.state.job)
    | waits ↦ waits
    | exits code ↦ exits code
    | throws ↦ throws
  ]
