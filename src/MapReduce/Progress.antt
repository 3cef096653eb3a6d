-- ===== src/MapReduce/Progress.antt =====
-- `getJobState` of MapReduce_Framework/MapReduceFramework.cpp.
pub mod Stages
pub mod Percent
use operating_systems.Base.{
  ℕ, ◌==◌, ltb, if◌then◌else◌, Bool, true, false, Option, none, some, length,
}
use operating_systems.MapReduce.Framework.{
  Stage, undefined_stage, map_stage, shuffle_stage, reduce_stage, JobState, Percentage, whole,
  ratio, not_a_number, infinite, get_state, JobContext,
}
use operating_systems.MapReduce.Threads.{has_mutex}

-- What becomes of a call: it returns, ends the process with a status, or throws.
pub data Call (A : Type 0) : Type 0 where
  returns : A → Call A
  exits : ℕ → Call A
  throws : Call A

abbrev pub failed : ℕ
failed = 1

-- `((float) part / (float) all) * PERCENTAGE`.
unfoldable pub quotient : ℕ → ℕ → Percentage
quotient part all =
    if all == 0 then (if part == 0 then not_a_number else infinite) else ratio part all

module _ {I K V O : Type 0} where
  -- The percentage of the stage that is read; `old` is what the caller's state held.
  unfoldable pub percentage : JobContext I K V O → Percentage → Percentage
  percentage job old = elim job.state.stage [
    | undefined_stage ↦ old
    | map_stage ↦
        if ltb (length job.input_vec) job.atomic_map_counter
        then whole 100
        else quotient job.atomic_map_counter (length job.input_vec)
    | shuffle_stage ↦ quotient job.atomic_shuffle_counter job.atomic_pairs_counter
    | reduce_stage ↦ quotient job.atomic_emit3_counter (length job.shuffled_vec)
  ]

  -- The caller's state (`none` is a null pointer) and the job's, as the call leaves them.
  unfoldable pub get_job_state :
      JobContext I K V O → Option JobState → Call (JobState × JobContext I K V O)
  get_job_state job none = exits failed
  get_job_state job (some state) =
      if has_mutex get_state job.mutexes
      then (let now = percentage job state.percentage in
          returns (
            record { stage = job.state.stage; percentage = now },
            record job { state = record job.state { percentage = now } },
          ))
      else throws
