-- ===== src/MapReduce/Witnesses.antt =====
-- The theorems on the jobs of MapReduce_Framework/MapReduceFramework.cpp at a concrete job, and tests.
use mathlib.Core.WellFounded.{Acc}
use operating_systems.Base.{
  ℕ, ◌+◌, ◌≤◌, ◌<◌, ◌≡◌, ◌≢◌, refl, ◌⊎◌, true, false, some, List, [], ◌∷◌, ◌++◌, length, map, weigh,
  SameEntries, flat, arith,
}
use operating_systems.MapReduce.Framework.{
  JobState, whole, not_a_number, Percentage, merge_vectors, pair_merging_helper, merge_neighbours,
  place_all, undefined_stage,
}
use operating_systems.MapReduce.Framework.Merge.{
  Ordered, merge_vectors-Ordered, merge_vectors-returns,
}
use operating_systems.MapReduce.Framework.Groups.{Grouped, place_all-Grouped}
use operating_systems.MapReduce.Threads.{State, finished, ran, thrown, to_shuffle, job_to_do, Reach}
use operating_systems.MapReduce.Threads.Invariant.{is_finished}
use operating_systems.MapReduce.Threads.Correct.{IsResult, finished-IsResult}
use operating_systems.MapReduce.Threads.Thrown.{stops, never_thrown}
use operating_systems.MapReduce.Threads.Halting.{Follows, Follows-Acc}
use operating_systems.MapReduce.Threads.Deadlock.{never_stuck, completes}
use operating_systems.MapReduce.Threads.Sorted.{shuffle_input-Ordered}
use operating_systems.MapReduce.Threads.Counters.{counters_bounded}
use operating_systems.MapReduce.Progress.{returns, get_job_state}
use operating_systems.MapReduce.Progress.Stages.{stage_number, stage_forward}
use operating_systems.MapReduce.Progress.Percent.{AtMostAll, divisor, get_job_state-AtMostAll}
use operating_systems.MapReduce.Handle.{
  Wait, Handle, Object, wait_for, waits, numbers, start_allocates, close_job_handle, group,
}
use operating_systems.MapReduce.Handle.Closing.{wait_for-cases, close_job_handle-SameEntries}
use operating_systems.MapReduce.Samples.{
  adder, three_inputs, adder-Sorts, adder-IsOrder, halfway, halfway-Reach, before_shuffle,
  before_shuffle-Reach, before_shuffle-step, about_to_shuffle, about_to_shuffle-Reach,
  about_to_shuffle_0, done, done-Reach, done-ends, open_handle, open_handle-IsFresh,
}

completes_example :
    (t : State ℕ ℕ ℕ ℕ) × Reach adder three_inputs 2 t
    × ((i : ℕ) → i < 2 → t.at i ≡ finished)
    × IsResult adder three_inputs t.job.output_vec
completes_example = completes adder 2 three_inputs adder-Sorts (omega arith) halfway halfway-Reach

finished-IsResult_example :
    IsResult adder three_inputs done.job.output_vec
    × (done.job.atomic_pairs_counter ≡ length (flat adder.map three_inputs))
    × (done.job.atomic_emit3_counter ≡ length done.job.output_vec)
finished-IsResult_example =
    finished-IsResult adder 2 three_inputs adder-Sorts (omega arith) done done-Reach done-ends

never_thrown_example :
    (job_to_do adder about_to_shuffle 0 (about_to_shuffle.at 0) ≢ thrown)
    × (stops (about_to_shuffle.at 0) ≡ false
        → (t : State ℕ ℕ ℕ ℕ) × (job_to_do adder about_to_shuffle 0 (about_to_shuffle.at 0)
            ≡ ran t))
never_thrown_example =
    never_thrown adder 2 (omega arith) three_inputs about_to_shuffle about_to_shuffle-Reach 0
      (omega arith)

never_stuck_example :
    ((i : ℕ) → i < 2 → halfway.at i ≡ finished)
    ⊎ ((i : ℕ) × (i < 2) × (t : State ℕ ℕ ℕ ℕ) × (job_to_do adder halfway i (halfway.at i) ≡ ran t))
never_stuck_example =
    never_stuck adder 2 three_inputs adder-Sorts (omega arith) halfway halfway-Reach

Follows-Acc_example : Acc (Follows adder 2) halfway
Follows-Acc_example = Follows-Acc adder 2 halfway

abbrev thread_0 : ℕ
thread_0 = 0

shuffle_input-Ordered_example :
    (thread_0 ≡ 0)
    × ((pairs : List (ℕ × ℕ)) × (to_shuffle adder 2 about_to_shuffle.job.mutexes
            about_to_shuffle.job.threads_vec
          ≡ some pairs)
        × Ordered adder pairs
        × SameEntries pairs (flat adder.map three_inputs))
shuffle_input-Ordered_example =
    shuffle_input-Ordered adder adder-IsOrder 2 three_inputs adder-Sorts (omega arith)
      about_to_shuffle thread_0 about_to_shuffle-Reach (omega arith) about_to_shuffle_0

counters_bounded_example :
    (done.job.atomic_map_counter ≤ length three_inputs + 2)
    × (done.job.atomic_red_counter ≤ length done.job.shuffled_vec + 2)
counters_bounded_example =
    counters_bounded adder 2 three_inputs adder-Sorts (omega arith) done done-Reach

stage_forward_example :
    stage_number before_shuffle.job.state.stage ≤ stage_number about_to_shuffle.job.state.stage
stage_forward_example =
    stage_forward adder 2 three_inputs adder-Sorts (omega arith) before_shuffle about_to_shuffle
      thread_0 before_shuffle-Reach (omega arith) before_shuffle-step

abbrev nothing_yet : JobState
nothing_yet = record { stage = undefined_stage; percentage = whole 0 }

get_job_state-AtMostAll_example :
    (now : Percentage) × (get_job_state done.job (some nothing_yet)
      ≡ returns (
        record { stage = done.job.state.stage; percentage = now },
        record done.job { state = record done.job.state { percentage = now } },
      ))
    × (0 < divisor done.job done.job.state.stage → AtMostAll now)
    × (divisor done.job done.job.state.stage ≡ 0 → now ≡ not_a_number)
get_job_state-AtMostAll_example =
    get_job_state-AtMostAll adder 2 three_inputs adder-Sorts (omega arith) done done-Reach
      (λ group. omega arith) nothing_yet (omega arith)

wait_for-cases_example :
    ((k : ℕ) → k < 2 → is_finished (open_handle.state.at k) ≡ false → wait_for open_handle ≡ waits)
    × (((k : ℕ) → k < 2 → open_handle.state.at k ≡ finished)
        → (h' : Handle ℕ ℕ ℕ ℕ) × (wait_for open_handle ≡ Wait.returns h')
          × ((k : ℕ) → k < 2 → h'.joined k ≡ true)
          × (wait_for h' ≡ Wait.returns h'))
wait_for-cases_example = wait_for-cases 2 open_handle open_handle-IsFresh

close_job_handle-SameEntries_example :
    (deleted : List Object) × (close_job_handle open_handle ≡ Wait.returns deleted)
    × SameEntries deleted
        (start_allocates 2 ++ map group (numbers (length open_handle.state.job.shuffled_vec) 0))
close_job_handle-SameEntries_example =
    close_job_handle-SameEntries 2 open_handle open_handle-IsFresh done-ends

abbrev three_vectors : List (List (ℕ × ℕ))
three_vectors = ((0, 2) ∷ (1, 5) ∷ []) ∷ ((0, 4) ∷ []) ∷ ((1, 3) ∷ []) ∷ []

merge_vectors-returns_example :
    (r : List (ℕ × ℕ)) × (merge_vectors adder 2 three_vectors ≡ some r)
    × ((w : ℕ × ℕ → ℕ) → weigh w r ≡ weigh (weigh w) three_vectors)
merge_vectors-returns_example =
    merge_vectors-returns adder 2 three_vectors (omega arith) (omega arith)

three_merged : merge_vectors adder 2 three_vectors ≡ some ((0, 2) ∷ (0, 4) ∷ (1, 5) ∷ (1, 3) ∷ [])
unfolding merge_vectors merge_neighbours pair_merging_helper
three_merged = refl

merge_vectors-Ordered_example : Ordered adder ((0, 2) ∷ (0, 4) ∷ (1, 5) ∷ (1, 3) ∷ [])
merge_vectors-Ordered_example =
    merge_vectors-Ordered adder adder-IsOrder 2 three_vectors
      ((0, 2) ∷ (0, 4) ∷ (1, 5) ∷ (1, 3) ∷ []) (((refl, tt), (tt, tt)), ((tt, tt), ((tt, tt), tt)))
      three_merged

place_all-Grouped_example :
    (groups : List (List (ℕ × ℕ))) × (place_all adder ((0, 2) ∷ (1, 5) ∷ (0, 4) ∷ []) []
      ≡ some groups)
    × ((w : ℕ × ℕ → ℕ)
        → weigh (weigh w) groups ≡ weigh w ((0, 2) ∷ (1, 5) ∷ (0, 4) ∷ []) + weigh (weigh w) [])
    × Grouped adder groups
place_all-Grouped_example = place_all-Grouped adder ((0, 2) ∷ (1, 5) ∷ (0, 4) ∷ []) [] tt
