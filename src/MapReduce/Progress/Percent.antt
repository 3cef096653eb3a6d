-- ===== src/MapReduce/Progress/Percent.antt =====
-- The percentages that `getJobState` of MapReduce_Framework/MapReduceFramework.cpp reports.
use operating_systems.Base.{
  ℕ, zero, suc, if◌then◌else◌, ◌≤◌, ◌<◌, ◌≡◌, refl, sym, ap, subst, inl, inr, ltb, Bool-cases, true,
  false, ◌==◌, some, List, [], ◌∷◌, length, weigh, weigh_one, weigh-flat, total-ext, arith,
}
use operating_systems.MapReduce.Framework.{
  Stage, undefined_stage, map_stage, shuffle_stage, reduce_stage, JobState, Percentage, whole,
  ratio, not_a_number, infinite, Client, JobContext, get_state,
}
use operating_systems.MapReduce.Threads.{State, Reach, has_mutex}
use operating_systems.MapReduce.Threads.Invariant.{is_shuffled, Inv}
use operating_systems.MapReduce.Threads.Invariant.MapSteps.{Sorts, has_created}
use operating_systems.MapReduce.Threads.Invariant.ShuffleSteps.{to_shuffle-returns}
use operating_systems.MapReduce.Threads.Correct.{Reach-Inv}
use operating_systems.MapReduce.Progress.{returns, quotient, percentage, get_job_state}

-- A number that is at most 100 percent.
abbrev pub AtMostAll : Percentage → Type 0
AtMostAll (whole percents) = percents ≤ 100
AtMostAll (ratio part all) = (0 < all) × (part ≤ all)
AtMostAll not_a_number = ⊥
AtMostAll infinite = ⊥

-- What the percentage of a stage is a part of, 1 where nothing is divided.
abbrev pub divisor : {I K V O : Type 0} → JobContext I K V O → Stage → ℕ
divisor job undefined_stage = 1
divisor job map_stage =
    if ltb (length job.input_vec) job.atomic_map_counter then 1 else length job.input_vec
divisor job shuffle_stage = job.atomic_pairs_counter
divisor job reduce_stage = length job.shuffled_vec

-- A percentage of a part of what is not empty is at most 100, and of a part of nothing no number.
abbrev pub Sensible : Percentage → ℕ → Type 0
Sensible now all = (0 < all → AtMostAll now) × (all ≡ 0 → now ≡ not_a_number)

quotient-Sensible : (part all : ℕ) → part ≤ all → Sensible (quotient part all) all
unfolding quotient
quotient-Sensible part zero h = ((λ p. absurd (omega arith)), λ e. ground arith)
quotient-Sensible part (suc all) h =
    let z : (suc all == 0) ≡ false = ground arith in
    rw z ((λ p. (omega arith, h)), λ e. absurd (omega arith))

weigh-few : {A : Type 0} (w : A → ℕ) (xs : List A) → ((x : A) → w x ≤ 1) → weigh w xs ≤ length xs
weigh-few w [] h = omega arith
weigh-few w (x ∷ xs) h = omega (arith, weigh-few w xs h, h x)

module _ {I K V O : Type 0} (client : Client I K V O) (n : ℕ) (inputs : List I) (s : State I K V O)
    (v : Inv client n inputs s) (h : 0 < n) where
  shuffled_few : s.job.atomic_shuffle_counter ≤ s.job.atomic_pairs_counter
  shuffled_few = elim (Bool-cases (is_shuffled (s.at 0))) [
    | inr e ↦ omega (arith, (v.shuffling.before e).1)
    | inl e ↦
        let (pairs, p, _, c) = v.shuffling.after e in
        let (pairs', p', same) =
          to_shuffle-returns client n s.job.mutexes s.job.threads_vec v.made h in
        let ep : pairs' ≡ pairs = cc in
        let q = ap length ep in
        let t =
          total-ext n (λ i. length (s.job.threads_vec i))
            (λ i. weigh (λ x. 1) (s.job.threads_vec i))
            (λ i l. sym (weigh_one (s.job.threads_vec i))) in
        omega (arith, same (λ x. 1), weigh_one pairs', v.mapping.pairs_counted)
  ]

  emitted_few :
      ((group : List (K × V)) → length (client.reduce group) ≤ 1)
      → s.job.atomic_emit3_counter ≤ length s.job.shuffled_vec
  emitted_few few =
      let a = v.reducing.reduced (λ x. 1) in
      let b = weigh-flat (λ x. 1) client.reduce s.job.shuffled_vec in
      let c =
        weigh-few (λ g. weigh (λ x. 1) (client.reduce g)) s.job.shuffled_vec
          (λ g. omega (arith, few g, weigh_one (client.reduce g))) in
      omega (arith, v.reducing.output_counted, weigh_one s.job.output_vec)

  percentage-Sensible :
      ((group : List (K × V)) → length (client.reduce group) ≤ 1)
      → (stage : Stage) → s.job.state.stage ≡ stage
      → (old : Percentage) → AtMostAll old
      → Sensible (percentage s.job old) (divisor s.job stage)
  unfolding percentage
  percentage-Sensible few undefined_stage e old b = rw e ((λ p. b), λ z. absurd (omega arith))
  percentage-Sensible few map_stage e old b =
      elim (Bool-cases (ltb (length s.job.input_vec) s.job.atomic_map_counter)) [
        | inl t ↦ rw (e, t) ((λ p. omega arith), λ z. absurd (omega arith))
        | inr t ↦
            rw (e, t)
              (quotient-Sensible s.job.atomic_map_counter (length s.job.input_vec)
                (ground (arith, t)))
      ]
  percentage-Sensible few shuffle_stage e old b =
      rw e (quotient-Sensible s.job.atomic_shuffle_counter s.job.atomic_pairs_counter shuffled_few)
  percentage-Sensible few reduce_stage e old b =
      rw e
        (quotient-Sensible s.job.atomic_emit3_counter (length s.job.shuffled_vec) (emitted_few few))

module _ {I K V O : Type 0} (client : Client I K V O) (n : ℕ) (inputs : List I)
    (lib : Sorts client n inputs) (h : 0 < n) where
  -- When std::sort sorts and keeps its entries, there is a thread, and `reduce` emits at most one
  -- pair for a group: in every state that the threads reach, `getJobState` returns the job's stage
  -- and a percentage, and leaves the job as it was but for the percentage. If the caller's
  -- percentage was at most 100, the one that is returned is a number that is at most 100, unless
  -- the stage divides by 0 (there are no inputs, no mapped pairs or no groups), when it is NaN.
  pub get_job_state-AtMostAll :
      (s : State I K V O)
      → Reach client inputs n s
      → ((group : List (K × V)) → length (client.reduce group) ≤ 1)
      → (state : JobState) → AtMostAll state.percentage
      → (now : Percentage) × (get_job_state s.job (some state)
          ≡ returns (
            record { stage = s.job.state.stage; percentage = now },
            record s.job { state = record s.job.state { percentage = now } },
          ))
        × (0 < divisor s.job s.job.state.stage → AtMostAll now)
        × (divisor s.job s.job.state.stage ≡ 0 → now ≡ not_a_number)
  unfolding get_job_state
  get_job_state-AtMostAll s r few state b =
      let v = Reach-Inv client n inputs lib h r in
      let m : has_mutex get_state s.job.mutexes ≡ true =
        subst (λ ms. has_mutex get_state ms ≡ true) (sym v.made) (has_created get_state) in
      let (most, none_left) =
        percentage-Sensible client n inputs s v h few s.job.state.stage refl state.percentage b in
      (percentage s.job state.percentage, rw m refl, most, none_left)
