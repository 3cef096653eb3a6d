-- ===== src/MapReduce/Threads/Deadlock.antt =====
-- No deadlock at the barrier of a job of MapReduce_Framework/MapReduceFramework.cpp.
use mathlib.Core.WellFounded.{Acc}
use native.Mathlib.Decide.{ℕ_discrete}
use operating_systems.Base.{
  ℕ, zero, suc, ◌<◌, ◌≡◌, ◌≢◌, refl, ap, ◌⊎◌, inl, inr, Bool-cases, Bool, true, false, List, total,
  arith,
}
use operating_systems.MapReduce.Framework.{Client}
use operating_systems.MapReduce.Threads.{
  At, waits1, waits2, finished, State, Outcome, ran, blocked, thrown, job_to_do, Reach, step,
  begin_map, next_input, emit2, sort_stage, meet, start_shuffle, shuffle, start_reduce, next_group,
  emit3,
}
use operating_systems.MapReduce.Threads.Invariant.{phase, waiting, Inv}
use operating_systems.MapReduce.Threads.Invariant.MapSteps.{Keeps, Sorts}
use operating_systems.MapReduce.Threads.Correct.{
  job_to_do-Keeps, Reach-Inv, IsResult, finished-IsResult,
}
use operating_systems.MapReduce.Threads.Halting.{Follows, Follows-Acc}

-- All numbers below `n` pass a test, or one does not.
all_or_one :
    (n : ℕ) (f : ℕ → Bool) → ((i : ℕ) → i < n → f i ≡ true) ⊎ ((i : ℕ) × (i < n) × (f i ≡ false))
all_or_one zero f = inl (λ i l. absurd (omega arith))
all_or_one (suc n) f = elim (Bool-cases (f n)) [
  | inr e ↦ inr (n, omega arith, e)
  | inl e ↦ elim (all_or_one n f) [
    | inr (i, l, d) ↦ inr (i, omega arith, d)
    | inl all ↦
        inl (λ i l. elim (Bool-cases (f i)) [ inl t ↦ t | inr d ↦ absurd (clash i l e d all) ])
  ]
]
  where
    clash : (i : ℕ) → i < suc n → f n ≡ true → f i ≡ false → ((j : ℕ) → j < n → f j ≡ true) → ⊥
    clash i l e d all = elim (ℕ_discrete i n) [
      | yes here ↦ (let z : f i ≡ f n = ap f here in cc)
      | no below ↦ (let z = all i (omega arith) in cc)
    ]

total_ones : (n : ℕ) (f : ℕ → ℕ) → ((i : ℕ) → i < n → f i ≡ 1) → total n f ≡ n
total_ones zero f h = refl
total_ones (suc n) f h = omega (arith, h n (omega arith), total_ones n f (λ i l. h i (omega arith)))

module _ {K V O : Type 0} where
  abbrev is_stuck : At K V O → Bool
  is_stuck waits1 = true
  is_stuck waits2 = true
  is_stuck finished = true
  is_stuck _ = false

  stuck-cases :
      (a : At K V O)
      → is_stuck a ≡ true
      → ((waiting a ≡ 1) × (phase a < 2)) ⊎ ((a ≡ finished) × (phase a ≡ 2))
  stuck-cases waits1 h = inl (refl, omega arith)
  stuck-cases waits2 h = inl (refl, omega arith)
  stuck-cases finished h = inr (refl, refl)
  stuck-cases a h = absurd cc

module _ {I K V O : Type 0} (client : Client I K V O) where
  unstuck-Outcome :
      (s : State I K V O) (i : ℕ) (a : At K V O)
      → is_stuck a ≡ false
      → job_to_do client s i a ≢ blocked
  unfolding job_to_do begin_map next_input emit2 sort_stage meet start_shuffle shuffle start_reduce
      next_group emit3
  unstuck-Outcome s i a h = ground arith

  ran-cases :
      (n : ℕ) (inputs : List I) (r : Outcome (State I K V O))
      → Keeps client n inputs r
      → r ≢ blocked
      → (t : State I K V O) × (r ≡ ran t)
  ran-cases n inputs (ran t) k h = (t, refl)
  ran-cases n inputs blocked k h = absurd (h refl)
  ran-cases n inputs thrown k h = absurd k

  module _ (n : ℕ) (inputs : List I) (lib : Sorts client n inputs) (h : 0 < n) where
    -- When std::sort sorts and keeps its entries, and there is a thread: in every state that the
    -- threads reach, all of them have finished, or one of them can take a step.
    pub never_stuck :
        (s : State I K V O)
        → Reach client inputs n s
        → ((i : ℕ) → i < n → s.at i ≡ finished)
          ⊎ ((i : ℕ) × (i < n) × (t : State I K V O) × (job_to_do client s i (s.at i) ≡ ran t))
    never_stuck s r =
        let v = Reach-Inv client n inputs lib h r in
        elim (all_or_one n (λ i. is_stuck (s.at i))) [
          | inr (i, l, free) ↦
              let (t, e) =
                ran-cases n inputs (job_to_do client s i (s.at i))
                  (job_to_do-Keeps client n inputs lib s v i l (s.at i) refl)
                  (unstuck-Outcome s i (s.at i) free) in
              inr (i, l, t, e)
          | inl stuck ↦ elim (stuck-cases (s.at 0) (stuck 0 h)) [
            | inr (_, ended) ↦ inl (λ i l. elim (stuck-cases (s.at i) (stuck i l)) [
              | inr (e, _) ↦ e
              | inl (_, early) ↦
                  let p = v.together.in_phase 0 h in
                  let q = v.together.in_phase i l in absurd (omega arith)
            ])
            | inl (_, early) ↦
                let ones =
                  total_ones n (λ i. waiting (s.at i)) (λ i l. all_wait s v stuck early i l) in
                let c = v.together.counted in let f = v.together.few in absurd (omega arith)
          ]
        ]
      where
        all_wait :
            (s : State I K V O)
            → Inv client n inputs s
            → ((i : ℕ) → i < n → is_stuck (s.at i) ≡ true)
            → phase (s.at 0) < 2
            → (i : ℕ) → i < n
            → waiting (s.at i) ≡ 1
        all_wait s v stuck early i l = elim (stuck-cases (s.at i) (stuck i l)) [
          | inl (w, _) ↦ w
          | inr (_, ended) ↦
              let p = v.together.in_phase 0 h in
              let q = v.together.in_phase i l in absurd (omega arith)
        ]

    completes_from :
        (s : State I K V O)
        → Reach client inputs n s
        → Acc (Follows client n) s
        → (t : State I K V O) × Reach client inputs n t
          × ((i : ℕ) → i < n → t.at i ≡ finished)
          × IsResult client inputs t.job.output_vec
    completes_from s r (Acc.intro _ later) = elim (never_stuck s r) [
      | inl ends ↦ (s, r, ends, (finished-IsResult client n inputs lib h s r ends).0)
      | inr (i, l, t, e) ↦ completes_from t (step i r l e) (later t (i, l, e))
    ]

    -- When std::sort sorts and keeps its entries, and there is a thread: from every state that the
    -- threads reach, they reach one in which all have finished, and whose output is one that the
    -- specification allows.
    pub completes :
        (s : State I K V O)
        → Reach client inputs n s
        → (t : State I K V O) × Reach client inputs n t
          × ((i : ℕ) → i < n → t.at i ≡ finished)
          × IsResult client inputs t.job.output_vec
    completes s r = completes_from s r (Follows-Acc client n s)
