-- ===== src/MapReduce/Threads/Invariant/Meeting.antt =====
-- The barrier of MapReduce_Framework/Barrier.cpp among the threads that meet at it.
use native.Mathlib.Decide.{ℕ_discrete}
use operating_systems.Base.{
  ℕ, zero, suc, ◌≤◌, ◌<◌, ◌≡◌, ◌≢◌, ◌∙◌, subst, true, false, total, total-zero, arith,
}
use operating_systems.MapReduce.Barrier.{Barrier, is_last, arrive}
use operating_systems.MapReduce.Threads.{At, assign, wake}
use operating_systems.MapReduce.Threads.Invariant.{phase, waiting, Together, total-assign}
use operating_systems.MapReduce.Threads.Invariant.Frames.{assign-each}

-- A sum of zeros and ones that is at least n - 1, with a zero at `i`: all others are ones.
total_full :
    (n : ℕ) (f : ℕ → ℕ)
    → ((j : ℕ) → f j ≤ 1)
    → (total n f ≤ n) × (n ≤ total n f → (j : ℕ) → j < n → f j ≡ 1)
total_full zero f h = (omega arith, λ e j l. absurd (omega arith))
total_full (suc n) f h =
    let (le, all) = total_full n f h in
    (
      omega (arith, h n),
      λ e j l. elim (ℕ_discrete j n) [
        | yes here ↦ (let a = h n in ground (arith, here, a, le, e))
        | no below ↦ all (omega (arith, h n)) j (omega arith)
      ],
    )

total_almost :
    (n i : ℕ) (f : ℕ → ℕ)
    → ((j : ℕ) → f j ≤ 1)
    → i < n
    → f i ≡ 0
    → n ≤ suc (total n f)
    → (j : ℕ) → j < n
    → j ≢ i
    → f j ≡ 1
total_almost zero i f h l z e j k ne = absurd (omega arith)
total_almost (suc n) i f h l z e j k ne = elim (ℕ_discrete i n) [
  | yes here ↦
      (total_full n f h).1 (let a : f n ≡ 0 = subst (λ q. f q ≡ 0) here z in omega arith) j
        (omega arith)
  | no below ↦ elim (ℕ_discrete j n) [
    | yes last ↦
        let (le, all) = total_full n f h in
        let a = h n in
        let less : f i ≡ 1 → ⊥ = λ q. absurd (omega arith) in
        elim (ℕ_discrete (f j) 1) [
          | yes one ↦ one
          | no apart ↦
              let b : f n ≡ 0 = subst (λ q. f q ≡ 0) last (omega (arith, h j)) in
              absurd (less (all (omega arith) i (omega arith)))
        ]
    | no other ↦ total_almost n i f h (omega arith) z (omega (arith, h n)) j (omega arith) ne
  ]
]

module _ {K V O : Type 0} (n : ℕ) (b : Barrier) (at : ℕ → At K V O) (t : Together n b at) (i : ℕ)
    (l : i < n) where
  waiting_small : (a : At K V O) → waiting a ≤ 1
  waiting_small a = ground arith

  -- A move inside a phase, to a place where the thread does not wait.
  pub move-Together :
      (a : At K V O)
      → waiting (at i) ≡ 0
      → waiting a ≡ 0
      → phase a ≡ phase (at i)
      → Together n b (assign at i a)
  move-Together a w w' p = record {
    current = t.current;
    in_phase = λ j k.
        assign-each (λ x y. phase x ≡ t.current → phase y ≡ t.current) at i a (λ x h. h)
          (λ h. p ∙ h) j (t.in_phase j k);
    for_all = t.for_all;
    counted = omega (arith, t.counted, total-assign n at i l a waiting);
    few = t.few;
  }

  -- The call of a thread that is not the last one: it waits.
  pub wait-Together :
      (a : At K V O)
      → waiting (at i) ≡ 0
      → waiting a ≡ 1
      → phase a ≡ phase (at i)
      → is_last b ≡ false
      → Together n (arrive b) (assign at i a)
  unfolding arrive
  wait-Together a w w' p e = record {
    current = t.current;
    in_phase = λ j k.
        assign-each (λ x y. phase x ≡ t.current → phase y ≡ t.current) at i a (λ x h. h)
          (λ h. p ∙ h) j (t.in_phase j k);
    for_all = ground (arith, t.for_all);
    counted = ground (arith, t.counted, total-assign n at i l a waiting, e);
    few = ground (arith, t.few, t.for_all, e);
  }

  -- All others wait when the last thread calls.
  pub others_wait :
      waiting (at i) ≡ 0 → is_last b ≡ true → (j : ℕ) → j < n → j ≢ i → waiting (at j) ≡ 1
  others_wait w e =
      total_almost n i (λ j. waiting (at j)) (λ j. waiting_small (at j)) l w
        (let c = t.counted in ground (arith, c, t.for_all, e))

  phase-wake : (a : At K V O) → waiting a ≡ 1 → phase (wake a) ≡ suc (phase a)
  phase-wake a w = ground arith

  waiting-wake : (a : At K V O) → waiting (wake a) ≡ 0
  waiting-wake a = ground arith

  -- The call of the last thread: all threads go on to the next phase.
  pub pass-Together :
      (a : At K V O)
      → waiting (at i) ≡ 0
      → waiting a ≡ 0
      → phase a ≡ suc (phase (at i))
      → is_last b ≡ true
      → Together n (arrive b) (assign (λ j. wake (at j)) i a)
  unfolding arrive
  pass-Together a w w' p e = record {
    current = suc t.current;
    in_phase = λ j k. elim (ℕ_discrete j i) [
      | yes here ↦ (let h = t.in_phase i l in ground (arith, h, p, here))
      | no other ↦
          let h = t.in_phase j k in
          let q = phase-wake (at j) (others_wait w e j k other) in ground (arith, h, q, other)
    ];
    for_all = ground (arith, t.for_all);
    counted =
        ground (arith, total-zero n (λ j. waiting (assign (λ j. wake (at j)) i a j)) nobody, e);
    few = ground (arith, e);
  }
    where
      nobody : (j : ℕ) → j < n → waiting (assign (λ j. wake (at j)) i a j) ≡ 0
      nobody j k =
          assign-each (λ x y. waiting x ≡ 0 → waiting y ≡ 0) (λ j. wake (at j)) i a (λ x h. h)
            (λ h. w') j (waiting-wake (at j))
