-- ===== src/MapReduce/Threads/Invariant/ShuffleSteps.antt =====
-- The steps of MapReduce_Framework/MapReduceFramework.cpp between the two calls of the barrier.
use operating_systems.Base.{
  ℕ, zero, suc, ◌+◌, ◌<◌, ◌≡◌, refl, sym, ap, ◌∙◌, subst, ◌==◌, ==_iff, Bool-cases, ltb, inl, inr,
  true, false, some, List, [], length, weigh, total, total-zero, flat, drop, arith,
}
use operating_systems.MapReduce.Framework.{
  Mutex, creating_mutexes, merging_mutex, shuffle_st, shuffle_mutex, Client, place_all,
}
use operating_systems.MapReduce.Framework.Merge.{merge_vectors-returns}
use operating_systems.MapReduce.Framework.Groups.{place_all-Grouped}
use operating_systems.MapReduce.Threads.{
  At, starts_shuffle, shuffles, meets2, State, has_mutex, collect, assign, start_shuffle,
  to_shuffle, shuffle,
}
use operating_systems.MapReduce.Threads.Invariant.{
  phase, pending3, is_shuffled, is_shuffling, is_finished, Inv,
}
use operating_systems.MapReduce.Threads.Invariant.Frames.{assign-each}
use operating_systems.MapReduce.Threads.Invariant.MapSteps.{
  Keeps, has_created, locked-Keeps, moved, Mapping-kept, Shuffling-kept, Reducing-kept,
}

pub length-collect : {A : Type 0} (n k : ℕ) (f : ℕ → A) → length (collect n k f) ≡ n
unfolding collect
length-collect zero k f = refl
length-collect (suc n) k f = omega (arith, length-collect n (suc k) f)

-- The sum over the collected entries is the sum over the threads.
weigh-collect_from :
    {A : Type 0} (w : A → ℕ) (n k : ℕ) (f : ℕ → A)
    → weigh w (collect n k f) + total k (λ i. w (f i)) ≡ total (n + k) (λ i. w (f i))
unfolding collect
weigh-collect_from w zero k f = ground arith
weigh-collect_from w (suc n) k f =
    let h = weigh-collect_from w n (suc k) f in
    let e : n + suc k ≡ suc n + k = omega arith in
    let q = ap (λ x. total x (λ i. w (f i))) e in omega (arith, h, q)

pub weigh-collect :
    {A : Type 0} (w : A → ℕ) (n : ℕ) (f : ℕ → A) → weigh w (collect n 0 f) ≡ total n (λ i. w (f i))
weigh-collect w n f =
    let h = weigh-collect_from w n 0 f in
    let e : n + 0 ≡ n = omega arith in
    let q = ap (λ x. total x (λ i. w (f i))) e in omega (arith, h, q)

module _ {K V O : Type 0} where
  early_pending3 : (a : At K V O) → phase a < 2 → (pending3 a ≡ []) × (is_finished a ≡ false)
  early_pending3 a h = ground arith

module _ {I K V O : Type 0} (client : Client I K V O) (n : ℕ) where
  -- There are pairs to shuffle, those of all threads.
  pub to_shuffle-returns :
      (mutexes : List Mutex) (vecs : ℕ → List (K × V))
      → mutexes ≡ creating_mutexes
      → 0 < n
      → (pairs : List (K × V)) × (to_shuffle client n mutexes vecs ≡ some pairs)
        × ((w : K × V → ℕ) → weigh w pairs ≡ total n (λ i. weigh w (vecs i)))
  unfolding to_shuffle
  to_shuffle-returns mutexes vecs made h = elim (Bool-cases (ltb 1 n)) [
    | inl many ↦
        let c = length-collect n 0 vecs in
        let (r, e, same) =
          merge_vectors-returns client n (collect n 0 vecs) (omega arith) (omega arith) in
        let m : has_mutex merging_mutex mutexes ≡ true =
          subst (λ ms. has_mutex merging_mutex ms ≡ true) (sym made) (has_created merging_mutex) in
        (r, rw (many, m) e, λ w. same w ∙ weigh-collect (weigh w) n vecs)
    | inr one ↦ (vecs 0, rw one refl, λ w. only n h one w)
  ]
    where
      only :
          (k : ℕ)
          → 0 < k
          → ltb 1 k ≡ false
          → (w : K × V → ℕ) → weigh w (vecs 0) ≡ total k (λ i. weigh w (vecs i))
      only zero p q w = absurd (omega arith)
      only (suc zero) p q w = omega arith
      only (suc (suc k)) p q w = absurd (ground (arith, q))

module _ {I K V O : Type 0} (client : Client I K V O) (n : ℕ) (inputs : List I) (s : State I K V O)
    (v : Inv client n inputs s) (i : ℕ) (l : i < n) where
  pub start_shuffle-Keeps :
      s.at i ≡ starts_shuffle → Keeps client n inputs (start_shuffle client s i)
  unfolding start_shuffle
  start_shuffle-Keeps e = elim (Bool-cases (i == 0)) [
    | inl z ↦
        let t = Shuffling-kept client n inputs s v i l starts_shuffle e meets2 in
        rw (z, Keeps)
          (locked-Keeps client n inputs s v i l shuffle_st _ (record {
            made = v.made;
            inputs_kept = v.inputs_kept;
            level_kept = v.level_kept;
            together = moved client n inputs s v i l starts_shuffle e shuffles (refl, refl, refl);
            mapping =
                Mapping-kept client n inputs s v i l starts_shuffle e shuffles
                  (refl, (λ h. h), (λ h. h));
            shuffling = record {
              alone = λ j k q. elim (Bool-cases (i == j)) [
                | inl here ↦ sym ((==_iff i j).0 here) ∙ (==_iff i 0).0 z
                | inr other ↦ v.shuffling.alone j k (rw other at q)
              ];
              before = λ q. v.shuffling.before (start_before z);
              after = λ q. absurd (ground (arith, z, q));
            };
            reducing =
                Reducing-kept client n inputs s v i l starts_shuffle e shuffles
                  (refl, (λ h. h), (λ h. h));
          }))
    | inr z ↦
        rw (z, Keeps)
          (record {
            made = v.made;
            inputs_kept = v.inputs_kept;
            level_kept = v.level_kept;
            together = moved client n inputs s v i l starts_shuffle e meets2 (refl, refl, refl);
            mapping =
                Mapping-kept client n inputs s v i l starts_shuffle e meets2
                  (refl, (λ h. h), (λ h. h));
            shuffling =
                Shuffling-kept client n inputs s v i l starts_shuffle e meets2
                  (λ q. absurd (ground (arith, z, q))) (λ h. cc);
            reducing =
                Reducing-kept client n inputs s v i l starts_shuffle e meets2
                  (refl, (λ h. h), (λ h. h));
          })
  ]
    where
      start_before : (i == 0) ≡ true → is_shuffled (s.at 0) ≡ false
      start_before z = ap is_shuffled (ap s.at (sym ((==_iff i 0).0 z)) ∙ e)

  module _ (e : s.at i ≡ shuffles) where
    shuffle-at_zero : i ≡ 0
    shuffle-at_zero = v.shuffling.alone i l (ap is_shuffling e)

    -- The groups, and what they hold.
    shuffle_groups :
        (pairs : List (K × V)) × (groups : List (List (K × V))) × (to_shuffle client n s.job.mutexes
            s.job.threads_vec
          ≡ some pairs)
        × (place_all client pairs [] ≡ some groups)
    shuffle_groups =
        let (pairs, p, _) =
          to_shuffle-returns client n s.job.mutexes s.job.threads_vec v.made (omega arith) in
        let (groups, g, _, _) = place_all-Grouped client pairs [] tt in (pairs, groups, p, g)

    no_groups : (s.job.shuffled_vec ≡ []) × (s.job.atomic_shuffle_counter ≡ 0)
    no_groups = v.shuffling.before (ap is_shuffled (ap s.at (sym shuffle-at_zero) ∙ e))

    abbrev shuffled_by : List (K × V) → List (List (K × V)) → State I K V O
    shuffled_by pairs groups = record {
      job = record s.job {
        shuffled_vec = groups;
        atomic_shuffle_counter = s.job.atomic_shuffle_counter + length pairs;
      };
      at = assign s.at i meets2;
    }

    shuffled-Inv :
        (pairs : List (K × V)) (groups : List (List (K × V)))
        → to_shuffle client n s.job.mutexes s.job.threads_vec ≡ some pairs
        → place_all client pairs [] ≡ some groups
        → Inv client n inputs (shuffled_by pairs groups)
    shuffled-Inv pairs groups p g =
        let current_one = v.together.in_phase i l in
        let one : phase (s.at i) ≡ 1 = ap phase e in
        let quiet = v.reducing.early i l (omega arith) in
        record {
          made = v.made;
          inputs_kept = v.inputs_kept;
          level_kept = v.level_kept;
          together = moved client n inputs s v i l shuffles e meets2 (refl, refl, refl);
          mapping =
              Mapping-kept client n inputs s v i l shuffles e meets2 (refl, (λ h. h), (λ h. h));
          shuffling = record {
            alone = λ j k q. v.shuffling.alone j k (
                assign-each (λ x y. is_shuffling y ≡ true → is_shuffling x ≡ true) s.at i meets2
                  (λ x h. h) (λ h. cc) j q);
            before = λ q. absurd (ground (arith, shuffle-at_zero, q));
            after = λ q. (pairs, p, g, omega (arith, no_groups.1));
          };
          reducing = record {
            early = λ j k q. quiet;
            reduced = λ w.
                let z =
                  total-zero n (λ j. weigh w (pending3 (assign s.at i meets2 j)))
                    (λ j k. nothing j k w) in
                let o = ap (weigh w) quiet.1 in
                let d = ap (λ c. weigh w (flat client.reduce (drop c groups))) quiet.0 in
                omega (arith, z, o, d);
            output_counted = v.reducing.output_counted;
            ended = λ j k q. absurd (unended j k q);
          };
        }
      where
        all_one : (j : ℕ) → j < n → phase (assign s.at i meets2 j) ≡ 1
        all_one j k =
            let h = v.together.in_phase j k in
            let g = v.together.in_phase i l in
            let q = ap phase e in
            assign-each (λ x y. phase x ≡ 1 → phase y ≡ 1) s.at i meets2 (λ x f. f) (λ f. refl) j
              (omega arith)

        nothing : (j : ℕ) → j < n → (w : O → ℕ) → weigh w (pending3 (assign s.at i meets2 j)) ≡ 0
        nothing j k w =
            ap (weigh w)
              (early_pending3 (assign s.at i meets2 j) (let h = all_one j k in omega arith)).0

        unended : (j : ℕ) → j < n → is_finished (assign s.at i meets2 j) ≡ true → ⊥
        unended j k q =
            let h =
              (early_pending3 (assign s.at i meets2 j) (let h = all_one j k in omega arith)).1 in
            cc

    pub shuffle-Keeps : Keeps client n inputs (shuffle client s i)
    unfolding shuffle
    shuffle-Keeps =
        let (pairs, groups, p, g) = shuffle_groups in
        locked-Keeps client n inputs s v i l shuffle_mutex _ (
          let p' =
            subst (λ k. to_shuffle client k s.job.mutexes s.job.threads_vec ≡ some pairs)
              (sym v.level_kept) p in
          let g' = subst (λ x. place_all client pairs x ≡ some groups) (sym no_groups.0) g in
          rw (p', g', Keeps) (shuffled-Inv pairs groups p g))
