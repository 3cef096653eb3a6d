-- ===== src/MapReduce/Threads/Sorted.antt =====
-- What `shuffle_stage` of MapReduce_Framework/MapReduceFramework.cpp starts from.
use operating_systems.Base.{
  ℕ, zero, suc, ◌+◌, ◌≤◌, ◌<◌, ◌≡◌, ap, subst, inl, inr, ltb, Bool-cases, true, some, List, [], All,
  weigh, SameEntries, drop_all, flat, total-zero, arith,
}
use operating_systems.MapReduce.Framework.{Mutex, merging_mutex, Client}
use operating_systems.MapReduce.Framework.Merge.{IsOrder, Ordered, merge_vectors-Ordered}
use operating_systems.MapReduce.Threads.{At, shuffles, State, has_mutex, to_shuffle, collect, Reach}
use operating_systems.MapReduce.Threads.Invariant.{
  phase, pending2, is_mapped, is_sorted, is_shuffling,
}
use operating_systems.MapReduce.Threads.Invariant.MapSteps.{Sorts}
use operating_systems.MapReduce.Threads.Invariant.ShuffleSteps.{to_shuffle-returns}
use operating_systems.MapReduce.Threads.Correct.{Reach-Inv}

collect-All :
    {A : Type 0} (P : A → Type 0) (n k : ℕ) (f : ℕ → A)
    → ((i : ℕ) → k ≤ i → i < n + k → P (f i))
    → All P (collect n k f)
unfolding collect
collect-All P zero k f h = tt
collect-All P (suc n) k f h = (
  h k (omega arith) (omega arith),
  collect-All P n (suc k) f (λ i a b. h i (omega arith) (omega arith)),
)

module _ {K V O : Type 0} where
  later-is_mapped :
      (a : At K V O) → 0 < phase a → (is_mapped a ≡ true) × (is_sorted a ≡ true) × (pending2 a ≡ [])
  later-is_mapped a h = ground arith

module _ {I K V O : Type 0} (client : Client I K V O) (order : IsOrder client) (n : ℕ) where
  to_shuffle-Ordered :
      (mutexes : List Mutex) (vecs : ℕ → List (K × V)) (pairs : List (K × V))
      → ((i : ℕ) → i < n → Ordered client (vecs i))
      → 0 < n
      → to_shuffle client n mutexes vecs ≡ some pairs
      → Ordered client pairs
  unfolding to_shuffle
  to_shuffle-Ordered mutexes vecs pairs o h e = elim (Bool-cases (ltb 1 n)) [
    | inl many ↦ elim (Bool-cases (has_mutex merging_mutex mutexes)) [
      | inl m ↦
          merge_vectors-Ordered client order n (collect n 0 vecs) pairs
            (collect-All (Ordered client) n 0 vecs (λ i a b. o i (omega arith))) (rw (many, m) at e)
      | inr m ↦ absurd (let d = rw (many, m) at e in cc)
    ]
    | inr one ↦ subst (Ordered client) (let d = rw one at e in cc) (o 0 h)
  ]

  module _ (inputs : List I) (lib : Sorts client n inputs) (h : 0 < n) where
    -- When the keys are ordered as std::sort wants it, std::sort sorts and keeps its entries, and
    -- there is a thread: in every state that the threads reach and in which a thread is about to
    -- shuffle, it is thread 0, and what it merges is all pairs that `map` emits for the inputs,
    -- each as often, in the order of the keys.
    pub shuffle_input-Ordered :
        (s : State I K V O) (i : ℕ)
        → Reach client inputs n s
        → i < n
        → s.at i ≡ shuffles
        → (i ≡ 0)
          × ((pairs : List (K × V)) × (to_shuffle client n s.job.mutexes s.job.threads_vec
                ≡ some pairs)
              × Ordered client pairs
              × SameEntries pairs (flat client.map inputs))
    shuffle_input-Ordered s i r l e =
        let v = Reach-Inv client n inputs lib h r in
        let later : (j : ℕ) → j < n → 0 < phase (s.at j) = λ j k.
          let p = v.together.in_phase i l in
          let q = v.together.in_phase j k in let o = ap phase e in omega arith in
        let (pairs, p, same) =
          to_shuffle-returns client n s.job.mutexes s.job.threads_vec v.made h in
        (
          v.shuffling.alone i l (ap is_shuffling e),
          (
            pairs,
            p,
            to_shuffle-Ordered s.job.mutexes s.job.threads_vec pairs
                (λ j k. v.mapping.ordered j k (later-is_mapped (s.at j) (later j k)).1) h p,
            (λ w.
                let all = v.mapping.exhausted i l (later-is_mapped (s.at i) (later i l)).0 in
                let d =
                  ap (λ ys. weigh w (flat client.map ys))
                    (drop_all s.job.atomic_map_counter inputs all) in
                let z =
                  total-zero n (λ j. weigh w (pending2 (s.at j)))
                    (λ j k. ap (weigh w) (later-is_mapped (s.at j) (later j k)).2) in
                omega (arith, same w, v.mapping.emitted w, d, z)),
          ),
        )
