-- ===== src/MapReduce/Threads/Invariant.antt =====
-- What holds in every state that the threads of a job of MapReduce_Framework/MapReduceFramework.cpp
-- reach: where the threads are, and what has become of the inputs, the pairs and the groups.
pub mod Frames
pub mod Meeting
pub mod MapSteps
pub mod EmitSteps
pub mod MeetSteps
pub mod ShuffleSteps
pub mod ReduceSteps
use operating_systems.Base.{
  ℕ, zero, suc, ◌+◌, ◌≤◌, ◌<◌, ◌≡◌, ◌≢◌, refl, sym, ◌∙◌, subst, ◌==◌, if◌then◌else◌, Bool, true,
  false, some, List, [], ◌∷◌, length, weigh, SameEntries, drop, flat, total, total-ext,
  total-change, total-zero, arith,
}
use operating_systems.MapReduce.Barrier.{Barrier}
use operating_systems.MapReduce.Framework.{Mutex, creating_mutexes, Client, JobContext, place_all}
use operating_systems.MapReduce.Framework.Merge.{Ordered}
use operating_systems.MapReduce.Threads.{
  At, begins, maps, emits2, sorts, meets1, waits1, starts_shuffle, shuffles, meets2, waits2,
  starts_reduce, reduces, emits3, finished, State, assign, to_shuffle,
}

module _ {K V O : Type 0} where
  -- 0 up to the first meeting at the barrier, 1 up to the second, then 2.
  abbrev pub phase : At K V O → ℕ
  phase begins = 0
  phase maps = 0
  phase (emits2 _) = 0
  phase sorts = 0
  phase meets1 = 0
  phase waits1 = 0
  phase starts_shuffle = 1
  phase shuffles = 1
  phase meets2 = 1
  phase waits2 = 1
  phase _ = 2

  abbrev pub waiting : At K V O → ℕ
  waiting waits1 = 1
  waiting waits2 = 1
  waiting _ = 0

  abbrev pub pending2 : At K V O → List (K × V)
  pending2 (emits2 pairs) = pairs
  pending2 _ = []

  abbrev pub pending3 : At K V O → List O
  pending3 (emits3 pairs) = pairs
  pending3 _ = []

  -- Past the loops of the stages.
  abbrev pub is_mapped : At K V O → Bool
  is_mapped begins = false
  is_mapped maps = false
  is_mapped (emits2 _) = false
  is_mapped _ = true

  abbrev pub is_sorted : At K V O → Bool
  is_sorted sorts = false
  is_sorted a = is_mapped a

  abbrev pub is_shuffled : At K V O → Bool
  is_shuffled starts_shuffle = false
  is_shuffled shuffles = false
  is_shuffled meets1 = false
  is_shuffled waits1 = false
  is_shuffled a = is_sorted a

  abbrev pub is_shuffling : At K V O → Bool
  is_shuffling shuffles = true
  is_shuffling _ = false

  abbrev pub is_finished : At K V O → Bool
  is_finished finished = true
  is_finished _ = false

module _ {K V O : Type 0} (n : ℕ) where
  -- All threads are in one phase, and the barrier counts those that wait.
  pub record Together (b : Barrier) (at : ℕ → At K V O) : Type 0 where
    pub current : ℕ
    pub in_phase : (i : ℕ) → i < n → phase (at i) ≡ current
    pub for_all : b.num_threads ≡ n
    pub counted : b.count ≡ total n (λ i. waiting (at i))
    pub few : b.count < n

module _ {I K V O : Type 0} (client : Client I K V O) (n : ℕ) where
  -- What the client emits for the inputs that are claimed is in the vectors, or yet to be emitted.
  pub record Mapping (inputs : List I) (vecs : ℕ → List (K × V)) (claimed pairs : ℕ)
      (at : ℕ → At K V O) : Type 0 where
    pub emitted :
        (w : K × V → ℕ)
        → total n (λ i. weigh w (vecs i))
            + total n (λ i. weigh w (pending2 (at i)))
            + weigh w (flat client.map (drop claimed inputs))
          ≡ weigh w (flat client.map inputs)
    pub exhausted : (i : ℕ) → i < n → is_mapped (at i) ≡ true → length inputs ≤ claimed
    pub pairs_counted : pairs ≡ total n (λ i. length (vecs i))
    pub ordered : (i : ℕ) → i < n → is_sorted (at i) ≡ true → Ordered client (vecs i)

  -- Thread 0 has made the groups, or there are none.
  pub record Shuffling (mutexes : List Mutex) (vecs : ℕ → List (K × V))
      (shuffled : List (List (K × V))) (counter : ℕ) (at : ℕ → At K V O) : Type 0 where
    pub alone : (i : ℕ) → i < n → is_shuffling (at i) ≡ true → i ≡ 0
    pub before : is_shuffled (at 0) ≡ false → (shuffled ≡ []) × (counter ≡ 0)
    pub after :
        is_shuffled (at 0) ≡ true
        → (pairs : List (K × V)) × (to_shuffle client n mutexes vecs ≡ some pairs)
          × (place_all client pairs [] ≡ some shuffled)
          × (counter ≡ length pairs)

  -- What the client emits for the groups that are claimed is in the output, or yet to be emitted.
  pub record Reducing (shuffled : List (List (K × V))) (claimed : ℕ) (output : List O) (counter : ℕ)
      (at : ℕ → At K V O) : Type 0 where
    pub early : (i : ℕ) → i < n → phase (at i) < 2 → (claimed ≡ 0) × (output ≡ [])
    pub reduced :
        (w : O → ℕ)
        → weigh w output
            + total n (λ i. weigh w (pending3 (at i)))
            + weigh w (flat client.reduce (drop claimed shuffled))
          ≡ weigh w (flat client.reduce shuffled)
    pub output_counted : counter ≡ length output
    pub ended : (i : ℕ) → i < n → is_finished (at i) ≡ true → length shuffled ≤ claimed

  pub record Inv (inputs : List I) (s : State I K V O) : Type 0 where
    pub made : s.job.mutexes ≡ creating_mutexes
    pub inputs_kept : s.job.input_vec ≡ inputs
    pub level_kept : s.job.num_of_threads ≡ n
    pub together : Together n s.job.barrier s.at
    pub mapping :
        Mapping inputs s.job.threads_vec s.job.atomic_map_counter s.job.atomic_pairs_counter s.at
    pub shuffling :
        Shuffling s.job.mutexes s.job.threads_vec s.job.shuffled_vec s.job.atomic_shuffle_counter
          s.at
    pub reducing :
        Reducing s.job.shuffled_vec s.job.atomic_red_counter s.job.output_vec
          s.job.atomic_emit3_counter s.at

-- Thread `i` goes from `a` to `b`: how sums over the threads change.
module _ {A : Type 0} (n : ℕ) (at : ℕ → A) (i : ℕ) (l : i < n) (b : A) where
  pub total-assign :
      (f : A → ℕ) → total n (λ j. f (assign at i b j)) + f (at i) ≡ total n (λ j. f (at j)) + f b
  total-assign f =
      let h =
        total-change n i (λ j. f (assign at i b j)) (λ j. f (at j)) l (λ j ne. ground arith) in
      ground (arith, h)
