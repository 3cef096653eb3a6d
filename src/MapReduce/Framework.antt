-- ===== src/MapReduce/Framework.antt =====
-- The data of MapReduce_Framework/MapReduceFramework.cpp, and what one thread does with it alone:
-- the merge of the sorted vectors, the groups of the shuffle, and the two emit functions.
pub mod Merge
pub mod Groups
use operating_systems.Base.{
  ℕ, zero, suc, ◌+◌, ◌≡◌, if◌then◌else◌, Bool, true, false, not, ◌&&◌, Option, none, some, List, [],
  ◌∷◌, ◌++◌, length,
}
use operating_systems.MapReduce.Barrier.{Barrier, new_barrier}

-- enum stage_t.
pub data Stage : Type 0 where
  undefined_stage map_stage shuffle_stage reduce_stage : Stage

abbrev pub is_reduce_stage : Stage → Bool
is_reduce_stage reduce_stage = true
is_reduce_stage _ = false

-- The names of the mutexes.
pub data Mutex : Type 0 where
  reduce_mut map_mut emit3_mut emit2_mut sort_mut shuffle_st reduce_st : Mutex
  shuffle_mutex merging_mutex get_state wait_for_job : Mutex

-- A `float`: a whole number of percents, or 100 times the quotient of two numbers, which is not a
-- number for 0 by 0, and infinite for another number by 0.
pub data Percentage : Type 0 where
  whole : ℕ → Percentage
  ratio : ℕ → ℕ → Percentage
  not_a_number infinite : Percentage

pub record JobState : Type 0 where
  pub stage : Stage
  pub percentage : Percentage

-- MapReduceClient with the order of its keys; an object's calls of `emit2` and `emit3` are the list
-- of what it emits. `sort` is what std::sort does with the comparator.
pub record Client (I K V O : Type 0) : Type 0 where
  pub before : K → K → Bool
  pub map : I → List (K × V)
  pub reduce : List (K × V) → List O
  pub sort : List (K × V) → List (K × V)

pub record JobContext (I K V O : Type 0) : Type 0 where
  pub wait : Bool
  pub threads_vec : ℕ → List (K × V)
  pub mutexes : List Mutex
  pub state : JobState
  pub num_of_threads : ℕ
  pub input_vec : List I
  pub output_vec : List O
  pub atomic_map_counter : ℕ
  pub atomic_red_counter : ℕ
  pub atomic_shuffle_counter : ℕ
  pub atomic_emit3_counter : ℕ
  pub atomic_pairs_counter : ℕ
  pub shuffled_vec : List (List (K × V))
  pub barrier : Barrier

-- The order in which `creating_mutexes` inserts them.
abbrev pub creating_mutexes : List Mutex
creating_mutexes =
    map_mut ∷ reduce_mut ∷ emit2_mut ∷ emit3_mut ∷ sort_mut ∷ get_state ∷ wait_for_job
    ∷ merging_mutex ∷ shuffle_mutex ∷ shuffle_st ∷ reduce_st ∷ []

-- `startMapReduceJob`, up to the creation of the threads.
unfoldable pub start_map_reduce_job : {I K V O : Type 0} → List I → ℕ → JobContext I K V O
start_map_reduce_job input_vec multi_thread_level = record {
  wait = false;
  threads_vec = λ i. [];
  mutexes = creating_mutexes;
  state = record { stage = undefined_stage; percentage = whole 0 };
  num_of_threads = multi_thread_level;
  input_vec = input_vec;
  output_vec = [];
  atomic_map_counter = 0;
  atomic_red_counter = 0;
  atomic_shuffle_counter = 0;
  atomic_emit3_counter = 0;
  atomic_pairs_counter = 0;
  shuffled_vec = [];
  barrier = new_barrier multi_thread_level;
}

module _ {I K V O : Type 0} (client : Client I K V O) where
  abbrev pub comparator : K × V → K × V → Bool
  comparator pair1 pair2 = client.before pair1.0 pair2.0

  -- std::merge: an entry of the second list comes first only if it is less.
  unfoldable pub pair_merging_helper : List (K × V) → List (K × V) → List (K × V)
  pair_merging_helper [] second = second
  pair_merging_helper (x ∷ first) [] = x ∷ first
  pair_merging_helper (x ∷ first) (y ∷ second) =
      let left = pair_merging_helper first (y ∷ second) in
      let right = pair_merging_helper (x ∷ first) second in
      if comparator y x then y ∷ right else x ∷ left

  -- The loop of `merge_vectors`: two neighbours at a time.
  unfoldable pub merge_neighbours : List (List (K × V)) → List (List (K × V))
  merge_neighbours [] = []
  merge_neighbours (first ∷ []) = first ∷ []
  merge_neighbours (first ∷ second ∷ to_merge) =
      pair_merging_helper first second ∷ merge_neighbours to_merge

  -- `merge_vectors` with a bound on its calls; `at (0)` of an empty vector throws.
  unfoldable pub merge_vectors : ℕ → List (List (K × V)) → Option (List (K × V))
  merge_vectors calls [] = none
  merge_vectors calls (only ∷ []) = some only
  merge_vectors zero (first ∷ second ∷ to_merge) = none
  merge_vectors (suc calls) (first ∷ second ∷ to_merge) =
      merge_vectors calls (merge_neighbours (first ∷ second ∷ to_merge))

  -- Neither key is less than the other.
  abbrev pub same_key : K → K → Bool
  same_key k j = not (client.before k j) && not (client.before j k)

  -- The loop over `shuffled_vec` for one pair, and the new vector if no key is the same.
  unfoldable pub place : K × V → List (List (K × V)) → Option (List (List (K × V)))
  place pair [] = some ((pair ∷ []) ∷ [])
  place pair ([] ∷ groups) = none
  place pair ((head ∷ vec) ∷ groups) =
      let rest = place pair groups in
      if same_key pair.0 head.0
      then some ((head ∷ vec ++ pair ∷ []) ∷ groups)
      else elim rest [ none ↦ none | some groups' ↦ some ((head ∷ vec) ∷ groups') ]

  -- The loop over all pairs.
  unfoldable pub place_all : List (K × V) → List (List (K × V)) → Option (List (List (K × V)))
  place_all [] groups = some groups
  place_all (pair ∷ pairs) groups = elim (place pair groups) [
    | none ↦ none
    | some groups' ↦ place_all pairs groups'
  ]
