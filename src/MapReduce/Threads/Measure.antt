-- ===== src/MapReduce/Threads/Measure.antt =====
-- Measures of the places of the threads of MapReduce_Framework/MapReduceFramework.cpp.
use operating_systems.Base.{ℕ, zero, suc, ◌+◌, ◌≤◌, length, total, arith}
use operating_systems.MapReduce.Threads.{
  At, begins, maps, emits2, sorts, meets1, waits1, starts_shuffle, shuffles, meets2, waits2,
  starts_reduce, emits3, finished, wake,
}

pub total_mono : (n : ℕ) (f g : ℕ → ℕ) → ((j : ℕ) → f j ≤ g j) → total n f ≤ total n g
total_mono zero f g h = omega arith
total_mono (suc n) f g h = omega (arith, total_mono n f g h, h n)

module _ {K V O : Type 0} where
  -- The steps that are left up to the test of the loop of `reduce_stage`, inputs aside.
  abbrev pub to_go : At K V O → ℕ
  to_go begins = 10
  to_go maps = 9
  to_go (emits2 pairs) = 10 + length pairs
  to_go sorts = 8
  to_go meets1 = 7
  to_go waits1 = 6
  to_go starts_shuffle = 5
  to_go shuffles = 4
  to_go meets2 = 3
  to_go waits2 = 2
  to_go starts_reduce = 1
  to_go _ = 0

  -- The steps that are left from there on, groups aside.
  abbrev pub to_end : At K V O → ℕ
  to_end (emits3 pairs) = 2 + length pairs
  to_end finished = 0
  to_end _ = 1

  pub wake-to_go : (a : At K V O) → to_go (wake a) ≤ to_go a
  wake-to_go a = ground arith
