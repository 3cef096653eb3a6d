-- ===== src/MapReduce/Barrier.antt =====
-- MapReduce_Framework/Barrier.cpp. A call locks the mutex, counts itself, and either waits on the
-- condition variable (which releases the mutex) or wakes all that wait.
use operating_systems.Base.{ℕ, suc, ltb, if◌then◌else◌, Bool, true, false}

pub record Barrier : Type 0 where
  pub count : ℕ
  pub num_threads : ℕ

abbrev pub new_barrier : ℕ → Barrier
new_barrier num_threads = record { count = 0; num_threads = num_threads }

-- Whether the caller is the last one, and broadcasts.
abbrev pub is_last : Barrier → Bool
is_last b = if ltb (suc b.count) b.num_threads then false else true

-- The count after a call.
unfoldable pub arrive : Barrier → Barrier
arrive b = if is_last b then record b { count = 0 } else record b { count = suc b.count }
