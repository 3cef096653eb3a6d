-- ===== src/Memory/Distance/Farthest.antt =====
-- The distance of two pages on the circle of all pages.
use Prim.Native.Nat.{min}
use operating_systems.Base.{ℕ, ◌+◌, ◌-◌, ◌<◌, ◌≡◌, pos, negsuc, ltb, if◌then◌else◌, arith}
use operating_systems.Memory.Physical.{num_pages}
use operating_systems.Memory.Distance.{page_difference, distance_between}

-- The number of pages between two, forward or backward, whichever is less.
abbrev pub circular : ℕ → ℕ → ℕ
circular a b = min (a - b + (b - a)) (num_pages - (a - b + (b - a)))

page_difference-eq :
    (a b : ℕ)
    → a < num_pages
    → b < num_pages
    → page_difference a b ≡ (if ltb a b then negsuc (b - a - 1) else pos (a - b))
unfolding page_difference
page_difference-eq a b h k = ground arith

-- For two page numbers below `NUM_PAGES`, the value `sub` that `cyclic_distance` computes through
-- `int` and `uint64_t` is the distance of the pages on the circle of all pages.
pub distance_between-eq :
    (a b : ℕ) → a < num_pages → b < num_pages → distance_between a b ≡ circular a b
unfolding distance_between
distance_between-eq a b h k = ground (arith, page_difference-eq a b)
