-- ===== src/Memory/Physical/RoundTrip.antt =====
-- What Hierarchical_Virtual_Memory_System/PhysicalMemory.cpp reads back.
use operating_systems.Base.{
  ℕ, ◌/◌, ◌%◌, ◌<◌, ℤ, ◌≡◌, ◌≢◌, ◌==◌, if◌then◌else◌, true, none, some, arith,
}
use operating_systems.Memory.Physical.{
  Memory, and_then, set_word, set_page, initialize, pm_read, pm_write, pm_evict, pm_restore,
}

pub pm_write-eq :
    (a : ℕ) (v : ℤ) (m : Memory)
    → m.resized ≡ true
    → a < 1024
    → pm_write a v m ≡ some (tt, record m { ram = set_word m.ram (a / 16) (a % 16) v })
unfolding pm_write initialize
pm_write-eq a v m r h = ground (arith, r)

pub pm_read-eq :
    (a : ℕ) (m : Memory)
    → m.resized ≡ true
    → a < 1024
    → pm_read a m ≡ some (m.ram (a / 16) (a % 16), m)
unfolding pm_read initialize
pm_read-eq a m r h = ground (arith, r)

pub set_word-same :
    (ram : ℕ → ℕ → ℤ) (a : ℕ) (v : ℤ) → set_word ram (a / 16) (a % 16) v (a / 16) (a % 16) ≡ v
set_word-same ram a v = ground arith

pub set_word-other :
    (ram : ℕ → ℕ → ℤ) (a b : ℕ) (v : ℤ)
    → a ≢ b
    → set_word ram (a / 16) (a % 16) v (b / 16) (b % 16) ≡ ram (b / 16) (b % 16)
set_word-other ram a b v n = ground arith

-- For two addresses of the RAM, once it has been set up: the write of a word returns, and then a
-- read at the second address gives that word if the addresses are the same, and what a read gave
-- before the write if they differ.
pub pm_write-pm_read :
    (a b : ℕ) (v : ℤ) (m : Memory)
    → m.resized ≡ true
    → a < 1024
    → b < 1024
    → (m' : Memory) × (w : ℤ) × (pm_write a v m ≡ some (tt, m'))
      × (pm_read b m ≡ some (w, m))
      × (pm_read b m' ≡ some (if a == b then v else w, m'))
pm_write-pm_read a b v m r h k =
    let m' = record m { ram = set_word m.ram (a / 16) (a % 16) v } in
    (
      m',
      m.ram (b / 16) (b % 16),
      pm_write-eq a v m r h,
      pm_read-eq b m r k,
      ground (arith, pm_read-eq b m' r k, set_word-other m.ram a b v),
    )

-- For two frames of the RAM, once it has been set up, and a page number that is not in the swap
-- file: the eviction of the first frame as that page and the restoration of the page into the second
-- frame return; then the second frame has the words that the first had, the other frames have
-- theirs, and the swap file is as it was.
pub pm_evict-pm_restore :
    (f g page : ℕ) (m : Memory)
    → m.resized ≡ true
    → f < 64
    → g < 64
    → page < 65536
    → m.swap_file page ≡ none
    → (m' : Memory) × (and_then (pm_evict f page m) (λ _. pm_restore g page) ≡ some (tt, m'))
      × (m'.ram g ≡ m.ram f)
      × ((f' : ℕ) → f' ≢ g → m'.ram f' ≡ m.ram f')
      × ((q : ℕ) → m'.swap_file q ≡ m.swap_file q)
unfolding pm_evict pm_restore initialize
pm_evict-pm_restore f g page m r hf hg hp e = (
  record m {
    ram = set_page m.ram g (m.ram f);
    swap_file = set_page (set_page m.swap_file page (some (m.ram f))) page none;
  },
  ground (arith, r, e),
  ground arith,
  (λ f' n. ground arith),
  (λ q. ground (arith, e)),
)
