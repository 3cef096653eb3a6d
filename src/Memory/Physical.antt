-- ===== src/Memory/Physical.antt =====
-- Hierarchical_Virtual_Memory_System/PhysicalMemory.cpp and MemoryConstants.h: the RAM, the swap
-- file, and the conversions between the C++ integer types that the addresses go through.
pub mod RoundTrip
use operating_systems.Base.{
  ℕ, ◌-◌, ◌/◌, ◌%◌, ◌^◌, ℤ, pos, negsuc, ltb, ◌==◌, if◌then◌else◌, Bool, true, false, ◌&&◌, Option,
  none, some,
}

abbrev pub offset_width : ℕ
offset_width = 4

abbrev pub page_size : ℕ
page_size = 16

abbrev pub ram_size : ℕ
ram_size = 1024

abbrev pub virtual_memory_size : ℕ
virtual_memory_size = 1048576

abbrev pub num_frames : ℕ
num_frames = 64

abbrev pub num_pages : ℕ
num_pages = 65536

abbrev pub tables_depth : ℕ
tables_depth = 4

-- `(uint64_t) v` of an `int`.
abbrev pub to_uint64 : ℤ → ℕ
to_uint64 (pos n) = n
to_uint64 (negsuc n) = 2 ^ 64 - 1 - n

-- `(int) n` of a `uint64_t`: the low 32 bits, in two's complement.
abbrev pub to_int : ℕ → ℤ
to_int n = let low = n % 2 ^ 32 in if ltb low (2 ^ 31) then pos low else negsuc (2 ^ 32 - 1 - low)

-- `page_t`: the words of a page by their offsets.
abbrev pub Page : Type 0
Page = ℕ → ℤ

pub record Memory : Type 0 where
  -- Whether `RAM` has been resized from the empty vector.
  pub resized : Bool
  pub ram : ℕ → Page
  pub swap_file : ℕ → Option Page

-- `none` is a failed assertion.
abbrev pub M : Type 0 → Type 0
M A = Memory → Option (A × Memory)

abbrev pub pure : {A : Type 0} → A → M A
pure a m = some (a, m)

abbrev pub and_then : {A B : Type 0} → Option (A × Memory) → (A → M B) → Option (B × Memory)
and_then none f = none
and_then (some (a, m)) f = f a m

infixl 5 ◌>>=◌ ◌>>◌
abbrev pub ◌>>=◌ : {A B : Type 0} → M A → (A → M B) → M B
◌>>=◌ x f m = and_then (x m) f

abbrev pub ◌>>◌ : {B : Type 0} → M (Unit {0}) → M B → M B
x >> y = x >>= λ _. y

abbrev pub modify : (Memory → Memory) → M (Unit {0})
modify f m = some (tt, f m)

abbrev pub get : M Memory
get m = some (m, m)

abbrev pub assert : Bool → M (Unit {0})
assert b m = if b then some (tt, m) else none

abbrev pub set_word : (ℕ → Page) → ℕ → ℕ → ℤ → ℕ → Page
set_word ram f o v f' o' = if f == f' && o == o' then v else ram f' o'

abbrev pub set_page : {V : Type 0} → (ℕ → V) → ℕ → V → ℕ → V
set_page ram f v f' = if f == f' then v else ram f'

-- `if (RAM.empty ()) initialize ();`
unfoldable pub initialize : M (Unit {0})
initialize m = some (tt, if m.resized then m else record m { resized = true; ram = λ f o. pos 0 })

unfoldable pub pm_read : ℕ → M ℤ
unfolding initialize
pm_read physical_address = do
  initialize
  assert (ltb physical_address ram_size)
  m ← get
  pure (m.ram (physical_address / page_size) (physical_address % page_size))

unfoldable pub pm_write : ℕ → ℤ → M (Unit {0})
unfolding initialize
pm_write physical_address value = do
  initialize
  assert (ltb physical_address ram_size)
  modify λ m. record m {
    ram = set_word m.ram (physical_address / page_size) (physical_address % page_size) value;
  }

abbrev pub is_none : {A : Type 0} → Option A → Bool
is_none none = true
is_none (some a) = false

unfoldable pub pm_evict : ℕ → ℕ → M (Unit {0})
unfolding initialize
pm_evict frame_index evicted_page_index = do
  initialize
  assert (ltb frame_index num_frames)
  assert (ltb evicted_page_index num_pages)
  m ← get
  assert (is_none (m.swap_file evicted_page_index))
  modify λ m. record m {
    swap_file = set_page m.swap_file evicted_page_index (some (m.ram frame_index));
  }

unfoldable pub pm_restore : ℕ → ℕ → M (Unit {0})
unfolding initialize
pm_restore frame_index restored_page_index = do
  initialize
  assert (ltb frame_index num_frames)
  m ← get
  elim (m.swap_file restored_page_index) [
    | none ↦ pure tt
    | some page ↦ modify λ m. record m {
      ram = set_page m.ram frame_index page;
      swap_file = set_page m.swap_file restored_page_index none;
    }
  ]
