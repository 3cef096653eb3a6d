-- ===== src/Memory/Frames.antt =====
-- `emptyFrame`, `clearMemory`, `VMinitialize` and `findEmptyCell` of
-- Hierarchical_Virtual_Memory_System/VirtualMemory.cpp.
pub mod Choice
use operating_systems.Base.{
  ℕ, zero, suc, ◌+◌, ◌-◌, ◌*◌, ◌/◌, ◌%◌, ◌^◌, pos, ltb, ◌==◌, if◌then◌else◌, Bool, true, false, not,
  ◌&&◌,
}
use operating_systems.Memory.Physical.{
  page_size, num_frames, tables_depth, to_int, M, pure, ◌>>=◌, ◌>>◌, pm_write, pm_evict, pm_restore,
}
use operating_systems.Memory.Traversal.{RecursionFrame, Found, tree_traversal}

abbrev pub nothing_found : Found
nothing_found = record {
  max_cyclic = record { page_num = 0; frame = 0; parent = 0; distance = 0; offset = 0 };
  maximal_frame = 0;
}

-- What `emptyFrame` does with the result of the traversal.
unfoldable pub choose_frame : ℕ → RecursionFrame → Found → M ℕ
choose_frame old_frame chosen found =
    if chosen.unused && ltb chosen.depth tables_depth && not (chosen.frame == old_frame)
    then (do
      pm_write ((chosen.parent * page_size + chosen.offset) % 2 ^ 64) (pos 0)
      pure chosen.frame)
    else if ltb (found.maximal_frame + 1) num_frames
    then pure (found.maximal_frame + 1)
    else (do
      pm_evict found.max_cyclic.frame found.max_cyclic.page_num
      pm_write ((found.max_cyclic.parent * page_size + found.max_cyclic.offset) % 2 ^ 64) (pos 0)
      pure found.max_cyclic.frame)

unfoldable pub empty_frame : ℕ → ℕ → M ℕ
empty_frame page_num old_frame = do
  r ← tree_traversal page_num old_frame tables_depth 0 0 0 0 nothing_found
  choose_frame old_frame r.0 r.1

-- Writes 0 to the last `todo` words of a frame.
unfoldable pub clear_words : ℕ → ℕ → M (Unit {0})
clear_words idx zero = pure tt
clear_words idx (suc todo) = do
  pm_write ((idx * page_size + (page_size - suc todo)) % 2 ^ 64) (pos 0)
  clear_words idx todo

unfoldable pub clear_frames : ℕ → M (Unit {0})
unfolding clear_words
clear_frames zero = pure tt
clear_frames (suc todo) = do clear_words (num_frames - suc todo) page_size; clear_frames todo

unfoldable pub clear_memory : ℕ → Bool → M (Unit {0})
unfolding clear_words clear_frames
clear_memory idx clear_all =
    if not clear_all then clear_words idx page_size else clear_frames num_frames

unfoldable pub vm_initialize : M (Unit {0})
unfolding clear_memory
vm_initialize = clear_memory 0 true

unfoldable pub find_empty_cell : ℕ → ℕ → ℕ → ℕ → M ℕ
unfolding empty_frame clear_memory
find_empty_cell depth virtual_address address old_frame = do
  f ← empty_frame (virtual_address / page_size) old_frame
  if tables_depth - 1 == depth
      then (do pm_restore f (virtual_address / page_size); pm_write address (to_int f))
      else (do clear_memory f false; pm_write address (to_int f))
  pure f
