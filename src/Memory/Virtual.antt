-- ===== src/Memory/Virtual.antt =====
-- `extractPhysicalAdd`, `VMwrite` and `VMread` of
-- Hierarchical_Virtual_Memory_System/VirtualMemory.cpp.
pub mod Mapped
use operating_systems.Base.{
  ℕ, zero, suc, ◌+◌, ◌-◌, ◌*◌, ◌/◌, ◌%◌, ◌^◌, ℤ, pos, ltb, ◌==ℤ◌, if◌then◌else◌, not, Option, none,
  some,
}
use operating_systems.Memory.Physical.{
  offset_width, page_size, virtual_memory_size, tables_depth, to_uint64, to_int, M, pure, ◌>>=◌,
  ◌>>◌, pm_read, pm_write,
}
use operating_systems.Memory.Frames.{find_empty_cell}

-- The index into the table at a depth, with `left` levels to go.
unfoldable pub table_index : ℕ → ℕ → ℕ
table_index virtual_address left = (virtual_address / 2 ^ (left * offset_width)) % page_size

-- The entry of a table, filled if it is empty.
unfoldable pub follow_entry : ℕ → ℕ → ℕ → ℕ → M ℤ
follow_entry virtual_address left parent old_frame =
    let address = (parent + table_index virtual_address left) % 2 ^ 64 in
    do
      temp_addr ← pm_read address
      if temp_addr ==ℤ pos 0
          then (do
            f ← find_empty_cell (tables_depth - left) virtual_address address old_frame
            pure (to_int f))
          else pure temp_addr

-- The loop over the levels of the page table, with `left` levels to go.
unfoldable pub walk : ℕ → ℕ → ℕ → ℕ → ℤ → M ℤ
walk virtual_address zero parent old_frame temp_addr = pure temp_addr
walk virtual_address (suc left) parent old_frame temp_addr = do
  next ← follow_entry virtual_address (suc left) parent old_frame
  walk virtual_address left ((page_size * to_uint64 next) % 2 ^ 64) (to_uint64 next) next

unfoldable pub extract_physical_add : ℕ → M ℕ
extract_physical_add virtual_address = do
  temp_addr ← walk virtual_address tables_depth 0 0 (pos 0)
  pure ((to_uint64 temp_addr * page_size + virtual_address % page_size) % 2 ^ 64)

unfoldable pub vm_write : ℕ → ℤ → M ℕ
vm_write virtual_address value =
    if not (ltb virtual_address virtual_memory_size) then pure 0 else (do
      physical_add ← extract_physical_add virtual_address
      pm_write physical_add value
      pure 1)

-- The second result is what `*value` holds afterwards, if it was written.
unfoldable pub vm_read : ℕ → M (ℕ × Option ℤ)
vm_read virtual_address =
    if not (ltb virtual_address virtual_memory_size) then pure (0, none) else (do
      physical_add ← extract_physical_add virtual_address
      value ← pm_read physical_add
      pure (1, some value))
