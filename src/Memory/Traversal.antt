-- ===== src/Memory/Traversal.antt =====
-- `recursionFrame` and `tree_traversal` of Hierarchical_Virtual_Memory_System/VirtualMemory.cpp.
pub mod Reached
pub mod Entries
pub mod Search
use operating_systems.Base.{
  ℕ, zero, suc, ◌+◌, ◌-◌, ◌*◌, ◌%◌, ◌^◌, pos, ltb, ◌==◌, ◌==ℤ◌, if◌then◌else◌, Bool, true, false,
  not, ◌&&◌,
}
use operating_systems.Memory.Physical.{page_size, tables_depth, to_uint64, M, pure, ◌>>=◌, pm_read}
use operating_systems.Memory.Distance.{CyclicDistance, cyclic_distance}

pub record RecursionFrame : Type 0 where
  pub frame : ℕ
  pub parent : ℕ
  pub unused : Bool
  pub depth : ℕ
  pub offset : ℕ

-- The two variables that the recursion shares by reference.
pub record Found : Type 0 where
  pub max_cyclic : CyclicDistance
  pub maximal_frame : ℕ

abbrev pub raise_maximal : ℕ → Found → Found
raise_maximal frame found =
    if ltb found.maximal_frame frame then record found { maximal_frame = frame } else found

-- The loop over the entries of a table, with `todo` entries to go. `visit` is the recursive call:
-- its arguments are the child's frame, path and offset.
unfoldable pub traverse_entries :
    (ℕ → ℕ → ℕ → Found → M (RecursionFrame × Found))
    → ℕ
    → ℕ
    → ℕ
    → RecursionFrame
    → Found
    → M (RecursionFrame × Found)
traverse_entries visit path old_frame zero current found = pure (current, found)
traverse_entries visit path old_frame (suc todo) current found =
    let j = page_size - suc todo in
    let skip = traverse_entries visit path old_frame todo current found in
    do
      value ← pm_read ((current.frame * page_size + j) % 2 ^ 64)
      if value ==ℤ pos 0 then skip else (do
        r ← visit (to_uint64 value) ((path * page_size + j) % 2 ^ 64) j found
        (let child = r.0 in
            let found' = raise_maximal child.frame r.1 in
            let go_on =
              traverse_entries visit path old_frame todo (record current { unused = false })
                found' in
            if child.unused && not (old_frame == child.frame) then pure (child, found') else go_on))

-- `left` is `TABLES_DEPTH - cur_depth`.
unfoldable pub tree_traversal : ℕ → ℕ → ℕ → ℕ → ℕ → ℕ → ℕ → Found → M (RecursionFrame × Found)
tree_traversal original_page old_frame zero cur_address parent path offset found =
    let leaf : CyclicDistance = record {
      page_num = path;
      frame = cur_address;
      parent = parent;
      distance = 0;
      offset = offset;
    } in
    pure (
      record {
        frame = cur_address;
        parent = parent;
        unused = false;
        depth = tables_depth;
        offset = offset;
      },
      record found { max_cyclic = cyclic_distance found.max_cyclic leaf original_page },
    )
tree_traversal original_page old_frame (suc left) cur_address parent path offset found =
    traverse_entries
      (λ value add_path j f.
        tree_traversal original_page old_frame left value cur_address add_path j f)
      path old_frame page_size
      (record {
        frame = cur_address;
        parent = parent;
        unused = true;
        depth = tables_depth - suc left;
        offset = offset;
      })
      found
