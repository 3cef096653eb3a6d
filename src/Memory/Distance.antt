-- ===== src/Memory/Distance.antt =====
-- `cyclicDistance` and `cyclic_distance` of Hierarchical_Virtual_Memory_System/VirtualMemory.cpp.
pub mod Farthest
use operating_systems.Base.{
  ℕ, ◌+◌, ◌-◌, ◌%◌, ◌^◌, ℤ, pos_part, neg_part, pos, ltb_ℤ, ltb, if◌then◌else◌,
}
use operating_systems.Memory.Physical.{num_pages, to_int}

pub record CyclicDistance : Type 0 where
  pub page_num : ℕ
  pub frame : ℕ
  pub parent : ℕ
  pub distance : ℕ
  pub offset : ℕ

-- `(int) (original_page - page_num)`, a difference of two `uint64_t`.
unfoldable pub page_difference : ℕ → ℕ → ℤ
page_difference original_page page_num = to_int ((original_page + 2 ^ 64 - page_num) % 2 ^ 64)

-- `ans` and then `sub`.
unfoldable pub distance_between : ℕ → ℕ → ℕ
unfolding page_difference
distance_between original_page page_num =
    let difference = page_difference original_page page_num in
    let ans = if ltb_ℤ difference (pos 0) then neg_part difference else pos_part difference in
    if ltb ans (num_pages - ans) then ans else (num_pages + 2 ^ 64 - ans) % 2 ^ 64

unfoldable pub cyclic_distance : CyclicDistance → CyclicDistance → ℕ → CyclicDistance
unfolding distance_between
cyclic_distance max_cyclic cyclic_tmp original_page =
    let sub = distance_between original_page cyclic_tmp.page_num in
    if ltb max_cyclic.distance sub
    then record max_cyclic {
      page_num = cyclic_tmp.page_num;
      distance = sub;
      frame = cyclic_tmp.frame;
      parent = cyclic_tmp.parent;
      offset = cyclic_tmp.offset;
    }
    else max_cyclic
