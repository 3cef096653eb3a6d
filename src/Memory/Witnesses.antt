-- ===== src/Memory/Witnesses.antt =====
-- The properties of Hierarchical_Virtual_Memory_System/ at concrete values.
use operating_systems.Base.{
  ℕ, suc, ◌+◌, ◌*◌, ◌%◌, ◌^◌, ◌<◌, ◌≡◌, ◌≢◌, ◌⊎◌, inl, inr, ℤ, refl, subst, pos, ◌==◌,
  if◌then◌else◌, true, none, some, ◌&&◌, ltb, arith,
}
use operating_systems.Memory.Physical.{
  Memory, to_uint64, and_then, set_word, pm_read, pm_write, pm_evict, pm_restore,
}
use operating_systems.Memory.Physical.RoundTrip.{pm_write-pm_read, pm_evict-pm_restore}
use operating_systems.Memory.Distance.{distance_between}
use operating_systems.Memory.Distance.Farthest.{circular, distance_between-eq}
use operating_systems.Memory.Traversal.{RecursionFrame, Found, tree_traversal}
use operating_systems.Memory.Traversal.Reached.{entry, Reach, here, below, Reach-inv, Searched}
use operating_systems.Memory.Traversal.Search.{tree_traversal-Searched}
use operating_systems.Memory.Virtual.{vm_write, vm_read}
use operating_systems.Memory.Virtual.Mapped.{vm_access-mapped}
use operating_systems.Memory.Frames.{nothing_found}
use operating_systems.Memory.Frames.Choice.{InTable, Reuses, Allocates, Evicts, empty_frame-cases}

distance_between-eq_example : distance_between 3 65530 ≡ circular 3 65530
distance_between-eq_example = distance_between-eq 3 65530 (omega arith) (omega arith)

-- Entry 3 of the root table leads to frame 1, an empty table.
abbrev one_table : Memory
one_table = record {
  resized = true;
  ram = λ f o. if f == 0 && o == 3 then pos 1 else pos 0;
  swap_file = λ p. none;
}

one_table-root : (j : ℕ) → j < 16 → entry one_table 0 j ≢ pos 0 → j ≡ 3
one_table-root j h n = ground arith

one_table-empty : (j : ℕ) → j < 16 → entry one_table 1 j ≡ pos 0
one_table-empty j h = ground arith

-- Frames 0 and 1 are all that is reached.
one_table-inside : (l fr p : ℕ) → Reach one_table 4 0 0 (suc l) fr p → fr < 64
one_table-inside l fr p q = elim (Reach-inv one_table 0 0 q) [
  | inl (e, _) ↦ omega arith
  | inr (j, h, n, q') ↦
      elim (Reach-inv one_table 0 0 (
        subst
          (λ i.
            Reach one_table 3 (to_uint64 (entry one_table 0 i)) ((0 * 16 + i) % 2 ^ 64) (suc l) fr
              p)
          (one_table-root j h n) q')) [
            | inl (e, _) ↦ omega arith
            | inr (i, h', n', q'') ↦ absurd (n' (one_table-empty i h'))
          ]
]

tree_traversal-Searched_example :
    (r : RecursionFrame) × (g : Found) × (tree_traversal 5 0 4 0 0 0 0 nothing_found one_table
      ≡ some ((r, g), one_table))
    × Searched one_table 5 0 4 0 0 nothing_found r g
tree_traversal-Searched_example =
    tree_traversal-Searched one_table 5 0 4 0 0 0 0 nothing_found (inl refl) refl one_table-inside

empty_frame-cases_example : Reuses one_table 5 0 ⊎ (Allocates one_table 5 0 ⊎ Evicts one_table 5 0)
empty_frame-cases_example = empty_frame-cases one_table 5 0 refl one_table-inside

pm_write-pm_read_example :
    (m' : Memory) × (w : ℤ) × (pm_write 35 (pos 7) one_table ≡ some (tt, m'))
    × (pm_read 35 one_table ≡ some (w, one_table))
    × (pm_read 35 m' ≡ some (if 35 == 35 then pos 7 else w, m'))
pm_write-pm_read_example = pm_write-pm_read 35 35 (pos 7) one_table refl (omega arith) (omega arith)

pm_evict-pm_restore_example :
    (m' : Memory) × (and_then (pm_evict 0 9 one_table) (λ _. pm_restore 2 9) ≡ some (tt, m'))
    × (m'.ram 2 ≡ one_table.ram 0)
    × ((f' : ℕ) → f' ≢ 2 → m'.ram f' ≡ one_table.ram f')
    × ((q : ℕ) → m'.swap_file q ≡ one_table.swap_file q)
pm_evict-pm_restore_example =
    pm_evict-pm_restore 0 2 9 one_table refl (omega arith) (omega arith) (omega arith) refl

-- A page of the path 1, 2, 3, 4 in frame 4: entry f + 1 of the table in frame f leads to frame f + 1.
abbrev one_page : Memory
one_page = record {
  resized = true;
  ram = λ f o. if f + 1 == o && ltb f 4 then pos (f + 1) else pos 0;
  swap_file = λ p. none;
}

one_page-entry : (c j : ℕ) → to_uint64 (entry one_page c j) < 64
one_page-entry c j = ground arith

one_page-Reach : {l c p l' fr p' : ℕ} → c < 64 → Reach one_page l c p l' fr p' → fr < 64
one_page-Reach h here = h
one_page-Reach {c = c} h (below j hj n q) = one_page-Reach (one_page-entry c j) q

one_page-path : InTable one_page 0 4 4660
one_page-path = below 1 (omega arith) (ground arith) (
    below 2 (omega arith) (ground arith)
      (below 3 (omega arith) (ground arith) (below 4 (omega arith) (ground arith) here)))

vm_access-mapped_example :
    (vm_write 74565 (pos 8) one_page
      ≡ some (1, record one_page { ram = set_word one_page.ram 4 (74565 % 16) (pos 8) }))
    × (vm_read 74565 one_page ≡ some ((1, some (one_page.ram 4 (74565 % 16))), one_page))
vm_access-mapped_example =
    vm_access-mapped one_page refl 74565 4 (pos 8) (omega arith)
      (λ l fr p' q. one_page-Reach (omega arith) q) one_page-path (omega arith)
