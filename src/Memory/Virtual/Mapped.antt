-- ===== src/Memory/Virtual/Mapped.antt =====
-- `VMread` and `VMwrite` of Hierarchical_Virtual_Memory_System/VirtualMemory.cpp at an address whose
-- page is in the RAM.
use operating_systems.Base.{
  ℕ, suc, ◌+◌, ◌*◌, ◌/◌, ◌%◌, ◌^◌, ◌<◌, ℤ, pos, ◌≡◌, ◌≢◌, refl, sym, ◌∙◌, inl, inr, ==ℤ→eq, true,
  some, arith,
}
use operating_systems.Memory.Physical.{Memory, to_uint64, set_word}
use operating_systems.Memory.Physical.RoundTrip.{pm_read-eq, pm_write-eq}
use operating_systems.Memory.Traversal.Reached.{entry, Reach, here, below, Reach-inv, Reach-leaf}
use operating_systems.Memory.Frames.Choice.{InTable}
use operating_systems.Memory.Virtual.{
  table_index, follow_entry, walk, extract_physical_add, vm_write, vm_read,
}

module _ (m : Memory) (ok : m.resized ≡ true) (va : ℕ) where
  walk-step :
      (left c parent j old : ℕ) (temp : ℤ)
      → c < 64
      → j < 16
      → parent ≡ (16 * c) % 2 ^ 64
      → table_index va (suc left) ≡ j
      → entry m c j ≢ pos 0
      → walk va (suc left) parent old temp m
        ≡ walk va left
            ((16 * to_uint64 (entry m c j)) % 2 ^ 64)
            (to_uint64 (entry m c j))
            (entry m c j)
            m
  unfolding walk follow_entry
  walk-step left c parent j old temp hc hj e i n = ground (
    arith,
    pm_read-eq ((c * 16 + j) % 2 ^ 64) m ok (omega arith),
    e,
    i,
    n,
    ==ℤ→eq (entry m c j) (pos 0),
  )

  -- The tables from a frame on lie in the RAM.
  abbrev Inside : ℕ → ℕ → ℕ → Type 0
  Inside left c p = (l fr p' : ℕ) → Reach m left c p (suc l) fr p' → fr < 64

  -- The walk from a table with `left` levels below it ends at the frame, and `page / d`, with the
  -- digits that the walk has used, is the path of the table.
  abbrev Walks : ℕ → ℕ → ℕ → ℕ → ℕ → Type 0
  Walks left d c p fr =
      (e : ℤ → ℕ → ℤ) × ((temp : ℤ) (old : ℕ)
        → to_uint64 temp ≡ c
        → walk va left ((16 * c) % 2 ^ 64) old temp m ≡ some (e temp old, m))
      × ((temp : ℤ) (old : ℕ) → to_uint64 temp ≡ c → to_uint64 (e temp old) ≡ fr)
      × (va / 16 / d ≡ p)

  -- One more level, by the entry that the digit of the level names.
  walk-below :
      (left d d' c p fr j : ℕ)
      → c < 64
      → j < 16
      → entry m c j ≢ pos 0
      → (va / 16 / d ≡ (p * 16 + j) % 2 ^ 64 → (table_index va (suc left) ≡ j) × (va / 16 / d' ≡ p))
      → Walks left d (to_uint64 (entry m c j)) ((p * 16 + j) % 2 ^ 64) fr
      → Walks (suc left) d' c p fr
  walk-below left d d' c p fr j hc hj n digit (e, w, is, path) =
      let (i, up) = digit path in
      let v = entry m c j in
      (
        (λ temp old. e v (to_uint64 v)),
        (λ temp old same.
            walk-step left c ((16 * c) % 2 ^ 64) j old temp hc hj refl i n
            ∙ w v (to_uint64 v) refl),
        (λ temp old same. is v (to_uint64 v) refl),
        up,
      )

  walk-leaf : (c p fr : ℕ) → Reach m 0 c p 0 fr (va / 16) → Walks 0 1 c p fr
  unfolding walk
  walk-leaf c p fr q =
      let (a, b) = Reach-leaf m 0 0 q in
      ((λ temp old. temp), (λ temp old s. refl), (λ temp old s. s ∙ sym a), omega (arith, b))

  walk-one :
      (c p fr : ℕ) → p < 4096 → Inside 1 c p → Reach m 1 c p 0 fr (va / 16) → Walks 1 16 c p fr
  unfolding table_index
  walk-one c p fr h inside q = elim (Reach-inv m 0 0 q) [
    | inl (_, apart) ↦ absurd (omega arith)
    | inr (j, hj, n, q') ↦
        walk-below 0 1 16 c p fr j (inside 0 c p here) hj n (λ e. (omega arith, omega arith))
          (walk-leaf _ _ fr q')
  ]

  walk-two :
      (c p fr : ℕ) → p < 256 → Inside 2 c p → Reach m 2 c p 0 fr (va / 16) → Walks 2 256 c p fr
  unfolding table_index
  walk-two c p fr h inside q = elim (Reach-inv m 0 0 q) [
    | inl (_, apart) ↦ absurd (omega arith)
    | inr (j, hj, n, q') ↦
        walk-below 1 16 256 c p fr j (inside 1 c p here) hj n (λ e. (omega arith, omega arith))
          (walk-one _ _ fr (omega arith) (λ l f p' r. inside l f p' (below j hj n r)) q')
  ]

  walk-three :
      (c p fr : ℕ) → p < 16 → Inside 3 c p → Reach m 3 c p 0 fr (va / 16) → Walks 3 4096 c p fr
  unfolding table_index
  walk-three c p fr h inside q = elim (Reach-inv m 0 0 q) [
    | inl (_, apart) ↦ absurd (omega arith)
    | inr (j, hj, n, q') ↦
        walk-below 2 256 4096 c p fr j (inside 2 c p here) hj n (λ e. (omega arith, omega arith))
          (walk-two _ _ fr (omega arith) (λ l f p' r. inside l f p' (below j hj n r)) q')
  ]

  walk-root : (fr : ℕ) → Inside 4 0 0 → InTable m 0 fr (va / 16) → Walks 4 65536 0 0 fr
  unfolding table_index
  walk-root fr inside q = elim (Reach-inv m 0 0 q) [
    | inl (_, apart) ↦ absurd (omega arith)
    | inr (j, hj, n, q') ↦
        walk-below 3 4096 65536 0 0 fr j (inside 3 0 0 here) hj n (λ e. (omega arith, omega arith))
          (walk-three _ _ fr (omega arith) (λ l f p' r. inside l f p' (below j hj n r)) q')
  ]

  extract_physical_add-eq :
      (fr : ℕ)
      → Inside 4 0 0
      → InTable m 0 fr (va / 16)
      → fr < 64
      → extract_physical_add va m ≡ some (fr * 16 + va % 16, m)
  unfolding extract_physical_add
  extract_physical_add-eq fr inside q h =
      let (e, w, is, _) = walk-root fr inside q in
      ground (arith, w (pos 0) 0 refl, is (pos 0) 0 refl)

  -- `VMwrite` and `VMread` of an address whose page is in a frame of the RAM, when the RAM has been
  -- set up and the tables lie in it: they return 1; the write changes the one word of the frame at
  -- the address's offset, and the read gives that word and changes nothing.
  pub vm_access-mapped :
      (fr : ℕ) (v : ℤ)
      → va < 1048576
      → Inside 4 0 0
      → InTable m 0 fr (va / 16)
      → fr < 64
      → (vm_write va v m ≡ some (1, record m { ram = set_word m.ram fr (va % 16) v }))
        × (vm_read va m ≡ some ((1, some (m.ram fr (va % 16))), m))
  unfolding vm_write vm_read
  vm_access-mapped fr v hv inside q h =
      let e = extract_physical_add-eq fr inside q h in
      let a : (fr * 16 + va % 16) / 16 ≡ fr = omega arith in
      let b : (fr * 16 + va % 16) % 16 ≡ va % 16 = omega arith in
      (
        ground (arith, e, a, b, pm_write-eq (fr * 16 + va % 16) v m ok (omega arith)),
        ground (arith, e, a, b, pm_read-eq (fr * 16 + va % 16) m ok (omega arith)),
      )
