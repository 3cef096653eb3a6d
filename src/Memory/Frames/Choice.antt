-- ===== src/Memory/Frames/Choice.antt =====
-- The frame that `emptyFrame` of Hierarchical_Virtual_Memory_System/VirtualMemory.cpp chooses.
use operating_systems.Base.{
  ℕ, suc, ◌+◌, ◌*◌, ◌%◌, ◌^◌, ◌≤◌, ◌<◌, pos, ◌==◌, ltb, ◌≡◌, ◌≢◌, refl, sym, subst, ◌∙◌, ◌⊎◌, inl,
  inr, Bool-cases, true, false, not, ◌&&◌, some, arith,
}
use operating_systems.Memory.Physical.{Memory, and_then, pure, pm_write, pm_evict}
use operating_systems.Memory.Distance.{distance_between}
use operating_systems.Memory.Traversal.{RecursionFrame, Found, tree_traversal}
use operating_systems.Memory.Traversal.Reached.{entry, Reach, Linked, Searched}
use operating_systems.Memory.Traversal.Search.{tree_traversal-Searched}
use operating_systems.Memory.Frames.{nothing_found, choose_frame, empty_frame}

-- A frame with `l` levels below it in the page table of the memory.
abbrev pub InTable : Memory → ℕ → ℕ → ℕ → Type 0
InTable m l fr p = Reach m 4 0 0 l fr p

module _ (m : Memory) (page_num old_frame : ℕ) where
  -- An empty table of the page table other than `old_frame`, unlinked from a parent.
  abbrev pub Reuses : Type 0
  Reuses =
      (fr : ℕ) × (l : ℕ) × (p : ℕ) × InTable m (suc l) fr p
      × ((j : ℕ) → j < 16 → entry m fr j ≡ pos 0)
      × (fr ≢ old_frame)
      × (parent : ℕ) × (offset : ℕ) × Linked m page_num old_frame parent offset fr
      × (empty_frame page_num old_frame m
          ≡ and_then (pm_write ((parent * 16 + offset) % 2 ^ 64) (pos 0) m) (λ _. pure fr))

  -- A frame of the RAM above all that the page table has.
  abbrev pub Allocates : Type 0
  Allocates =
      (fr : ℕ) × (fr < 64)
      × ((l fr' p : ℕ) → InTable m l fr' p → fr' < fr)
      × (empty_frame page_num old_frame m ≡ some (fr, m))

  -- A page whose distance no page of the page table exceeds.
  abbrev pub Evicts : Type 0
  Evicts =
      (fr : ℕ) × (page : ℕ) × (distance : ℕ) × ((distance ≡ 0)
        ⊎ (InTable m 0 fr page × (distance ≡ distance_between page_num page)))
      × ((fr' page' : ℕ) → InTable m 0 fr' page' → distance_between page_num page' ≤ distance)
      × (parent : ℕ) × (offset : ℕ) × Linked m page_num old_frame parent offset fr
      × (empty_frame page_num old_frame m
          ≡ and_then (pm_evict fr page m) (λ _ m'.
            and_then (pm_write ((parent * 16 + offset) % 2 ^ 64) (pos 0) m') (λ _. pure fr)))

  module _ (r : RecursionFrame) (g : Found)
      (run : tree_traversal page_num old_frame 4 0 0 0 0 nothing_found m ≡ some ((r, g), m)) where
    empty_frame-reuse :
        r.unused ≡ true
        → r.depth < 4
        → r.frame ≢ old_frame
        → empty_frame page_num old_frame m
          ≡ and_then (pm_write ((r.parent * 16 + r.offset) % 2 ^ 64) (pos 0) m) (λ _. pure r.frame)
    unfolding empty_frame choose_frame
    empty_frame-reuse u d o = ground (arith, run, u, d, o)

    empty_frame-allocate :
        (r.unused && not (old_frame == r.frame)) ≡ false
        → g.maximal_frame + 1 < 64
        → empty_frame page_num old_frame m ≡ some (g.maximal_frame + 1, m)
    unfolding empty_frame choose_frame
    empty_frame-allocate s h = ground (arith, run, s, h)

    empty_frame-evict :
        (r.unused && not (old_frame == r.frame)) ≡ false
        → 64 ≤ g.maximal_frame + 1
        → empty_frame page_num old_frame m
          ≡ and_then (pm_evict g.max_cyclic.frame g.max_cyclic.page_num m) (λ _ m'.
            and_then
              (pm_write ((g.max_cyclic.parent * 16 + g.max_cyclic.offset) % 2 ^ 64) (pos 0) m')
              (λ _. pure g.max_cyclic.frame))
    unfolding empty_frame choose_frame
    empty_frame-evict s h = ground (arith, run, s, h)

  -- `emptyFrame`, when the RAM has been set up and the tables of the page table lie in it, does one
  -- of three things: it reuses an empty table of the page table, not `old_frame`, after a 0
  -- is written to the entry of its parent that leads to it (unless it is the root); or it returns, and changes nothing, a frame of the RAM with a number above all frames of the
  -- page table; or it evicts the candidate, which no page of the page table exceeds in its distance
  -- from `page_num`, and which is a page of the page table or has distance 0, and writes a 0 to the
  -- entry of its parent that leads to it (unless the candidate is frame 0).
  pub empty_frame-cases :
      m.resized ≡ true
      → ((l fr p : ℕ) → InTable m (suc l) fr p → fr < 64)
      → Reuses ⊎ (Allocates ⊎ Evicts)
  empty_frame-cases ok inside =
      let (r, g, run, v) =
        tree_traversal-Searched m page_num old_frame 4 0 0 0 0 nothing_found (inl refl) ok inside in
      elim (Bool-cases (r.unused && not (old_frame == r.frame))) [
        | inl s ↦
            let u : r.unused ≡ true = ground (arith, s) in
            let other : r.frame ≢ old_frame = (λ e. ground (arith, s, e)) in
            let (l, p, q, z) = v.unused_empty u in
            inl (
              r.frame,
              l,
              p,
              q,
              z,
              other,
              r.parent,
              r.offset,
              v.linked u,
              empty_frame-reuse r g run u (v.shallow u) other,
            )
        | inr s ↦ elim (Bool-cases (ltb (g.maximal_frame + 1) 64)) [
          | inl h ↦ inr (
              inl (
                g.maximal_frame + 1,
                ground (arith, h),
                (λ l fr p q. above r g v s l fr p q),
                empty_frame-allocate r g run s (ground (arith, h)),
              ))
          | inr h ↦ inr (
              inr (
                g.max_cyclic.frame,
                g.max_cyclic.page_num,
                g.max_cyclic.distance,
                candidate r g v,
                v.farthest s,
                g.max_cyclic.parent,
                g.max_cyclic.offset,
                v.candidate_linked (inl refl),
                empty_frame-evict r g run s (ground (arith, h)),
              ))
        ]
      ]
    where
      above :
          (r : RecursionFrame) (g : Found)
          → Searched m page_num old_frame 4 0 0 nothing_found r g
          → (r.unused && not (old_frame == r.frame)) ≡ false
          → (l fr p : ℕ) → InTable m l fr p
          → fr < g.maximal_frame + 1
      above r g v s l fr p q = elim (v.maximal s l fr p q) [
        | inl e ↦ omega arith
        | inr h ↦ omega arith
      ]

      candidate :
          (r : RecursionFrame) (g : Found)
          → Searched m page_num old_frame 4 0 0 nothing_found r g
          → (g.max_cyclic.distance ≡ 0)
            ⊎ (InTable m 0 g.max_cyclic.frame g.max_cyclic.page_num
                × (g.max_cyclic.distance ≡ distance_between page_num g.max_cyclic.page_num))
      candidate r g v = elim v.candidate [
        | inl e ↦ inl (ground (arith, e))
        | inr (fr, page, q, a, b, d) ↦ inr (
          subst (λ y. InTable m 0 y g.max_cyclic.page_num) (sym a)
              (subst (λ x. InTable m 0 fr x) (sym b) q),
          d
              ∙ subst (λ x. distance_between page_num page ≡ distance_between page_num x) (sym b)
                  refl,
        )
      ]
