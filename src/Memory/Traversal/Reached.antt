-- ===== src/Memory/Traversal/Reached.antt =====
-- The frames that the page table of Hierarchical_Virtual_Memory_System/VirtualMemory.cpp
-- leads to, and what a traversal promises.
use operating_systems.Base.{
  ℕ, suc, ◌+◌, ◌*◌, ◌/◌, ◌%◌, ◌^◌, ◌≤◌, ◌<◌, ℤ, pos, ◌==◌, ltb, ◌≡◌, ◌≢◌, refl, sym, subst, ◌⊎◌,
  inl, inr, Bool, Bool-cases, true, false, not, ◌&&◌, arith,
}
use operating_systems.Memory.Physical.{tables_depth, to_uint64, Memory}
use operating_systems.Memory.Distance.{CyclicDistance, distance_between, cyclic_distance}
use operating_systems.Memory.Traversal.{RecursionFrame, Found}

-- The j-th entry of the table in a frame.
abbrev pub entry : Memory → ℕ → ℕ → ℤ
entry m c j = m.ram ((c * 16 + j) % 2 ^ 64 / 16) ((c * 16 + j) % 2 ^ 64 % 16)

-- From the table in frame `c`, which has `l` levels of frames below it and the path `p`, the entries
-- lead to the frame `c'` with `l'` levels below it and the path `p'`.
pub data Reach (m : Memory) : ℕ → ℕ → ℕ → ℕ → ℕ → ℕ → Type 0 where
  here : {l c p : ℕ} → Reach m l c p l c p
  below :
      {l c p l' c' p' : ℕ} (j : ℕ)
      → j < 16
      → entry m c j ≢ pos 0
      → Reach m l (to_uint64 (entry m c j)) ((p * 16 + j) % 2 ^ 64) l' c' p'
      → Reach m (suc l) c p l' c' p'

-- The traversal stops at this result: an unused table other than the one that is kept.
abbrev pub stops : ℕ → RecursionFrame → Bool
stops old_frame r = r.unused && not (old_frame == r.frame)

module _ (m : Memory) (original_page old_frame : ℕ) where
  -- The frame is the root, or the entry of that parent at that offset leads to it.
  abbrev pub Linked : ℕ → ℕ → ℕ → Type 0
  Linked parent offset fr =
      (fr ≡ 0) ⊎ ((entry m parent offset ≢ pos 0) × (to_uint64 (entry m parent offset) ≡ fr))

  -- The eviction candidate is the old one, or a page that is reached.
  abbrev pub From : ((ℕ → ℕ → Type 0) → Found → Found → Type 0)
  From leaf found found' =
      (found'.max_cyclic ≡ found.max_cyclic)
      ⊎ ((fr : ℕ) × (page : ℕ) × leaf fr page
          × (found'.max_cyclic.frame ≡ fr)
          × (found'.max_cyclic.page_num ≡ page)
          × (found'.max_cyclic.distance ≡ distance_between original_page page))

  -- What a traversal from a frame promises of its result.
  pub record Searched (left c p : ℕ) (found : Found) (r : RecursionFrame) (found' : Found)
      : Type 0 where
    pub distance_grows : found.max_cyclic.distance ≤ found'.max_cyclic.distance
    pub frame_grows : found.maximal_frame ≤ found'.maximal_frame
    pub candidate : From (λ fr page. Reach m left c p 0 fr page) found found'
    pub unused_empty :
        r.unused ≡ true
        → (l : ℕ) × (p' : ℕ) × Reach m left c p (suc l) r.frame p'
          × ((j : ℕ) → j < 16 → entry m r.frame j ≡ pos 0)
    pub linked : r.unused ≡ true → Linked r.parent r.offset r.frame
    pub candidate_linked :
        Linked found.max_cyclic.parent found.max_cyclic.offset found.max_cyclic.frame
        → Linked found'.max_cyclic.parent found'.max_cyclic.offset found'.max_cyclic.frame
    pub shallow : r.unused ≡ true → r.depth < 4
    pub own : stops old_frame r ≡ false → r.frame ≡ c
    pub farthest :
        stops old_frame r ≡ false
        → (fr page : ℕ) → Reach m left c p 0 fr page
        → distance_between original_page page ≤ found'.max_cyclic.distance
    pub maximal :
        stops old_frame r ≡ false
        → (l fr p' : ℕ) → Reach m left c p l fr p'
        → (fr ≡ c) ⊎ (fr ≤ found'.maximal_frame)

  abbrev leaf_of : ℕ → ℕ → ℕ → ℕ → CyclicDistance
  leaf_of p c parent offset = record {
    page_num = p;
    frame = c;
    parent = parent;
    distance = 0;
    offset = offset;
  }

  cyclic_distance-max :
      (a b : CyclicDistance)
      → (a.distance ≤ (cyclic_distance a b original_page).distance)
        × (distance_between original_page b.page_num ≤ (cyclic_distance a b original_page).distance)
        × ((cyclic_distance a b original_page ≡ a)
            ⊎ (((cyclic_distance a b original_page).frame ≡ b.frame)
                × ((cyclic_distance a b original_page).page_num ≡ b.page_num)
                × ((cyclic_distance a b original_page).distance
                    ≡ distance_between original_page b.page_num)))
  unfolding cyclic_distance
  cyclic_distance-max a b =
      elim (Bool-cases (ltb a.distance (distance_between original_page b.page_num))) [
        | inl e ↦ (
          ground (arith, e),
          ground (arith, e),
          inr (ground (arith, e), ground (arith, e), ground (arith, e)),
        )
        | inr e ↦ (ground (arith, e), ground (arith, e), inl (ground (arith, e)))
      ]

  pub Reach-leaf : {c p l fr p' : ℕ} → Reach m 0 c p l fr p' → (fr ≡ c) × (p' ≡ p)
  Reach-leaf here = (refl, refl)

  pub Reach-inv :
      {left c p l fr p' : ℕ}
      → Reach m (suc left) c p l fr p'
      → (fr ≡ c) × (l ≡ suc left)
        ⊎ ((j : ℕ) × (j < 16)
            × (entry m c j ≢ pos 0)
            × Reach m left (to_uint64 (entry m c j)) ((p * 16 + j) % 2 ^ 64) l fr p')
  Reach-inv here = inl (refl, refl)
  Reach-inv (below j h e r) = inr (j, h, e, r)

  cyclic_distance-Linked :
      (a b : CyclicDistance)
      → Linked b.parent b.offset b.frame
      → Linked a.parent a.offset a.frame
      → Linked
          (cyclic_distance a b original_page).parent
          (cyclic_distance a b original_page).offset
          (cyclic_distance a b original_page).frame
  unfolding cyclic_distance
  cyclic_distance-Linked a b lb la =
      elim (Bool-cases (ltb a.distance (distance_between original_page b.page_num))) [
        | inl e ↦ rw e lb
        | inr e ↦ rw e la
      ]

  pub leaf-Searched :
      (c p parent offset : ℕ) (found : Found)
      → Linked parent offset c
      → Searched 0 c p found
          (record {
            frame = c;
            parent = parent;
            unused = false;
            depth = tables_depth;
            offset = offset;
          })
          (record found {
            max_cyclic = cyclic_distance found.max_cyclic (leaf_of p c parent offset) original_page;
          })
  leaf-Searched c p parent offset found link =
      let (grows, far, how) = cyclic_distance-max found.max_cyclic (leaf_of p c parent offset) in
      record {
        distance_grows = grows;
        frame_grows = omega arith;
        candidate = elim how [ inl e ↦ inl e | inr (a, b, d) ↦ inr (c, p, here, a, b, d) ];
        unused_empty = λ e. absurd cc;
        linked = λ e. absurd cc;
        candidate_linked = cyclic_distance-Linked found.max_cyclic (leaf_of p c parent offset) link;
        shallow = λ e. absurd cc;
        own = λ e. refl;
        farthest = λ e fr page r.
            subst
              (λ q.
                distance_between original_page q
                ≤ (cyclic_distance found.max_cyclic (leaf_of p c parent offset)
                    original_page).distance)
              (sym (Reach-leaf r).1) far;
        maximal = λ e l fr p' r. inl (Reach-leaf r).0;
      }
