-- ===== src/Heap/Fit.antt =====
-- The search of `kmalloc`: first fit in the list of free blocks.
use mango_os.Base.{
  ℕ, zero, suc, ◌<◌, ◌≡◌, ◌≢◌, false, some, List, [], ◌∷◌, leb, ltb, true, refl, Bool-cases, inl,
  inr, ◌==◌, if◌then◌else◌, length, arith, add32, sub32,
}
use mango_os.Heap.{
  Heap, find_block, kmalloc, take_block, split, unlink, add_chunk, grow, refused, mem_hsize,
}

-- From block `a` on the list holds the blocks `xs`, and ends.
abbrev pub Blocks : Heap → ℕ → List ℕ → Type 0
Blocks h a [] = a ≡ 0
Blocks h a (x ∷ xs) = (a ≡ x) × (x ≢ 0) × Blocks h (h.next x) xs

-- The first block of the list that has the size, with the block before it.
unfoldable pub first_fit : (ℕ → ℕ) → ℕ → ℕ → List ℕ → ℕ × ℕ
first_fit size wanted prev [] = (0, prev)
first_fit size wanted prev (x ∷ xs) =
    if leb wanted (size x) then (x, prev) else first_fit size wanted x xs

find_block-first_fit :
    (n a prev wanted : ℕ) (h : Heap) (xs : List ℕ)
    → Blocks h a xs
    → length xs < n
    → find_block n a prev wanted h ≡ some (first_fit h.size wanted prev xs)
unfolding find_block first_fit
find_block-first_fit zero a prev wanted h xs b f = absurd (omega arith)
find_block-first_fit (suc n) a prev wanted h [] b f = ground arith
find_block-first_fit (suc n) a prev wanted h (x ∷ xs) b f =
    ground (arith, find_block-first_fit n (h.next x) x wanted h xs b.2)

-- Block `b`, now of the size `wanted` or as large as it was if not even a header is left over, is marked
-- as used. What is left over is a free block. Whatever led to `b` in the list leads to it, or to the
-- block behind `b`.
abbrev pub Taken : ℕ → ℕ → Heap → Heap → Type 0
Taken b wanted h h' =
    let rest = add32 b wanted in
    let cut = ltb (add32 wanted 17) (h.size b) in
    let behind = if cut then rest else h.next b in
    (h'.used b ≡ 0xAA99BB88)
    × (h'.size b ≡ (if cut then wanted else h.size b))
    × (cut ≡ true
        → (h'.used rest ≡ 0x88BB99AA)
          × (h'.size rest ≡ sub32 (h.size b) wanted)
          × (h'.next rest ≡ h.next b))
    × (h.prev b ≡ 0 → h'.free_list ≡ behind)
    × (h.prev b ≢ 0 → (h'.next (h.prev b) ≡ behind) × (h'.free_list ≡ h.free_list))

-- The eight pages at `a` begin with a used block of the size `wanted`, the head of the chunk. The rest of
-- them is a free block, which stands behind `prev` in the list.
abbrev pub Added : ℕ → ℕ → ℕ → Heap → Heap → Type 0
Added a prev wanted h h' =
    let rest = add32 a wanted in
    ((h'.used a ≡ 0xAA99BB88) × (h'.size a ≡ wanted) × (h'.is_head a ≡ 1))
    × ((h'.used rest ≡ 0x88BB99AA) × (h'.size rest ≡ sub32 32768 wanted) × (h'.is_head rest ≡ 0))
    × ((h'.next prev ≡ rest) × (h'.next rest ≡ h.next prev) × (h'.free_list ≡ h.free_list))

-- The addresses that are written to differ.
abbrev pub Apart : ℕ → ℕ → ℕ → Type 0
Apart a other wanted = (add32 a wanted ≢ a) × (other ≢ a) × (other ≢ add32 a wanted)

take_block-Taken :
    (b wanted : ℕ) (h : Heap)
    → Apart b (h.prev b) wanted
    → h.next b ≢ b
    → Taken b wanted h (take_block b wanted h)
unfolding take_block split unlink
take_block-Taken b wanted h apart loose = (
  ground arith,
  ground arith,
  (λ e. (ground arith, ground arith, ground arith)),
  (λ e. ground arith),
  λ e. (ground arith, ground arith),
)

add_chunk-Added :
    (a prev wanted : ℕ) (h : Heap)
    → Apart a prev wanted
    → Added a prev wanted h (add_chunk a prev wanted h)
unfolding add_chunk
add_chunk-Added a prev wanted h apart = (
  (ground arith, ground arith, ground arith),
  (ground arith, ground arith, ground arith),
  (ground arith, ground arith, ground arith),
)

module _ {P : Type 0} (alloc_pages : ℕ → P → ℕ × P) (h : Heap) (p : P) where
  -- The addresses that serving the request writes to differ: for a block that was found, or for the
  -- eight pages that the page allocator would give.
  abbrev pub IsServable : ℕ → ℕ × ℕ → Type 0
  IsServable wanted (zero, prev) = Apart (alloc_pages 8 p).0 prev wanted
  IsServable wanted (suc b, prev) = Apart (suc b) (h.prev (suc b)) wanted × (h.next (suc b) ≢ suc b)

  -- What the outcome of the search, a block with the block before it or 0 with the last block, leads to:
  -- the answer, the heap and the pages.
  abbrev pub Served : ℕ → ℕ × ℕ → ℕ × Heap × P → Type 0
  Served wanted (zero, prev) (answer, h', p') =
      (p' ≡ (alloc_pages 8 p).1)
      × ((alloc_pages 8 p).0 ≡ 0 → (answer ≡ 0) × (h' ≡ h))
      × ((alloc_pages 8 p).0 ≢ 0
          → (answer ≡ add32 (alloc_pages 8 p).0 17) × Added (alloc_pages 8 p).0 prev wanted h h')
  Served wanted (suc b, prev) (answer, h', p') =
      (answer ≡ add32 (suc b) 17) × Taken (suc b) wanted h h' × (p' ≡ p)

  kmalloc-found :
      (fuel bytes : ℕ) (r : ℕ × ℕ)
      → refused (add32 bytes mem_hsize) ≡ false
      → find_block fuel h.free_list h.free_list (add32 bytes mem_hsize) h ≡ some r
      → IsServable (add32 bytes mem_hsize) r
      → (o : ℕ × Heap × P) × (kmalloc alloc_pages fuel bytes h p ≡ some o)
        × Served (add32 bytes mem_hsize) r o
  unfolding kmalloc grow
  kmalloc-found fuel bytes (suc b, prev) e f (apart, loose) = (
    (add32 (suc b) mem_hsize, take_block (suc b) (add32 bytes mem_hsize) h, p),
    ground (arith, f),
    (refl, take_block-Taken (suc b) (add32 bytes mem_hsize) h apart loose, refl),
  )
  kmalloc-found fuel bytes (zero, prev) e f apart =
      let c = alloc_pages 8 p in
      elim (Bool-cases (c.0 == 0)) [
        | inl z ↦ (
          (0, h, c.1),
          ground (arith, f, z),
          (refl, (λ k. (refl, refl)), λ k. absurd (ground (arith, z))),
        )
        | inr z ↦ (
          (add32 c.0 mem_hsize, add_chunk c.0 prev (add32 bytes mem_hsize) h, c.1),
          ground (arith, f, z),
          (
            refl,
            (λ k. absurd (ground (arith, z))),
            λ k. (refl, add_chunk-Added c.0 prev (add32 bytes mem_hsize) h apart),
          ),
        )
      ]

  -- With fuel for every free block and one more, `kmalloc` ends. A request that is not refused, with its
  -- header of 17 bytes, takes the first free block that is large enough: the answer is the place behind
  -- the block's header. If there is none, the request takes the beginning of eight new pages, whose rest
  -- goes behind the last free block, or the answer is 0 and the heap as it was if there are no pages. The
  -- addresses of the headers that are written to differ.
  pub kmalloc-first_fit :
      (fuel bytes : ℕ) (xs : List ℕ)
      → Blocks h h.free_list xs
      → length xs < fuel
      → refused (add32 bytes 17) ≡ false
      → IsServable (add32 bytes 17) (first_fit h.size (add32 bytes 17) h.free_list xs)
      → (o : ℕ × Heap × P) × (kmalloc alloc_pages fuel bytes h p ≡ some o)
        × Served (add32 bytes 17) (first_fit h.size (add32 bytes 17) h.free_list xs) o
  kmalloc-first_fit fuel bytes xs b f e apart =
      kmalloc-found fuel bytes (first_fit h.size (add32 bytes 17) h.free_list xs) e
        (find_block-first_fit fuel h.free_list h.free_list (add32 bytes 17) h xs b f) apart
