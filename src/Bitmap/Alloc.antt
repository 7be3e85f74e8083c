-- ===== src/Bitmap/Alloc.antt =====
-- Allocation and release of runs of pages.
use mango_os.Base.{
  ℕ, ◌+◌, ◌*◌, ◌/◌, ◌<◌, ◌≤◌, ◌≡◌, ◌⊎◌, refl, sym, true, false, Option, none, some, arith, ltb, leb,
  if◌then◌else◌, ◌&&◌,
}
use mathlib.Core.Path.{subst}
use mango_os.Bitmap.{Bitmap, scan, alloc_bits, free_bits, page_size, set_bits_up}
use mango_os.Bitmap.Bits.{IsBytes, used, used-set_bits_up, set_bits_up-IsBytes}
use mango_os.Bitmap.Scan.{FirstFit, scan-FirstFit}

-- What `bitmap_alloc_bits` promises: with an answer the run is the first fit, all its pages and no
-- others are taken; without one there is no run and nothing changes.
abbrev pub Allocated : Bitmap → ℕ → Option ℕ × Bitmap → Type 0
Allocated b count (none, b') = FirstFit b.base b.nbits count none × (b' ≡ b)
Allocated b count (some i, b') =
    FirstFit b.base b.nbits count (some i)
    × ((p : ℕ) → used b'.base p ≡ (if leb i p && ltb p (i + count) then true else used b.base p))
    × (b'.nbits ≡ b.nbits)
    × IsBytes b'.base

alloc_bits-none :
    (b : Bitmap) (count : ℕ) → scan b.base count b.nbits 0 0 ≡ none → alloc_bits b count ≡ (none, b)
unfolding alloc_bits
alloc_bits-none b count e = rw (e, alloc_bits)

alloc_bits-some :
    (b : Bitmap) (count i : ℕ)
    → scan b.base count b.nbits 0 0 ≡ some i
    → alloc_bits b count ≡ (some i, record b { base = set_bits_up b.base i true count })
unfolding alloc_bits
alloc_bits-some b count i e = rw (e, alloc_bits)

alloc_cases :
    (b : Bitmap) (count : ℕ) (o : Option ℕ)
    → IsBytes b.base
    → 0 < count
    → scan b.base count b.nbits 0 0 ≡ o
    → Allocated b count (alloc_bits b count)
alloc_cases b count none h pos e =
    subst (Allocated b count) (sym (alloc_bits-none b count e))
      (subst (FirstFit b.base b.nbits count) e (scan-FirstFit b.base count b.nbits pos), refl)
alloc_cases b count (some i) h pos e =
    subst (Allocated b count) (sym (alloc_bits-some b count i e)) (
      subst (FirstFit b.base b.nbits count) e (scan-FirstFit b.base count b.nbits pos),
      λ p. used-set_bits_up b.base i true count p h pos,
      refl,
      set_bits_up-IsBytes b.base i true count h,
    )

-- `bitmap_alloc_bits` is first fit, marks exactly the pages that it returns, and fails only if
-- there is no run of free pages that is long enough.
pub alloc_bits-Allocated :
    (b : Bitmap) (count : ℕ) → IsBytes b.base → 0 < count → Allocated b count (alloc_bits b count)
alloc_bits-Allocated b count h pos = alloc_cases b count (scan b.base count b.nbits 0 0) h pos refl

-- The same, for an answer that is known.
pub alloc_bits_found :
    (b : Bitmap) (count i : ℕ)
    → IsBytes b.base
    → 0 < count
    → (alloc_bits b count).0 ≡ some i
    → Allocated b count (some i, (alloc_bits b count).1)
alloc_bits_found b count i h pos e =
    subst (λ o. Allocated b count (o, (alloc_bits b count).1)) e
      (alloc_bits-Allocated b count h pos)

-- Two allocations in a row have no page in common.
pub alloc_bits_apart :
    (b : Bitmap) (n k i j : ℕ)
    → IsBytes b.base
    → 0 < n
    → 0 < k
    → (alloc_bits b n).0 ≡ some i
    → (alloc_bits (alloc_bits b n).1 k).0 ≡ some j
    → (i + n ≤ j) ⊎ (j + k ≤ i)
alloc_bits_apart b n k i j h pn pk e f =
    let first = alloc_bits_found b n i h pn e in
    let second = alloc_bits_found (alloc_bits b n).1 k j first.3 pk f in
    ground (arith, first.1 i, first.1 j, second.0.1 i, second.0.1 j)

-- Releasing the pages that were just allocated brings back every bit.
pub free-alloc :
    (b : Bitmap) (n i : ℕ)
    → IsBytes b.base
    → 0 < n
    → (alloc_bits b n).0 ≡ some i
    → (p : ℕ) → used (free_bits (alloc_bits b n).1 (i * page_size) n).base p ≡ used b.base p
unfolding free_bits
free-alloc b n i h pn e p =
    let found = alloc_bits_found b n i h pn e in
    let b' = (alloc_bits b n).1 in
    ground (
      arith,
      used-set_bits_up b'.base (i * page_size / page_size) false n p found.3 pn,
      found.1 p,
      found.0.1 p,
    )
