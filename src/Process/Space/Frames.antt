-- ===== src/Process/Space/Frames.antt =====
-- What copy_memory and distory_memory leave alone: nothing that is in use changes but the entries that
-- are written, and no state but the memory and the bitmap.
use mango_os.Base.{
  ℕ, zero, suc, ◌+◌, ◌-◌, ◌*◌, ◌/◌, ◌%◌, ◌<◌, ◌≤◌, ◌^◌, ◌≡◌, ◌≢◌, ◌⊎◌, inl, inr, refl, sym, ◌∙◌,
  Option, none, some, Bool, true, false, arith, add32, Bool-cases, update,
}
use mango_os.Bitmap.{page_size, Bitmap, alloc_bits}
use mango_os.Bitmap.Alloc.{Allocated, alloc_bits-Allocated}
use mathlib.Core.Path.{subst}
use mango_os.Bitmap.Bits.{IsBytes, used}
use mango_os.Strings.{Memory, word, copy, kmemcpy}
use mango_os.Ipc.Guarded.{IsFree, with_lock-IsFree}
use mango_os.Page.{alloc_pages, take_pages, free_pages, give_pages, present}
use mango_os.Page.Pages.{Given, take-Given}
use mango_os.Process.{Procs, ok, new_page, drop_page}
use mango_os.Process.Space.{drop_entries, drop_tables, distory_memory}
use mango_os.Page.Directory.{user_start}

-- The mutex of the pages is free, and the bitmap is one of at most 2 ^ 20 pages.
pub record Good {X : Type 0} (s : Procs X) : Type 0 where
  pub free : IsFree s.pages
  pub bytes : IsBytes s.pages.inner.base
  pub small : s.pages.inner.nbits ≤ 2 ^ 20

-- The page of an address is in use.
abbrev pub in_use : {X : Type 0} → Procs X → ℕ → Bool
in_use s a = used s.pages.inner.base (a / page_size)

-- Nothing but memory and the bitmap has changed, and of what was in use only addresses from `lo` on
-- and below `hi`.
pub record Kept {X : Type 0} (s s' : Procs X) (lo hi : ℕ) : Type 0 where
  pub free : IsFree s'.pages
  pub kernel : s'.pages.kernel ≡ s.pages.kernel
  pub rest : s' ≡ record s { memory = s'.memory; pages = s'.pages }
  pub kept : (a : ℕ) → in_use s a ≡ true → (a < lo) ⊎ (hi ≤ a) → s'.memory a ≡ s.memory a

-- What was in use still is.
pub record Grown {X : Type 0} (s s' : Procs X) : Type 0 where
  pub good : Good s'
  pub still : (a : ℕ) → in_use s a ≡ true → in_use s' a ≡ true

-- A page that was free.
pub record Fresh {X : Type 0} (s s' : Procs X) (pg : ℕ) : Type 0 where
  pub aligned : pg % page_size ≡ 0
  pub below : pg < 2 ^ 32
  pub was_free : (a : ℕ) → pg ≤ a → a < pg + page_size → in_use s a ≡ false
  pub now_used : (a : ℕ) → pg ≤ a → a < pg + page_size → in_use s' a ≡ true

module _ {X : Type 0} where
  -- The state after a change of the bitmap alone.
  abbrev pub with_bitmap : Procs X → Bitmap → Procs X
  with_bitmap s b = record s { pages = record (s.pages) { inner = b } }

  drop_page-ends :
      (a : ℕ) (s : Procs X)
      → IsFree s.pages
      → (b : Bitmap) × (drop_page a s ≡ ok tt (with_bitmap s b))
  unfolding drop_page free_pages
  drop_page-ends a s f = (
    (give_pages a 1 s.pages.inner).1,
    ground (arith, with_lock-IsFree (give_pages a 1) s.pages f),
  )

  drop_entries-ends :
      (n i pte : ℕ) (s : Procs X)
      → IsFree s.pages
      → (b : Bitmap) × (drop_entries n i pte s ≡ ok tt (with_bitmap s b))
  unfolding drop_entries
  drop_entries-ends zero i pte s f = (s.pages.inner, refl)
  drop_entries-ends (suc n) i pte s f =
      elim (Bool-cases (present (word s.memory (add32 pte (4 * i))))) [
        | inl e ↦
            let (b, d) = drop_page-ends (word s.memory (add32 pte (4 * i))) s f in
            let (c, r) = drop_entries-ends n (i + 1) pte (with_bitmap s b) f in
            (c, ground (arith, e, d, r))
        | inr e ↦ let (c, r) = drop_entries-ends n (i + 1) pte s f in (c, ground (arith, e, r))
      ]

  drop_tables-ends :
      (n i pde : ℕ) (s : Procs X)
      → IsFree s.pages
      → (b : Bitmap) × (drop_tables n i pde s ≡ ok tt (with_bitmap s b))
  unfolding drop_tables
  drop_tables-ends zero i pde s f = (s.pages.inner, refl)
  drop_tables-ends (suc n) i pde s f = elim (Bool-cases (present (word s.memory (pde + 4 * i)))) [
    | inl e ↦
        let (c, r) = drop_entries-ends (suc n) i (word s.memory (pde + 4 * i)) s f in
        (c, ground (arith, e, r))
    | inr e ↦ let (c, r) = drop_tables-ends n (i + 1) pde s f in (c, ground (arith, e, r))
  ]

  -- `distory_memory` changes nothing but the bitmap.
  pub distory_memory-ends :
      (pde : ℕ) (s : Procs X)
      → IsFree s.pages
      → (b : Bitmap) × (distory_memory pde s ≡ ok tt (with_bitmap s b))
  unfolding distory_memory
  distory_memory-ends pde s f = drop_tables-ends (1024 - user_start) user_start pde s f

  Given-Fresh :
      (s : Procs X) (pg : ℕ) (b : Bitmap)
      → s.pages.inner.nbits ≤ 2 ^ 20
      → Given s.pages.inner 1 pg b
      → Fresh s (with_bitmap s b) pg
  Given-Fresh s pg b small g = record {
    aligned = omega (arith, g.address);
    below = omega (arith, g.address, g.in_range);
    was_free = λ a lo hi.
        g.were_free (a / page_size) (omega (arith, g.address)) (omega (arith, g.address));
    now_used = λ a lo hi.
        let here : a / page_size ≡ g.page = omega (arith, g.address) in
        ground (arith, here, g.now_used (a / page_size));
  }

Allocated-keeps :
    (b : Bitmap) (n : ℕ) (r : Option ℕ × Bitmap)
    → IsBytes b.base
    → Allocated b n r
    → (r.1.nbits ≡ b.nbits) × IsBytes r.1.base
Allocated-keeps b n (none, b') h a =
    (ground (arith, a.1), subst (λ c. IsBytes (c.base)) (sym a.1) h)
Allocated-keeps b n (some i, b') h a = (a.2, a.3)

take-bitmap : (n : ℕ) (b : Bitmap) → (take_pages n b).1 ≡ (alloc_bits b n).1
unfolding take_pages
take-bitmap n b = ground arith

-- The bitmap with one page more taken.
abbrev pub taken : Bitmap → Bitmap
taken b = (take_pages 1 b).1

taken-keeps : (b : Bitmap) → IsBytes b.base → ((taken b).nbits ≡ b.nbits) × IsBytes (taken b).base
taken-keeps b h =
    subst (λ c. (c.nbits ≡ b.nbits) × IsBytes c.base) (sym (take-bitmap 1 b))
      (Allocated-keeps b 1 (alloc_bits b 1) h (alloc_bits-Allocated b 1 h (omega arith)))

module _ {X : Type 0} where
  -- `new_page` gives 0 or a page that was free, and takes no page away.
  pub new_page-ends :
      (s : Procs X)
      → Good s
      → (new_page s ≡ ok (take_pages 1 s.pages.inner).0 (with_bitmap s (taken s.pages.inner)))
        × Good (with_bitmap s (taken s.pages.inner))
  unfolding new_page alloc_pages
  new_page-ends s g =
      let k = taken-keeps s.pages.inner g.bytes in
      (
        ground (arith, with_lock-IsFree (take_pages 1) s.pages g.free),
        record { free = g.free; bytes = k.1; small = omega (arith, k.0, g.small) },
      )

  pub new_page-Fresh :
      (s : Procs X) (pg : ℕ)
      → Good s
      → (take_pages 1 s.pages.inner).0 ≡ pg
      → pg ≢ 0
      → let s' = with_bitmap s (taken s.pages.inner) in
        Fresh s s' pg × ((a : ℕ) → in_use s a ≡ true → in_use s' a ≡ true)
  new_page-Fresh s pg g e ne =
      let given = take-Given s.pages.inner 1 g.bytes (omega arith) g.small (λ z. ne (sym e ∙ z)) in
      (
        subst (Fresh s (with_bitmap s (taken s.pages.inner))) e
            (Given-Fresh s _ (taken s.pages.inner) g.small given),
        λ a h. ground (arith, given.now_used (a / page_size)),
      )

-- A copy writes its destination only.
copy_other : (n d s : ℕ) (m : Memory) (a : ℕ) → (a < d) ⊎ (d + n ≤ a) → copy n d s m a ≡ m a
unfolding copy
copy_other zero d s m a h = refl
copy_other (suc n) d s m a h = ground (arith, copy_other n (d + 1) (s + 1) (update m d (m s)) a)

pub kmemcpy_other : (m : Memory) (d s n a : ℕ) → (a < d) ⊎ (d + n ≤ a) → kmemcpy m d s n a ≡ m a
unfolding kmemcpy
kmemcpy_other m d s n a h = ground (arith, copy_other n d s m a)
