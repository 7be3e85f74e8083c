-- ===== src/Page/Pages.antt =====
-- Allocation and release of physical pages.
use mango_os.Base.{
  ℕ, ◌+◌, ◌*◌, ◌%◌, ◌^◌, ◌<◌, ◌≤◌, ◌≡◌, ◌≢◌, ◌⊎◌, inl, inr, true, ◌&&◌, none, some, ◌==◌, ltb, leb,
  if◌then◌else◌, arith, Option-cases, Bool-cases,
}
use mango_os.Bitmap.{Bitmap, page_size, alloc_bits}
use mango_os.Bitmap.Bits.{IsBytes, used}
use mango_os.Bitmap.Scan.{Free}
use mango_os.Bitmap.Alloc.{alloc_bits_found, free-alloc}
use mango_os.Ipc.Guarded.{Guarded, done, IsFree, with_lock-IsFree, with_lock, section}
use mango_os.Page.{take_pages, give_pages, alloc_pages}

take-some :
    (b : Bitmap) (n i : ℕ)
    → (alloc_bits b n).0 ≡ some i
    → 0 < i
    → i < 2 ^ 20
    → take_pages n b ≡ (i * page_size, (alloc_bits b n).1)
unfolding take_pages
take-some b n i e h small = ground arith

-- An address that `alloc_pages` returns is that of the first of `n` pages that were free and are now
-- in use; no other page changes.
pub record Given (b : Bitmap) (n addr : ℕ) (b' : Bitmap) : Type 0 where
  pub page : ℕ
  pub address : addr ≡ page * page_size
  pub in_range : page + n ≤ b.nbits
  pub were_free : Free b.base page n
  pub now_used :
      (p : ℕ) → used b'.base p ≡ (if leb page p && ltb p (page + n) then true else used b.base p)

pub take-Given :
    (b : Bitmap) (n : ℕ)
    → IsBytes b.base
    → 0 < n
    → b.nbits ≤ 2 ^ 20
    → (take_pages n b).0 ≢ 0
    → Given b n (take_pages n b).0 (take_pages n b).1
unfolding take_pages
take-Given b n h pos small ne = elim (Option-cases (alloc_bits b n).0) [
  | inl e ↦ absurd (ground arith)
  | inr (i, e) ↦
      let found = alloc_bits_found b n i h pos e in
      record {
        page = i;
        address = ground (arith, found.0.0);
        in_range = found.0.0;
        were_free = found.0.1;
        now_used = λ p. ground (arith, found.1 p);
      }
]

-- With its mutex free and a bitmap of at most 2 ^ 20 pages, `alloc_pages` changes nothing but the
-- bitmap, and returns 0 or the address of pages that were free and are now, with no others, in use.
pub alloc_pages-Given :
    (g : Guarded Bitmap) (n : ℕ)
    → IsFree g
    → IsBytes g.inner.base
    → 0 < n
    → g.inner.nbits ≤ 2 ^ 20
    → (r : ℕ × Bitmap) × (alloc_pages n g ≡ done r.0 (record g { inner = r.1 }))
      × ((r.0 ≡ 0) ⊎ Given g.inner n r.0 r.1)
unfolding alloc_pages
alloc_pages-Given g n free h pos small = (
  take_pages n g.inner,
  with_lock-IsFree (take_pages n) g free,
  elim (Bool-cases ((take_pages n g.inner).0 == 0)) [
    | inl e ↦ inl (ground arith)
    | inr e ↦ inr (take-Given g.inner n h pos small (λ z. ground arith))
  ],
)

take-pos : (b : Bitmap) (n i : ℕ) → (alloc_bits b n).0 ≡ some i → (take_pages n b).0 ≢ 0 → 0 < i
unfolding take_pages
take-pos b n i e ne = ground arith

take-none : (b : Bitmap) (n : ℕ) → (alloc_bits b n).0 ≡ none → ¬ ((take_pages n b).0 ≢ 0)
unfolding take_pages
take-none b n e ne = ne (ground arith)

-- `free_pages` of what `alloc_pages` gave brings every bit back.
pub give-take :
    (b : Bitmap) (n : ℕ)
    → IsBytes b.base
    → 0 < n
    → b.nbits ≤ 2 ^ 20
    → (take_pages n b).0 ≢ 0
    → (p : ℕ) → used (give_pages (take_pages n b).0 n (take_pages n b).1).1.base p ≡ used b.base p
unfolding give_pages
give-take b n h pos small ne p = elim (Option-cases (alloc_bits b n).0) [
  | inl e ↦ absurd (take-none b n e ne)
  | inr (i, e) ↦
      let found = alloc_bits_found b n i h pos e in
      rw (take-some b n i e (take-pos b n i e ne) (omega (arith, found.0.0)))
        (free-alloc b n i h pos e p)
]

take-aligned : (b : Bitmap) (n : ℕ) → (take_pages n b).0 % page_size ≡ 0
unfolding take_pages
take-aligned b n = ground arith

-- Whether it waits for its mutex or not, `alloc_pages` returns a multiple of the page size.
pub alloc_pages-aligned :
    (n : ℕ) (g : Guarded Bitmap) (a : ℕ) (g' : Guarded Bitmap)
    → alloc_pages n g ≡ done a g'
    → a % page_size ≡ 0
unfolding alloc_pages with_lock section
alloc_pages-aligned n g a g' e = ground (arith, take-aligned g.inner n)
