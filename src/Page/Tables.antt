-- ===== src/Page/Tables.antt =====
-- The page tables: what `alloc_vpages` and `free_vpages` write, and what `trans_vtop` reads back.
use mango_os.Base.{
  ℕ, zero, suc, ◌+◌, ◌*◌, ◌%◌, ◌<◌, ◌≤◌, ◌≡◌, ◌≢◌, ◌⊎◌, inl, inr, refl, sym, ap, ◌∙◌, true, false,
  ◌==◌, arith, Bool-cases, update, ==→ne,
}
use Prim.Native.Nat.{bit_or}
use mathlib.Core.Path.{subst}
use mango_os.Bitmap.{Bitmap, page_size}
use mango_os.Ipc.Guarded.{Outcome, done, blocked}
use mango_os.Page.Pages.{alloc_pages-aligned}
use mango_os.Page.{
  alloc_pages, free_pages, Paging, Run, ok, waits, new_page, drop_page, align_down, or_shared,
  page_shared, map_loop, unmap_loop, trans_vtop, pde_index, pte_index, present, present,
}

-- What one more page is: a multiple of the page size, with memory as it was.
new_page-result :
    (s s' : Paging) (pg : ℕ) → new_page s ≡ ok pg s' → (s'.words ≡ s.words) × (pg % page_size ≡ 0)
unfolding new_page
new_page-result s s' pg e = go (alloc_pages 1 s.pages) refl
  where
    go :
        (o : Outcome ℕ Bitmap)
        → alloc_pages 1 s.pages ≡ o
        → (s'.words ≡ s.words) × (pg % page_size ≡ 0)
    go (done a g) f = (ground arith, ground (arith, alloc_pages-aligned 1 s.pages a g f))
    go (blocked g) f = absurd (ground arith)

-- An entry made by `or_shared` gives the page's address back, and is present.
pub or_shared_fields :
    (page : ℕ)
    → page % page_size ≡ 0
    → (align_down (or_shared page) ≡ page) × (present (or_shared page) ≡ true)
or_shared_fields page h =
    let e : bit_or (page % page_size) page_shared ≡ 551 = ap (λ x. bit_or x page_shared) h in
    (omega arith, ground arith)

-- The `n` entries from `pte` on name pages, and all other words are as before.
pub record Mapped (w w' : ℕ → ℕ) (n pte : ℕ) : Type 0 where
  pub entries :
      (i : ℕ)
      → i < n
      → (pg : ℕ) × (pg ≢ 0) × (pg % page_size ≡ 0) × (w' (pte + 4 * i) ≡ or_shared pg)
  pub others : (a : ℕ) → (a < pte) ⊎ (pte + 4 * n ≤ a) → w' a ≡ w a

Mapped-suc :
    (w w' : ℕ → ℕ) (n pte pg : ℕ)
    → pg ≢ 0
    → pg % page_size ≡ 0
    → Mapped (update w pte (or_shared pg)) w' n (pte + 4)
    → Mapped w w' (suc n) pte
Mapped-suc w w' n pte pg ne al m = record {
  entries = at;
  others = λ a out. ground (arith, m.others a);
}
  where
    at :
        (i : ℕ)
        → i < suc n
        → (pg : ℕ) × (pg ≢ 0) × (pg % page_size ≡ 0) × (w' (pte + 4 * i) ≡ or_shared pg)
    at zero l = (pg, ne, al, ap w' (omega arith) ∙ m.others pte (inl (omega arith)) ∙ ground arith)
    at (suc i) l =
        let (q, a, b, c) = m.entries i (omega arith) in (q, a, b, ap w' (omega arith) ∙ c)

module _ (n pte : ℕ) (s s1 : Paging) (pg : ℕ) (f : new_page s ≡ ok pg s1) where
  map_loop-goes_on :
      (pg == 0) ≡ false
      → map_loop (suc n) pte s
        ≡ map_loop n (pte + 4) (record s1 { words = update s1.words pte (or_shared pg) })
  unfolding map_loop
  map_loop-goes_on e = ground arith

  map_loop-fails : (pg == 0) ≡ true → map_loop (suc n) pte s ≡ ok false s1
  unfolding map_loop
  map_loop-fails e = ground arith

map_loop-waits :
    (n pte : ℕ) (s s1 : Paging) → new_page s ≡ waits s1 → map_loop (suc n) pte s ≡ waits s1
unfolding map_loop
map_loop-waits n pte s s1 f = ground arith

map_loop-zero : (pte : ℕ) (s s' : Paging) → map_loop zero pte s ≡ ok true s' → s'.words ≡ s.words
unfolding map_loop
map_loop-zero pte s s' e = ground arith

map_loop_rest :
    (n pte : ℕ) (s s' : Paging) (r : Run ℕ)
    → new_page s ≡ r
    → map_loop (suc n) pte s ≡ ok true s'
    → ((t : Paging) → map_loop n (pte + 4) t ≡ ok true s' → Mapped t.words s'.words n (pte + 4))
    → Mapped s.words s'.words (suc n) pte
map_loop_rest n pte s s' (waits s1) f e ih = absurd (ground (arith, map_loop-waits n pte s s1 f))
map_loop_rest n pte s s' (ok pg s1) f e ih = elim (Bool-cases (pg == 0)) [
  | inl z ↦ absurd (ground (arith, map_loop-fails n pte s s1 pg f z))
  | inr z ↦
      let fresh = new_page-result s s1 pg f in
      let t = record s1 { words = update s1.words pte (or_shared pg) } in
      let m : Mapped (update s1.words pte (or_shared pg)) s'.words n (pte + 4) =
        ih t (sym (map_loop-goes_on n pte s s1 pg f z) ∙ e) in
      Mapped-suc s.words s'.words n pte pg (==→ne pg 0 z) fresh.1
        (subst (λ w. Mapped (update w pte (or_shared pg)) s'.words n (pte + 4)) fresh.0 m)
]

-- When the loop of `alloc_vpages` succeeds, every entry that it was asked for names a page, and no
-- other word of memory has changed.
pub map_loop-Mapped :
    (n pte : ℕ) (s s' : Paging) → map_loop n pte s ≡ ok true s' → Mapped s.words s'.words n pte
map_loop-Mapped zero pte s s' e = record {
  entries = λ i l. elim l [ ];
  others = λ a out. ground (arith, map_loop-zero pte s s' e);
}
map_loop-Mapped (suc n) pte s s' e =
    map_loop_rest n pte s s' (new_page s) refl e (λ t. map_loop-Mapped n (pte + 4) t s')

drop_page-words : (s s' : Paging) (addr : ℕ) → drop_page addr s ≡ ok tt s' → s'.words ≡ s.words
unfolding drop_page
drop_page-words s s' addr e = go (free_pages addr 1 s.pages) refl
  where
    go : (o : Outcome (Unit {0}) Bitmap) → free_pages addr 1 s.pages ≡ o → s'.words ≡ s.words
    go (done a g) f = ground arith
    go (blocked g) f = absurd (ground arith)

trans_lem :
    (pde vaddr : ℕ) (words : ℕ → ℕ) (table pg : ℕ)
    → words (pde + pde_index vaddr * 4) ≡ table
    → table ≢ 0
    → words (align_down table + pte_index vaddr * 4) ≡ or_shared pg
    → pg % page_size ≡ 0
    → trans_vtop pde vaddr words ≡ pg + vaddr % page_size
unfolding trans_vtop
trans_lem pde vaddr words table pg e ne f al =
    let nz : (table == 0) ≡ false = ground arith in rw (e, nz, f, (or_shared_fields pg al).0)

-- After mapping, an address in the first of the pages translates to the page that was mapped there.
pub trans_vtop-map_loop :
    (pde vaddr n : ℕ) (s s' : Paging)
    → let table = s.words (pde + pde_index vaddr * 4) in
      let pte = align_down table + pte_index vaddr * 4 in
      (table ≢ 0)
      → (pde + pde_index vaddr * 4 < pte) ⊎ (pte + 4 * n ≤ pde + pde_index vaddr * 4)
      → 0 < n
      → map_loop n pte s ≡ ok true s'
      → (pg : ℕ) × (pg ≢ 0)
        × (s'.words pte ≡ or_shared pg)
        × (trans_vtop pde vaddr s'.words ≡ pg + vaddr % page_size)
unfolding trans_vtop
trans_vtop-map_loop pde vaddr n s s' ne out pos e =
    let table = s.words (pde + pde_index vaddr * 4) in
    let pte = align_down table + pte_index vaddr * 4 in
    let m = map_loop-Mapped n pte s s' e in
    let (pg, a, b, c) = m.entries 0 pos in
    let here : s'.words pte ≡ or_shared pg = ap s'.words (omega arith) ∙ c in
    let kept : s'.words (pde + pde_index vaddr * 4) ≡ table =
      m.others (pde + pde_index vaddr * 4) out in
    (pg, a, here, trans_lem pde vaddr s'.words table pg kept ne here b)

module _ (pte : ℕ) (s s1 : Paging) (f : drop_page (align_down (s.words pte)) s ≡ ok tt s1) where
  unmap_loop-goes_on :
      (n : ℕ)
      → unmap_loop (suc n) pte s
        ≡ unmap_loop n (pte + 4) (record s1 { words = update s1.words pte 0 })
  unfolding unmap_loop
  unmap_loop-goes_on n = ground arith

  unmap_loop-ends : unmap_loop zero pte s ≡ ok tt (record s1 { words = update s1.words pte 0 })
  unfolding unmap_loop
  unmap_loop-ends = ground arith

unmap_loop-waits :
    (n pte : ℕ) (s s1 : Paging)
    → drop_page (align_down (s.words pte)) s ≡ waits s1
    → unmap_loop n pte s ≡ waits s1
unfolding unmap_loop
unmap_loop-waits zero pte s s1 f = ground arith
unmap_loop-waits (suc n) pte s s1 f = ground arith

abbrev pub Cleared : (ℕ → ℕ) → (ℕ → ℕ) → ℕ → ℕ → Type 0
Cleared w w' n pte =
    ((i : ℕ) → i < n → w' (pte + 4 * i) ≡ 0)
    × ((a : ℕ) → (a < pte) ⊎ (pte + 4 * n ≤ a) → w' a ≡ w a)

unmap_rest :
    (n pte : ℕ) (s s' : Paging) (r : Run (Unit {0}))
    → drop_page (align_down (s.words pte)) s ≡ r
    → unmap_loop (suc n) pte s ≡ ok tt s'
    → ((t : Paging)
        → unmap_loop n (pte + 4) t ≡ ok tt s'
        → Cleared t.words s'.words (suc n) (pte + 4))
    → Cleared s.words s'.words (suc (suc n)) pte
unmap_rest n pte s s' (waits s1) f e ih =
    absurd (ground (arith, unmap_loop-waits (suc n) pte s s1 f))
unmap_rest n pte s s' (ok tt s1) f e ih =
    let t = record s1 { words = update s1.words pte 0 } in
    let same : s1.words ≡ s.words = drop_page-words s s1 (align_down (s.words pte)) f in
    let c : Cleared (update s1.words pte 0) s'.words (suc n) (pte + 4) =
      ih t (sym (unmap_loop-goes_on pte s s1 f n) ∙ e) in
    let d : Cleared (update s.words pte 0) s'.words (suc n) (pte + 4) =
      subst (λ w. Cleared (update w pte 0) s'.words (suc n) (pte + 4)) same c in
    (cleared d, λ a out. ground (arith, d.1 a))
  where
    cleared :
        Cleared (update s.words pte 0) s'.words (suc n) (pte + 4)
        → (i : ℕ) → i < suc (suc n)
        → s'.words (pte + 4 * i) ≡ 0
    cleared d zero l = ap s'.words (omega arith) ∙ d.1 pte (inl (omega arith)) ∙ ground arith
    cleared d (suc i) l = ap s'.words (omega arith) ∙ d.0 i (omega arith)

-- When the loop of `free_vpages`, given a count of pages, ends, one entry more than the count is 0,
-- and no other word of memory has changed.
pub unmap_loop-Cleared :
    (n pte : ℕ) (s s' : Paging)
    → unmap_loop n pte s ≡ ok tt s'
    → Cleared s.words s'.words (suc n) pte
unmap_loop-Cleared zero pte s s' e = last_entry (drop_page (align_down (s.words pte)) s) refl
  where
    last_entry :
        (r : Run (Unit {0}))
        → drop_page (align_down (s.words pte)) s ≡ r
        → Cleared s.words s'.words 1 pte
    last_entry (waits s1) f = absurd (ground (arith, unmap_loop-waits zero pte s s1 f))
    last_entry (ok tt s1) f =
        let same : s1.words ≡ s.words = drop_page-words s s1 (align_down (s.words pte)) f in
        let final : s'.words ≡ update s.words pte 0 =
          ground (arith, unmap_loop-ends pte s s1 f, same) in
        (
          λ i l. ap (λ w. w (pte + 4 * i)) final ∙ ground arith,
          λ a out. ap (λ w. w a) final ∙ ground arith,
        )
unmap_loop-Cleared (suc n) pte s s' e =
    unmap_rest n pte s s' (drop_page (align_down (s.words pte)) s) refl e
      (λ t. unmap_loop-Cleared n (pte + 4) t s')
