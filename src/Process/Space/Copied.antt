-- ===== src/Process/Space/Copied.antt =====
-- copy_memory ends, and copies into pages that were free.
use mango_os.Base.{
  ℕ, zero, suc, ◌+◌, ◌*◌, ◌<◌, ◌≤◌, ◌≡◌, ◌⊎◌, inl, inr, refl, ◌∙◌, Bool, true, false, ◌==◌, arith,
  Bool-cases,
}
use mango_os.Bitmap.{page_size, Bitmap}
use mango_os.Strings.{Memory, word, store_word, kmemcpy}
use mango_os.Page.{take_pages, align_down, or_shared, present}
use mango_os.Process.{Procs, ok, Cmd}
use mango_os.Process.Space.{distory_memory, copy_entries}
use mango_os.Process.Space.Frames.{
  Good, in_use, Kept, Grown, with_bitmap, distory_memory-ends, taken, new_page-ends, new_page-Fresh,
  kmemcpy_other,
}

-- A run that ends with an answer, as `Kept` says; if the answer is success, what was in use still is.
pub record Copied {X : Type 0} (m : Cmd X Bool) (s : Procs X) (lo hi : ℕ) : Type 0 where
  pub answer : Bool
  pub final : Procs X
  pub ends : m s ≡ ok answer final
  pub kept : Kept s final lo hi
  pub grown : answer ≡ true → Grown s final

-- The memory after one entry has been copied.
abbrev pub entry_copied : Memory → ℕ → ℕ → ℕ → Memory
entry_copied m ppte pte pg =
    let m2 = store_word pte (or_shared pg) m in kmemcpy m2 pg (align_down (word m2 ppte)) page_size

-- An address in use lies outside a page that is not.
pub fresh_apart :
    (a pg size : ℕ) {b : Bool}
    → (pg ≤ a → a < pg + size → b ≡ false)
    → b ≡ true
    → (a < pg) ⊎ (pg + size ≤ a)
fresh_apart a pg size f e = ground arith

module _ {X : Type 0} where
  pub Kept-trans :
      (s t u : Procs X) (lo hi lo1 hi1 lo2 hi2 : ℕ)
      → Kept s t lo1 hi1
      → Grown s t
      → Kept t u lo2 hi2
      → lo ≤ lo1
      → hi1 ≤ hi
      → lo ≤ lo2
      → hi2 ≤ hi
      → Kept s u lo hi
  Kept-trans s t u lo hi lo1 hi1 lo2 hi2 k g l a b c d = record {
    free = l.free;
    kernel = l.kernel ∙ k.kernel;
    rest = ground (arith, k.rest, l.rest);
    kept = λ x i o. l.kept x (g.still x i) (omega arith) ∙ k.kept x i (omega arith);
  }

  pub Grown-trans : (s t u : Procs X) → Grown s t → Grown t u → Grown s u
  Grown-trans s t u g h = record { good = h.good; still = λ x i. h.still x (g.still x i) }

  -- Memory changes where nothing was in use, and from `lo` on below `hi`.
  pub written :
      (s : Procs X) (m : Memory) (lo hi : ℕ)
      → Good s
      → let s1 = with_bitmap s (taken s.pages.inner) in
        Good s1
        → ((a : ℕ) → in_use s a ≡ true → in_use s1 a ≡ true)
        → ((a : ℕ) → in_use s a ≡ true → (a < lo) ⊎ (hi ≤ a) → m a ≡ s.memory a)
        → Kept s (record s1 { memory = m }) lo hi × Grown s (record s1 { memory = m })
  written s m lo hi g g1 still same = (
    record { free = g.free; kernel = refl; rest = refl; kept = same },
    record { good = record { free = g1.free; bytes = g1.bytes; small = g1.small }; still = still },
  )

  pub entry_other :
      (s : Procs X) (ppte pte pg : ℕ) (a : ℕ)
      → ((x : ℕ) → pg ≤ x → x < pg + page_size → in_use s x ≡ false)
      → in_use s a ≡ true
      → (a < pte) ⊎ (pte + 4 ≤ a)
      → entry_copied s.memory ppte pte pg a ≡ s.memory a
  entry_other s ppte pte pg a fresh i out =
      let m2 = store_word pte (or_shared pg) s.memory in
      kmemcpy_other m2 pg (align_down (word m2 ppte)) page_size a
        (fresh_apart a pg page_size (fresh a) i)
      ∙ ground arith

  -- One round with an entry that is present and a page for it.
  pub round :
      (n pde ppte pte : ℕ) (s : Procs X)
      → Good s
      → present (word s.memory ppte) ≡ true
      → ((take_pages 1 s.pages.inner).0 == 0) ≡ false
      → copy_entries (suc n) pde ppte pte s
        ≡ copy_entries n pde (ppte + 4) (pte + 4) (record (with_bitmap s (taken s.pages.inner)) {
          memory = entry_copied s.memory ppte pte (take_pages 1 s.pages.inner).0;
        })
  unfolding copy_entries
  round n pde ppte pte s g e ne = ground (arith, e, ne, (new_page-ends s g).0)

  pub out_of_pages :
      (n pde ppte pte : ℕ) (s : Procs X) (b : Bitmap)
      → Good s
      → present (word s.memory ppte) ≡ true
      → ((take_pages 1 s.pages.inner).0 == 0) ≡ true
      → distory_memory pde (with_bitmap s (taken s.pages.inner)) ≡ ok tt (with_bitmap s b)
      → copy_entries (suc n) pde ppte pte s ≡ ok false (with_bitmap s b)
  unfolding copy_entries
  out_of_pages n pde ppte pte s b g e z d = ground (arith, e, z, (new_page-ends s g).0, d)

  pub skipped :
      (n pde ppte pte : ℕ) (s : Procs X)
      → present (word s.memory ppte) ≡ false
      → copy_entries (suc n) pde ppte pte s ≡ copy_entries n pde (ppte + 4) (pte + 4) s
  unfolding copy_entries
  skipped n pde ppte pte s e = ground (arith, e)

  pub nothing-Kept :
      (s : Procs X) (b : Bitmap) (lo hi : ℕ) → Good s → Kept s (with_bitmap s b) lo hi
  nothing-Kept s b lo hi g = record {
    free = g.free;
    kernel = refl;
    rest = refl;
    kept = λ a i o. refl;
  }

  pub copy_entries-Copied :
      (n pde ppte pte : ℕ) (s : Procs X)
      → Good s
      → Copied (copy_entries n pde ppte pte) s pte (pte + 4 * n)
  unfolding copy_entries
  copy_entries-Copied zero pde ppte pte s g = record {
    answer = true;
    final = s;
    ends = refl;
    kept = nothing-Kept s s.pages.inner pte (pte + 4 * 0) g;
    grown = λ e. record { good = g; still = λ a i. i };
  }
  copy_entries-Copied (suc n) pde ppte pte s g = elim (Bool-cases (present (word s.memory ppte))) [
    | inr e ↦
        let c = copy_entries-Copied n pde (ppte + 4) (pte + 4) s g in
        record {
          answer = c.answer;
          final = c.final;
          ends = skipped n pde ppte pte s e ∙ c.ends;
          kept = record {
            free = c.kept.free;
            kernel = c.kept.kernel;
            rest = c.kept.rest;
            kept = λ a i o. c.kept.kept a i (omega arith);
          };
          grown = c.grown;
        }
    | inl e ↦ elim (Bool-cases ((take_pages 1 s.pages.inner).0 == 0)) [
      | inl z ↦
          let (b, d) = distory_memory-ends pde (with_bitmap s (taken s.pages.inner)) g.free in
          record {
            answer = false;
            final = with_bitmap s b;
            ends = out_of_pages n pde ppte pte s b g e z d;
            kept = nothing-Kept s b pte (pte + 4 * suc n) g;
            grown = λ h. absurd (ground arith);
          }
      | inr z ↦
          let pg = (take_pages 1 s.pages.inner).0 in
          let (fresh, still) = new_page-Fresh s pg g refl (λ y. ground arith) in
          let m = entry_copied s.memory ppte pte pg in
          let (k, w) =
            written s m pte (pte + 4) g (new_page-ends s g).1 still
              (λ a i o. entry_other s ppte pte pg a fresh.was_free i o) in
          let t = record (with_bitmap s (taken s.pages.inner)) { memory = m } in
          let c = copy_entries-Copied n pde (ppte + 4) (pte + 4) t w.good in
          record {
            answer = c.answer;
            final = c.final;
            ends = round n pde ppte pte s g e z ∙ c.ends;
            kept =
                Kept-trans s t c.final pte (pte + 4 * suc n) pte (pte + 4) (pte + 4)
                  (pte + 4 + 4 * n) k w c.kept (omega arith) (omega arith) (omega arith)
                  (omega arith);
            grown = λ h. Grown-trans s t c.final w (c.grown h);
          }
    ]
  ]
