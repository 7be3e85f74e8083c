-- ===== src/Process/Space/Tables.antt =====
-- The loop of copy_memory over the directory, and copy_memory as a whole.
use mango_os.Base.{
  ℕ, zero, suc, ◌+◌, ◌-◌, ◌*◌, ◌≤◌, ◌≡◌, ◌⊎◌, inl, inr, refl, ap, ◌∙◌, Bool, true, false, ◌==◌,
  arith, Bool-cases,
}
use mango_os.Bitmap.{page_size, Bitmap}
use mango_os.Strings.{word, store_word}
use mango_os.Page.{take_pages, align_down, or_shared, present}
use mango_os.Page.Directory.{user_start}
use mango_os.Process.{Procs, ok, Cmd}
use mango_os.Process.Space.{distory_memory, copy_entries, copy_tables, copy_memory}
use mango_os.Process.Space.Frames.{
  Good, Kept, Grown, with_bitmap, distory_memory-ends, taken, new_page-ends, new_page-Fresh,
}
use mango_os.Process.Space.Copied.{
  Copied, Kept-trans, Grown-trans, nothing-Kept, written, copy_entries-Copied, fresh_apart,
}

module _ {X : Type 0} where
  -- The state once the new table's entry has been written.
  abbrev pub table_made : Procs X → ℕ → Procs X
  table_made s entry =
      let t = with_bitmap s (taken s.pages.inner) in
      record t { memory = store_word entry (or_shared (take_pages 1 s.pages.inner).0) s.memory }

  module _ (n i ppde pde : ℕ) (s : Procs X) (g : Good s) where
    pub tables_skipped :
        present (word s.memory (ppde + 4 * i)) ≡ false
        → copy_tables (suc n) i ppde pde s ≡ copy_tables n (i + 1) ppde pde s
    unfolding copy_tables
    tables_skipped e = ground (arith, e)

    pub tables_out :
        (b : Bitmap)
        → present (word s.memory (ppde + 4 * i)) ≡ true
        → ((take_pages 1 s.pages.inner).0 == 0) ≡ true
        → distory_memory pde (with_bitmap s (taken s.pages.inner)) ≡ ok tt (with_bitmap s b)
        → copy_tables (suc n) i ppde pde s ≡ ok false (with_bitmap s b)
    unfolding copy_tables
    tables_out b e z d = ground (arith, e, z, (new_page-ends s g).0, d)

    module _ (t : Procs X) (e : present (word s.memory (ppde + 4 * i)) ≡ true)
        (z : ((take_pages 1 s.pages.inner).0 == 0) ≡ false) where
      abbrev entries_of : Cmd X Bool
      entries_of =
          let s2 = table_made s (pde + 4 * i) in
          copy_entries 1024 pde (align_down (word s2.memory (ppde + 4 * i)))
            (take_pages 1 s.pages.inner).0

      pub tables_round :
          entries_of (table_made s (pde + 4 * i)) ≡ ok true t
          → copy_tables (suc n) i ppde pde s ≡ copy_tables n (i + 1) ppde pde t
      unfolding copy_tables
      tables_round c = ground (arith, e, z, (new_page-ends s g).0, c)

      pub tables_fail :
          entries_of (table_made s (pde + 4 * i)) ≡ ok false t
          → copy_tables (suc n) i ppde pde s ≡ ok false t
      unfolding copy_tables
      tables_fail c = ground (arith, e, z, (new_page-ends s g).0, c)

  -- One table: its entry in the directory, and its own entries in a page that was free.
  pub one_table :
      (i ppde pde : ℕ) (s : Procs X)
      → Good s
      → ((take_pages 1 s.pages.inner).0 == 0) ≡ false
      → let s2 = table_made s (pde + 4 * i) in
        (c : Copied
          (copy_entries 1024 pde
            (align_down (word s2.memory (ppde + 4 * i)))
            (take_pages 1 s.pages.inner).0)
          s2
          (take_pages 1 s.pages.inner).0
          ((take_pages 1 s.pages.inner).0 + 4 * 1024))
        × Kept s c.final (pde + 4 * i) (pde + 4 * i + 4)
        × (c.answer ≡ true → Grown s c.final)
  one_table i ppde pde s g z =
      let page = (take_pages 1 s.pages.inner).0 in
      let (fresh, still) = new_page-Fresh s page g refl (λ y. ground arith) in
      let s2 = table_made s (pde + 4 * i) in
      let (k, w) =
        written s s2.memory (pde + 4 * i) (pde + 4 * i + 4) g (new_page-ends s g).1 still
          (λ a u o. ground arith) in
      let table = align_down (word s2.memory (ppde + 4 * i)) in
      let c = copy_entries-Copied 1024 pde table page s2 w.good in
      (
        c,
        record {
          free = c.kept.free;
          kernel = c.kept.kernel;
          rest = ground (arith, c.kept.rest);
          kept = λ a u o.
              c.kept.kept a (still a u) (fresh_apart a page page_size (fresh.was_free a) u)
              ∙ k.kept a u o;
        },
        λ h. Grown-trans s s2 c.final w (c.grown h),
      )

  wider :
      (s t : Procs X) (lo hi lo2 hi2 : ℕ) → Kept s t lo2 hi2 → lo ≤ lo2 → hi2 ≤ hi → Kept s t lo hi
  wider s t lo hi lo2 hi2 k a b = record {
    free = k.free;
    kernel = k.kernel;
    rest = k.rest;
    kept = λ x i o. k.kept x i (omega arith);
  }

  pub copy_tables-Copied :
      (n i ppde pde : ℕ) (s : Procs X)
      → Good s
      → Copied (copy_tables n i ppde pde) s (pde + 4 * i) (pde + 4 * (i + n))
  unfolding copy_tables
  copy_tables-Copied zero i ppde pde s g = record {
    answer = true;
    final = s;
    ends = refl;
    kept = nothing-Kept s s.pages.inner (pde + 4 * i) (pde + 4 * (i + 0)) g;
    grown = λ e. record { good = g; still = λ a u. u };
  }
  copy_tables-Copied (suc n) i ppde pde s g =
      elim (Bool-cases (present (word s.memory (ppde + 4 * i)))) [
        | inr e ↦
            let c = copy_tables-Copied n (i + 1) ppde pde s g in
            record {
              answer = c.answer;
              final = c.final;
              ends = tables_skipped n i ppde pde s g e ∙ c.ends;
              kept = wider s c.final _ _ _ _ c.kept (omega arith) (omega arith);
              grown = c.grown;
            }
        | inl e ↦ elim (Bool-cases ((take_pages 1 s.pages.inner).0 == 0)) [
          | inl z ↦
              let (b, d) = distory_memory-ends pde (with_bitmap s (taken s.pages.inner)) g.free in
              record {
                answer = false;
                final = with_bitmap s b;
                ends = tables_out n i ppde pde s g b e z d;
                kept = nothing-Kept s b (pde + 4 * i) (pde + 4 * (i + suc n)) g;
                grown = λ h. absurd (ground arith);
              }
          | inr z ↦
              let (c, k, w) = one_table i ppde pde s g z in
              rest_of n i ppde pde s g e z c k w (Bool-cases c.answer)
                (λ h. copy_tables-Copied n (i + 1) ppde pde c.final (w h).good)
        ]
      ]
    where
      rest_of :
          (n i ppde pde : ℕ) (s : Procs X) (g : Good s)
          (e : present (word s.memory (ppde + 4 * i)) ≡ true)
          (z : ((take_pages 1 s.pages.inner).0 == 0) ≡ false)
          (c : Copied
            (copy_entries 1024 pde
              (align_down (word (table_made s (pde + 4 * i)).memory (ppde + 4 * i)))
              (take_pages 1 s.pages.inner).0)
            (table_made s (pde + 4 * i))
            (take_pages 1 s.pages.inner).0
            ((take_pages 1 s.pages.inner).0 + 4 * 1024))
          → Kept s c.final (pde + 4 * i) (pde + 4 * i + 4)
          → (c.answer ≡ true → Grown s c.final)
          → (c.answer ≡ true) ⊎ (c.answer ≡ false)
          → (c.answer ≡ true
              → Copied
                  (copy_tables n (i + 1) ppde pde)
                  c.final
                  (pde + 4 * (i + 1))
                  (pde + 4 * (i + 1 + n)))
          → Copied (copy_tables (suc n) i ppde pde) s (pde + 4 * i) (pde + 4 * (i + suc n))
      rest_of n i ppde pde s g e z c k w (inr no_more) ih = record {
        answer = false;
        final = c.final;
        ends = tables_fail n i ppde pde s g c.final e z (c.ends ∙ ap (λ b. ok b c.final) no_more);
        kept = wider s c.final _ _ _ _ k (omega arith) (omega arith);
        grown = λ h. absurd (ground arith);
      }
      rest_of n i ppde pde s g e z c k w (inl more) ih =
          let d = ih more in
          record {
            answer = d.answer;
            final = d.final;
            ends =
                tables_round n i ppde pde s g c.final e z (c.ends ∙ ap (λ b. ok b c.final) more)
                ∙ d.ends;
            kept =
                Kept-trans s c.final d.final _ _ _ _ _ _ k (w more) d.kept (omega arith)
                  (omega arith) (omega arith) (omega arith);
            grown = λ h. Grown-trans s c.final d.final (w more) (d.grown h);
          }

  -- With the pages' mutex free `copy_memory` ends. Whether it succeeds or runs out of pages, memory
  -- that was in use, that of the parent included, has changed in the user's half of the child's
  -- directory only, and of the rest of the state nothing but the bitmap.
  pub copy_memory-Copied :
      (pde : ℕ) (s : Procs X)
      → Good s
      → Copied (copy_memory pde) s (pde + 4 * user_start) (pde + 4 * 1024)
  unfolding copy_memory
  copy_memory-Copied pde s g =
      let c =
        copy_tables-Copied (1024 - user_start) user_start
          (s.pages.kernel.cr3 s.pages.kernel.current) pde s g in
      record {
        answer = c.answer;
        final = c.final;
        ends = c.ends;
        kept = wider s c.final _ _ _ _ c.kept (omega arith) (omega arith);
        grown = c.grown;
      }
