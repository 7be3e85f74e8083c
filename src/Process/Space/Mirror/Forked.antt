-- ===== src/Process/Space/Mirror/Forked.antt =====
-- copy_memory as a whole.
use mango_os.Base.{
  ℕ, zero, suc, ◌+◌, ◌-◌, ◌*◌, ◌<◌, ◌≤◌, ◌≡◌, ◌⊎◌, inl, inr, refl, ap, sym, ◌∙◌, Bool, true, false,
  ◌==◌, arith, Bool-cases,
}
use mathlib.Core.Path.{subst}
use native.Mathlib.Decide.{ℕ_discrete, dec_lt, dec_le}
use mango_os.Bitmap.{page_size}
use mango_os.Strings.{word}
use mango_os.Page.{take_pages, align_down, or_shared, present}
use mango_os.Page.Directory.{user_start}
use mango_os.Process.{Procs, ok}
use mango_os.Process.Space.{copy_entries, copy_tables, copy_memory}
use mango_os.Process.Space.Frames.{
  Good, in_use, Kept, Grown, Fresh, with_bitmap, taken, new_page-ends, new_page-Fresh,
  distory_memory-ends,
}
use mango_os.Process.Space.Copied.{fresh_apart}
use mango_os.Process.Space.Tables.{
  table_made, one_table, tables_skipped, tables_out, tables_round, tables_fail, copy_tables-Copied,
}
use mango_os.Process.Space.Mirror.{
  Mirrored, word-same, word-store_word, store_word_other, or_shared-lt,
}
use mango_os.Process.Space.Mirror.Entries.{copy_entries-Mirrored, succeeded}
use mango_os.Process.Space.Mirror.Directories.{
  Layout, TableCopy, PageCopy-after, source, table_Mirrored,
}
use mango_os.Process.Space.Mirror.Whole.{TablesMirrored, directory_entry, tables_left, later_table}

-- The table of entry `i`, copied into a page that was free.
module _ {X : Type 0} (n i ppde pde : ℕ) (s : Procs X) (g : Good s)
    (lay : Layout s (suc n) i ppde pde) (p : present (word s.memory (ppde + 4 * i)) ≡ true)
    (z : ((take_pages 1 s.pages.inner).0 == 0) ≡ false) where
  abbrev page : ℕ
  page = (take_pages 1 s.pages.inner).0

  abbrev s2 : Procs X
  s2 = table_made s (pde + 4 * i)

  page-Fresh : Fresh s s2 page × ((a : ℕ) → in_use s a ≡ true → in_use s2 a ≡ true)
  page-Fresh =
      let (f, still) = new_page-Fresh s page g refl (λ y. ground arith) in
      (
        record {
          aligned = f.aligned;
          below = f.below;
          was_free = f.was_free;
          now_used = f.now_used;
        },
        still,
      )

  s2-Good : Good s2
  s2-Good =
      let h = (new_page-ends s g).1 in record { free = h.free; bytes = h.bytes; small = h.small }

  old_table : word s2.memory (ppde + 4 * i) ≡ word s.memory (ppde + 4 * i)
  old_table = word-same s.memory s2.memory (ppde + 4 * i) (λ k l.
      store_word_other (pde + 4 * i) (or_shared page) (ppde + 4 * i + k) s.memory
        (clear k l lay.apart))
    where
      clear :
          (k : ℕ)
          → k < 4
          → (ppde + 4 * (i + suc n) ≤ pde + 4 * i) ⊎ (pde + 4 * (i + suc n) ≤ ppde + 4 * i)
          → (ppde + 4 * i + k < pde + 4 * i) ⊎ (pde + 4 * i + 4 ≤ ppde + 4 * i + k)
      clear k l o = omega arith

  entries_Mirrored :
      (t : Procs X)
      → copy_entries 1024 pde (align_down (word s2.memory (ppde + 4 * i))) page s2 ≡ ok true t
      → Mirrored s t 1024 (align_down (word s.memory (ppde + 4 * i))) page
  entries_Mirrored t e =
      let f = page-Fresh in
      let e' = subst (λ w. copy_entries 1024 pde (align_down w) page s2 ≡ ok true t) old_table e in
      table_Mirrored n i ppde pde page s s2 lay p f.0 f.1 refl t (
        copy_entries-Mirrored 1024 pde (align_down (word s.memory (ppde + 4 * i))) page s2 t s2-Good
          (source n i ppde pde page s s2 lay p f.0 f.1 refl) e')

  -- With what the later rounds keep.
  pub this_table :
      (t s' : Procs X)
      → copy_entries 1024 pde (align_down (word s2.memory (ppde + 4 * i))) page s2 ≡ ok true t
      → Kept s2 t page (page + 4 * 1024)
      → Grown s2 t
      → Kept t s' (pde + 4 * (i + 1)) (pde + 4 * (i + 1 + n))
      → Grown t s'
      → TableCopy s s' (pde + 4 * i) (align_down (word s.memory (ppde + 4 * i)))
  this_table t s' e k w k' w' =
      let f = page-Fresh.0 in
      let still = page-Fresh.1 in
      let own_used =
        λ (b : ℕ) (l : b < 4). lay.child_used (pde + 4 * i + b) (omega arith) (omega arith) in
      record {
        page = page;
        named =
            word-same t.memory s'.memory (pde + 4 * i) (λ b l.
              k'.kept (pde + 4 * i + b) (w.still _ (still _ (own_used b l))) (inl (omega arith)))
            ∙ word-same s2.memory t.memory (pde + 4 * i) (λ b l.
              k.kept (pde + 4 * i + b) (still _ (own_used b l))
                (fresh_apart (pde + 4 * i + b) page page_size (f.was_free _) (own_used b l)))
            ∙ word-store_word (pde + 4 * i) (or_shared page) s.memory
                (or_shared-lt page f.aligned f.below);
        copies = λ j x mine l here there q.
            PageCopy-after s t s' mine (align_down (word s.memory x)) (pde + 4 * (i + 1))
              (pde + 4 * (i + 1 + n)) k' w'
              (λ b h. w.still _ (f.now_used (mine + b) (omega arith) (omega arith)))
              (λ b h. outside (mine + b) (f.was_free (mine + b) (omega arith) (omega arith)))
              (λ a lo hi. lay.child_used a (omega arith) (omega arith))
              (entries_Mirrored t e j x mine l here there q);
      }
    where
      outside : (a : ℕ) → in_use s a ≡ false → (a < pde + 4 * (i + 1)) ⊎ (pde + 4 * (i + 1 + n) ≤ a)
      outside a free = elim (dec_le (pde + 4 * (i + 1 + n)) a) [
        | yes q ↦ inr q
        | no q ↦ inl (elim (dec_lt a (pde + 4 * (i + 1))) [
          | yes r ↦ r
          | no r ↦ absurd (cc (lay.child_used a (omega arith) (omega arith)))
        ])
      ]

pub copy_tables-Mirrored :
    {X : Type 0} (n i ppde pde : ℕ) (s s' : Procs X)
    → Good s
    → Layout s n i ppde pde
    → copy_tables n i ppde pde s ≡ ok true s'
    → TablesMirrored s s' n i ppde pde
copy_tables-Mirrored zero i ppde pde s s' g lay e =
    λ j x own lo hi here there p. absurd (omega arith)
copy_tables-Mirrored {X} (suc n) i ppde pde s s' g lay e =
    elim (Bool-cases (present (word s.memory (ppde + 4 * i)))) [
      | inr p ↦
          let lay' = tables_left n i ppde pde s s lay (λ a u o. refl) (λ a u. u) in
          let ih =
            copy_tables-Mirrored n (i + 1) ppde pde s s' g lay'
              (sym (tables_skipped n i ppde pde s g p) ∙ e) in
          first_or_later (λ q. absurd (both p q)) ih
      | inl p ↦ elim (Bool-cases ((take_pages 1 s.pages.inner).0 == 0)) [
        | inl z ↦
            let (b, d) = distory_memory-ends pde (with_bitmap s (taken s.pages.inner)) g.free in
            absurd (failed (sym (tables_out n i ppde pde s g b p z d) ∙ e))
        | inr z ↦
            let (c, k, w) = one_table i ppde pde s g z in
            elim (Bool-cases c.answer) [
              | inr no_more ↦ absurd (
                  failed (
                    sym (
                      tables_fail n i ppde pde s g c.final p z
                        (c.ends ∙ ap (λ b. ok b c.final) no_more))
                    ∙ e))
              | inl more ↦
                  let t = c.final in
                  let ends = c.ends ∙ ap (λ b. ok b t) more in
                  let e' = sym (tables_round n i ppde pde s g t p z ends) ∙ e in
                  let (k', w') =
                    succeeded (copy_tables n (i + 1) ppde pde) t s' (pde + 4 * (i + 1))
                      (pde + 4 * (i + 1 + n))
                      (copy_tables-Copied n (i + 1) ppde pde t (w more).good) e' in
                  let lay' = tables_left n i ppde pde s t lay k.kept (w more).still in
                  let ih = copy_tables-Mirrored n (i + 1) ppde pde t s' (w more).good lay' e' in
                  first_or_later
                    (λ q. this_table n i ppde pde s g lay p z t s' ends c.kept (c.grown more) k' w')
                    (λ j x own lo hi here there q.
                      let at =
                        ap (λ y. word t.memory y) here
                        ∙ directory_entry n i ppde pde s t lay k.kept (w more).still j (omega arith)
                            (omega arith)
                        ∙ ap (λ y. word s.memory y) (sym here) in
                      later_table n i ppde pde s t lay k.kept (w more).still s' j x own lo
                        (omega arith) here q (ih j x own lo hi here there (ap present at ∙ q)))
            ]
      ]
    ]
  where
    first_or_later :
        (present (word s.memory (ppde + 4 * i)) ≡ true
          → TableCopy s s' (pde + 4 * i) (align_down (word s.memory (ppde + 4 * i))))
        → TablesMirrored s s' n (i + 1) ppde pde
        → TablesMirrored s s' (suc n) i ppde pde
    first_or_later now behind j x own lo hi here there p = elim (ℕ_discrete j i) [
      | no q ↦ behind j x own (omega arith) (omega arith) here there p
      | yes q ↦
          let at_x : x ≡ ppde + 4 * i = omega arith in
          let at_own : own ≡ pde + 4 * i = omega arith in
          subst (λ y. TableCopy s s' y (align_down (word s.memory x))) (sym at_own)
            (subst (λ y. TableCopy s s' (pde + 4 * i) (align_down (word s.memory y))) (sym at_x)
              (now (ap (λ y. present (word s.memory y)) (sym at_x) ∙ p)))
    ]

    both : {b : Bool} → b ≡ false → b ≡ true → ⊥
    both f h = cc

    failed : {r r' : Procs X} → ok false r ≡ ok true r' → ⊥
    failed f = cc

-- With the pages' mutex free and the parent's tables and pages in use apart from the child's new
-- directory, `copy_memory` ends. It reports that a page was missing, or every table that the parent's
-- directory names in the user's half has a copy that the child's directory names in the same place,
-- and every page that such a table names has a copy of its bytes in a page that was free, named by the
-- same entry of the child's table.
pub copy_memory-Mirrored :
    {X : Type 0} (pde : ℕ) (s : Procs X)
    → Good s
    → let ppde = s.pages.kernel.cr3 s.pages.kernel.current in
      Layout s (1024 - user_start) user_start ppde pde
      → (r : Bool × Procs X) × (copy_memory pde s ≡ ok r.0 r.1)
        × ((r.0 ≡ false) ⊎ TablesMirrored s r.1 (1024 - user_start) user_start ppde pde)
unfolding copy_memory
copy_memory-Mirrored pde s g lay =
    let ppde = s.pages.kernel.cr3 s.pages.kernel.current in
    let c = copy_tables-Copied (1024 - user_start) user_start ppde pde s g in
    (
      (c.answer, c.final),
      c.ends,
      elim (Bool-cases c.answer) [
        | inr e ↦ inl e
        | inl e ↦ inr (
            copy_tables-Mirrored (1024 - user_start) user_start ppde pde s c.final g lay
              (c.ends ∙ ap (λ b. ok b c.final) e))
      ],
    )
