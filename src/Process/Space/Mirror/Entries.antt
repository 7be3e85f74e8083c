-- ===== src/Process/Space/Mirror/Entries.antt =====
-- The loop of copy_memory over one table copies every page that the table names.
use mango_os.Base.{
  ℕ, zero, suc, ◌+◌, ◌*◌, ◌<◌, ◌≤◌, ◌≡◌, ◌≢◌, ◌⊎◌, inl, inr, refl, ap, sym, ◌∙◌, Bool, true, false,
  ◌==◌, arith, Bool-cases,
}
use mathlib.Core.Path.{subst}
use native.Mathlib.Decide.{dec_lt, dec_le}
use mango_os.Bitmap.{page_size}
use mango_os.Strings.{word}
use mango_os.Page.{take_pages, align_down, present}
use mango_os.Process.{Procs, ok, Cmd}
use mango_os.Process.Space.{copy_entries}
use mango_os.Process.Space.Frames.{
  Good, in_use, Kept, Grown, Fresh, with_bitmap, taken, new_page-ends, new_page-Fresh,
  distory_memory-ends,
}
use mango_os.Process.Space.Copied.{
  Copied, entry_copied, entry_other, written, round, skipped, out_of_pages, copy_entries-Copied,
}
use mango_os.Process.Space.Mirror.{
  Source, PageCopy, Mirrored, word-same, bytes_copied, entry_named, entry_kept, entries_left,
}

-- A run that is known to succeed.
pub succeeded :
    {X : Type 0} (m : Cmd X Bool) (s s' : Procs X) (lo hi : ℕ)
    → Copied m s lo hi
    → m s ≡ ok true s'
    → Kept s s' lo hi × Grown s s'
succeeded m s s' lo hi c e =
    let same : ok c.answer c.final ≡ ok true s' = sym c.ends ∙ e in
    let yes_it_did : c.answer ≡ true = cc in
    let there : c.final ≡ s' = cc in
    (subst (λ t. Kept s t lo hi) there c.kept, subst (λ t. Grown s t) there (c.grown yes_it_did))

pub not_used :
    {X : Type 0} (s t : Procs X) (a : ℕ)
    → (in_use s a ≡ true → in_use t a ≡ true)
    → in_use t a ≡ false
    → in_use s a ≡ false
not_used s t a still e = elim (Bool-cases (in_use s a)) [
  | inl h ↦ absurd (cc (still h))
  | inr h ↦ h
]

module _ {X : Type 0} (n ppte pte : ℕ) (s t s' : Procs X) (src : Source s (suc n) ppte pte)
    (kept : (a : ℕ) → in_use s a ≡ true → (a < pte) ⊎ (pte + 4 ≤ a) → t.memory a ≡ s.memory a)
    (still : (a : ℕ) → in_use s a ≡ true → in_use t a ≡ true) where
  -- A copy of a later entry, seen from before the round.
  later :
      (j e own : ℕ)
      → j < n
      → e ≡ ppte + 4 + 4 * j
      → present (word s.memory e) ≡ true
      → PageCopy t s' own (align_down (word t.memory e))
      → PageCopy s s' own (align_down (word s.memory e))
  later j e own l here p c =
      let same = entry_kept n ppte pte s t src kept still j e l here in
      let f = align_down (word s.memory e) in
      let out = src.frame_apart (suc j) e (omega arith) (omega arith) p in
      record {
        page = c.page;
        named = c.named;
        aligned = c.aligned;
        was_free = λ k h. not_used s t (c.page + k) (still (c.page + k)) (c.was_free k h);
        now_used = c.now_used;
        same = λ k h.
            c.same k h
            ∙ ap (λ w. t.memory (align_down w + k)) same
            ∙ kept (f + k) (src.frame_used (suc j) e (omega arith) (omega arith) p k h)
                (outside f k out h);
      }
    where
      outside :
          (f k : ℕ)
          → (f + page_size ≤ pte) ⊎ (pte + 4 * suc n ≤ f)
          → k < page_size
          → (f + k < pte) ⊎ (pte + 4 ≤ f + k)
      outside f k o h = omega arith

-- The copy of the entry of a round.
module _ {X : Type 0} (n ppte pte pg : ℕ) (s t s' : Procs X) (src : Source s (suc n) ppte pte)
    (p : present (word s.memory ppte) ≡ true) (ne : pg ≢ 0) (fresh : Fresh s t pg)
    (after : t.memory ≡ entry_copied s.memory ppte pte pg)
    (still : (a : ℕ) → in_use s a ≡ true → in_use t a ≡ true) where
  this_entry :
      Kept t s' (pte + 4) (pte + 4 + 4 * n)
      → Grown t s'
      → PageCopy s s' pte (align_down (word s.memory ppte))
  this_entry k w = record {
    page = pg;
    named =
        word-same t.memory s'.memory pte (λ i h.
          k.kept (pte + i) (still _ (src.own_used (pte + i) (omega arith) (omega arith)))
            (inl (omega arith)))
        ∙ entry_named n ppte pte pg s t src p ne fresh after;
    aligned = fresh.aligned;
    was_free = λ i h. fresh.was_free (pg + i) (omega arith) (omega arith);
    now_used = λ i h. w.still (pg + i) (fresh.now_used (pg + i) (omega arith) (omega arith));
    same = λ i h.
        k.kept (pg + i) (fresh.now_used (pg + i) (omega arith) (omega arith)) (outside i h)
        ∙ bytes_copied n ppte pte pg s t src p ne fresh after i h;
  }
    where
      -- The child's table lies in pages in use, and `pg` was free.
      outside : (i : ℕ) → i < page_size → (pg + i < pte + 4) ⊎ (pte + 4 + 4 * n ≤ pg + i)
      outside i h = elim (dec_le (pte + 4 + 4 * n) (pg + i)) [
        | yes q ↦ inr q
        | no q ↦ inl (elim (dec_lt (pg + i) (pte + 4)) [
          | yes r ↦ r
          | no r ↦ absurd (
              clash (src.own_used (pg + i) (omega arith) (omega arith))
                (fresh.was_free (pg + i) (omega arith) (omega arith)))
        ])
      ]
        where
          clash : {b : Bool} → b ≡ true → b ≡ false → ⊥
          clash e f = cc

-- The first entry and those behind it.
pub assemble :
    {X : Type 0} (n ppte pte : ℕ) (s s' : Procs X)
    → (present (word s.memory ppte) ≡ true → PageCopy s s' pte (align_down (word s.memory ppte)))
    → ((j e own : ℕ)
        → j < n
        → e ≡ ppte + 4 + 4 * j
        → own ≡ pte + 4 + 4 * j
        → present (word s.memory e) ≡ true
        → PageCopy s s' own (align_down (word s.memory e)))
    → Mirrored s s' (suc n) ppte pte
assemble n ppte pte s s' now behind zero e own l here there p =
    let at_e : e ≡ ppte = omega arith in
    let at_own : own ≡ pte = omega arith in
    subst (λ x. PageCopy s s' x (align_down (word s.memory e))) (sym at_own)
      (subst (λ x. PageCopy s s' pte (align_down (word s.memory x))) (sym at_e)
        (now (ap (λ x. present (word s.memory x)) (sym at_e) ∙ p)))
assemble n ppte pte s s' now behind (suc j) e own l here there p =
    behind j e own (omega arith) (omega arith) (omega arith) p

-- Every present entry of the parent's table has been copied when the loop succeeds: the child's entry
-- names a page that was free before and is in use now, and it holds what the parent's page held.
pub copy_entries-Mirrored :
    {X : Type 0} (n pde ppte pte : ℕ) (s s' : Procs X)
    → Good s
    → Source s n ppte pte
    → copy_entries n pde ppte pte s ≡ ok true s'
    → Mirrored s s' n ppte pte
copy_entries-Mirrored zero pde ppte pte s s' g src e =
    λ j x own l here there p. absurd (omega arith)
copy_entries-Mirrored {X} (suc n) pde ppte pte s s' g src e =
    elim (Bool-cases (present (word s.memory ppte))) [
      | inr p ↦
          let src' = entries_left n ppte pte s s src (λ a i o. refl) (λ a i. i) in
          let ih =
            copy_entries-Mirrored n pde (ppte + 4) (pte + 4) s s' g src'
              (sym (skipped n pde ppte pte s p) ∙ e) in
          assemble n ppte pte s s' (λ q. absurd (both p q)) ih
      | inl p ↦ elim (Bool-cases ((take_pages 1 s.pages.inner).0 == 0)) [
        | inl z ↦
            let (b, d) = distory_memory-ends pde (with_bitmap s (taken s.pages.inner)) g.free in
            absurd (failed (sym (out_of_pages n pde ppte pte s b g p z d) ∙ e))
        | inr z ↦
            let pg = (take_pages 1 s.pages.inner).0 in
            let ne : pg ≢ 0 = λ y. ground arith in
            let (fresh, still) = new_page-Fresh s pg g refl ne in
            let m = entry_copied s.memory ppte pte pg in
            let kept = λ (a : ℕ) (i : in_use s a ≡ true) (o : (a < pte) ⊎ (pte + 4 ≤ a)).
              entry_other s ppte pte pg a fresh.was_free i o in
            let w = (written s m pte (pte + 4) g (new_page-ends s g).1 still kept).1 in
            let t = record (with_bitmap s (taken s.pages.inner)) { memory = m } in
            let fresh_t : Fresh s t pg = record {
              aligned = fresh.aligned;
              below = fresh.below;
              was_free = fresh.was_free;
              now_used = fresh.now_used;
            } in
            let e' = sym (round n pde ppte pte s g p z) ∙ e in
            let (k, v) =
              succeeded (copy_entries n pde (ppte + 4) (pte + 4)) t s' (pte + 4) (pte + 4 + 4 * n)
                (copy_entries-Copied n pde (ppte + 4) (pte + 4) t w.good) e' in
            let src' = entries_left n ppte pte s t src kept still in
            let ih = copy_entries-Mirrored n pde (ppte + 4) (pte + 4) t s' w.good src' e' in
            assemble n ppte pte s s'
              (λ q. this_entry n ppte pte pg s t s' src p ne fresh_t refl still k v)
              (λ j x own l here there q. later n ppte pte s t s' src kept still j x own l here q (
                ih j x own l here there
                  (ap present (entry_kept n ppte pte s t src kept still j x l here) ∙ q)))
      ]
    ]
  where
    both : {b : Bool} → b ≡ false → b ≡ true → ⊥
    both f h = cc

    failed : {r r' : Procs X} → ok false r ≡ ok true r' → ⊥
    failed f = cc
