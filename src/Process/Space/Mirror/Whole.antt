-- ===== src/Process/Space/Mirror/Whole.antt =====
-- copy_memory over the parent's directory.
use mango_os.Base.{ℕ, suc, ◌+◌, ◌-◌, ◌*◌, ◌<◌, ◌≤◌, ◌≡◌, ◌⊎◌, ap, sym, ◌∙◌, true, arith}
use mathlib.Core.Path.{subst}
use mango_os.Bitmap.{page_size}
use mango_os.Strings.{word}
use mango_os.Page.{align_down, present}
use mango_os.Process.{Procs}
use mango_os.Process.Space.Frames.{in_use}
use mango_os.Process.Space.Mirror.{word-same}
use mango_os.Process.Space.Mirror.Directories.{UsedPage, Layout, TableCopy, PageCopy-before}

-- Every table that the directory names has been copied.
abbrev pub TablesMirrored : {X : Type 0} → Procs X → Procs X → ℕ → ℕ → ℕ → ℕ → Type 0
TablesMirrored s s' n i ppde pde =
    (j e own : ℕ)
    → i ≤ j
    → j < i + n
    → e ≡ ppde + 4 * j
    → own ≡ pde + 4 * j
    → present (word s.memory e) ≡ true
    → TableCopy s s' own (align_down (word s.memory e))

-- A round leaves the rest of the directory, the tables and the pages as they were.
module _ {X : Type 0} (n i ppde pde : ℕ) (s t : Procs X) (lay : Layout s (suc n) i ppde pde)
    (kept : (a : ℕ)
      → in_use s a ≡ true
      → (a < pde + 4 * i) ⊎ (pde + 4 * i + 4 ≤ a)
      → t.memory a ≡ s.memory a)
    (still : (a : ℕ) → in_use s a ≡ true → in_use t a ≡ true) where
  pub directory_entry :
      (j : ℕ) → i ≤ j → j < i + suc n → word t.memory (ppde + 4 * j) ≡ word s.memory (ppde + 4 * j)
  directory_entry j lo hi = word-same s.memory t.memory (ppde + 4 * j) (λ k l.
      kept (ppde + 4 * j + k) (lay.parent_used _ (omega arith) (omega arith)) (clear k l lay.apart))
    where
      clear :
          (k : ℕ)
          → k < 4
          → (ppde + 4 * (i + suc n) ≤ pde + 4 * i) ⊎ (pde + 4 * (i + suc n) ≤ ppde + 4 * i)
          → (ppde + 4 * j + k < pde + 4 * i) ⊎ (pde + 4 * i + 4 ≤ ppde + 4 * j + k)
      clear k l o = omega arith

  page_kept :
      (f k : ℕ)
      → UsedPage s f (pde + 4 * i) (pde + 4 * (i + suc n))
      → k < page_size
      → t.memory (f + k) ≡ s.memory (f + k)
  page_kept f k u l = kept (f + k) (u.page_used k l) (inside u.apart)
    where
      inside :
          (f + page_size ≤ pde + 4 * i) ⊎ (pde + 4 * (i + suc n) ≤ f)
          → (f + k < pde + 4 * i) ⊎ (pde + 4 * i + 4 ≤ f + k)
      inside o = omega arith

  table_entry :
      (f e : ℕ)
      → UsedPage s f (pde + 4 * i) (pde + 4 * (i + suc n))
      → f ≤ e
      → e + 4 ≤ f + page_size
      → word t.memory e ≡ word s.memory e
  table_entry f e u lo hi = word-same s.memory t.memory e (λ k l.
      ap t.memory (omega arith)
      ∙ page_kept f (e - f + k) u (omega arith)
      ∙ ap s.memory (omega arith))

  narrower :
      (f : ℕ)
      → UsedPage s f (pde + 4 * i) (pde + 4 * (i + suc n))
      → UsedPage t f (pde + 4 * (i + 1)) (pde + 4 * (i + 1 + n))
  narrower f u = record {
    not_null = u.not_null;
    page_used = λ k l. still _ (u.page_used k l);
    apart = inside u.apart;
  }
    where
      inside :
          (f + page_size ≤ pde + 4 * i) ⊎ (pde + 4 * (i + suc n) ≤ f)
          → (f + page_size ≤ pde + 4 * (i + 1)) ⊎ (pde + 4 * (i + 1 + n) ≤ f)
      inside o = omega arith

  pub tables_left : Layout t n (i + 1) ppde pde
  tables_left = record {
    parent_used = λ a lo hi. still a (lay.parent_used a (omega arith) (omega arith));
    child_used = λ a lo hi. still a (lay.child_used a (omega arith) (omega arith));
    apart = shifted lay.apart;
    tables = λ j lo hi p.
        let same = directory_entry j (omega arith) (omega arith) in
        rw same (narrower _ (lay.tables j (omega arith) (omega arith) (ap present (sym same) ∙ p)));
    frames = λ j e lo hi p from to al q.
        let same = directory_entry j (omega arith) (omega arith) in
        let p' = ap present (sym same) ∙ p in
        let u = lay.tables j (omega arith) (omega arith) p' in
        let there =
          table_entry _ e u (omega (arith, ap align_down same))
            (omega (arith, ap align_down same)) in
        rw there (
          narrower _ (
            lay.frames j e (omega arith) (omega arith) p' (omega (arith, ap align_down same))
              (omega (arith, ap align_down same)) al (ap present (sym there) ∙ q)));
  }
    where
      shifted :
          (ppde + 4 * (i + suc n) ≤ pde + 4 * i) ⊎ (pde + 4 * (i + suc n) ≤ ppde + 4 * i)
          → (ppde + 4 * (i + 1 + n) ≤ pde + 4 * (i + 1))
            ⊎ (pde + 4 * (i + 1 + n) ≤ ppde + 4 * (i + 1))
      shifted o = omega arith

  -- The copies of a later table, seen from before the round.
  pub later_table :
      (s' : Procs X) (j e own : ℕ)
      → i + 1 ≤ j
      → j < i + suc n
      → e ≡ ppde + 4 * j
      → present (word s.memory e) ≡ true
      → TableCopy t s' own (align_down (word t.memory e))
      → TableCopy s s' own (align_down (word s.memory e))
  later_table s' j e own lo hi here p c =
      let at =
        ap (λ x. word t.memory x) here
        ∙ directory_entry j (omega arith) hi
        ∙ ap (λ x. word s.memory x) (sym here) in
      let p' = ap (λ x. present (word s.memory x)) (sym here) ∙ p in
      let u =
        subst (λ x. UsedPage s (align_down (word s.memory x)) (pde + 4 * i) (pde + 4 * (i + suc n)))
          (sym here) (lay.tables j (omega arith) hi p') in
      let same_table = ap (λ x. align_down (word s.memory x)) here in
      record {
        page = c.page;
        named = c.named;
        copies = λ k x mine l here' there q.
            let same = table_entry _ x u (omega arith) (omega arith) in
            let v =
              lay.frames j x (omega arith) hi p' (omega arith) (omega arith) (omega arith) q in
            PageCopy-before s t s' mine (align_down (word s.memory x))
              (align_down (word t.memory x)) still (ap align_down same)
              (λ b h. page_kept (align_down (word s.memory x)) b v h)
              (c.copies k x mine l (here' ∙ ap (λ w. align_down w + 4 * k) (sym at)) there
                (ap present same ∙ q));
      }
