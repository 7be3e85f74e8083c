-- ===== src/Process/Space/Mirror/Directories.antt =====
-- copy_memory gives the child a copy of every page of the parent.
use mango_os.Base.{
  ℕ, suc, ◌+◌, ◌-◌, ◌*◌, ◌%◌, ◌<◌, ◌≤◌, ◌≡◌, ◌≢◌, ◌⊎◌, ap, sym, ◌∙◌, Bool, true, false, arith,
}
use mathlib.Core.Path.{subst}
use mango_os.Bitmap.{page_size}
use mango_os.Strings.{word, store_word}
use mango_os.Page.{align_down, or_shared, present}
use mango_os.Process.{Procs}
use mango_os.Process.Space.Frames.{in_use, Kept, Grown, Fresh}
use mango_os.Process.Space.Copied.{fresh_apart}
use mango_os.Process.Space.Mirror.{Source, PageCopy, Mirrored, word-same, store_word_other}
use mango_os.Process.Space.Mirror.Entries.{not_used}

-- A page that an entry names: not the first, in use, and apart from the entries from `lo` to `hi`.
pub record UsedPage {X : Type 0} (s : Procs X) (f lo hi : ℕ) : Type 0 where
  pub not_null : f ≢ 0
  pub page_used : (k : ℕ) → k < page_size → in_use s (f + k) ≡ true
  pub apart : (f + page_size ≤ lo) ⊎ (hi ≤ f)

-- The `n` entries of the parent's directory from entry `i` on are in use, and so are those of the
-- child's; the tables and the pages that the parent's name are in use, outside the child's directory.
pub record Layout {X : Type 0} (s : Procs X) (n i ppde pde : ℕ) : Type 0 where
  pub parent_used : (a : ℕ) → ppde + 4 * i ≤ a → a < ppde + 4 * (i + n) → in_use s a ≡ true
  pub child_used : (a : ℕ) → pde + 4 * i ≤ a → a < pde + 4 * (i + n) → in_use s a ≡ true
  pub apart : (ppde + 4 * (i + n) ≤ pde + 4 * i) ⊎ (pde + 4 * (i + n) ≤ ppde + 4 * i)
  pub tables :
      (j : ℕ)
      → i ≤ j
      → j < i + n
      → present (word s.memory (ppde + 4 * j)) ≡ true
      → UsedPage s (align_down (word s.memory (ppde + 4 * j))) (pde + 4 * i) (pde + 4 * (i + n))
  pub frames :
      (j e : ℕ)
      → i ≤ j
      → j < i + n
      → present (word s.memory (ppde + 4 * j)) ≡ true
      → align_down (word s.memory (ppde + 4 * j)) ≤ e
      → e + 4 ≤ align_down (word s.memory (ppde + 4 * j)) + page_size
      → e % 4 ≡ 0
      → present (word s.memory e) ≡ true
      → UsedPage s (align_down (word s.memory e)) (pde + 4 * i) (pde + 4 * (i + n))

-- The entry at `own` names a table with a copy of each page that the table at `table` names.
pub record TableCopy {X : Type 0} (s s' : Procs X) (own table : ℕ) : Type 0 where
  pub page : ℕ
  pub named : word s'.memory own ≡ or_shared page
  pub copies : Mirrored s s' 1024 table page

module _ {X : Type 0} where
  -- A copy seen from an earlier state.
  pub PageCopy-before :
      (s t s' : Procs X) (own f f' : ℕ)
      → ((a : ℕ) → in_use s a ≡ true → in_use t a ≡ true)
      → f' ≡ f
      → ((k : ℕ) → k < page_size → t.memory (f + k) ≡ s.memory (f + k))
      → PageCopy t s' own f'
      → PageCopy s s' own f
  PageCopy-before s t s' own f f' still same_frame same c = record {
    page = c.page;
    named = c.named;
    aligned = c.aligned;
    was_free = λ k h. not_used s t (c.page + k) (still (c.page + k)) (c.was_free k h);
    now_used = c.now_used;
    same = λ k h. c.same k h ∙ ap (λ g. t.memory (g + k)) same_frame ∙ same k h;
  }

  -- A copy is kept by what follows.
  pub PageCopy-after :
      (s t s' : Procs X) (own f lo hi : ℕ)
      → Kept t s' lo hi
      → Grown t s'
      → ((i : ℕ) → i < 4 → in_use t (own + i) ≡ true)
      → ((i : ℕ) → i < 4 → (own + i < lo) ⊎ (hi ≤ own + i))
      → ((a : ℕ) → lo ≤ a → a < hi → in_use s a ≡ true)
      → PageCopy s t own f
      → PageCopy s s' own f
  PageCopy-after s t s' own f lo hi k w mine out used_there c = record {
    page = c.page;
    named =
        word-same t.memory s'.memory own (λ i h. k.kept (own + i) (mine i h) (out i h)) ∙ c.named;
    aligned = c.aligned;
    was_free = c.was_free;
    now_used = λ i h. w.still (c.page + i) (c.now_used i h);
    same = λ i h.
        k.kept (c.page + i) (c.now_used i h)
          (other_side (c.page + i) lo hi (used_there (c.page + i)) (c.was_free i h))
        ∙ c.same i h;
  }
    where
      other_side :
          (a lo hi : ℕ) {b : Bool} → (lo ≤ a → a < hi → b ≡ true) → b ≡ false → (a < lo) ⊎ (hi ≤ a)
      other_side a lo hi f e = ground arith

-- Copying the table of entry `i`, which gets the page `page`.
module _ {X : Type 0} (n i ppde pde page : ℕ) (s t : Procs X) (lay : Layout s (suc n) i ppde pde)
    (p : present (word s.memory (ppde + 4 * i)) ≡ true) (fresh : Fresh s t page)
    (still : (a : ℕ) → in_use s a ≡ true → in_use t a ≡ true)
    (after : t.memory ≡ store_word (pde + 4 * i) (or_shared page) s.memory) where
  abbrev table : ℕ
  table = align_down (word s.memory (ppde + 4 * i))

  the_table : UsedPage s table (pde + 4 * i) (pde + 4 * (i + suc n))
  the_table = lay.tables i (omega arith) (omega arith) p

  untouched : (a : ℕ) → (a < pde + 4 * i) ⊎ (pde + 4 * (i + suc n) ≤ a) → t.memory a ≡ s.memory a
  untouched a o =
      ap (λ m. m a) after ∙ store_word_other (pde + 4 * i) (or_shared page) a s.memory (omega arith)

  page_untouched :
      (f k : ℕ)
      → UsedPage s f (pde + 4 * i) (pde + 4 * (i + suc n))
      → k < page_size
      → t.memory (f + k) ≡ s.memory (f + k)
  page_untouched f k u l = untouched (f + k) (inside u.apart)
    where
      inside :
          (f + page_size ≤ pde + 4 * i) ⊎ (pde + 4 * (i + suc n) ≤ f)
          → (f + k < pde + 4 * i) ⊎ (pde + 4 * (i + suc n) ≤ f + k)
      inside o = omega arith

  pub same_entry :
      (e : ℕ) → table ≤ e → e + 4 ≤ table + page_size → word t.memory e ≡ word s.memory e
  same_entry e lo hi = word-same s.memory t.memory e (λ k l.
      ap t.memory (omega arith)
      ∙ page_untouched table (e - table + k) the_table (omega arith)
      ∙ ap s.memory (omega arith))

  -- A page in use is another one than the page that was free.
  other_page :
      (f : ℕ)
      → f % page_size ≡ 0
      → in_use s (f + 0) ≡ true
      → (f + page_size ≤ page) ⊎ (page + 4 * 1024 ≤ f)
  other_page f al u =
      let o = fresh_apart (f + 0) page page_size (fresh.was_free (f + 0)) u in
      let same = fresh.aligned in omega arith

  entry_frame :
      (j e : ℕ)
      → j < 1024
      → e ≡ table + 4 * j
      → present (word t.memory e) ≡ true
      → UsedPage s (align_down (word t.memory e)) (pde + 4 * i) (pde + 4 * (i + suc n))
  entry_frame j e l here q =
      let same = same_entry e (omega arith) (omega arith) in
      rw same (
        lay.frames i e (omega arith) (omega arith) p (omega arith) (omega arith) (omega arith)
          (ap present (sym same) ∙ q))

  pub source : Source t 1024 table page
  source = record {
    table_used = λ a lo hi.
        still a (ap (in_use s) (omega arith) ∙ the_table.page_used (a - table) (omega arith));
    own_used = λ a lo hi. fresh.now_used a lo (omega arith);
    apart = other_page table (omega arith) (the_table.page_used 0 (omega arith));
    not_null = λ j e l here q. (entry_frame j e l here q).not_null;
    frame_used = λ j e l here q k h. still _ ((entry_frame j e l here q).page_used k h);
    frame_apart = λ j e l here q.
        other_page _ (omega arith) ((entry_frame j e l here q).page_used 0 (omega arith));
  }

  -- The pages of the table, seen from before.
  pub table_Mirrored : (u : Procs X) → Mirrored t u 1024 table page → Mirrored s u 1024 table page
  table_Mirrored u m j e own l here there q =
      let same = same_entry e (omega arith) (omega arith) in
      let q' = ap present same ∙ q in
      let frame =
        subst (λ w. UsedPage s (align_down w) (pde + 4 * i) (pde + 4 * (i + suc n))) same
          (entry_frame j e l here q') in
      PageCopy-before s t u own (align_down (word s.memory e)) (align_down (word t.memory e)) still
        (ap align_down same) (λ k h. page_untouched (align_down (word s.memory e)) k frame h)
        (m j e own l here there q')
