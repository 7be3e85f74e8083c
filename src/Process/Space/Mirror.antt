-- ===== src/Process/Space/Mirror.antt =====
-- What copy_memory copies: each page of the parent's table into a page that was free.
pub mod Entries
pub mod Directories
pub mod Whole
pub mod Forked
use mango_os.Base.{
  ℕ, zero, suc, ◌+◌, ◌-◌, ◌*◌, ◌/◌, ◌%◌, ◌<◌, ◌≤◌, ◌^◌, ◌≡◌, ◌≢◌, ◌⊎◌, inl, inr, refl, ap, sym, ◌∙◌,
  Bool, true, false, ◌==◌, ltb, leb, ◌&&◌, if◌then◌else◌, arith, Bool-cases,
}
use Prim.Native.Nat.{bit_or}
use mathlib.Core.Path.{subst}
use mango_os.Bitmap.{page_size}
use mango_os.Strings.{Memory, word, store_word, kmemcpy}
use mango_os.Strings.Copy.{kmemcpy_lem}
use mango_os.Page.{take_pages, align_down, or_shared, present, page_shared}
use mango_os.Process.{Procs, Run, ok, Cmd}
use mango_os.Process.Space.{copy_entries}
use mango_os.Process.Space.Frames.{
  Good, in_use, Kept, Grown, Fresh, with_bitmap, taken, new_page-ends, new_page-Fresh,
  kmemcpy_other,
}
use mango_os.Process.Space.Copied.{
  Copied, entry_copied, entry_other, fresh_apart, written, round, skipped, out_of_pages,
  copy_entries-Copied,
}

store_word-bytes :
    (a v : ℕ) (m : Memory)
    → (store_word a v m a ≡ v % 2 ^ 8)
      × (store_word a v m (a + 1) ≡ v / 2 ^ 8 % 2 ^ 8)
      × (store_word a v m (a + 2) ≡ v / 2 ^ 16 % 2 ^ 8)
      × (store_word a v m (a + 3) ≡ v / 2 ^ 24 % 2 ^ 8)
store_word-bytes a v m = (ground arith, ground arith, ground arith, ground arith)

-- A word that is stored reads back.
pub word-store_word : (a v : ℕ) (m : Memory) → v < 2 ^ 32 → word (store_word a v m) a ≡ v
word-store_word a v m small = let b = store_word-bytes a v m in omega (arith, b.0, b.1, b.2, b.3)

pub word-same :
    (m m' : Memory) (a : ℕ) → ((i : ℕ) → i < 4 → m' (a + i) ≡ m (a + i)) → word m' a ≡ word m a
word-same m m' a same =
    let zeroth : m' a ≡ m a = ap m' (omega arith) ∙ same 0 (omega arith) ∙ ap m (omega arith) in
    omega (arith, zeroth, same 1, same 2, same 3)

-- The parent's table of `n` entries, in use, and the frames that it names, apart from the child's
-- table at `pte`.
pub record Source {X : Type 0} (s : Procs X) (n ppte pte : ℕ) : Type 0 where
  pub table_used : (a : ℕ) → ppte ≤ a → a < ppte + 4 * n → in_use s a ≡ true
  pub own_used : (a : ℕ) → pte ≤ a → a < pte + 4 * n → in_use s a ≡ true
  pub apart : (ppte + 4 * n ≤ pte) ⊎ (pte + 4 * n ≤ ppte)
  pub not_null :
      (j e : ℕ)
      → j < n
      → e ≡ ppte + 4 * j
      → present (word s.memory e) ≡ true
      → align_down (word s.memory e) ≢ 0
  pub frame_used :
      (j e : ℕ)
      → j < n
      → e ≡ ppte + 4 * j
      → present (word s.memory e) ≡ true
      → (k : ℕ) → k < page_size
      → in_use s (align_down (word s.memory e) + k) ≡ true
  pub frame_apart :
      (j e : ℕ)
      → j < n
      → e ≡ ppte + 4 * j
      → present (word s.memory e) ≡ true
      → let f = align_down (word s.memory e) in (f + page_size ≤ pte) ⊎ (pte + 4 * n ≤ f)

-- The entry at `entry` names a page that was free, with the bytes of the page at `frame`.
pub record PageCopy {X : Type 0} (s s' : Procs X) (entry frame : ℕ) : Type 0 where
  pub page : ℕ
  pub named : word s'.memory entry ≡ or_shared page
  pub aligned : page % page_size ≡ 0
  pub was_free : (k : ℕ) → k < page_size → in_use s (page + k) ≡ false
  pub now_used : (k : ℕ) → k < page_size → in_use s' (page + k) ≡ true
  pub same : (k : ℕ) → k < page_size → s'.memory (page + k) ≡ s.memory (frame + k)

-- Every entry that is present has been copied.
abbrev pub Mirrored : {X : Type 0} → Procs X → Procs X → ℕ → ℕ → ℕ → Type 0
Mirrored s s' n ppte pte =
    (j e own : ℕ)
    → j < n
    → e ≡ ppte + 4 * j
    → own ≡ pte + 4 * j
    → present (word s.memory e) ≡ true
    → PageCopy s s' own (align_down (word s.memory e))

pub store_word_other : (a v x : ℕ) (m : Memory) → (x < a) ⊎ (a + 4 ≤ x) → store_word a v m x ≡ m x
store_word_other a v x m o = ground arith

copied_byte :
    (m : Memory) (pg f k : ℕ)
    → pg ≢ 0
    → f ≢ 0
    → pg % page_size ≡ 0
    → f % page_size ≡ 0
    → k < page_size
    → kmemcpy m pg f page_size (pg + k) ≡ m (f + k)
copied_byte m pg f k p q al bl l =
    kmemcpy_lem m pg f page_size (pg + k) p q (omega arith) (ground arith) ∙ ground arith

pub or_shared-lt : (pg : ℕ) → pg % page_size ≡ 0 → pg < 2 ^ 32 → or_shared pg < 2 ^ 32
or_shared-lt pg al small =
    let flags : bit_or (pg % page_size) page_shared ≡ 551 = ap (λ x. bit_or x page_shared) al in
    omega arith

-- One round copies one page.
module _ {X : Type 0} (n ppte pte pg : ℕ) (s t : Procs X) (src : Source s (suc n) ppte pte)
    (p : present (word s.memory ppte) ≡ true) (ne : pg ≢ 0) (fresh : Fresh s t pg)
    (after : t.memory ≡ entry_copied s.memory ppte pte pg) where
  old_entry : word (store_word pte (or_shared pg) s.memory) ppte ≡ word s.memory ppte
  old_entry =
      word-same s.memory (store_word pte (or_shared pg) s.memory) ppte
        (λ i l. store_word_other pte (or_shared pg) (ppte + i) s.memory (clear i l src.apart))
    where
      clear :
          (i : ℕ)
          → i < 4
          → (ppte + 4 * suc n ≤ pte) ⊎ (pte + 4 * suc n ≤ ppte)
          → (ppte + i < pte) ⊎ (pte + 4 ≤ ppte + i)
      clear i l o = omega arith

  pub bytes_copied :
      (k : ℕ) → k < page_size → t.memory (pg + k) ≡ s.memory (align_down (word s.memory ppte) + k)
  bytes_copied k l =
      let m2 = store_word pte (or_shared pg) s.memory in
      let f = align_down (word s.memory ppte) in
      let not_null = src.not_null 0 ppte (omega arith) (omega arith) p in
      let out = src.frame_apart 0 ppte (omega arith) (omega arith) p in
      ap (λ m. m (pg + k)) after
      ∙ ap (λ w. kmemcpy m2 pg (align_down w) page_size (pg + k)) old_entry
      ∙ copied_byte m2 pg f k ne not_null fresh.aligned (omega arith) l
      ∙ store_word_other pte (or_shared pg) (f + k) s.memory (clear f k out l)
    where
      clear :
          (f k : ℕ)
          → (f + page_size ≤ pte) ⊎ (pte + 4 * suc n ≤ f)
          → k < page_size
          → (f + k < pte) ⊎ (pte + 4 ≤ f + k)
      clear f k o l = omega arith

  pub entry_named : word t.memory pte ≡ or_shared pg
  entry_named =
      let m2 = store_word pte (or_shared pg) s.memory in
      word-same m2 t.memory pte (λ i l.
        ap (λ m. m (pte + i)) after
        ∙ kmemcpy_other m2 pg (align_down (word m2 ppte)) page_size (pte + i) (
            fresh_apart (pte + i) pg page_size (fresh.was_free (pte + i))
              (src.own_used (pte + i) (omega arith) (omega arith))))
      ∙ word-store_word pte (or_shared pg) s.memory (or_shared-lt pg fresh.aligned fresh.below)

-- What is known of the rest of the entries after a round, or without one.
module _ {X : Type 0} (n ppte pte : ℕ) (s t : Procs X) (src : Source s (suc n) ppte pte)
    (kept : (a : ℕ) → in_use s a ≡ true → (a < pte) ⊎ (pte + 4 ≤ a) → t.memory a ≡ s.memory a)
    (still : (a : ℕ) → in_use s a ≡ true → in_use t a ≡ true) where
  pub entry_kept : (j e : ℕ) → j < n → e ≡ ppte + 4 + 4 * j → word t.memory e ≡ word s.memory e
  entry_kept j e l here = word-same s.memory t.memory e (λ i h.
      kept (e + i) (src.table_used (e + i) (omega arith) (omega arith)) (clear i h src.apart))
    where
      clear :
          (i : ℕ)
          → i < 4
          → (ppte + 4 * suc n ≤ pte) ⊎ (pte + 4 * suc n ≤ ppte)
          → (e + i < pte) ⊎ (pte + 4 ≤ e + i)
      clear i h o = omega arith

  pub entries_left : Source t n (ppte + 4) (pte + 4)
  entries_left = record {
    table_used = λ a lo hi. still a (src.table_used a (omega arith) (omega arith));
    own_used = λ a lo hi. still a (src.own_used a (omega arith) (omega arith));
    apart = shifted src.apart;
    not_null = λ j e l here p.
        let same = entry_kept j e l here in
        rw same (src.not_null (suc j) e (omega arith) (omega arith) (ap present (sym same) ∙ p));
    frame_used = λ j e l here p k h.
        let same = entry_kept j e l here in
        rw same (
          still _
            (src.frame_used (suc j) e (omega arith) (omega arith) (ap present (sym same) ∙ p) k h));
    frame_apart = λ j e l here p.
        let same = entry_kept j e l here in
        rw same (
          outside _
            (src.frame_apart (suc j) e (omega arith) (omega arith) (ap present (sym same) ∙ p)));
  }
    where
      shifted :
          (ppte + 4 * suc n ≤ pte) ⊎ (pte + 4 * suc n ≤ ppte)
          → (ppte + 4 + 4 * n ≤ pte + 4) ⊎ (pte + 4 + 4 * n ≤ ppte + 4)
      shifted o = omega arith

      outside :
          (f : ℕ)
          → (f + page_size ≤ pte) ⊎ (pte + 4 * suc n ≤ f)
          → (f + page_size ≤ pte + 4) ⊎ (pte + 4 + 4 * n ≤ f)
      outside f o = omega arith
