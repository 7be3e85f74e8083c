-- ===== src/Process/Load/Opens.antt =====
-- What the calls on files promise load_elf_file, and that load_phead keeps the file open.
use mango_os.Base.{
  ℕ, zero, suc, ◌+◌, ◌-◌, ◌<◌, ◌≡◌, true, false, ◌==◌, ltb, if◌then◌else◌, arith, add32, is_pos32,
  Bool-cases, inl, inr, is_neg32,
}
use mango_os.Bitmap.{page_size}
use mango_os.Strings.{Memory, word}
use mango_os.Page
use mango_os.Page.{Paging, alloc_vpages, free_vpages, trans_vtop}
use mango_os.Process.{Procs, Run, ok, waits, pure, on_pages, bytes_of}
use mango_os.Process.Ends.{Ends, returns, held, from_eq, inspect}
use mango_os.Process.Load.{
  FileCalls, World, world, page_rounds, page_loop, load_phead, after_read, after_seek,
}

-- Memory holds bytes.
abbrev pub IsByteMemory : Memory → Type 0
IsByteMemory m = (a : ℕ) → m a < 256

-- What the calls do with a descriptor: `sys_open` opens it or fails, `sys_seek` and `sys_read` keep
-- it, and `sys_close` closes it.
pub record Opens {X : Type 0} (calls : FileCalls X) (Closed : X → Type 0) (Opened : ℕ → X → Type 0)
    : Type 0 where
  pub opens :
      (name mode : ℕ) (m : Memory) (w : World X)
      → Closed w.1
      → is_neg32 (calls.sys_open name mode m w).0 ≡ false
      → Opened (calls.sys_open name mode m w).0 (calls.sys_open name mode m w).1.1
  pub fails :
      (name mode : ℕ) (m : Memory) (w : World X)
      → Closed w.1
      → is_neg32 (calls.sys_open name mode m w).0 ≡ true
      → Closed (calls.sys_open name mode m w).1.1
  pub seeks :
      (fd offset : ℕ) (w : World X) → Opened fd w.1 → Opened fd (calls.sys_seek fd offset w).1.1
  pub reads :
      (fd buf size : ℕ) (m : Memory) (w : World X)
      → Opened fd w.1
      → Opened fd (calls.sys_read fd buf size m w).2.1
  pub bytes :
      (fd buf size : ℕ) (m : Memory) (w : World X)
      → IsByteMemory m
      → IsByteMemory (calls.sys_read fd buf size m w).1
  pub closes : (fd : ℕ) (w : World X) → Opened fd w.1 → Closed (calls.sys_close fd w).1.1

bytes_of-lt : (w : ℕ → ℕ) → IsByteMemory (bytes_of w)
unfolding bytes_of
bytes_of-lt w a = omega arith

module _ {X : Type 0} (calls : FileCalls X) (Closed : X → Type 0) (Opened : ℕ → X → Type 0)
    (law : Opens calls Closed Opened) (fd : ℕ) where
  -- The file is open, and memory holds bytes.
  abbrev pub Inside : Procs X → Type 0
  Inside s = Opened fd s.files × IsByteMemory s.memory

  abbrev pub During : {A : Type 0} → Run X A → Type 0
  During = Ends (λ a s. Inside s) (λ s. Opened fd s.files)

  on_pages-During : {A : Type 0} (m : Page.Cmd A) (s : Procs X) → Inside s → During (on_pages m s)
  unfolding on_pages
  on_pages-During {A} m s h = go (m (record { words = word s.memory; pages = s.pages }))
    where
      go :
          (r : Page.Run A)
          → During (elim r [
            | Page.ok a p ↦ ok a (record s { memory = bytes_of p.words; pages = p.pages })
            | Page.waits p ↦ waits (record s { memory = bytes_of p.words; pages = p.pages })
          ])
      go (Page.ok a p) = returns (h.0, bytes_of-lt p.words)
      go (Page.waits p) = held h.0

  pub read-Inside :
      (buf size : ℕ) (s : Procs X) → Inside s → Inside (after_read calls fd buf size s)
  read-Inside buf size s h =
      (law.reads fd buf size s.memory (world s) h.0, law.bytes fd buf size s.memory (world s) h.1)

  stays : {A : Type 0} (a : A) (s : Procs X) → Inside s → During (pure a s)
  stays a s h = returns h

  stops : {A : Type 0} (s : Procs X) → Opened fd s.files → During {A = A} (waits s)
  stops s o = held o

  page_loop-During :
      (n dir vaddr size : ℕ) (s : Procs X)
      → Inside s
      → During (page_loop calls n fd dir vaddr size s)
  unfolding page_loop
  page_loop-During zero dir vaddr size s h = stays true s h
  page_loop-During (suc n) dir vaddr size s h =
      let paddr = trans_vtop dir vaddr (word s.memory) in
      let len = if ltb page_size size then page_size else size in
      let h1 = read-Inside paddr len s h in
      let s1 = after_read calls fd paddr len s in
      elim (Bool-cases (paddr == 0)) [
        | inl e ↦ from_eq (stays false s h) (ground (arith, e))
        | inr e ↦ elim (Bool-cases (is_pos32 (calls.sys_read fd paddr len s.memory (world s)).0)) [
          | inl f ↦
              from_eq (page_loop-During n dir (add32 vaddr page_size) (size - page_size) s1 h1)
                (ground (arith, e, f))
          | inr f ↦ from_eq (stays false s1 h1) (ground (arith, e, f))
        ]
      ]

  -- What `load_phead` does once its pages are given.
  load_phead-given :
      (p_head dir : ℕ) (s s1 : Procs X)
      → on_pages (alloc_vpages dir (word s.memory (p_head + 8)) (word s.memory (p_head + 20))) s
        ≡ ok true s1
      → Inside s1
      → During (load_phead calls fd p_head dir s)
  unfolding load_phead
  load_phead-given p_head dir s s1 e h1 =
      let offset = word s1.memory (p_head + 4) in
      let start = word s1.memory (p_head + 8) in
      let size = word s1.memory (p_head + 16) in
      let s2 = after_seek calls fd offset s1 in
      let h2 : Inside s2 = (law.seeks fd offset (world s1) h1.0, h1.1) in
      elim (Bool-cases (is_neg32 (calls.sys_seek fd offset (world s1)).0)) [
        | inl f ↦ from_eq (stays false s2 h2) (ground (arith, e, f))
        | inr f ↦ elim (inspect (page_loop-During (page_rounds size) dir start size s2 h2)) [
          | inr (s3, g, o) ↦ from_eq (stops s3 o) (ground (arith, e, f, g))
          | inl (true, s3, g, h3) ↦ from_eq (stays true s3 h3) (ground (arith, e, f, g))
          | inl (false, s3, g, h3) ↦
              let freed =
                on_pages-During
                  (free_vpages dir (word s3.memory (p_head + 8)) (word s3.memory (p_head + 20))) s3
                  h3 in
              elim (inspect freed) [
                | inr (s4, k, o) ↦ from_eq (stops s4 o) (ground (arith, e, f, g, k))
                | inl (u, s4, k, h4) ↦ from_eq (stays false s4 h4) (ground (arith, e, f, g, k))
              ]
        ]
      ]

  pub load_phead-During :
      (p_head dir : ℕ) (s : Procs X) → Inside s → During (load_phead calls fd p_head dir s)
  unfolding load_phead
  load_phead-During p_head dir s h =
      elim (inspect (
        on_pages-During
          (alloc_vpages dir (word s.memory (p_head + 8)) (word s.memory (p_head + 20))) s h)) [
            | inr (s1, e, o) ↦ from_eq (stops s1 o) (ground (arith, e))
            | inl (false, s1, e, h1) ↦ from_eq (stays false s1 h1) (ground (arith, e))
            | inl (true, s1, e, h1) ↦ load_phead-given p_head dir s s1 e h1
          ]
