-- ===== src/Tests/Processes.antt =====
-- A task whose directory lies in page 1 and names one table with one page, and a child with an empty
-- directory in page 512; pages 513 to 519 are free.
use mango_os.Base.{
  ℕ, ◌+◌, ◌-◌, ◌*◌, ◌<◌, ◌≤◌, ◌≡◌, ◌⊎◌, refl, inl, Bool, true, false, arith, if◌then◌else◌, ◌==◌,
  every_below, every_below-at, ap, ◌≢◌, ◌/◌,
}
use mango_os.Bitmap.{page_size}
use mango_os.Bitmap.Bits.{used}
use mango_os.Strings.{Memory, word}
use mango_os.Kernel.{Kernel}
use mango_os.Page.{align_down, present}
use mango_os.Page.Directory.{user_start}
use mango_os.Heap.{Heap}
use mango_os.Process.{Procs, Tss, ok}
use mango_os.Process.Space.{copy_memory}
use mango_os.Process.Space.Frames.{Good, in_use}
use mango_os.Process.Space.Copied.{Copied}
use mango_os.Process.Space.Tables.{copy_memory-Copied}
use mango_os.Process.Space.Mirror.Directories.{UsedPage, Layout}
use mango_os.Process.Space.Mirror.Whole.{TablesMirrored}
use mango_os.Process.Space.Mirror.Forked.{copy_memory-Mirrored}
use mango_os.Tests.Kernels.{shop, shop-Queues}
use mango_os.Tests.Directories.{bytes, bytes-IsBytes, free_mutex}

-- Entry 1023 of the directory at 0x1000 is 0x3001, and entry 0 of the table at 0x3000 is 0x5001.
abbrev one_page : Memory
one_page a =
    if a == 0x1ffc
    then 1
    else if a == 0x1ffd
    then 0x30
    else if a == 0x3000
    then 1
    else if a == 0x3001
    then 0x50
    else if a == 0x5000
    then 7
    else 0

abbrev pub no_tss : Tss
no_tss = record { eip = 0; esp = 0; esp0 = 0; ss0 = 0; tss_cr3 = 0 }

abbrev pub empty_heap : Heap
empty_heap = record {
  used = λ a. 0;
  size = λ a. 0;
  is_head = λ a. 0;
  prev = λ a. 0;
  next = λ a. 0;
  free_list = 0;
}

abbrev pub family : {X : Type 0} → X → Memory → Kernel → Procs X
family files memory kernel = record {
  memory = memory;
  pages = record {
    kernel = kernel;
    mutex = free_mutex;
    inner = record { nbits = 520; base = bytes };
  };
  heap = empty_heap;
  next_pid = 3;
  pid = λ a. a;
  esp = λ a. 0;
  tss = λ a. no_tss;
  parent = λ a. 0;
  files = files;
}

abbrev forking : Procs ℕ
forking = family 0 one_page (record shop { cr3 = λ a. 0x1000 })

forking-Good : Good forking
forking-Good = record {
  free = (refl, refl, shop-Queues.wait_ring);
  bytes = bytes-IsBytes;
  small = omega arith;
}

low_pages : every_below 513 (λ i. used bytes i) ≡ true
unfolding every_below
low_pages = refl

low_used : (a : ℕ) → a < 513 * 4096 → in_use forking a ≡ true
low_used a l = every_below-at 513 (λ i. used bytes i) (a / page_size) low_pages (omega arith)

low_page :
    (f : ℕ)
    → f ≢ 0
    → f + page_size ≤ 0x200000
    → UsedPage forking f (0x200000 + 1024) (0x200000 + 4096)
low_page f ne l = record {
  not_null = ne;
  page_used = λ k h. low_used (f + k) (omega arith);
  apart = inl (omega arith);
}

the_entry : (j : ℕ) → j < 1024 → present (word one_page (0x1000 + 4 * j)) ≡ true → j ≡ 1023
the_entry j l p = ground (arith, p)

the_frame : (e : ℕ) → 0x3000 ≤ e → e + 4 ≤ 0x4000 → present (word one_page e) ≡ true → e ≡ 0x3000
the_frame e lo hi p = ground (arith, p)

the_table :
    (j : ℕ)
    → j < 1024
    → present (word one_page (0x1000 + 4 * j)) ≡ true
    → align_down (word one_page (0x1000 + 4 * j)) ≡ 0x3000
the_table j l p = ap (λ i. align_down (word one_page (0x1000 + 4 * i))) (the_entry j l p)

forking-Layout : Layout forking (1024 - user_start) user_start 0x1000 0x200000
forking-Layout = record {
  parent_used = λ a lo hi. low_used a (omega arith);
  child_used = λ a lo hi. low_used a (omega arith);
  apart = inl (omega arith);
  tables = λ j lo hi p.
      let at = the_table j (omega arith) p in
      low_page _ (λ e. omega (arith, at)) (omega (arith, at));
  frames = λ j e lo hi p from to al q.
      let at = the_table j (omega arith) p in
      let f = the_frame e (omega (arith, at)) (omega (arith, at)) q in
      let frame : align_down (word one_page e) ≡ 0x5000 =
        ap (λ x. align_down (word one_page x)) f in
      low_page _ (λ z. omega (arith, frame)) (omega (arith, frame));
}

copy_memory-Mirrored_example :
    (r : Bool × Procs ℕ) × (copy_memory 0x200000 forking ≡ ok r.0 r.1)
    × ((r.0 ≡ false) ⊎ TablesMirrored forking r.1 (1024 - user_start) user_start 0x1000 0x200000)
copy_memory-Mirrored_example = copy_memory-Mirrored 0x200000 forking forking-Good forking-Layout

copy_memory-Copied_example :
    Copied (copy_memory 0x200000) forking (0x200000 + 1024) (0x200000 + 4096)
copy_memory-Copied_example = copy_memory-Copied 0x200000 forking forking-Good
