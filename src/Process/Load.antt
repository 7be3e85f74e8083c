-- ===== src/Process/Load.antt =====
-- load_phead and load_elf_file of source/kernel/task.c, with source/include/elf.h. The calls on files
-- are an interface, which source/fs/fs.c fills; `head` and `p_head` are where the local variables lie.
pub mod Closing
pub mod Opens
use mango_os.Base.{
  minus_one, is_neg32, ℕ, zero, suc, ◌+◌, ◌-◌, ◌/◌, ◌^◌, Bool, true, false, not, ◌&&◌, ◌||◌, ◌==◌,
  ltb, leb, if◌then◌else◌, add32, is_pos32,
}
use mango_os.Bitmap.{Bitmap, page_size}
use mango_os.Ipc.Guarded.{Guarded}
use mango_os.Strings.{Memory, word, half}
use mango_os.Page.{alloc_vpages, free_vpages, trans_vtop}
use mango_os.Process.{Procs, Cmd, ok, stuck, pure, ◌>>=◌, ◌>>◌, gets, load, on_pages}

-- The pages with the kernel's state, and the state of the files.
abbrev pub World : Type 0 → Type 0
World X = Guarded Bitmap × X

-- The calls on files; answers are `int` patterns. They may take pages, for the buffers of blocks, and
-- other tasks may run in between.
pub record FileCalls (X : Type 0) : Type 0 where
  pub sys_open : ℕ → ℕ → Memory → World X → ℕ × World X
  pub sys_seek : ℕ → ℕ → World X → ℕ × World X
  pub sys_read : ℕ → ℕ → ℕ → Memory → World X → ℕ × Memory × World X
  pub sys_close : ℕ → World X → ℕ × World X

abbrev pub world : {X : Type 0} → Procs X → World X
world s = (s.pages, s.files)

abbrev pub set_world : {X : Type 0} → World X → Procs X → Procs X
set_world w s = record s { pages = w.0; files = w.1 }

-- The rounds of `while (size > 0)` with `size -= PAGE_SIZE`.
abbrev pub page_rounds : ℕ → ℕ
page_rounds size = if is_pos32 size then (size + page_size - 1) / page_size else 0

-- `memory[a]` as an `ushort`.
abbrev pub load_half : {X : Type 0} → ℕ → Cmd X ℕ
load_half a s = ok (half s.memory a) s

-- `p_type != 1 || p_vaddr < USER_MEMORY_BEGIN`
abbrev pub is_skipped : ℕ → ℕ → Bool
is_skipped p_type vaddr = not (p_type == 1) || ltb vaddr 0x40000000

-- The tests of the file's head: the four bytes at its beginning, an executable for the processor, and
-- program headers.
abbrev pub is_elf : ℕ → Memory → Bool
is_elf head m =
    (m head == 127) && (m (head + 1) == 69) && (m (head + 2) == 76) && (m (head + 3) == 70)

abbrev pub is_executable : ℕ → Memory → Bool
is_executable head m = (half m (head + 16) == 2) && (half m (head + 18) == 3)

abbrev pub has_headers : ℕ → Memory → Bool
has_headers head m = not (half m (head + 42) == 0) && not (word m (head + 28) == 0)

module _ {X : Type 0} (calls : FileCalls X) where
  abbrev pub open_file : ℕ → Cmd X ℕ
  open_file name s = let (fd, w) = calls.sys_open name 0 s.memory (world s) in ok fd (set_world w s)

  abbrev pub seek : ℕ → ℕ → Cmd X ℕ
  seek fd offset s = let (err, w) = calls.sys_seek fd offset (world s) in ok err (set_world w s)

  abbrev pub read_file : ℕ → ℕ → ℕ → Cmd X ℕ
  read_file fd buf size s =
      let (count, m, w) = calls.sys_read fd buf size s.memory (world s) in
      ok count (record (set_world w s) { memory = m })

  abbrev pub close_file : ℕ → Cmd X (Unit {0})
  close_file fd s = ok tt (set_world (calls.sys_close fd (world s)).1 s)

  -- The loop of `load_phead` over the pages from `vaddr` on, with `size` bytes left; `false` is -1.
  unfoldable pub page_loop : ℕ → ℕ → ℕ → ℕ → ℕ → Cmd X Bool
  unfolding trans_vtop
  page_loop zero fd dir vaddr size = pure true
  page_loop (suc n) fd dir vaddr size = do
    paddr ← gets (λ s. trans_vtop dir vaddr (word s.memory))
    elim (paddr == 0) [
      | true ↦ pure false
      | false ↦ do
        count ← read_file fd paddr (if ltb page_size size then page_size else size)
        elim (is_pos32 count) [
          | false ↦ pure false
          | true ↦ page_loop n fd dir (add32 vaddr page_size) (size - page_size)
        ]
    ]

  -- The pages of the program header are given back if reading fails; `false` is an error.
  unfoldable pub load_phead : ℕ → ℕ → ℕ → Cmd X Bool
  unfolding on_pages page_loop
  load_phead fd p_head dir = do
    vaddr ← load (p_head + 8)
    memsz ← load (p_head + 20)
    given ← on_pages (alloc_vpages dir vaddr memsz)
    elim given [
      | false ↦ pure false
      | true ↦ do
        offset ← load (p_head + 4)
        err ← seek fd offset
        elim (is_neg32 err) [
          | true ↦ pure false
          | false ↦ do
            start ← load (p_head + 8)
            size ← load (p_head + 16)
            filled ← page_loop (page_rounds size) fd dir start size
            elim filled [
              | true ↦ pure true
              | false ↦ do
                from ← load (p_head + 8)
                bytes ← load (p_head + 20)
                on_pages (free_vpages dir from bytes)
                pure false
            ]
        ]
    ]

  -- The loop over the program headers from header `i` on, and what follows it: each way out closes the
  -- file for itself. A header that is skipped leaves the offset as it is.
  unfoldable pub header_loop : ℕ → ℕ → ℕ → ℕ → ℕ → ℕ → ℕ → Cmd X ℕ
  unfolding load_phead
  header_loop zero i fd head p_head dir offset = λ s. stuck
  header_loop (suc n) i fd head p_head dir offset = load_half (head + 44) >>= λ phnum.
      elim (ltb i phnum) [
        | false ↦ close_file fd >> load (head + 24)
        | true ↦ do
          err ← seek fd offset
          elim (is_neg32 err) [
            | true ↦ close_file fd >> pure minus_one
            | false ↦ do
              count ← read_file fd p_head 32
              elim (is_pos32 count) [
                | false ↦ close_file fd >> pure minus_one
                | true ↦ do
                  p_type ← load p_head
                  vaddr ← load (p_head + 8)
                  elim (is_skipped p_type vaddr) [
                    | true ↦ header_loop n (i + 1) fd head p_head dir offset
                    | false ↦ do
                      loaded ← load_phead fd p_head dir
                      elim loaded [
                        | false ↦ close_file fd >> pure minus_one
                        | true ↦ do
                          size ← load_half (head + 42)
                          header_loop n (i + 1) fd head p_head dir (add32 offset size)
                      ]
                  ]
              ]
          ]
      ]

  -- The entry point, or -1 as a `uint`.
  unfoldable pub load_elf_file : ℕ → ℕ → ℕ → ℕ → ℕ → Cmd X ℕ
  unfolding header_loop
  load_elf_file fuel name head p_head dir = do
    fd ← open_file name
    elim (is_neg32 fd) [
      | true ↦ pure minus_one
      | false ↦ do
        count ← read_file fd head 52
        elim (is_pos32 count) [
          | false ↦ close_file fd >> pure minus_one
          | true ↦ do
            elf ← gets (λ s. is_elf head s.memory)
            elim elf [
              | false ↦ close_file fd >> pure minus_one
              | true ↦ do
                executable ← gets (λ s. is_executable head s.memory)
                elim executable [
                  | false ↦ close_file fd >> pure minus_one
                  | true ↦ do
                    headers ← gets (λ s. has_headers head s.memory)
                    elim headers [
                      | false ↦ close_file fd >> pure minus_one
                      | true ↦ do
                        offset ← load (head + 28)
                        header_loop fuel 0 fd head p_head dir offset
                    ]
                ]
            ]
        ]
    ]

  -- The state after a read and after a seek.
  abbrev pub after_read : ℕ → ℕ → ℕ → Procs X → Procs X
  after_read fd buf size s =
      let (count, m, w) = calls.sys_read fd buf size s.memory (world s) in
      record (set_world w s) { memory = m }

  abbrev pub after_seek : ℕ → ℕ → Procs X → Procs X
  after_seek fd offset s = set_world (calls.sys_seek fd offset (world s)).1 s

  abbrev pub after_close : ℕ → Procs X → Procs X
  after_close fd s = set_world (calls.sys_close fd (world s)).1 s
