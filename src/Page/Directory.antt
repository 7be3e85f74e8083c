-- ===== src/Page/Directory.antt =====
-- `create_pde` and `destroy_pde` of source/mm/page.c: the page directory of a process.
pub mod Sharing
pub mod Emptying
use mango_os.Base.{ℕ, zero, suc, ◌+◌, ◌-◌, ◌*◌, Bool, true, false, ◌==◌, ltb, if◌then◌else◌, update}
use mango_os.Page.{
  Paging, Run, ok, waits, Cmd, pure, ◌>>=◌, ◌>>◌, read, write, new_page, drop_page, align_down,
  present, pde_index,
}

abbrev pub kernel_page_dir : ℕ
kernel_page_dir = 0x200000

-- `pde_index(USER_MEMORY_BEGIN)`
abbrev pub user_start : ℕ
user_start = pde_index 0x40000000

-- A change of memory.
abbrev pub modify : ((ℕ → ℕ) → ℕ → ℕ) → Cmd (Unit {0})
modify f s = ok tt (record s { words = f s.words })

-- `kmemset` with 0 over words.
unfoldable pub clear_words : ℕ → ℕ → (ℕ → ℕ) → ℕ → ℕ
clear_words zero a w = w
clear_words (suc n) a w = clear_words n (a + 4) (update w a 0)

-- The loop of `create_pde` from entry `i` on.
unfoldable pub share_loop : ℕ → ℕ → ℕ → (ℕ → ℕ) → ℕ → ℕ
share_loop zero i pde w = w
share_loop (suc n) i pde w =
    share_loop n (i + 1) pde
      (update w (pde + 4 * i) (if ltb i user_start then w (kernel_page_dir + 4 * i) else 0))

unfoldable pub create_pde : Cmd ℕ
create_pde = do
  pde ← new_page
  elim (pde == 0) [
    | true ↦ pure 0
    | false ↦ modify (λ w. share_loop 1024 0 pde (clear_words 1024 pde w)) >> pure pde
  ]

-- The inner loop of `destroy_pde`, over the entries of a page table.
unfoldable pub free_entries : ℕ → ℕ → Cmd (Unit {0})
free_entries zero pte = pure tt
free_entries (suc n) pte = do
  v ← read pte
  elim (present v) [
    | false ↦ free_entries n (pte + 4)
    | true ↦ drop_page (align_down v) >> (write pte 0 >> free_entries n (pte + 4))
  ]

-- What `destroy_pde` does with an entry of the directory that is present.
unfoldable pub free_table : ℕ → Cmd (Unit {0})
unfolding free_entries
free_table entry = do
  v ← read entry
  free_entries 1024 (align_down v)
  again ← read entry
  drop_page (align_down again)
  write entry 0

unfoldable pub free_tables : ℕ → ℕ → Cmd (Unit {0})
unfolding free_table
free_tables zero entry = pure tt
free_tables (suc n) entry = do
  v ← read entry
  elim (present v) [
    | false ↦ free_tables n (entry + 4)
    | true ↦ free_table entry >> free_tables n (entry + 4)
  ]

unfoldable pub destroy_pde : ℕ → Cmd (Unit {0})
unfolding free_tables
destroy_pde page_dir = do
  free_tables (1024 - user_start) (page_dir + 4 * user_start)
  drop_page page_dir
