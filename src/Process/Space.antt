-- ===== src/Process/Space.antt =====
-- copy_memory and distory_memory of source/kernel/task.c: the memory of a forked task.

pub mod Frames
pub mod Copied
pub mod Tables
pub mod Mirror
use mango_os.Base.{ℕ, zero, suc, ◌+◌, ◌-◌, ◌*◌, Bool, true, false, ◌==◌, add32}
use mango_os.Bitmap.{page_size}
use mango_os.Strings.{kmemcpy}
use mango_os.Page.{align_down, or_shared, present}
use mango_os.Page.Directory.{user_start}
use mango_os.Process.{Cmd, pure, ◌>>=◌, ◌>>◌, gets, load, store, change_memory, new_page, drop_page}

module _ {X : Type 0} where
  -- The inner loop of `distory_memory`, which counts on with `i`. An entry that is present is not 0.
  unfoldable pub drop_entries : ℕ → ℕ → ℕ → Cmd X (Unit {0})
  unfolding drop_page
  drop_entries zero i pte = pure tt
  drop_entries (suc n) i pte = do
    v ← load (add32 pte (4 * i))
    elim (present v) [
      | false ↦ drop_entries n (i + 1) pte
      | true ↦ drop_page v >> drop_entries n (i + 1) pte
    ]

  -- The outer loop. The inner one leaves `i` at the end of the directory, and the pointer to the
  -- table is the whole entry with its flags.
  unfoldable pub drop_tables : ℕ → ℕ → ℕ → Cmd X (Unit {0})
  unfolding drop_entries
  drop_tables zero i pde = pure tt
  drop_tables (suc n) i pde = do
    v ← load (pde + 4 * i)
    elim (present v) [ false ↦ drop_tables n (i + 1) pde | true ↦ drop_entries (suc n) i v ]

  unfoldable pub distory_memory : ℕ → Cmd X (Unit {0})
  unfolding drop_tables
  distory_memory pde = drop_tables (1024 - user_start) user_start pde

  -- The inner loop of `copy_memory`, over the entries from `ppte` and `pte` on; `false` is -1.
  unfoldable pub copy_entries : ℕ → ℕ → ℕ → ℕ → Cmd X Bool
  copy_entries zero pde ppte pte = pure true
  copy_entries (suc n) pde ppte pte = do
    v ← load ppte
    elim (present v) [
      | false ↦ copy_entries n pde (ppte + 4) (pte + 4)
      | true ↦ do
        pg ← new_page
        elim (pg == 0) [
          | true ↦ distory_memory pde >> pure false
          | false ↦ do
            store pte (or_shared pg)
            old ← load ppte
            change_memory (λ m. kmemcpy m pg (align_down old) page_size)
            copy_entries n pde (ppte + 4) (pte + 4)
        ]
    ]

  -- The loop over the directories from entry `i` on.
  unfoldable pub copy_tables : ℕ → ℕ → ℕ → ℕ → Cmd X Bool
  copy_tables zero i ppde pde = pure true
  copy_tables (suc n) i ppde pde = do
    v ← load (ppde + 4 * i)
    elim (present v) [
      | false ↦ copy_tables n (i + 1) ppde pde
      | true ↦ do
        page ← new_page
        elim (page == 0) [
          | true ↦ distory_memory pde >> pure false
          | false ↦ do
            store (pde + 4 * i) (or_shared page)
            table ← load (ppde + 4 * i)
            copied ← copy_entries 1024 pde (align_down table) page
            elim copied [ true ↦ copy_tables n (i + 1) ppde pde | false ↦ pure false ]
        ]
    ]

  unfoldable pub copy_memory : ℕ → Cmd X Bool
  copy_memory pde = do
    ppde ← gets (λ s. s.pages.kernel.cr3 s.pages.kernel.current)
    copy_tables (1024 - user_start) user_start ppde pde
