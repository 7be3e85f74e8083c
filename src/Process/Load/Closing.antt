-- ===== src/Process/Load/Closing.antt =====
-- load_elf_file gives the file that it opened back on every way out, and ends.
use mango_os.Base.{ℕ}
use mango_os.Process.{Run}
use mango_os.Process.Ends.{Ends}
use mango_os.Process.Load.{FileCalls}
use mango_os.Process.Load.Opens.{Opens}

module _ {X : Type 0} (calls : FileCalls X) (Closed : X → Type 0) (Opened : ℕ → X → Type 0)
    (law : Opens calls Closed Opened) (fd : ℕ) where
  -- The call has closed the file, or waits with it open.
  abbrev Closes : Run X ℕ → Type 0
  Closes = Ends (λ a s. Closed s.files) (λ s. Opened fd s.files)
