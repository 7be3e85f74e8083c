-- ===== src/Process/Fork/Zombies.antt =====
-- A fork that runs out of pages.
use mango_os.Base.{ℕ, update}
use mango_os.Queue.{Addr}
use mango_os.Kernel.{Kernel}
use mango_os.Process.{Procs}
use mango_os.Process.Fork.{OpenFiles}

-- The state after `fill_child` has copied the files, before it copies the memory.
module _ (parent child : Addr) (entry esp : ℕ) (s : Procs OpenFiles) (f : OpenFiles) where
  abbrev pub before_copy : Procs OpenFiles
  before_copy = record s {
    tss = update s.tss child (record (s.tss child) { eip = entry; esp = esp });
    files = f;
    parent = update s.parent child parent;
  }
