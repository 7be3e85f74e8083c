-- ===== src/Process/Fork.antt =====
-- copy_open_files, do_fork and sys_fork of source/kernel/task.c.
pub mod Inherit
pub mod Zombies
use mango_os.Base.{
  ℕ, zero, suc, ◌+◌, ◌-◌, ◌^◌, Bool, true, false, ◌==◌, if◌then◌else◌, update, get_or, set,
}
use mango_os.Queue.{Addr}
use mango_os.Kernel.{running, zombie, set_state}
use mango_os.Ipc.{Mutex}
use mango_os.Ipc.Guarded.{Guarded, done, blocked, with_lock}
use mango_os.File
use mango_os.File.{retain}
use mango_os.Task
use mango_os.Task.{task_open_max_files}
use mango_os.Process.{
  Procs, Cmd, ok, waits, pure, ◌>>=◌, ◌>>◌, gets, modify, alloc_task, set_kernel, rq_of, name_of,
}
use mango_os.Process.Space.{copy_memory}
use mango_os.Process.Start.{task_init}

-- The table of open files with its mutex, and the descriptors of each task: a `file_t *` is a place in
-- the table and one, 0 for `NULL`.
pub record OpenFiles : Type 0 where
  pub mutex : Mutex
  pub table : File.FileTable
  pub descriptors : Addr → Task.FileTable

-- `file_inc_ref`
unfoldable pub inc_ref : ℕ → Cmd OpenFiles (Unit {0})
unfolding with_lock retain
inc_ref file s =
    let here : Guarded File.FileTable = record {
      kernel = s.pages.kernel;
      mutex = s.files.mutex;
      inner = s.files.table;
    } in
    elim (with_lock (retain (file - 1)) here) [
      | done a g ↦ ok tt (record (set_kernel s g.kernel) {
        files = record (s.files) { mutex = g.mutex; table = g.inner };
      })
      | blocked g ↦
          waits (record (set_kernel s g.kernel) { files = record (s.files) { mutex = g.mutex } })
    ]

-- `child->open_file_table[i] = file`
abbrev pub set_descriptor : Addr → ℕ → ℕ → Procs OpenFiles → Procs OpenFiles
set_descriptor child i file s =
    let d = s.files.descriptors in
    record s { files = record (s.files) { descriptors = update d child (set (d child) i file) } }

-- The loop of `copy_open_files` from descriptor `i` on. Descriptors that the parent does not use are
-- left as they are.
unfoldable pub inherit_loop : ℕ → ℕ → Addr → Addr → Cmd OpenFiles (Unit {0})
unfolding inc_ref
inherit_loop zero i parent child = pure tt
inherit_loop (suc n) i parent child = do
  file ← gets (λ s. get_or (s.files.descriptors parent) i 0)
  elim (file == 0) [
    | true ↦ inherit_loop n (i + 1) parent child
    | false ↦ do
      inc_ref file
      again ← gets (λ s. get_or (s.files.descriptors parent) i 0)
      modify (set_descriptor child i again)
      inherit_loop n (i + 1) parent child
  ]

unfoldable pub copy_open_files : Addr → Cmd OpenFiles (Unit {0})
unfolding inherit_loop
copy_open_files child = do
  parent ← gets (λ s. s.pages.kernel.current)
  inherit_loop task_open_max_files 0 parent child

-- The state of a task.
abbrev pub mark : Addr → Bool → Procs OpenFiles → Procs OpenFiles
mark child copied s =
    set_kernel s (set_state s.pages.kernel child (if copied then running else zombie))

-- `do_fork` behind `task_init`.
unfoldable pub fill_child : Addr → Addr → ℕ → ℕ → Cmd OpenFiles ℕ
fill_child parent child entry esp = do
  modify
      (λ s. record s { tss = update s.tss child (record (s.tss child) { eip = entry; esp = esp }) })
  copy_open_files child
  modify (λ s. record s { parent = update s.parent child parent })
  dir ← gets (λ s. s.pages.kernel.cr3 child)
  copied ← copy_memory dir
  modify (mark child copied)
  elim copied [ false ↦ pure (2 ^ 32 - 1) | true ↦ gets (λ s. s.pid child) ]

-- What the assembler reads from the stack is given: where the call returns to, and the user's
-- instruction and stack. A pointer is never negative, so a failed `alloc_task` is not seen.
unfoldable pub do_fork : ℕ → ℕ → ℕ → ℕ → Cmd OpenFiles ℕ
do_fork fuel eip entry esp = do
  parent ← gets (λ s. s.pages.kernel.current)
  task ← alloc_task fuel
  task_init fuel task (name_of parent) eip
  fill_child parent (rq_of task) entry esp

-- How `sys_fork` ends: with an answer, or in user mode at an instruction and a stack.
pub data Exit : Type 0 where
  answers : ℕ → Exit
  enters_user : ℕ → ℕ → Exit

unfoldable pub sys_fork : ℕ → ℕ → ℕ → ℕ → Cmd OpenFiles Exit
unfolding do_fork
sys_fork fuel eip entry esp = do
  pid ← do_fork fuel eip entry esp
  tss ← gets (λ s. s.tss s.pages.kernel.current)
  pure (if pid == 0 then enters_user tss.eip tss.esp else answers pid)
