-- ===== src/Fs.antt =====
-- source/fs/fs.c and source/include/fs.h: the calls on files. The operations of a file system are an
-- interface, as `fs_op_t` is; a file and a file system are known by their places in their tables, and
-- a `file_t *` is a place and one, 0 for `NULL`.
pub mod Mounts
pub mod Calls
use mango_os.Base.{
  ℕ, zero, suc, ◌+◌, ◌-◌, ◌/◌, ◌%◌, ◌^◌, Bool, true, false, not, ◌&&◌, ◌||◌, Option, none, some,
  List, [], ◌∷◌, ◌==◌, ltb, leb, if◌then◌else◌, update, get_or, set,
}
use mango_os.Strings.{Memory}
use mango_os.Kernel.{Kernel}
use mango_os.Ipc.{Mutex}
use mango_os.Ipc.Guarded.{Guarded, Outcome, done, blocked, with_lock}
use mango_os.File.{File, FileTable, blank_file, claim, release}
use mango_os.Task.{task_alloc_fd, task_free_fd}

abbrev pub max_mount : ℕ
max_mount = 10

-- `fs_op_t`, on the data of a mounted file system. Answers are `int` patterns. `i_size` is
-- `file->inode->i_size`.
pub record FsOps (V : Type 0) : Type 0 where
  pub mount : ℕ → ℕ → V → ℕ × V
  pub open_file : File → ℕ → V → ℕ × File × V
  pub read : File → ℕ → ℕ → V → ℕ × File × V
  pub write : File → ℕ → ℕ → V → ℕ × File × V
  pub seek : File → ℕ → V → ℕ × File × V
  pub sync : V → V
  pub close : File → V → V
  pub unlink : File → ℕ → V → ℕ × File × V
  pub i_size : File → V → ℕ

-- `fs_t`. Its `op` is `NULL` or the one of ext2; with `NULL` the mutex is `NULL` as well.
pub record Fs (V : Type 0) : Type 0 where
  pub mount_point : List ℕ
  pub fs_type : ℕ
  pub has_op : Bool
  pub volume : V
  pub mutex : Mutex

-- `fs_table` and `root`, the table of open files with its mutex, the current task's descriptors, and
-- the memory of the task.
pub record System (V : Type 0) : Type 0 where
  pub kernel : Kernel
  pub files_mutex : Mutex
  pub files : FileTable
  pub descriptors : List ℕ
  pub fs_table : ℕ → Fs V
  pub root : Option ℕ
  pub memory : Memory

-- A call returns, waits for a mutex, or is stuck at a null pointer.
pub data Call (V A : Type 0) : Type 0 where
  returns : A → System V → Call V A
  waits : System V → Call V A
  stuck : Call V A

abbrev pub Step : Type 0 → Type 0 → Type 0
Step V A = System V → Call V A

-- A text begins with another: `kmemcmp(text, start, kstrlen(start)) == 0`.
unfoldable pub begins : List ℕ → List ℕ → Bool
begins text [] = true
begins [] (c ∷ cs) = false
begins (d ∷ text) (c ∷ cs) = (d == c) && begins text cs

module _ {V : Type 0} where
  abbrev pub pure : {A : Type 0} → A → Step V A
  pure a s = returns a s

  infixl 5 ◌>>=◌ ◌>>◌
  abbrev pub ◌>>=◌ : {A B : Type 0} → Step V A → (A → Step V B) → Step V B
  ◌>>=◌ m f s = elim (m s) [ returns a s' ↦ f a s' | waits s' ↦ waits s' | stuck ↦ stuck ]

  abbrev pub ◌>>◌ : {A B : Type 0} → Step V A → Step V B → Step V B
  m >> n = m >>= λ _. n

  -- A section of file.c.
  unfoldable pub with_files : {A : Type 0} → (FileTable → A × FileTable) → Step V A
  with_files f s =
      elim (with_lock f (record { kernel = s.kernel; mutex = s.files_mutex; inner = s.files })) [
        | done a g ↦
            returns a (record s { kernel = g.kernel; files_mutex = g.mutex; files = g.inner })
        | blocked g ↦ waits (record s { kernel = g.kernel; files_mutex = g.mutex; files = g.inner })
      ]

  abbrev around : {A : Type 0} → A × File × V → A × (File × V)
  around (a, file, v) = (a, (file, v))

  -- An operation of file system `i` on file `n`, between `mutex_lock` and `mutex_unlock`.
  unfoldable pub with_fs : {A : Type 0} → ℕ → ℕ → (File → V → A × File × V) → Step V A
  with_fs i n f s =
      let fs = s.fs_table i in
      let here : Guarded (File × V) = record {
        kernel = s.kernel;
        mutex = fs.mutex;
        inner = (get_or s.files n blank_file, fs.volume);
      } in
      elim fs.has_op [
        | false ↦ stuck
        | true ↦ elim (with_lock (λ x. around (f x.0 x.1)) here) [
          | done a g ↦ returns a (record s {
            kernel = g.kernel;
            files = set s.files n g.inner.0;
            fs_table = update s.fs_table i (record fs { mutex = g.mutex; volume = g.inner.1 });
          })
          | blocked g ↦ waits (record s {
            kernel = g.kernel;
            fs_table = update s.fs_table i (record fs { mutex = g.mutex });
          })
        ]
      ]

  abbrev pub set_file : ℕ → File → Step V (Unit {0})
  set_file n file s = returns tt (record s { files = set s.files n file })

  abbrev pub file_at : ℕ → Step V File
  file_at n s = returns (get_or s.files n blank_file) s

  -- `task_alloc_fd(file)` and `task_free_fd(fd)`
  abbrev pub take_fd : ℕ → Step V (Option ℕ)
  take_fd n s =
      let (fd, t) = task_alloc_fd (n + 1) s.descriptors in returns fd (record s { descriptors = t })

  abbrev pub give_fd : ℕ → Step V (Unit {0})
  give_fd fd s = returns tt (record s { descriptors = task_free_fd fd s.descriptors })
