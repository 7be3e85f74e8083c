-- ===== src/File.antt =====
-- source/fs/file.c and source/include/file.h: the table of open files, shared by all tasks. A
-- `file_t *` into the table is an index.
pub mod Table
use mango_os.Base.{
  ℕ, ◌-◌, Bool, Option, none, some, List, ◌==◌, if◌then◌else◌, get_or, set, find_index, is_pos32,
  inc32, dec32,
}
use mango_os.Queue.{Addr}
use mango_os.Kernel.{Kernel}
use mango_os.Ipc.{mutex_init}
use mango_os.Ipc.Guarded.{Guarded, Outcome, with_lock}

-- `file_t`. Pointers are addresses, 0 for `NULL`.
pub record File : Type 0 where
  pub type : ℕ
  pub pos : ℕ
  pub mode : ℕ
  pub start_block : ℕ
  pub cur_block : ℕ
  pub ino : ℕ
  pub inode : ℕ
  pub ref : ℕ
  pub fs : ℕ

abbrev pub max_open_files : ℕ
max_open_files = 2048

abbrev pub blank_file : File
blank_file = record {
  type = 0;
  pos = 0;
  mode = 0;
  start_block = 0;
  cur_block = 0;
  ino = 0;
  inode = 0;
  ref = 0;
  fs = 0;
}

abbrev pub FileTable : Type 0
FileTable = List File

abbrev pub unused : File → Bool
unused f = f.ref == 0

-- The loop of `alloc_file`. When it ends by its count, `file` is the last entry.
unfoldable pub claim : FileTable → ℕ × FileTable
claim t = elim (find_index unused t) [
  | none ↦ (max_open_files - 1, t)
  | some i ↦ (i, set t i (record (get_or t i blank_file) { ref = 1 }))
]

unfoldable pub release : ℕ → FileTable → Unit {0} × FileTable
release i t =
    let f = get_or t i blank_file in
    (tt, if is_pos32 f.ref then set t i (record f { ref = dec32 f.ref }) else t)

unfoldable pub retain : ℕ → FileTable → Unit {0} × FileTable
retain i t = let f = get_or t i blank_file in (tt, set t i (record f { ref = inc32 f.ref }))

-- The mutex is set up with its queue at this address.
unfoldable pub file_table_init : Kernel → Addr → FileTable → Guarded FileTable
file_table_init k queue t =
    let (k', mutex') = mutex_init k queue in record { kernel = k'; mutex = mutex'; inner = t }

pub alloc_file : Guarded FileTable → Outcome ℕ FileTable
alloc_file = with_lock claim

pub free_file : ℕ → Guarded FileTable → Outcome (Unit {0}) FileTable
free_file i = with_lock (release i)

pub file_inc_ref : ℕ → Guarded FileTable → Outcome (Unit {0}) FileTable
file_inc_ref i = with_lock (retain i)
