-- ===== src/Fs/Calls/Faults.antt =====
-- Calls of source/fs/fs.c that keep a file, or go through `NULL`.
use mango_os.Base.{
  ℕ, ◌+◌, ◌≡◌, ◌≢◌, ◌∙◌, refl, ap, true, false, none, some, [], ◌∷◌, get_elem?, get_or, arith,
}
use mango_os.Strings.{Memory}
use mango_os.File.{blank_file, claim}
use mango_os.File.Table.{Claimed}
use mango_os.Task.{task_alloc_fd}
use mango_os.Ext2.Names.{slash}
use mango_os.Ext2.Dirs.{starts_with}
use mango_os.Fs.{FsOps, System, returns, stuck, with_fs}
use mango_os.Fs.Mounts.{find_fs, fs_of}
use mango_os.Fs.Calls.{sys_open, too_many_files}
use mango_os.Fs.Calls.Runs.{FilesFree, with_files-FilesFree}

-- The root file system stands in the first entry, and the second was never mounted: its mount point
-- is the empty text, and its operations are `NULL`.
pub record OnlyRoot {V : Type 0} (s : System V) : Type 0 where
  pub root_at : (s.fs_table 0).mount_point ≡ slash ∷ []
  pub blank_at : (s.fs_table 1).mount_point ≡ []
  pub no_op : (s.fs_table 1).has_op ≡ false

relative : (m : Memory) (p : ℕ) → m p ≢ slash → starts_with m p (slash ∷ []) ≡ false
unfolding starts_with
relative m p ne = ground arith

starts_with-empty : (m : Memory) (p : ℕ) → starts_with m p [] ≡ true
unfolding starts_with
starts_with-empty m p = refl

fs_of-relative :
    {V : Type 0} (s : System V) (name : ℕ)
    → OnlyRoot s
    → s.memory name ≢ slash
    → fs_of s name ≡ some 1
unfolding fs_of find_fs
fs_of-relative s name o ne =
    let not_root : starts_with s.memory name (s.fs_table 0).mount_point ≡ false =
      ap (starts_with s.memory name) o.root_at ∙ relative s.memory name ne in
    let blank : starts_with s.memory name (s.fs_table 1).mount_point ≡ true =
      ap (starts_with s.memory name) o.blank_at ∙ starts_with-empty s.memory name in
    ground (arith, not_root, blank)

module _ {V : Type 0} (ops : FsOps V) (name mode : ℕ) (s : System V) (free : FilesFree s)
    (claimed : Claimed s.files (claim s.files)) where
  -- Without a free descriptor sys_open answers -ETMFILES and changes nothing but the table of files,
  -- where the entry that it claimed stays held by nobody's descriptor.
  pub sys_open-leaks :
      (task_alloc_fd ((claim s.files).0 + 1) s.descriptors) ≡ (none, s.descriptors)
      → (sys_open ops name mode s ≡ returns too_many_files (record s { files = (claim s.files).1 }))
        × (get_elem? (claim s.files).1 (claim s.files).0
            ≡ some (record (get_or s.files (claim s.files).0 blank_file) { ref = 1 }))
  unfolding sys_open
  sys_open-leaks full = (ground (arith, with_files-FilesFree claim s free, full), claimed.now_held)

  -- With only the root file system mounted, a path that does not begin with a slash is taken to the
  -- second entry, since its mount point is the empty text, and the call goes through `NULL`.
  pub sys_open-stuck :
      (fd : ℕ)
      → (task_alloc_fd ((claim s.files).0 + 1) s.descriptors).0 ≡ some fd
      → OnlyRoot s
      → s.memory name ≢ slash
      → sys_open ops name mode s ≡ stuck
  unfolding sys_open with_fs fs_of
  sys_open-stuck fd e o ne =
      ground (arith, with_files-FilesFree claim s free, e, fs_of-relative s name o ne, o.no_op)
