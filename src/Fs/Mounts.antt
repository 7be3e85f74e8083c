-- ===== src/Fs/Mounts.antt =====
-- Mounting and looking a path up, source/fs/fs.c: op_from_fs, mount and the search that sys_open and
-- sys_unlink share.
use mango_os.Base.{
  ℕ, zero, suc, ◌+◌, Bool, true, false, Option, none, some, List, ◌==◌, leb, if◌then◌else◌, update,
  ◌^◌,
}
use mango_os.Strings.{Memory}
use mango_os.Ipc.{Mutex}
use mango_os.Fs.{Fs, FsOps, System, max_mount, begins}
use mango_os.Ext2.Dirs.{starts_with}

-- `FS_EXT2`
abbrev pub fs_ext2 : ℕ
fs_ext2 = 1

-- Whether a type has operations; all others are `NULL`.
abbrev pub op_from_fs : ℕ → Bool
op_from_fs type = type == fs_ext2

module _ {V : Type 0} where
  abbrev first_free : Option ℕ → Fs V → ℕ → Option ℕ
  first_free (some k) fs i = some k
  first_free none fs i = if fs.fs_type == 0 then some i else none

  -- The loop of `mount` from entry `i` on: `none` is a mount point that is in use, else the first
  -- entry with type 0, if there is one.
  unfoldable pub free_loop : ℕ → ℕ → (ℕ → Fs V) → List ℕ → Option ℕ → Option (Option ℕ)
  unfolding begins
  free_loop zero i table point free_index = some free_index
  free_loop (suc n) i table point free_index =
      let rest = free_loop n (i + 1) table point (first_free free_index (table i) i) in
      if begins (table i).mount_point point then none else rest

  -- `fs_table[k]` after the operation `mount` of a file system of type `type`, with its mutex.
  abbrev pub mounted : Fs V → ℕ → List ℕ → V → Mutex → Fs V
  mounted fs type point v m = record fs {
    mount_point = point;
    fs_type = type;
    has_op = true;
    volume = v;
    mutex = m;
  }

  -- The outer `none` is a call through `NULL`, the inner one the answer `NULL`. The operation's mutex
  -- is `m`, which an entry gets when it is mounted. One that could not be mounted keeps its mount
  -- point and type.
  unfoldable pub mount :
      FsOps V → ℕ → List ℕ → ℕ → ℕ → Mutex → (ℕ → Fs V) → Option (Option ℕ × (ℕ → Fs V))
  unfolding free_loop
  mount ops type point major minor m table = elim (free_loop max_mount 0 table point none) [
    | none ↦ some (none, table)
    | some none ↦ some (none, table)
    | some (some k) ↦ elim (op_from_fs type) [
      | false ↦ none
      | true ↦
          let (dev_id, v) = ops.mount major minor (table k).volume in
          let fails = leb (2 ^ 31) dev_id in
          let m' = if fails then (table k).mutex else m in
          let table' = update table k (mounted (table k) type point v m') in
          some (if fails then none else some k, table')
    ]
  ]

  -- The loop over the mounted file systems from entry `i` on: the first whose mount point the path
  -- begins with.
  unfoldable pub find_fs : ℕ → ℕ → (ℕ → Fs V) → Memory → ℕ → Option ℕ
  unfolding starts_with
  find_fs zero i table m name = none
  find_fs (suc n) i table m name =
      let rest = find_fs n (i + 1) table m name in
      if starts_with m name (table i).mount_point then some i else rest

  -- `if (!fs) fs = root`
  unfoldable pub fs_of : System V → ℕ → Option ℕ
  unfolding find_fs
  fs_of s name = elim (find_fs max_mount 0 s.fs_table s.memory name) [
    | some i ↦ some i
    | none ↦ s.root
  ]
