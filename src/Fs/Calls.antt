-- ===== src/Fs/Calls.antt =====
-- The calls of source/fs/fs.c on files. A descriptor that is not negative is looked up in the current
-- task's table; behind the table's end the code reads other memory, and the model is stuck.
pub mod Runs
pub mod Faults
use mango_os.Base.{
  ℕ, zero, suc, ◌+◌, ◌-◌, ◌/◌, ◌%◌, ◌^◌, Bool, true, false, Option, none, some, ◌==◌, leb, ltb,
  get_elem?, if◌then◌else◌,
}
use mango_os.File.{File, max_open_files, claim, release}
use mango_os.Ipc.{Mutex}
use mango_os.Fs.{
  Fs, FsOps, System, Call, Step, stuck, pure, ◌>>=◌, ◌>>◌, with_files, with_fs, set_file, file_at,
  take_fd, give_fd, max_mount, returns,
}
use mango_os.Fs.Mounts.{fs_of}

-- -1 and `-ETMFILES`
abbrev pub failed : ℕ
failed = 2 ^ 32 - 1

abbrev pub too_many_files : ℕ
too_many_files = 2 ^ 32 - 13

-- `err < 0`
abbrev pub is_error : ℕ → Bool
is_error err = leb (2 ^ 31) err

module _ {V : Type 0} (ops : FsOps V) where
  -- The entry of the file system, or a null pointer.
  abbrev pub the_fs : ℕ → Step V ℕ
  the_fs name s = elim (fs_of s name) [ none ↦ stuck | some i ↦ returns i s ]

  -- What `sys_open` and `sys_unlink` do on an error.
  abbrev pub give_back : ℕ → ℕ → Step V (Unit {0})
  give_back n fd = give_fd fd >> with_files (release n)

  -- `file->pos = file->inode->i_size` in append mode.
  abbrev pub seek_end : ℕ → ℕ → ℕ → Step V (Unit {0})
  seek_end n i mode s = elim (mode / 8 % 2 == 1) [
    | false ↦ returns tt s
    | true ↦
        (file_at n >>= λ file.
        set_file n (record file { pos = ops.i_size file (s.fs_table i).volume }))
          s
  ]

  -- Without a descriptor the file stays claimed.
  unfoldable pub sys_open : ℕ → ℕ → Step V ℕ
  unfolding with_files with_fs
  sys_open name mode = do
    n ← with_files claim
    o ← take_fd n
    elim o [
      | none ↦ pure too_many_files
      | some fd ↦ do
        i ← the_fs name
        file ← file_at n
        set_file n (record file { mode = mode; fs = i + 1 })
        err ← with_fs i n (λ f v. ops.open_file f name v)
        elim (is_error err) [
          | true ↦ give_back n fd >> pure err
          | false ↦ seek_end n i mode >> pure fd
        ]
    ]

  -- A call on the file of a descriptor; -1 for a descriptor that has none.
  unfoldable pub on_file : ℕ → (ℕ → Step V ℕ) → Step V ℕ
  on_file fd f s = elim (leb max_open_files fd) [
    | true ↦ returns failed s
    | false ↦ elim (get_elem? s.descriptors fd) [
      | none ↦ stuck
      | some p ↦ elim (p == 0) [ true ↦ returns failed s | false ↦ f (p - 1) s ]
    ]
  ]

  -- An operation of the file's own file system.
  unfoldable pub on_fs : {A : Type 0} → ℕ → (File → V → A × File × V) → Step V A
  unfolding with_fs
  on_fs n f = file_at n >>= λ file. with_fs (file.fs - 1) n f

  unfoldable pub sys_read : ℕ → ℕ → ℕ → Step V ℕ
  unfolding on_file on_fs
  sys_read fd user len = on_file fd λ n. on_fs n (λ f v. ops.read f user len v)

  unfoldable pub sys_write : ℕ → ℕ → ℕ → Step V ℕ
  unfolding on_file on_fs
  sys_write fd user len = on_file fd λ n. on_fs n (λ f v. ops.write f user len v)

  unfoldable pub sys_seek : ℕ → ℕ → Step V ℕ
  unfolding on_file on_fs
  sys_seek fd offset = on_file fd λ n. on_fs n (λ f v. ops.seek f offset v) >> pure 0

  -- The loop of `sys_sync` from entry `i` on; an entry that is not mounted is a null pointer.
  unfoldable pub sync_loop : ℕ → ℕ → Step V (Unit {0})
  unfolding with_fs
  sync_loop zero i = pure tt
  sync_loop (suc n) i = with_fs i max_open_files (λ f v. (tt, f, ops.sync v)) >> sync_loop n (i + 1)

  unfoldable pub sys_sync : Step V ℕ
  unfolding sync_loop
  sys_sync = sync_loop max_mount 0 >> pure 0

  -- The last holder of a file closes it in its file system.
  unfoldable pub sys_close : ℕ → Step V ℕ
  unfolding on_file on_fs with_files
  sys_close fd = on_file fd λ n. do
    with_files (release n)
    file ← file_at n
    elim (file.ref == 0) [ false ↦ pure tt | true ↦ on_fs n (λ f v. (tt, f, ops.close f v)) ]
    give_fd fd
    pure 0

  unfoldable pub sys_unlink : ℕ → Step V ℕ
  unfolding with_files with_fs
  sys_unlink name = do
    n ← with_files claim
    o ← take_fd n
    elim o [
      | none ↦ pure too_many_files
      | some fd ↦ do
        i ← the_fs name
        file ← file_at n
        set_file n (record file { fs = i + 1 })
        err ← with_fs i n (λ f v. ops.unlink f name v)
        with_files (release n)
        give_fd fd
        pure err
    ]
