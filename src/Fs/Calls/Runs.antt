-- ===== src/Fs/Calls/Runs.antt =====
-- How the calls end when nobody holds the mutexes.
use mango_os.Base.{
  ℕ, zero, suc, ◌+◌, ◌<◌, ◌≡◌, ◌∙◌, ap, true, some, [], ◌∷◌, dec32, length-set, get_elem?, get_or,
  set, length, update, arith,
}
use mango_os.File.{File, FileTable, blank_file, claim, release}
use mango_os.File.Table.{Claimed, get_or-set_self}
use mango_os.Task.{task_alloc_fd, task_free_fd, task_open_max_files}
use mango_os.Task.Files.{free_fd-alloc_fd}
use mango_os.Ipc.Guarded.{Guarded, IsFree, with_lock-IsFree}
use mango_os.Fs.{FsOps, System, returns, with_files, with_fs, around}
use mango_os.Fs.Mounts.{fs_of}
use mango_os.Fs.Calls.{is_error, sys_open}

module _ {V : Type 0} where
  -- Nobody holds the mutex of the table of files.
  abbrev pub FilesFree : System V → Type 0
  FilesFree s =
      IsFree {S = FileTable} (record { kernel = s.kernel; mutex = s.files_mutex; inner = s.files })

  -- Nobody holds the mutex of file system `i`, which is mounted.
  abbrev pub FsFree : ℕ → System V → Type 0
  FsFree i s =
      ((s.fs_table i).has_op ≡ true)
      × IsFree {S = V} (record {
        kernel = s.kernel;
        mutex = (s.fs_table i).mutex;
        inner = (s.fs_table i).volume;
      })

  pub with_files-FilesFree :
      {A : Type 0} (f : FileTable → A × FileTable) (s : System V)
      → FilesFree s
      → with_files f s ≡ returns (f s.files).0 (record s { files = (f s.files).1 })
  unfolding with_files
  with_files-FilesFree f s free = ground (
    arith,
    with_lock-IsFree f (record { kernel = s.kernel; mutex = s.files_mutex; inner = s.files }) free,
  )

  with_fs-FsFree :
      {A : Type 0} (i n : ℕ) (f : File → V → A × File × V) (s : System V)
      → FsFree i s
      → let r = f (get_or s.files n blank_file) (s.fs_table i).volume in
        with_fs i n f s
        ≡ returns r.0 (record s {
          files = set s.files n r.1;
          fs_table = update s.fs_table i (record (s.fs_table i) { volume = r.2 });
        })
  unfolding with_fs
  with_fs-FsFree i n f s (mounted, free) =
      let here : Guarded (File × V) = record {
        kernel = s.kernel;
        mutex = (s.fs_table i).mutex;
        inner = (get_or s.files n blank_file, (s.fs_table i).volume);
      } in
      ground (arith, mounted, with_lock-IsFree (λ x. around (f x.0 x.1)) here free)

held_lt : (t : FileTable) (n : ℕ) (f : File) → get_elem? t n ≡ some f → n < length t
held_lt [] n f e = cc
held_lt (x ∷ t) zero f e = omega arith
held_lt (x ∷ t) (suc n) f e = omega (arith, held_lt t n f e)

held_get_or :
    (t : FileTable) (n : ℕ) (f : File) → get_elem? t n ≡ some f → get_or t n blank_file ≡ f
held_get_or [] n f e = cc
held_get_or (x ∷ t) zero f e = cc
held_get_or (x ∷ t) (suc n) f e = held_get_or t n f e

held_inside : (t : FileTable) (n : ℕ) (f : File) → n < length t → n < length (set t n f)
held_inside t n f h = omega (arith, length-set t n f)

-- The last holder's release leaves nobody.
release-ref :
    (t : FileTable) (n : ℕ)
    → n < length t
    → (get_or t n blank_file).ref ≡ 1
    → (get_or (release n t).1 n blank_file).ref ≡ 0
unfolding release
release-ref t n h e =
    let f = record (get_or t n blank_file) { ref = dec32 (get_or t n blank_file).ref } in
    let put : (get_or (set t n f) n blank_file).ref ≡ dec32 (get_or t n blank_file).ref =
      ap (λ f. f.ref) (get_or-set_self t n f h) in
    ground (arith, put)

module _ {V : Type 0} (ops : FsOps V) (name mode : ℕ) (s : System V) where
  -- The state with the file claimed, a descriptor taken and the file's fields set.
  abbrev pub prepared : ℕ → System V
  prepared i =
      let n = (claim s.files).0 in
      let t = (claim s.files).1 in
      record s {
        descriptors = (task_alloc_fd (n + 1) s.descriptors).1;
        files = set t n (record (get_or t n blank_file) { mode = mode; fs = i + 1 });
      }

  -- What the operation of file system `i` gives for the file that was claimed.
  abbrev pub opened : ℕ → ℕ × File × V
  opened i =
      ops.open_file (get_or (prepared i).files (claim s.files).0 blank_file) name
        (s.fs_table i).volume

  -- sys_open on a file system whose operation fails on the file and does not change who holds it, with
  -- a free entry and a free descriptor and the mutexes free: the operation's error comes back, the
  -- descriptors are what they were, the volume is as the operation left it, and nobody holds the file.
  pub sys_open-gives_back :
      (fd i : ℕ)
      → FilesFree s
      → Claimed s.files (claim s.files)
      → length s.descriptors ≡ task_open_max_files
      → (task_alloc_fd ((claim s.files).0 + 1) s.descriptors).0 ≡ some fd
      → fs_of s name ≡ some i
      → FsFree i s
      → is_error (opened i).0 ≡ true
      → (opened i).1.ref ≡ (get_or (prepared i).files (claim s.files).0 blank_file).ref
      → (s' : System V) × (sys_open ops name mode s ≡ returns (opened i).0 s')
        × ((s'.fs_table i).volume ≡ (opened i).2)
        × (s'.descriptors ≡ s.descriptors)
        × ((get_or s'.files (claim s.files).0 blank_file).ref ≡ 0)
  unfolding sys_open fs_of
  sys_open-gives_back fd i free claimed len e_fd e_fs fs_free fails kept =
      let n = (claim s.files).0 in
      let s3 = prepared i in
      let file = record (get_or (claim s.files).1 n blank_file) { mode = mode; fs = i + 1 } in
      let inside1 = held_lt (claim s.files).1 n _ claimed.now_held in
      let inside3 = held_inside (claim s.files).1 n file inside1 in
      let r = ops.open_file (get_or s3.files n blank_file) name (s3.fs_table i).volume in
      let s4 = record s3 {
        descriptors = task_free_fd fd s3.descriptors;
        files = set s3.files n r.1;
        fs_table = update s3.fs_table i (record (s3.fs_table i) { volume = r.2 });
      } in
      (
        record s4 { files = (release n s4.files).1 },
        ground (
          arith,
          with_files-FilesFree claim s free,
          e_fd,
          e_fs,
          with_fs-FsFree i n (λ f v. ops.open_file f name v) s3 fs_free,
          fails,
          with_files-FilesFree (release n) s4 free,
        ),
        ground arith,
        free_fd-alloc_fd (n + 1) s.descriptors fd len e_fd,
        release-ref s4.files n (held_inside s3.files n r.1 inside3) (
            ap (λ f. f.ref) (get_or-set_self s3.files n r.1 inside3)
            ∙ kept
            ∙ ap (λ f. f.ref) (get_or-set_self (claim s.files).1 n file inside1)
            ∙ ap (λ f. f.ref) (held_get_or (claim s.files).1 n _ claimed.now_held)),
      )
