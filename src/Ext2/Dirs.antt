-- ===== src/Ext2/Dirs.antt =====
-- Directories and paths, source/fs/ext2.c: find_inode_in_dir and find_inode_by_path. A name is the
-- list of its bytes. Fuel bounds the walk over the entries of a block, which for a `rec_len` of 0 does
-- not end, the blocks of a directory and the names of a path.
use mango_os.Base.{
  ℕ, zero, suc, ◌+◌, ◌/◌, ◌%◌, ◌^◌, Bool, true, false, not, ◌&&◌, Option, none, some, ◌==◌, ltb,
  if◌then◌else◌, update, List, [], ◌∷◌, length,
}
use mango_os.Queue.{Addr}
use mango_os.Strings.{Memory, word, half, store_word, store_half}
use mango_os.File.{File}
use mango_os.Ext2.{
  Inode, BlockDevice, Cmd, pure, ◌>>=◌, ◌>>◌, gets, given, buffer, put_buffer, mark_dirty, inode,
  put_inode, read_block, modify,
}
use mango_os.Ext2.Bits.{alloc_inode}
use mango_os.Ext2.Names.{iget_name}
use mango_os.Ext2.Inodes.{iget_inode}

-- `S_ISDIR`
abbrev pub is_dir : ℕ → Bool
is_dir mode = mode / 2 ^ 12 % 2 ^ 4 == 4

-- `!kmemcmp(p, name, kstrlen(name))`: the bytes begin with the name.
unfoldable pub starts_with : Memory → ℕ → List ℕ → Bool
starts_with m p [] = true
starts_with m p (c ∷ cs) = (m p == c) && starts_with m (p + 1) cs

-- `kmemcpy(p, name, kstrlen(name))`
unfoldable pub store_name : Memory → ℕ → List ℕ → Memory
store_name m p [] = m
store_name m p (c ∷ cs) = store_name (update m p c) (p + 1) cs

-- How a walk over the entries of a block ends: at an entry with the name, whose inode this is, or
-- with the first free entry so far, by its buffer and place.
pub data Walk : Type 0 where
  found : ℕ → Walk
  passed : Option (ℕ × ℕ) → Walk

abbrev pub first_empty : Option (ℕ × ℕ) → Bool → ℕ × ℕ → Option (ℕ × ℕ)
first_empty (some e) free place = some e
first_empty none free place = if free then some place else none

-- From the entry at `at` on, in the bytes of buffer `bb`.
unfoldable pub walk_entries : ℕ → Memory → ℕ → ℕ → List ℕ → ℕ → Option (ℕ × ℕ) → Option Walk
unfolding starts_with
walk_entries zero m size bb name at empty = none
walk_entries (suc n) m size bb name at empty =
    let free = word m at == 0 in
    let rest =
      walk_entries n m size bb name (at + half m (at + 4)) (first_empty empty free (bb, at)) in
    elim (ltb at size) [
      | false ↦ some (passed empty)
      | true ↦ elim (not free && starts_with m (at + 8) name) [
        | true ↦ some (found (word m at))
        | false ↦ rest
      ]
    ]

-- A new entry at `at`. Its `rec_len` ends behind the name.
unfoldable pub store_entry : Memory → ℕ → ℕ → List ℕ → Memory
unfolding store_name
store_entry m at ino name =
    let m1 = store_word at ino m in
    let m2 = store_name m1 (at + 8) name in
    let m3 = update m2 (at + 6) (length name % 2 ^ 8) in store_half (at + 4) (8 + length name) m3

-- `(mode & O_CREAT) == O_CREAT`
abbrev pub creates : ℕ → Bool
creates mode = mode / 64 % 2 == 1

module _ {W : Type 0} (dev : BlockDevice W) (fuel : ℕ) where
  -- A file's name in a new entry. Without a free entry `dir_empty` is `NULL`. The last block read,
  -- `last`, is marked.
  unfoldable pub create : ℕ → Option (ℕ × ℕ) → List ℕ → Cmd W (Option Addr)
  unfolding alloc_inode iget_inode store_entry
  create last empty name = do
    s ← gets (λ v. v.super)
    taken ← given (alloc_inode fuel s)
    modify (λ v. record v { super = taken.1 })
    node ← iget_inode dev taken.0
    place ← given empty
    b ← buffer place.0
    put_buffer place.0 (record b { bytes = store_entry b.bytes place.1 taken.0 name })
    mark_dirty last
    pure node

  -- The loop over the blocks of a directory from `pos` on, on the rounds left.
  unfoldable pub dir_loop :
      ℕ → File → Inode → List ℕ → ℕ → ℕ → ℕ → Option (ℕ × ℕ) → Cmd W (Option Addr × File)
  unfolding walk_entries iget_inode create
  dir_loop zero file dir name at_end pos last empty = given none
  dir_loop (suc n) file dir name at_end pos last empty = do
    s ← gets (λ v. v.super)
    elim (ltb pos dir.i_size) [
      | false ↦ elim (creates file.mode && not (at_end == 0)) [
        | false ↦ pure (none, file)
        | true ↦ create last empty name >>= λ node. pure (node, file)
      ]
      | true ↦ read_block dev (dir.i_block (pos / s.block_size)) >>= λ o. elim o [
        | none ↦ pure (none, file)
        | some bb ↦ do
          b ← buffer bb
          walk ← given (walk_entries fuel b.bytes s.block_size bb name 0 empty)
          elim walk [
            | found ino ↦ iget_inode dev ino >>= λ node. pure (node, record file { ino = ino })
            | passed empty' ↦ dir_loop n file dir name at_end (pos + s.block_size) bb empty'
          ]
      ]
    ]

  unfoldable pub find_inode_in_dir : File → Addr → List ℕ → ℕ → Cmd W (Option Addr × File)
  unfolding dir_loop
  find_inode_in_dir file a name at_end = do
    dir ← gets (inode a)
    elim (is_dir dir.i_mode) [
      | false ↦ pure (none, file)
      | true ↦ dir_loop fuel file dir name at_end 0 0 none
    ]

  -- The loop over the names of a path; `a` is the inode so far.
  unfoldable pub path_loop : ℕ → File → Option Addr → ℕ → ℕ → Cmd W (Option Addr × File)
  unfolding iget_name find_inode_in_dir
  path_loop zero file reached path at_end = given none
  path_loop (suc n) file reached path at_end = do
    m ← gets (λ v. v.memory)
    step ← given (iget_name fuel m path at_end)
    elim step [
      | none ↦ pure (reached, file)
      | some (next, name, at_end') ↦ do
        a ← given reached
        (child, file') ← find_inode_in_dir file a name at_end'
        elim child [
          | none ↦ pure (none, file')
          | some c ↦ do
            i ← gets (inode c)
            put_inode c (record i { parent = a })
            path_loop n file' (some c) next at_end'
        ]
    ]

  unfoldable pub find_inode_by_path : File → ℕ → Cmd W (Option Addr × File)
  unfolding iget_inode path_loop
  find_inode_by_path file path = do root ← iget_inode dev 2; path_loop fuel file root path 1
