-- ===== src/Ext2/Inodes.antt =====
-- The inodes of a group in memory, source/fs/ext2.c: write_inode and iget_inode. A group's cache has
-- the inodes of five pages of its table from the block `inode_begin` on.
use mango_os.Base.{
  ℕ, zero, suc, ◌+◌, ◌-◌, ◌*◌, ◌/◌, ◌%◌, ◌^◌, Bool, true, false, ◌||◌, Option, none, some, ◌==◌,
  ltb, add32, sub32, mul32,
}
use mango_os.Queue.{Addr}
use mango_os.Strings.{Memory, word, half, store_word, store_half}
use mango_os.Ext2.{
  Inode, SuperBlock, BlockDevice, Cmd, pure, ◌>>=◌, ◌>>◌, gets, buffer, put_buffer, put_group,
  put_inode, inode_at, read_block, write_sectors, sector_of,
}
use mango_os.Ext2.Blocks.{or_else}

-- `kmemcpy(data + at, i_block, 15 * 4)`, on the pointers from `k` on.
unfoldable pub store_pointers : ℕ → ℕ → (ℕ → ℕ) → ℕ → Memory → Memory
store_pointers zero k pointers at m = m
store_pointers (suc n) k pointers at m =
    store_pointers n (k + 1) pointers at (store_word (at + 4 * k) (pointers k) m)

-- The fields of an inode that lies at `step` in a block. `i_gid` is written from `i_uid`, as in the
-- code, and `i_mode` is not written.
unfoldable pub store_inode : ℕ → Inode → Memory → Memory
unfolding store_pointers
store_inode step i m =
    let m1 = store_word (step + 28) i.i_blocks m in
    let m2 = store_half (step + 2) i.i_uid m1 in
    let m3 = store_half (step + 24) i.i_uid m2 in
    let m4 = store_word (step + 4) i.i_size m3 in
    let m5 = store_word (step + 8) i.i_atime m4 in
    let m6 = store_word (step + 16) i.i_mtime m5 in
    let m7 = store_word (step + 12) i.i_ctime m6 in store_pointers 15 0 i.i_block (step + 40) m7

-- `parent` stays what it is.
unfoldable pub load_inode : Memory → ℕ → Inode → Inode
load_inode m step i = record i {
  i_mode = half m step;
  i_blocks = word m (step + 28) % 2 ^ 16;
  i_uid = half m (step + 2);
  i_gid = half m (step + 24);
  i_size = word m (step + 4);
  i_atime = word m (step + 8);
  i_mtime = word m (step + 16);
  i_ctime = word m (step + 12);
  i_block = λ k. word m (step + 40 + 4 * k);
}

abbrev pub num_in_cache : SuperBlock → ℕ
num_in_cache s = 4096 * 5 / s.inode_size

abbrev pub num : SuperBlock → ℕ
num s = s.block_size / s.inode_size

-- The block of the table and the place in it that hold an inode of a group.
abbrev pub inode_block : SuperBlock → ℕ → ℕ → ℕ
inode_block s g index =
    add32 (s.group_table g).inode_table (mul32 index s.inode_size / s.block_size)

abbrev pub inode_offset : SuperBlock → ℕ → ℕ
inode_offset s index = mul32 index s.inode_size % s.block_size

module _ {W : Type 0} (dev : BlockDevice W) where
  -- The block for round `i`, and the place in it: the next block at its first inode.
  unfoldable pub turn : ℕ → ℕ → ℕ → ℕ → ℕ → Cmd W (Option (ℕ × ℕ))
  turn first per i bb step = elim (i % per == 0) [
    | false ↦ pure (some (bb, step))
    | true ↦ or_else (read_block dev (add32 first (i / per))) none λ b. pure (some (b, 0))
  ]

  -- The loop of `write_inode` on the rounds left; it ends early when a block cannot be read.
  unfoldable pub write_loop : ℕ → ℕ → ℕ → ℕ → ℕ → ℕ → Cmd W (Unit {0})
  unfolding turn store_inode write_sectors
  write_loop zero g first i bb step = pure tt
  write_loop (suc n) g first i bb step = do
    s ← gets (λ v. v.super)
    or_else (turn first (num s) i bb step) tt λ place. do
      let b' = place.0
      let step' = place.1
      b ← buffer b'
      let bytes' = store_inode step' ((s.group_table g).inode_cache i) b.bytes
      put_buffer b' (record b { bytes = bytes' })
      let last = (i % num s == num s - 1) || (i == num_in_cache s - 1)
      sector ← gets (sector_of dev b.block_no)
      elim last as (λ _. Cmd W ℕ) [ false ↦ pure 0 | true ↦ write_sectors dev sector 8 bytes' ]
      write_loop n g first (i + 1) b' (step' + s.inode_size)

  -- The callers do not look at the result.
  unfoldable pub write_inode : ℕ → Cmd W (Unit {0})
  unfolding write_loop
  write_inode g = do
    s ← gets (λ v. v.super)
    elim (s.group_table g).inode_begin [
      | none ↦ pure tt
      | some first ↦ write_loop (num_in_cache s) g first 0 0 0
    ]

  -- The loop of `iget_inode` on the rounds left; `false` is `NULL`.
  unfoldable pub load_loop : ℕ → ℕ → ℕ → ℕ → ℕ → ℕ → Cmd W Bool
  unfolding turn load_inode
  load_loop zero g first i bb step = pure true
  load_loop (suc n) g first i bb step = do
    s ← gets (λ v. v.super)
    or_else (turn first (num s) i bb step) false λ place. do
      b ← buffer place.0
      put_inode (inode_at g i) (load_inode b.bytes place.1 ((s.group_table g).inode_cache i))
      load_loop n g first (i + 1) place.0 (place.1 + s.inode_size)

  -- An inode that is not in its group's cache: the cache is written, then filled.
  unfoldable pub fill_cache : ℕ → ℕ → ℕ → Cmd W (Option Addr)
  unfolding write_inode load_loop
  fill_cache g inode_block offset = do
    write_inode g
    s ← gets (λ v. v.super)
    fine ← load_loop (num_in_cache s) g inode_block 0 0 0
    elim fine [
      | false ↦ pure none
      | true ↦ do
        d ← gets (λ v. v.super.group_table g)
        put_group g (record d { inode_begin = some inode_block })
        pure (some (inode_at g (offset / s.inode_size)))
    ]

  unfoldable pub iget_inode : ℕ → Cmd W (Option Addr)
  unfolding fill_cache
  iget_inode ino = do
    s ← gets (λ v. v.super)
    let g = (ino - 1) / s.group_inode
    let index = (ino - 1) % s.group_inode
    let at = inode_block s g index
    let offset = inode_offset s index
    elim (ltb ino 1 || ltb s.inode_count ino) [
      | true ↦ pure none
      | false ↦ elim (s.group_table g).inode_begin [
        | none ↦ fill_cache g at offset
        | some begin ↦ elim (ltb (sub32 at begin) 5) [
          | false ↦ fill_cache g at offset
          | true ↦ pure (
              some
                (inode_at g (sub32 at begin * s.block_size / s.inode_size + offset / s.inode_size)))
        ]
      ]
    ]
