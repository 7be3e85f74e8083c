-- ===== src/Ext2/Sync.antt =====
-- Writing a volume back, source/fs/ext2.c: ext2_sync and ext2_close.
pub mod Skips
use mango_os.Base.{
  is_neg32, ℕ, zero, suc, ◌+◌, ◌-◌, ◌*◌, ◌/◌, ◌%◌, ◌^◌, Option, none, ◌&&◌, Bool, true, false, ◌==◌,
  ltb, leb, if◌then◌else◌, sub32, mul32, is_pos32,
}
use mango_os.Queue.{Addr, remove}
use mango_os.Kernel.{set_links}
use mango_os.Strings.{Memory, store_word, store_half}
use mango_os.File.{File}
use mango_os.Ext2.{
  GroupDesc, SuperBlock, BlockDevice, Volume, Cmd, pure, ◌>>=◌, ◌>>◌, gets, given, modify, buffer,
  write_sectors, sector_of,
}
use mango_os.Ext2.Inodes.{write_inode}
use mango_os.Ext2.Unlink.{io_error}

module _ {W : Type 0} where
  -- `bn->next`
  abbrev pub next_of : Addr → Cmd W Addr
  next_of bn = gets (λ v. v.cache.kernel.links.next bn)

  -- `list_remove(bn)`
  abbrev pub take_off : Addr → Cmd W (Unit {0})
  take_off bn = modify λ v.
      let k = v.cache.kernel in
      record v { cache = record (v.cache) { kernel = set_links k (remove k.links bn) } }

module _ {W : Type 0} (dev : BlockDevice W) where
  -- The loop over the dirty blocks from the node `bn` on. `block_of` is `list_data`. The node after
  -- the removed one becomes `bn`, and then the loop steps to the one after that.
  unfoldable pub dirty_loop : (Addr → ℕ) → ℕ → Addr → Cmd W Bool
  unfolding write_sectors
  dirty_loop block_of zero bn = given none
  dirty_loop block_of (suc n) bn = do
    head ← gets (λ v. v.dirty_blocks)
    elim (bn == head) [
      | true ↦ pure true
      | false ↦ do
        b ← buffer (block_of bn)
        sector ← gets (sector_of dev b.block_no)
        count ← write_sectors dev sector 8 b.bytes
        elim (is_pos32 count) [
          | false ↦ pure false
          | true ↦ do temp ← next_of bn; take_off bn; bn' ← next_of temp; dirty_loop block_of n bn'
        ]
    ]

  -- The loop that writes a bitmap, on fuel. `sec_count` is an `int`; the sector stays the same.
  unfoldable pub bitmap_loop : ℕ → ℕ → Memory → ℕ → ℕ → Cmd W Bool
  unfolding write_sectors
  bitmap_loop zero sector bitmap sec_count offset = given none
  bitmap_loop (suc n) sector bitmap sec_count offset = do
    count ←
        write_sectors dev sector (if is_pos32 sec_count && ltb 8 sec_count then 8 else sec_count)
          (λ a. bitmap (offset * 512 + a))
    elim (is_neg32 count) [
      | true ↦ pure false
      | false ↦ elim (is_pos32 (sub32 sec_count 8)) [
        | true ↦ bitmap_loop n sector bitmap (sub32 sec_count 8) (offset + 1)
        | false ↦ pure true
      ]
    ]

  -- The loop over the groups from `i` on: both bitmaps, then the inodes.
  unfoldable pub group_loop : ℕ → ℕ → ℕ → Cmd W Bool
  unfolding bitmap_loop write_inode
  group_loop fuel zero i = pure true
  group_loop fuel (suc n) i = do
    s ← gets (λ v. v.super)
    let d = s.group_table i
    blocks ←
        bitmap_loop fuel (mul32 d.block_bitmap s.block_size / 512) d.p_block_bitmap
          (d.block_bitmap_size / 512) 0
    elim blocks [
      | false ↦ pure false
      | true ↦ do
        inodes ←
            bitmap_loop fuel (mul32 d.inode_bitmap s.block_size / 512) d.p_inode_bitmap
              (d.inode_bitmap_size / 512) 0
        elim inodes [ false ↦ pure false | true ↦ write_inode dev i >> group_loop fuel n (i + 1) ]
    ]

  -- The counters of the groups from `i` on, in the copy of the super block from byte `at` on.
  unfoldable pub store_groups : ℕ → ℕ → SuperBlock → ℕ → Memory → Memory
  store_groups zero i s at m = m
  store_groups (suc n) i s at m =
      let m1 = store_half (i * 32 + at + 12) (s.group_table i).free_block m in
      store_groups n (i + 1) s at (store_half (i * 32 + at + 14) (s.group_table i).free_inode m1)

  unfoldable pub store_super : SuperBlock → Memory → Memory
  unfolding store_groups
  store_super s m =
      let m1 = store_word 12 s.free_block (store_word 8 s.used_block m) in
      store_groups s.group_count 0 s ((if ltb 1024 s.block_size then 6 else 2) * 512) m1

  unfoldable pub ext2_sync : (Addr → ℕ) → ℕ → Cmd W ℕ
  unfolding dirty_loop group_loop store_super
  ext2_sync block_of fuel = do
    head ← gets (λ v. v.dirty_blocks)
    bn ← next_of head
    clean ← dirty_loop block_of fuel bn
    s ← gets (λ v. v.super)
    elim clean [
      | false ↦ pure (2 ^ 32 - 1)
      | true ↦ do
        fine ← group_loop fuel s.group_count 0
        elim fine [
          | false ↦ pure io_error
          | true ↦ do
            modify (λ v. record v { super_data = store_super v.super v.super_data })
            content ← gets (λ v. v.super_data)
            count ← write_sectors dev 2 7 content
            pure (if is_neg32 count then io_error else 0)
        ]
    ]

  -- `mode & O_RDONLY == O_RDONLY` is `mode & 1`: a file open for writing is not synced.
  unfoldable pub ext2_close : (Addr → ℕ) → ℕ → File → Cmd W ℕ
  unfolding ext2_sync
  ext2_close block_of fuel file = elim (file.mode % 2 == 1) [
    | true ↦ pure 0
    | false ↦ ext2_sync block_of fuel >> pure 0
  ]
