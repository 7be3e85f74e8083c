-- ===== src/Ext2/Mount/Groups.antt =====
-- The groups of a volume in ext2_mount of source/fs/ext2.c: their bitmaps and what gives them back.
use mango_os.Base.{
  ℕ, zero, suc, ◌+◌, ◌-◌, ◌*◌, ◌/◌, true, false, ltb, if◌then◌else◌, mul32, is_pos32,
}
use mango_os.Ext2.{SuperBlock}
use mango_os.Ext2.Mount.{
  MountCalls, GroupAt, Cmd, stuck, goes, no_memory, copy_round, pure, ◌>>=◌, ◌>>◌, gets, modify,
  call, change, answer, set_group,
}

module _ {W : Type 0} (calls : MountCalls W) where
  abbrev pub read : ℕ → ℕ → ℕ → ℕ → Cmd W ℕ
  read dev sector buf count s =
      let (n, m, w) = calls.dev_read dev sector buf count s.memory s.world in
      goes n (record s { memory = m; world = w })

  -- `while (i-- >= 0)`: the groups below `i`, and the one at -1, whose pointers are the fields
  -- `group_block` and `group_inode` in front of the table.
  unfoldable pub unwind : ℕ → SuperBlock → (ℕ → GroupAt) → W → W
  unwind zero s at w = calls.kfree s.group_inode (calls.kfree s.group_block w)
  unwind (suc i) s at w =
      unwind i s at (calls.kfree (at i).inode_bitmap (calls.kfree (at i).block_bitmap w))

  -- The way out of a bitmap of group `i` that cannot be read.
  unfoldable pub give_up : {A : Type 0} → ℕ → ℕ → Cmd W A
  unfolding unwind
  give_up i dev = do
    s ← gets (λ s. s)
    change (λ w. calls.dev_close dev (calls.kfree s.super_at (unwind i s.super s.groups_at w)))
    answer no_memory

  -- The loop over a bitmap of `size` bytes; each round reads from the same sector, and the place in
  -- the bitmap moves on by one sector.
  unfoldable pub bitmap_loop : ℕ → ℕ → ℕ → ℕ → ℕ → ℕ → ℕ → ℕ → ℕ → Cmd W (Unit {0})
  unfolding give_up
  bitmap_loop zero i dev area sector to offset left size = λ s. stuck
  bitmap_loop (suc n) i dev area sector to offset left size = do
    count ← read dev sector area (if ltb 8 left then 8 else left)
    elim (is_pos32 count) [
      | false ↦ give_up i dev
      | true ↦ do
        modify (λ s. record s { memory = copy_round area to offset left size s.memory })
        elim (ltb 8 left) [
          | false ↦ pure tt
          | true ↦ bitmap_loop n i dev area sector to (offset + 1) (left - 8) size
        ]
    ]

  -- A bitmap that begins with a block.
  unfoldable pub load_bitmap : ℕ → ℕ → ℕ → ℕ → ℕ → ℕ → Cmd W (Unit {0})
  unfolding bitmap_loop
  load_bitmap i dev area block to size = do
    sector ← gets (λ s. mul32 block s.super.block_size / 512)
    bitmap_loop 16 i dev area sector to 0 (size / 512) size

  -- The memory for the bitmaps of the groups from `i` on.
  unfoldable pub alloc_bitmaps : ℕ → ℕ → Cmd W (Unit {0})
  alloc_bitmaps zero i = pure tt
  alloc_bitmaps (suc n) i = do
    d ← gets (λ s. s.super.group_table i)
    b ← call (calls.kmalloc d.block_bitmap_size)
    p ← call (calls.kmalloc d.inode_bitmap_size)
    modify (λ s. set_group i (record (s.groups_at i) { block_bitmap = b; inode_bitmap = p }) s)
    alloc_bitmaps n (i + 1)

  -- The bitmaps of the groups from `i` on, and their caches of inodes, which are empty.
  unfoldable pub load_groups : ℕ → ℕ → ℕ → ℕ → Cmd W (Unit {0})
  unfolding load_bitmap
  load_groups zero i dev area = pure tt
  load_groups (suc n) i dev area = do
    d ← gets (λ s. s.super.group_table i)
    at ← gets (λ s. s.groups_at i)
    load_bitmap i dev area d.block_bitmap at.block_bitmap d.block_bitmap_size
    load_bitmap i dev area d.inode_bitmap at.inode_bitmap d.inode_bitmap_size
    p ← call (calls.kmalloc (5 * 4096))
    modify (λ s. set_group i (record (s.groups_at i) { inode_data = p }) s)
    load_groups n (i + 1) dev area

  -- The first `n` groups from `i` on are given back.
  unfoldable pub free_groups : ℕ → ℕ → (ℕ → GroupAt) → W → W
  free_groups zero i at w = w
  free_groups (suc n) i at w = free_groups n (i + 1) at (
      calls.kfree (at i).inode_data
        (calls.kfree (at i).inode_bitmap (calls.kfree (at i).block_bitmap w)))
