-- ===== src/Ext2/Mount/Whole.antt =====
-- ext2_mount and ext2_umount of source/fs/ext2.c as a whole.
use mango_os.Base.{
  ℕ, zero, suc, ◌+◌, ◌^◌, true, false, ◌==◌, leb, if◌then◌else◌, add32, mul32, is_pos32,
}
use mango_os.Strings.{word, kmemcpy}
use mango_os.Ext2.Mount.{
  MountCalls, GroupAt, Mounting, Cmd, stuck, no_memory, super_block_size, group_desc_size,
  count_groups, group_rounds, loaded_group, pure, ◌>>=◌, ◌>>◌, gets, modify, call, change, answer,
  set_super,
}
use mango_os.Ext2.Mount.Groups.{read, alloc_bitmaps, load_groups, free_groups}

module _ {W : Type 0} (calls : MountCalls W) where
  -- The end of the mount: the mutex, and the answer.
  unfoldable pub mount_mutex : ℕ → Cmd W ℕ
  unfolding free_groups
  mount_mutex dev = do
    modify (λ s. record s {
      super = record (s.super) {
        group_table = λ i. loaded_group s.memory (s.groups_at i) (s.super.group_table i);
      };
    })
    mutex ← call (calls.kmalloc 16)
    elim (mutex == 0) [
      | true ↦ do
        s ← gets (λ s. s)
        change (λ w. calls.dev_close dev (
            calls.kfree s.super_at
              (free_groups calls (group_rounds s.super.group_count) 0 s.groups_at w)))
        answer no_memory
      | false ↦ modify (λ s. record s { mutex_at = mutex }) >> pure dev
    ]

  -- What is behind the first read.
  unfoldable pub mount_volume : ℕ → ℕ → Cmd W ℕ
  unfolding alloc_bitmaps load_groups mount_mutex
  mount_volume dev area = do
    p ← call (calls.kmalloc 4096)
    modify (λ s. record s { p_super_block = p; memory = kmemcpy s.memory p area 4096 })
    blocks ← gets (λ s. word s.memory (area + 4))
    per ← gets (λ s. word s.memory (area + 32))
    elim (per == 0) [
      | true ↦ λ s. stuck
      | false ↦ do
        let groups = count_groups blocks per
        at ← call (calls.kmalloc (add32 super_block_size (mul32 groups group_desc_size)))
        elim (at == 0) [
          | true ↦ change (calls.dev_close dev) >> answer no_memory
          | false ↦ do
            modify (λ s. record (set_super area s) { super_at = at })
            alloc_bitmaps calls (group_rounds groups) 0
            load_groups calls (group_rounds groups) 0 dev area
            mount_mutex dev
        ]
    ]

  -- The number of the device, or the answer of a step that failed.
  unfoldable pub ext2_mount : ℕ → ℕ → ℕ → Cmd W ℕ
  unfolding mount_volume
  ext2_mount area major minor = do
    dev ← call (calls.dev_open major minor)
    elim (leb (2 ^ 31) dev) [
      | true ↦ answer dev
      | false ↦ do
        count ← read calls dev 2 area 7
        elim (is_pos32 count) [ false ↦ answer count | true ↦ mount_volume dev area ]
    ]

  abbrev pub free_unless_null : ℕ → W → W
  free_unless_null a w = if a == 0 then w else calls.kfree a w

  unfoldable pub drop_groups : ℕ → ℕ → (ℕ → GroupAt) → W → W
  drop_groups zero i at w = w
  drop_groups (suc n) i at w = drop_groups n (i + 1) at (
      calls.kfree (at i).inode_data
        (free_unless_null (at i).inode_bitmap (free_unless_null (at i).block_bitmap w)))

  unfoldable pub ext2_umount : ℕ → Mounting W → Mounting W
  unfolding drop_groups
  ext2_umount dev s =
      let w1 = drop_groups s.super.group_count 0 s.groups_at (calls.dev_close dev s.world) in
      record s {
        world = calls.kfree s.mutex_at (calls.kfree s.super_at (calls.kfree s.p_super_block w1));
      }
