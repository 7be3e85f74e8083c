-- ===== src/Ext2/Mount/Mounted.antt =====
-- What a mount gives.
use mango_os.Base.{ℕ, ◌+◌, ◌*◌, ◌<◌, ◌≢◌, ◌≡◌, ◌⊎◌, ◌^◌, ◌%◌, ◌/◌, ltb, if◌then◌else◌, none}
use mango_os.Strings.{Memory, word, half}
use mango_os.Ext2.{SuperBlock}
use mango_os.Ext2.Mount.{Mounting, Step, goes, answers, no_memory, count_groups}

-- The sizes of the bitmaps are half-words.
abbrev Sizes : SuperBlock → Type 0
Sizes v =
    (i : ℕ)
    → ((v.group_table i).block_bitmap_size < 2 ^ 16)
      × ((v.group_table i).inode_bitmap_size < 2 ^ 16)

module _ {W : Type 0} where
  -- The volume that the first sectors, at `area` of memory `m`, describe by the layout of ext2 on a disk:
  -- the super block, and 32 bytes for each group from sector 2 on, or from sector 6 on if blocks are
  -- larger than 1024 bytes, since the sectors read begin with the super block. The bitmaps are what lies in
  -- memory at the end where each group has its place for them.
  abbrev described : Memory → ℕ → SuperBlock → Mounting W → SuperBlock
  described m area old s =
      let block_size : ℕ = 1024 * 2 ^ (m (area + 24) % 32) % 2 ^ 16 in
      let descriptor : ℕ → ℕ = λ i. area + i * 32 + (if ltb 1024 block_size then 6 else 2) * 512 in
      record {
        magic = half m (area + 56);
        inode_count = word m area;
        block_count = word m (area + 4);
        used_block = word m (area + 8);
        free_block = word m (area + 12);
        free_inode = word m (area + 16);
        inode_size = half m (area + 88);
        block_size = block_size;
        group_block = word m (area + 32);
        group_inode = word m (area + 40);
        group_count = count_groups (word m (area + 4)) (word m (area + 32));
        group_table = λ i. record {
          block_bitmap = word m (descriptor i);
          inode_bitmap = word m (descriptor i + 4);
          inode_table = word m (descriptor i + 8);
          free_block = half m (descriptor i + 12);
          free_inode = half m (descriptor i + 14);
          dir_inode = half m (descriptor i + 16);
          block_bitmap_size = (word m (area + 32) + 7) % 2 ^ 32 / 8 % 2 ^ 16;
          inode_bitmap_size = (word m (area + 40) + 7) % 2 ^ 32 / 8 % 2 ^ 16;
          p_block_bitmap = λ a. s.memory ((s.groups_at i).block_bitmap + a);
          p_inode_bitmap = λ a. s.memory ((s.groups_at i).inode_bitmap + a);
          inode_begin = none;
          inode_cache = (old.group_table i).inode_cache;
        };
      }

  -- A mount that ends: with the number of the device and the volume described, or with -ENOMEM.
  abbrev pub Mounted : Step W ℕ → ℕ → Memory → ℕ → SuperBlock → Type 0
  Mounted r dev m area old =
      ((s' : Mounting W) × (r ≡ goes dev s')
        × (s'.super ≡ described m area old s')
        × (s'.mutex_at ≢ 0))
      ⊎ ((s' : Mounting W) × (r ≡ answers no_memory s'))
