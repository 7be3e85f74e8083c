-- ===== src/Tests/Mounts.antt =====
-- A disk with one group of blocks, and a heap that gives one block after the other.
use mango_os.Base.{ℕ, ◌+◌, ◌-◌, ◌*◌, ◌≡◌, refl, if◌then◌else◌, ltb, none}
use mango_os.Strings.{Memory, word, store_word, kmemcpy}
use mango_os.Ext2.{GroupDesc, SuperBlock}
use mango_os.Ext2.Mount.{MountCalls, Mounting}
use mango_os.Ext2.Mount.Mounted.{Mounted}

-- 8192 blocks, all in one group, with so many inodes.
abbrev disk : ℕ → Memory
disk inodes = store_word 1028 8192 (store_word 1056 8192 (store_word 1064 inodes (λ a. 0)))

abbrev one_disk : ℕ → MountCalls ℕ
one_disk inodes = record {
  dev_open = λ major minor w. (5, w);
  dev_read = λ dev sector at count m w. (
    count,
    (λ a.
        if ltb a at
        then m a
        else if ltb a (at + count * 512)
        then disk inodes (sector * 512 + (a - at))
        else m a),
    w,
  );
  dev_close = λ dev w. w;
  kmalloc = λ size w. (w, w + size);
  kfree = λ at w. w;
}

abbrev no_group : GroupDesc
no_group = record {
  block_bitmap = 0;
  inode_bitmap = 0;
  inode_table = 0;
  free_block = 0;
  free_inode = 0;
  dir_inode = 0;
  block_bitmap_size = 0;
  inode_bitmap_size = 0;
  p_block_bitmap = λ a. 0;
  p_inode_bitmap = λ a. 0;
  inode_begin = none;
  inode_cache = λ i. record {
    i_mode = 0;
    i_blocks = 0;
    i_uid = 0;
    i_gid = 0;
    i_size = 0;
    i_atime = 0;
    i_mtime = 0;
    i_ctime = 0;
    i_block = λ k. 0;
    parent = 0;
  };
}

abbrev no_volume : SuperBlock
no_volume = record {
  magic = 0;
  inode_count = 0;
  block_count = 0;
  used_block = 0;
  free_block = 0;
  free_inode = 0;
  inode_size = 0;
  block_size = 0;
  group_block = 0;
  group_inode = 0;
  group_count = 0;
  group_table = λ i. no_group;
}

abbrev mounting : Mounting ℕ
mounting = record {
  memory = λ a. 0;
  world = 0x200000;
  p_super_block = 0;
  super = no_volume;
  super_at = 0;
  groups_at = λ i. record { block_bitmap = 0; inode_bitmap = 0; inode_data = 0 };
  mutex_at = 0;
}

abbrev first_sectors : ℕ → Memory
unfolding kmemcpy
first_sectors inodes =
    let m : Memory = λ a.
      if ltb a 0x100000
      then 0
      else if ltb a (0x100000 + 7 * 512)
      then disk inodes (2 * 512 + (a - 0x100000))
      else 0 in
    kmemcpy m 0x200000 0x100000 4096

some_blocks : word (first_sectors 8192) (0x100000 + 32) ≡ 8192
unfolding kmemcpy first_sectors
some_blocks = refl
