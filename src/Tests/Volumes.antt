-- ===== src/Tests/Volumes.antt =====
-- A volume of one group: inode 2 is a directory with the entry "f" for inode 3, an empty file, and
-- inode 6 is a file of 100 bytes. The disk gives every block the bytes of that directory.
use mango_os.Base.{ℕ, ◌+◌, ◌-◌, ◌<◌, ◌≡◌, refl, some, [], ◌∷◌, ◌==◌, if◌then◌else◌, arith}
use mango_os.Queue.{Links}
use mango_os.Queue.Ring.{Ring}
use mango_os.Kernel.{set_links}
use mango_os.Strings.{Memory}
use mango_os.Ipc.Guarded.{Guarded, IsFree}
use mango_os.File.{File, blank_file}
use mango_os.Buffer.{Buffer, Cache, bget_block}
use mango_os.Buffer.Buckets.{IsValid, Gives, bget_block-Gives}
use mango_os.Ext2.{Inode, GroupDesc, BlockDevice, Volume, ok, read_block}
use mango_os.Ext2.Invariants.{Holds}
use mango_os.Ext2.Content.{ext2_read, copy_between}
use mango_os.Ext2.Content.Block.{ext2_read-block}
use mango_os.Ext2.Content.Fresh.{read_block_room}
use mango_os.Ext2.Sync.{dirty_loop}
use mango_os.Ext2.Sync.Skips.{Leaves, dirty_loop_skips}
use mango_os.Ext2.Unlink.{ext2_unlink}
use mango_os.Ext2.Unlink.Bitmaps.{SameBitmaps, ext2_unlink-SameBitmaps}
use mango_os.Tests.Kernels.{shop, shop-Queues}

abbrev directory_block : Memory
directory_block a =
    if a == 0 then 3 else if a == 5 then 16 else if a == 6 then 1 else if a == 8 then 102 else 0

-- The disk counts the calls.
abbrev disk : BlockDevice ℕ
disk = record {
  dev_read = λ sector count w. (some directory_block, w + 1);
  dev_write = λ sector count m w. (8, w + 1);
}

abbrev blank_buffer : Buffer
blank_buffer = record { block_no = 3; bytes = λ a. 0; b_state = 1; exp_time = 0 }

abbrev empty_cache : Cache
empty_cache = record {
  buffers = λ i. blank_buffer;
  fresh = 0;
  sizes = λ h. 0;
  buckets = λ h. [];
  timestamp = 5;
}

abbrev cache : Guarded Cache
cache = record {
  kernel = shop;
  mutex = record { lock_times = 0; owner = 0; mutex_queue = 200 };
  inner = empty_cache;
}

cache-IsFree : IsFree cache
cache-IsFree = (refl, refl, shop-Queues.wait_ring)

empty_cache-IsValid : IsValid empty_cache
empty_cache-IsValid = record {
  counted = λ h. refl;
  bounded = λ h. omega arith;
  hashed = λ h i m. cc;
}

bget_block-Gives_example : Gives 7 (bget_block 7 cache)
bget_block-Gives_example = bget_block-Gives 7 cache empty_cache-IsValid

abbrev file_inode : Inode
file_inode = record {
  i_mode = 32768;
  i_blocks = 1;
  i_uid = 0;
  i_gid = 0;
  i_size = 100;
  i_atime = 0;
  i_mtime = 0;
  i_ctime = 0;
  i_block = λ k. k + 20;
  parent = 0;
}

abbrev inodes : ℕ → Inode
inodes k =
    if k == 1
    then record file_inode { i_mode = 16384; i_size = 4096 }
    else if k == 2
    then record file_inode { i_size = 0 }
    else file_inode

abbrev group : GroupDesc
group = record {
  block_bitmap = 3;
  inode_bitmap = 4;
  inode_table = 5;
  free_block = 10;
  free_inode = 10;
  dir_inode = 1;
  block_bitmap_size = 64;
  inode_bitmap_size = 64;
  p_block_bitmap = λ a. 7;
  p_inode_bitmap = λ a. 7;
  inode_begin = some 5;
  inode_cache = inodes;
}

abbrev volume : Volume ℕ
volume = record {
  super = record {
    magic = 61267;
    inode_count = 8;
    block_count = 512;
    used_block = 10;
    free_block = 10;
    free_inode = 10;
    inode_size = 128;
    block_size = 4096;
    group_block = 512;
    group_inode = 8;
    group_count = 1;
    group_table = λ g. group;
  };
  cache = cache;
  device = 0;
  super_data = λ a. 0;
  memory = λ a. if a == 7000 then 102 else 0;
  dirty_blocks = 900;
  dirty_node = λ i. 901 + i;
}

-- The file with inode 6, at its start.
abbrev file : File
file = record blank_file { inode = 6 }

-- What reading block 20 gives.
abbrev block_20 :
    (v' : Volume ℕ) × (read_block disk 20 volume ≡ ok (some 0) v')
    × (v'.device ≡ 1)
    × ((a : ℕ) → a < 4096 → (v'.cache.inner.buffers 0).bytes a ≡ directory_block a)
block_20 = read_block_room disk 20 directory_block 1 volume cache-IsFree (omega arith) refl

ext2_read-block_example :
    ext2_read disk 1 file 5000 10 volume
    ≡ ok
        (10, record file { pos = 10 })
        (record (block_20.0) {
          memory = copy_between volume.memory 5000 (block_20.0.cache.inner.buffers 0).bytes 0 10;
        })
ext2_read-block_example =
    ext2_read-block disk 0 file 5000 10 0 volume block_20.0 (omega arith) (omega arith)
      (λ e. omega (arith, e)) (omega arith) (omega arith) (omega arith) (omega arith) block_20.1

-- The path "f" lies at 7000.
ext2_unlink-SameBitmaps_example :
    Holds (SameBitmaps volume) (ext2_unlink disk 9 (record file { inode = 3 }) 7000 volume)
ext2_unlink-SameBitmaps_example =
    ext2_unlink-SameBitmaps disk volume (λ g a. omega arith) 9 (record file { inode = 3 }) 7000

-- Two dirty blocks, with nodes at 901 and 902.
abbrev dirty_links : Links
dirty_links = record {
  next = λ a. if a == 900 then 901 else if a == 901 then 902 else 900;
  prev = λ a. if a == 900 then 902 else if a == 901 then 900 else 901;
}

abbrev dirty_volume : Volume ℕ
dirty_volume = record volume { cache = record cache { kernel = set_links shop dirty_links } }

dirty_volume-Ring : Ring dirty_links 900 (901 ∷ 902 ∷ [])
dirty_volume-Ring = record {
  chain = (refl, refl, (refl, refl, (refl, refl)));
  distinct = (refl, (refl, (refl, tt)));
}

dirty_loop_skips_example :
    Leaves dirty_volume (902 ∷ []) (dirty_loop disk (λ a. a - 901) 2 901 dirty_volume)
dirty_loop_skips_example =
    dirty_loop_skips disk (λ a. a - 901) ((901, 902) ∷ []) dirty_volume (λ sector m w. refl)
      dirty_volume-Ring
