-- ===== src/Ext2.antt =====
-- source/fs/ext2.c and source/include/ext2.h: one mounted ext2 volume. The driver of the disk is an
-- interface; blocks come through the buffers of Buffer. An inode's address says its group and its
-- place in the group's cache of inodes; 0 is `NULL`.
pub mod Bits
pub mod Names
pub mod Blocks
pub mod Inodes
pub mod Dirs
pub mod Content
pub mod Unlink
pub mod Sync
pub mod Invariants
pub mod Bitmaps
pub mod Mount
use mango_os.Base.{
  ℕ, ◌+◌, ◌-◌, ◌*◌, ◌/◌, ◌%◌, ◌^◌, Bool, true, false, Option, none, some, ◌==◌, ltb, if◌then◌else◌,
  update, mul32, is_pos32,
}
use mango_os.Queue.{Addr, insert_tail}
use mango_os.Strings.{Memory, word}
use mango_os.Kernel.{set_links}
use mango_os.Ipc.Guarded.{Guarded, Outcome, done, blocked}
use mango_os.Buffer.{Buffer, Cache, set_buffer, bget_block}

-- `inode_t`, without the pointer to its volume.
pub record Inode : Type 0 where
  pub i_mode : ℕ
  pub i_blocks : ℕ
  pub i_uid : ℕ
  pub i_gid : ℕ
  pub i_size : ℕ
  pub i_atime : ℕ
  pub i_mtime : ℕ
  pub i_ctime : ℕ
  pub i_block : ℕ → ℕ
  pub parent : Addr

-- `group_desc_t`. An `inode_begin` of -1 is `none`.
pub record GroupDesc : Type 0 where
  pub block_bitmap : ℕ
  pub inode_bitmap : ℕ
  pub inode_table : ℕ
  pub free_block : ℕ
  pub free_inode : ℕ
  pub dir_inode : ℕ
  pub block_bitmap_size : ℕ
  pub inode_bitmap_size : ℕ
  pub p_block_bitmap : Memory
  pub p_inode_bitmap : Memory
  pub inode_begin : Option ℕ
  pub inode_cache : ℕ → Inode

-- `super_block_t`
pub record SuperBlock : Type 0 where
  pub magic : ℕ
  pub inode_count : ℕ
  pub block_count : ℕ
  pub used_block : ℕ
  pub free_block : ℕ
  pub free_inode : ℕ
  pub inode_size : ℕ
  pub block_size : ℕ
  pub group_block : ℕ
  pub group_inode : ℕ
  pub group_count : ℕ
  pub group_table : ℕ → GroupDesc

-- What the volume needs of its device: sectors of 512 bytes from a sector on. A read whose count is
-- not positive is `none`; a write answers its count.
pub record BlockDevice (W : Type 0) : Type 0 where
  pub dev_read : ℕ → ℕ → W → Option Memory × W
  pub dev_write : ℕ → ℕ → Memory → W → ℕ × W

-- The volume, the buffers, the device, `p_super_block`, and the memory that callers pass pointers
-- into. `dirty_node` is where each buffer's node for the list `dirty_blocks` lies.
pub record Volume (W : Type 0) : Type 0 where
  pub super : SuperBlock
  pub cache : Guarded Cache
  pub device : W
  pub super_data : Memory
  pub memory : Memory
  pub dirty_blocks : Addr
  pub dirty_node : ℕ → Addr

-- A run ends with a value, waits for the mutex of the buffers, or is stuck: out of fuel, or at a
-- null pointer.
pub data Run (W A : Type 0) : Type 0 where
  ok : A → Volume W → Run W A
  waits : Volume W → Run W A
  stuck : Run W A

abbrev pub Cmd : Type 0 → Type 0 → Type 0
Cmd W A = Volume W → Run W A

-- An inode's address, its group and its place in the group's cache.
abbrev pub inode_at : ℕ → ℕ → Addr
inode_at g slot = g * 2 ^ 16 + slot + 1

abbrev pub group_of : Addr → ℕ
group_of a = (a - 1) / 2 ^ 16

abbrev pub slot_of : Addr → ℕ
slot_of a = (a - 1) % 2 ^ 16

module _ {W : Type 0} where
  abbrev pub pure : {A : Type 0} → A → Cmd W A
  pure a v = ok a v

  infixl 5 ◌>>=◌ ◌>>◌
  abbrev pub ◌>>=◌ : {A B : Type 0} → Cmd W A → (A → Cmd W B) → Cmd W B
  ◌>>=◌ m f v = elim (m v) [ ok a v' ↦ f a v' | waits v' ↦ waits v' | stuck ↦ stuck ]

  abbrev pub ◌>>◌ : {A B : Type 0} → Cmd W A → Cmd W B → Cmd W B
  m >> n = m >>= λ _. n

  abbrev pub gets : {A : Type 0} → (Volume W → A) → Cmd W A
  gets f v = ok (f v) v

  abbrev pub modify : (Volume W → Volume W) → Cmd W (Unit {0})
  modify f v = ok tt (f v)

  -- A value that may be missing, where the code goes on without it.
  abbrev pub given : {A : Type 0} → Option A → Cmd W A
  given none v = stuck
  given (some a) v = ok a v

  abbrev pub buffer : ℕ → Cmd W Buffer
  buffer i v = ok (v.cache.inner.buffers i) v

  abbrev pub put_buffer : ℕ → Buffer → Cmd W (Unit {0})
  put_buffer i b =
      modify λ v. record v { cache = record (v.cache) { inner = set_buffer v.cache.inner i b } }

  unfoldable pub get_block : ℕ → Cmd W ℕ
  get_block bno v = elim (bget_block bno v.cache) [
    | done i g ↦ ok i (record v { cache = g })
    | blocked g ↦ waits (record v { cache = g })
  ]

  -- `list_insert_tail(&dirty_blocks, &bb->dirty_node)`
  abbrev pub mark_dirty : ℕ → Cmd W (Unit {0})
  mark_dirty i = modify λ v.
      let k = v.cache.kernel in
      record v {
        cache = record (v.cache) {
          kernel = set_links k (insert_tail k.links v.dirty_blocks (v.dirty_node i));
        };
      }

  abbrev pub put_group : ℕ → GroupDesc → Cmd W (Unit {0})
  put_group g d =
      modify
        λ v. record v { super = record (v.super) { group_table = update v.super.group_table g d } }

  abbrev pub inode : Addr → Volume W → Inode
  inode a v = (v.super.group_table (group_of a)).inode_cache (slot_of a)

  abbrev pub put_inode : Addr → Inode → Cmd W (Unit {0})
  put_inode a i v =
      let d = v.super.group_table (group_of a) in
      put_group (group_of a) (record d { inode_cache = update d.inode_cache (slot_of a) i }) v

-- The bytes of eight sectors replace those of the buffer.
abbrev pub filled : Memory → Buffer → Buffer
filled m b = record b { bytes = λ a. if ltb a 4096 then m a else b.bytes a; b_state = 1 }

module _ {W : Type 0} (dev : BlockDevice W) where
  unfoldable pub read_sectors : ℕ → ℕ → Cmd W (Option Memory)
  read_sectors sector count v =
      let (m, w) = dev.dev_read sector count v.device in ok m (record v { device = w })

  unfoldable pub write_sectors : ℕ → ℕ → Memory → Cmd W ℕ
  write_sectors sector count m v =
      let (n, w) = dev.dev_write sector count m v.device in ok n (record v { device = w })

  -- The sector that a block begins with.
  abbrev pub sector_of : ℕ → Volume W → ℕ
  sector_of bno v = mul32 bno v.super.block_size / 512

  unfoldable pub fill_block : ℕ → ℕ → Cmd W (Option ℕ)
  unfolding read_sectors
  fill_block bno bb = do
    sector ← gets (sector_of bno)
    content ← read_sectors sector 8
    elim content [
      | none ↦ pure none
      | some m ↦ do b ← buffer bb; put_buffer bb (filled m b); pure (some bb)
    ]

  -- `none` is `NULL`.
  unfoldable pub read_block : ℕ → Cmd W (Option ℕ)
  unfolding get_block write_sectors fill_block
  read_block bno = do
    bb ← get_block bno
    b ← buffer bb
    elim (b.b_state == 1) [
      | true ↦ pure (some bb)
      | false ↦ elim (b.b_state == 2) [
        | false ↦ fill_block bno bb
        | true ↦ do
          sector ← gets (sector_of bno)
          n ← write_sectors sector 8 b.bytes
          elim (is_pos32 n) [ false ↦ pure none | true ↦ fill_block bno bb ]
      ]
    ]
