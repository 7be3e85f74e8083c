-- ===== src/Ext2/Mount.antt =====
-- ext2_mount and ext2_umount of source/fs/ext2.c. The calls on devices and on the heap are an
-- interface on a state `W`. Memory is in bytes; `area` is where the array `data` lies, and what
-- is behind its end is whatever memory holds there.
pub mod Groups
pub mod Whole
pub mod Ends
pub mod Small
pub mod Mounted
use mango_os.Base.{
  ℕ, zero, suc, ◌+◌, ◌-◌, ◌*◌, ◌/◌, ◌%◌, ◌^◌, Bool, true, false, not, Option, none, some, ◌==◌, ltb,
  leb, if◌then◌else◌, add32, mul32, is_pos32, update,
}
use mango_os.Strings.{Memory, word, half, kmemcpy}
use mango_os.Ext2.{Inode, GroupDesc, SuperBlock}
use mango_os.Ext2.Names.{max_name_len}

-- The calls; answers are `int` patterns and addresses. `dev_read` puts sectors at an address, and
-- `kmalloc` and `kfree` leave the bytes of memory as they are.
pub record MountCalls (W : Type 0) : Type 0 where
  pub dev_open : ℕ → ℕ → W → ℕ × W
  pub dev_read : ℕ → ℕ → ℕ → ℕ → Memory → W → ℕ × Memory × W
  pub dev_close : ℕ → W → W
  pub kmalloc : ℕ → W → ℕ × W
  pub kfree : ℕ → W → W

-- The pointers of `group_desc_t`.
pub record GroupAt : Type 0 where
  pub block_bitmap : ℕ
  pub inode_bitmap : ℕ
  pub inode_data : ℕ

-- What a mount fills in: memory, `p_super_block`, the volume and where it lies, the pointers of its
-- groups, and the mutex.
pub record Mounting (W : Type 0) : Type 0 where
  pub memory : Memory
  pub world : W
  pub p_super_block : ℕ
  pub super : SuperBlock
  pub super_at : ℕ
  pub groups_at : ℕ → GroupAt
  pub mutex_at : ℕ

-- A step goes on, or the mount returns with an answer, or it is stuck: the processor stops at a
-- division by zero, or the fuel of a loop is used up.
pub data Step (W A : Type 0) : Type 0 where
  goes : A → Mounting W → Step W A
  answers : ℕ → Mounting W → Step W A
  stuck : Step W A

abbrev pub Cmd : Type 0 → Type 0 → Type 0
Cmd W A = Mounting W → Step W A

-- `-ENOMEM`
abbrev pub no_memory : ℕ
no_memory = 2 ^ 32 - 9

-- `sizeof(super_block_t)` and `sizeof(group_desc_t)`, which are packed.
abbrev pub super_block_size : ℕ
super_block_size = max_name_len + 42

abbrev pub group_desc_size : ℕ
group_desc_size = 38

-- The bytes of a bitmap of so many bits, an `ushort`.
abbrev pub bitmap_size : ℕ → ℕ
bitmap_size bits = add32 bits 7 / 8 % 2 ^ 16

-- The number of groups of a volume with so many blocks, in all and in a group.
abbrev pub count_groups : ℕ → ℕ → ℕ
count_groups blocks per = if blocks % per == 0 then blocks / per else add32 (blocks / per) 1

-- `*(uint*)(data + 24)` as a `char` that shifts 1024; the processor takes five bits of it.
abbrev pub block_size_of : ℕ → ℕ
block_size_of log_size = 1024 * 2 ^ (log_size % 32) % 2 ^ 16

-- The descriptor of group `i`. Its bitmaps and its cache of inodes, which memory gives, are filled in
-- at the end of the mount.
abbrev pub read_group : Memory → ℕ → SuperBlock → ℕ → GroupDesc → GroupDesc
read_group m area s i d =
    let at = area + i * 32 + (if ltb 1024 s.block_size then 6 else 2) * 512 in
    record d {
      block_bitmap = word m at;
      inode_bitmap = word m (at + 4);
      inode_table = word m (at + 8);
      free_block = half m (at + 12);
      free_inode = half m (at + 14);
      dir_inode = half m (at + 16);
      block_bitmap_size = bitmap_size s.group_block;
      inode_bitmap_size = bitmap_size s.group_inode;
    }

-- The fields of the volume from the block at `area`, but for the table of groups.
abbrev pub read_super : Memory → ℕ → SuperBlock → SuperBlock
read_super m area s = record s {
  magic = half m (area + 56);
  inode_count = word m area;
  block_count = word m (area + 4);
  used_block = word m (area + 8);
  free_block = word m (area + 12);
  free_inode = word m (area + 16);
  inode_size = half m (area + 88);
  block_size = block_size_of (m (area + 24));
  group_block = word m (area + 32);
  group_inode = word m (area + 40);
  group_count = count_groups (word m (area + 4)) (word m (area + 32));
}

-- The bytes that a round copies from `area` to the bitmap at `to`, with `left` sectors to come.
abbrev pub copy_round : ℕ → ℕ → ℕ → ℕ → ℕ → Memory → Memory
copy_round area to offset left size m =
    let m1 = kmemcpy m (add32 to (offset * 512)) area (left * 512) in
    if ltb 8 left
    then kmemcpy m (add32 to (offset * 512)) area (8 * 512)
    else if size % 512 == 0
    then m1
    else kmemcpy m1 (add32 to ((offset + left) * 512)) (add32 area (left * 512)) (size % 512)

-- The rounds of `for (int i=0; i<group_count; i++)`.
abbrev pub group_rounds : ℕ → ℕ
group_rounds count = if is_pos32 count then count else 0

-- The bitmaps stand in memory where the pointers say.
abbrev pub loaded_group : Memory → GroupAt → GroupDesc → GroupDesc
loaded_group m at d = record d {
  p_block_bitmap = λ a. m (at.block_bitmap + a);
  p_inode_bitmap = λ a. m (at.inode_bitmap + a);
  inode_begin = none;
}

module _ {W : Type 0} where
  abbrev pub pure : {A : Type 0} → A → Cmd W A
  pure a s = goes a s

  infixl 5 ◌>>=◌ ◌>>◌
  abbrev pub ◌>>=◌ : {A B : Type 0} → Cmd W A → (A → Cmd W B) → Cmd W B
  ◌>>=◌ c f s = elim (c s) [ goes a s' ↦ f a s' | answers n s' ↦ answers n s' | stuck ↦ stuck ]

  abbrev pub ◌>>◌ : {A B : Type 0} → Cmd W A → Cmd W B → Cmd W B
  c >> d = c >>= λ _. d

  abbrev pub gets : {A : Type 0} → (Mounting W → A) → Cmd W A
  gets f s = goes (f s) s

  abbrev pub modify : (Mounting W → Mounting W) → Cmd W (Unit {0})
  modify f s = goes tt (f s)

  -- A call that changes no memory.
  abbrev pub call : {A : Type 0} → (W → A × W) → Cmd W A
  call f s = let (a, w) = f s.world in goes a (record s { world = w })

  abbrev pub change : (W → W) → Cmd W (Unit {0})
  change f s = goes tt (record s { world = f s.world })

  -- `return n`
  abbrev pub answer : {A : Type 0} → ℕ → Cmd W A
  answer n s = answers n s

  abbrev pub set_group : ℕ → GroupAt → Mounting W → Mounting W
  set_group i g s = record s { groups_at = update s.groups_at i g }

  abbrev pub set_super : ℕ → Mounting W → Mounting W
  set_super area s =
      let super = read_super s.memory area s.super in
      record s {
        super = record super {
          group_table = λ i. read_group s.memory area super i (s.super.group_table i);
        };
      }
