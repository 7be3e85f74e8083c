-- ===== src/Ext2/Bits.antt =====
-- The bitmaps of ext2.c: set_bit, ffs, find_first_zero_bit and alloc_inode.
pub mod Search
use Prim.Native.Nat.{bit_or}
use mango_os.Base.{
  ℕ, zero, suc, ◌+◌, ◌-◌, ◌*◌, ◌/◌, ◌%◌, ◌^◌, ◌≡◌, Bool, true, false, not, Option, none, some, ◌==◌,
  ltb, if◌then◌else◌, update, dec32,
}
use mango_os.Strings.{Memory, word}
use mango_os.Ext2.{SuperBlock, GroupDesc}

-- `data[index / 8] |= flag << (index % 8)`, for a flag of 1 and for any other.
unfoldable pub set_bit : Memory → ℕ → ℕ → Memory
set_bit m index flag =
    if flag == 1
    then update m (index / 8) (bit_or (m (index / 8)) (2 ^ (index % 8)))
    else update m (index / 8) (bit_or (m (index / 8)) 0)

-- The loop of `ffs` does not change `word`.
unfoldable pub ffs_loop : ℕ → ℕ → ℕ → Option ℕ
ffs_loop zero word bit = none
ffs_loop (suc n) word bit =
    let rest = ffs_loop n word (bit + 1) in if word % 2 == 0 then rest else some bit

unfoldable pub ffs : ℕ → ℕ → Option ℕ
unfolding ffs_loop
ffs fuel word = if word == 0 then some 0 else ffs_loop fuel word 1

-- `~word`
abbrev pub complement : ℕ → ℕ
complement word = 2 ^ 32 - 1 - word

-- The loop of `find_first_zero_bit` from word `i` on, on the rounds left.
unfoldable pub find_loop : ℕ → Memory → ℕ → ℕ → ℕ → Option ℕ
unfolding ffs
find_loop fuel m size zero i = some size
find_loop fuel m size (suc n) i =
    let rest = find_loop fuel m size n (i + 1) in
    let free = complement (word m (4 * i)) in
    if not (free == 0)
    then elim (ffs fuel free) [ none ↦ none | some bit ↦ some (i * 4 * 8 + bit) ]
    else rest

unfoldable pub find_first_zero_bit : ℕ → Memory → ℕ → Option ℕ
unfolding find_loop
find_first_zero_bit fuel m size = find_loop fuel m size (size / 32) 0

-- The counters of a group and of the volume after an inode is taken.
abbrev pub take_inode : SuperBlock → ℕ → ℕ → SuperBlock
take_inode s i ino =
    let g = s.group_table i in
    record s {
      free_inode = dec32 s.free_inode;
      group_table = update s.group_table i (record g {
        p_inode_bitmap = set_bit g.p_inode_bitmap ino 1;
        free_inode = (g.free_inode + (2 ^ 16 - 1)) % 2 ^ 16;
      });
    }

-- The loop of `alloc_inode` from group `i` on; 0 says that no inode is free.
unfoldable pub alloc_loop : ℕ → ℕ → ℕ → SuperBlock → Option (ℕ × SuperBlock)
unfolding find_first_zero_bit
alloc_loop fuel zero i s = some (0, s)
alloc_loop fuel (suc n) i s =
    let g = s.group_table i in
    elim (find_first_zero_bit fuel g.p_inode_bitmap g.inode_bitmap_size) [
      | none ↦ none
      | some ino ↦ elim (ino == g.inode_bitmap_size) [
        | true ↦ alloc_loop fuel n (i + 1) s
        | false ↦ some (ino, take_inode s i ino)
      ]
    ]

unfoldable pub alloc_inode : ℕ → SuperBlock → Option (ℕ × SuperBlock)
unfolding alloc_loop
alloc_inode fuel s = alloc_loop fuel (s.inode_count / s.group_inode) 0 s
