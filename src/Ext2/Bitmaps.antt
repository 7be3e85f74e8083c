-- ===== src/Ext2/Bitmaps.antt =====
-- The bitmaps of blocks: loading an inode and freeing a block leave them as they are.
pub mod Paths
use mango_os.Base.{
  ℕ, zero, suc, ◌+◌, ◌-◌, ◌/◌, ◌%◌, ◌≡◌, ◌∙◌, sym, ap, Bool, true, false, not, ◌&&◌, ◌||◌, List,
  update, Option, none, some, ◌==◌, ltb, sub32, Bool-cases, inl, inr, ==→eq,
}
use mango_os.Queue.{Addr}
use mango_os.Ipc.Guarded.{Guarded}
use mango_os.Buffer.{Cache}
use mango_os.Strings.{Memory}
use mango_os.Bitmap.Bits.{IsBytes}
use mango_os.File.{File}
use mango_os.Ext2.{
  Inode, GroupDesc, SuperBlock, BlockDevice, Volume, Cmd, pure, ◌>>=◌, ◌>>◌, given, modify, inode,
  put_inode, put_group, sector_of, inode_at, group_of,
}
use mango_os.Ext2.Bits.{set_bit, alloc_loop, alloc_inode, find_first_zero_bit, take_inode}
use mango_os.Ext2.Names.{iget_name}
use mango_os.Ext2.Dirs.{
  Walk, found, passed, walk_entries, create, dir_loop, find_inode_in_dir, path_loop,
  find_inode_by_path, is_dir, creates, store_entry,
}
use mango_os.Ext2.Bits.Search.{set_bit_lem}
use mango_os.Ext2.Blocks.{mark_block}
use mango_os.Ext2.Inodes.{
  turn, write_loop, write_inode, load_loop, load_inode, fill_cache, iget_inode, num, num_in_cache,
  inode_block, inode_offset, store_inode,
}
use mango_os.Ext2.Invariants.{
  Holds, Keeps, Keeps-bind, Keeps-then, Keeps-pure, Keeps-gets, Keeps-given, Keeps-buffer,
  Keeps-test, Keeps-match, Keeps-or_else, Keeps-put_buffer, Keeps-mark_dirty, Keeps-read_block,
  Keeps-write_sectors,
}

-- Every group's bitmap of blocks is this one, and these are bytes.
pub record HasBitmaps {W : Type 0} (maps : ℕ → Memory) (v : Volume W) : Type 0 where
  pub bytes : (g : ℕ) → IsBytes (maps g)
  pub same : (g : ℕ) → (v.super.group_table g).p_block_bitmap ≡ maps g

-- The same of a volume's description.
abbrev pub SuperHas : (ℕ → Memory) → SuperBlock → Type 0
SuperHas maps s = (g : ℕ) → (s.group_table g).p_block_bitmap ≡ maps g

table-update :
    (maps : ℕ → Memory) (s : SuperBlock) (g : ℕ) (d : GroupDesc)
    → d.p_block_bitmap ≡ maps g
    → SuperHas maps s
    → (k : ℕ) → (update s.group_table g d k).p_block_bitmap ≡ maps k
table-update maps s g d e h k = elim (Bool-cases (k == g)) [
  | inl q ↦ rw q (e ∙ ap maps (sym (==→eq k g q)))
  | inr q ↦ rw q (h k)
]

abbrev pub AfterAlloc : (ℕ → Memory) → Option (ℕ × SuperBlock) → Type 0
AfterAlloc maps none = Unit {0}
AfterAlloc maps (some r) = SuperHas maps r.1

-- Taking an inode changes no bitmap of blocks.
alloc_loop-SuperHas :
    (maps : ℕ → Memory) (fuel n i : ℕ) (s : SuperBlock)
    → SuperHas maps s
    → AfterAlloc maps (alloc_loop fuel n i s)
unfolding alloc_loop
alloc_loop-SuperHas maps fuel zero i s h = h
alloc_loop-SuperHas maps fuel (suc n) i s h =
    step (alloc_loop-SuperHas maps fuel n (i + 1) s h) (
      find_first_zero_bit fuel (s.group_table i).p_inode_bitmap (s.group_table i).inode_bitmap_size)
  where
    taken :
        AfterAlloc maps (alloc_loop fuel n (i + 1) s)
        → (ino : ℕ) (b : Bool)
        → AfterAlloc maps
            (elim b [ true ↦ alloc_loop fuel n (i + 1) s | false ↦ some (ino, take_inode s i ino) ])
    taken rest ino true = rest
    taken rest ino false = table-update maps s i _ (h i) h

    step :
        AfterAlloc maps (alloc_loop fuel n (i + 1) s)
        → (o : Option ℕ)
        → AfterAlloc maps (elim o [
          | none ↦ none
          | some ino ↦ elim (ino == (s.group_table i).inode_bitmap_size) [
            | true ↦ alloc_loop fuel n (i + 1) s
            | false ↦ some (ino, take_inode s i ino)
          ]
        ])
    step rest none = tt
    step rest (some ino) = taken rest ino (ino == (s.group_table i).inode_bitmap_size)

pub alloc_inode-SuperHas :
    (maps : ℕ → Memory) (fuel : ℕ) (s : SuperBlock)
    → SuperHas maps s
    → AfterAlloc maps (alloc_inode fuel s)
unfolding alloc_inode
alloc_inode-SuperHas maps fuel s h =
    alloc_loop-SuperHas maps fuel (s.inode_count / s.group_inode) 0 s h

module _ {W : Type 0} {maps : ℕ → Memory} where
  put_group-HasBitmaps :
      (g : ℕ) (d : GroupDesc) (v : Volume W)
      → d.p_block_bitmap ≡ maps g
      → HasBitmaps maps v
      → Holds (HasBitmaps maps) (put_group g d v)
  put_group-HasBitmaps g d v e h = record {
    bytes = h.bytes;
    same = table-update maps v.super g d e h.same;
  }

  pub Keeps-put_inode : (a : Addr) (i : Inode) → Keeps {W = W} (HasBitmaps maps) (put_inode a i)
  Keeps-put_inode a i = record {
    holds = λ v h. put_group-HasBitmaps (group_of a) _ v (h.same (group_of a)) h;
  }

  -- Freeing a block changes no bitmap.
  pub Keeps-mark_block : (g bno : ℕ) → Keeps {W = W} (HasBitmaps maps) (mark_block g bno 0)
  unfolding mark_block
  Keeps-mark_block g bno = record {
    holds = λ v h.
        put_group-HasBitmaps g _ v
          (ap (λ m. set_bit m bno 0) (h.same g) ∙ (set_bit_lem (maps g) bno bno (h.bytes g)).1) h;
  }

module _ {W : Type 0} (maps : ℕ → Memory) (dev : BlockDevice W) where
  pub blind :
      (v : Volume W) (c : Guarded Cache) (w : W)
      → HasBitmaps maps v
      → HasBitmaps maps (record v { cache = c; device = w })
  blind v c w h = record { bytes = h.bytes; same = h.same }

  abbrev pub Safe : {A : Type 0} → Cmd W A → Type 0
  Safe m = Keeps (HasBitmaps maps) m

  Safe-turn : (first per i bb step : ℕ) → Safe (turn dev first per i bb step)
  unfolding turn
  Safe-turn first per i bb step =
      Keeps-test (i % per == 0)
        (Keeps-or_else none (Keeps-read_block blind dev _) λ b. Keeps-pure (some (b, 0)))
        (Keeps-pure (some (bb, step)))

  Safe-write_loop : (n g first i bb step : ℕ) → Safe (write_loop dev n g first i bb step)
  unfolding write_loop
  Safe-write_loop zero g first i bb step = Keeps-pure tt
  Safe-write_loop (suc n) g first i bb step = Keeps-bind (Keeps-gets (λ v. v.super)) λ s.
      Keeps-or_else tt (Safe-turn first (num s) i bb step) λ place.
        Keeps-bind (Keeps-buffer place.0) λ b.
          let bytes' = store_inode place.1 ((s.group_table g).inode_cache i) b.bytes in
          let last = (i % num s == num s - 1) || (i == num_in_cache s - 1) in
          Keeps-then (Keeps-put_buffer blind place.0 (record b { bytes = bytes' })) (
            Keeps-bind (Keeps-gets (sector_of dev b.block_no)) λ sector.
              Keeps-then
                (Keeps-test last (Keeps-write_sectors blind dev sector 8 bytes') (Keeps-pure 0))
                (Safe-write_loop n g first (i + 1) place.0 (place.1 + s.inode_size)))

  Safe-write_inode : (g : ℕ) → Safe (write_inode dev g)
  unfolding write_inode
  Safe-write_inode g = Keeps-bind (Keeps-gets (λ v. v.super)) λ s.
      Keeps-match (s.group_table g).inode_begin (Keeps-pure tt)
        λ first. Safe-write_loop (num_in_cache s) g first 0 0 0

  Safe-load_loop : (n g first i bb step : ℕ) → Safe (load_loop dev n g first i bb step)
  unfolding load_loop
  Safe-load_loop zero g first i bb step = Keeps-pure true
  Safe-load_loop (suc n) g first i bb step = Keeps-bind (Keeps-gets (λ v. v.super)) λ s.
      Keeps-or_else false (Safe-turn first (num s) i bb step) λ place.
        Keeps-bind (Keeps-buffer place.0) λ b.
          Keeps-then
            (Keeps-put_inode (inode_at g i)
              (load_inode b.bytes place.1 ((s.group_table g).inode_cache i)))
            (Safe-load_loop n g first (i + 1) place.0 (place.1 + s.inode_size))

  Safe-fill_cache : (g at offset : ℕ) → Safe (fill_cache dev g at offset)
  unfolding fill_cache
  Safe-fill_cache g at offset = Keeps-then (Safe-write_inode g) (
      Keeps-bind (Keeps-gets (λ v. v.super)) λ s.
        Keeps-bind (Safe-load_loop (num_in_cache s) g at 0 0 0) λ fine.
          Keeps-test fine (record { holds = λ v h. put_group-HasBitmaps g _ v (h.same g) h })
            (Keeps-pure none))

  pub Safe-iget_inode : (ino : ℕ) → Safe (iget_inode dev ino)
  unfolding iget_inode
  Safe-iget_inode ino = Keeps-bind (Keeps-gets (λ v. v.super)) λ s.
      let g = (ino - 1) / s.group_inode in
      let at = inode_block s g ((ino - 1) % s.group_inode) in
      let offset = inode_offset s ((ino - 1) % s.group_inode) in
      Keeps-test (ltb ino 1 || ltb s.inode_count ino) (Keeps-pure none) (
        Keeps-match (s.group_table g).inode_begin (Safe-fill_cache g at offset)
          λ begin. Keeps-test (ltb (sub32 at begin) 5) (Keeps-pure _) (Safe-fill_cache g at offset))
