-- ===== src/Ext2/Unlink/Bitmaps.antt =====
-- Removing a file frees no block; writing one takes none.
use mango_os.Base.{
  ℕ, zero, suc, ◌+◌, ◌-◌, ◌*◌, ◌/◌, ◌%◌, ◌≡◌, refl, Bool, true, false, ◌||◌, none, some, ◌==◌, ltb,
  leb, is_pos32, if◌then◌else◌, List, add32,
}
use mango_os.Queue.{Addr}
use mango_os.Strings.{Memory, word}
use mango_os.File.{File}
use mango_os.Ext2.{Inode, BlockDevice, Volume, Cmd, inode, get_block, ◌>>=◌, ◌>>◌}
use mango_os.Bitmap.Bits.{IsBytes}
use mango_os.Ext2.{Run, ok, waits, stuck}
use mango_os.Ext2.Names.{get_name_index}
use mango_os.Ext2.Blocks.{direct, single, double}
use mango_os.Ext2.Content.{write_round, put_bytes, ext2_write, copy_between}
use mango_os.Ext2.Unlink.{
  Tables, free_block, free_cached, entry, when, table, text_at, walk_out, unlink_single,
  unlink_double, unlink_triple, unlink_direct, unlink_block, unlink_loop, ulink_loop, ulink_inode,
  ext2_unlink, io_error,
}
use mango_os.Ext2.Content.{not_exist}
use mango_os.Ext2.Invariants.{
  Holds, Keeps-bind, Keeps-then, Keeps-pure, Keeps-gets, Keeps-given, Keeps-buffer, Keeps-test,
  Keeps-match, Keeps-or_else, Keeps-put_buffer, Keeps-mark_dirty, Keeps-read_block, Keeps-get_block,
  Keeps-iget_bno,
}
use mango_os.Ext2.Bitmaps.Paths.{Safe-find_inode_by_path}
use mango_os.Ext2.Bitmaps.{HasBitmaps, Keeps-put_inode, Keeps-mark_block, Safe, blind}

module _ {W : Type 0} (maps : ℕ → Memory) (dev : BlockDevice W) where
  Safe-free_block : (g bb : ℕ) → Safe maps dev (free_block g bb)
  unfolding free_block
  Safe-free_block g bb = Keeps-bind (Keeps-buffer bb) λ b.
      Keeps-then (Keeps-put_buffer (blind maps dev) bb (record b { b_state = 0 }))
        (Keeps-mark_block g b.block_no)

  Safe-free_cached : (g bb : ℕ) → Safe maps dev (free_cached g bb)
  unfolding free_cached
  Safe-free_cached g bb =
      Keeps-bind (Keeps-buffer bb)
        λ b. Keeps-test (b.b_state == 0) (Keeps-pure tt) (Safe-free_block g bb)

  Safe-when : (test : Bool) {m : Cmd W (Unit {0})} → Safe maps dev m → Safe maps dev (when test m)
  Safe-when test h = Keeps-test test h (Keeps-pure tt)

  Safe-entry : (bb k : ℕ) → Safe maps dev (entry bb k)
  Safe-entry bb k = Keeps-bind (Keeps-buffer bb) λ b. Keeps-pure (word b.bytes (4 * k))

  Safe-table : (begins : Bool) (bno kept : ℕ) → Safe maps dev (table dev begins bno kept)
  Safe-table begins bno kept =
      Keeps-test begins (Keeps-read_block (blind maps dev) dev bno) (Keeps-pure (some kept))

  Safe-leaf :
      (g bno : ℕ) {A : Type 0} (f : ℕ → Cmd W A)
      → ((leaf : ℕ) → Safe maps dev (f leaf))
      → Safe maps dev (get_block bno >>= λ leaf. free_cached g leaf >> f leaf)
  Safe-leaf g bno f h =
      Keeps-bind (Keeps-get_block (blind maps dev) bno)
        λ leaf. Keeps-then (Safe-free_cached g leaf) (h leaf)

  Safe-unlink_direct :
      (g : ℕ) (node : Inode) (i : ℕ) (t : Tables) → Safe maps dev (unlink_direct dev g node i t)
  unfolding unlink_direct
  Safe-unlink_direct g node i t =
      Safe-leaf g (node.i_block i) _ λ bb. Keeps-pure (some (record t { bb = bb }))

  Safe-unlink_single :
      (g : ℕ) (node : Inode) (i : ℕ) (last : Bool) (t : Tables)
      → Safe maps dev (unlink_single dev g node i last t)
  unfolding unlink_single
  Safe-unlink_single g node i last t =
      Keeps-or_else none (Safe-table (i == 12) (node.i_block 12) t.bb) λ bb.
        Keeps-bind (Safe-entry bb (i - 12)) λ bno. Safe-leaf g bno _ λ leaf.
          Keeps-then (Safe-when ((i == 1035) || last) (Safe-free_block g bb))
            (Keeps-pure (some (record t { bb = bb })))

  Safe-unlink_double :
      (g : ℕ) (node : Inode) (k : ℕ) (last : Bool) (t : Tables)
      → Safe maps dev (unlink_double dev g node k last t)
  unfolding unlink_double
  Safe-unlink_double g node k last t =
      Keeps-or_else none (Safe-table (k == 0) (node.i_block 13) t.bb) λ bb.
        Keeps-bind (Safe-entry bb (k / 1024)) λ first.
          Keeps-or_else none (Safe-table (k % 1024 == 0) first t.nbb) λ nbb.
            Keeps-bind (Safe-entry nbb (k % 1024)) λ bno. Safe-leaf g bno _ λ leaf.
              Keeps-then (Safe-when ((k % 1024 == 1023) || last) (Safe-free_cached g nbb)) (
                Keeps-then (Safe-when ((k == 1048575) || last) (Safe-free_block g bb))
                  (Keeps-pure (some (record { bb = bb; nbb = nbb; nnbb = leaf }))))

  Safe-unlink_triple :
      (g : ℕ) (node : Inode) (k : ℕ) (last : Bool) (t : Tables)
      → Safe maps dev (unlink_triple dev g node k last t)
  unfolding unlink_triple
  Safe-unlink_triple g node k last t =
      Keeps-or_else none (Safe-table (k == 0) (node.i_block 14) t.bb) λ bb.
        Keeps-bind (Safe-entry bb (k / 1048576)) λ first.
          Keeps-or_else none (Safe-table (k % 1048576 == 0) first t.nbb) λ nbb.
            Keeps-bind (Safe-entry nbb (k % 1048576 / 1024)) λ second.
              Keeps-or_else none (Safe-table (k % 1048576 % 1024 == 0) second t.nnbb) λ nnbb.
                Keeps-bind (Safe-entry nbb (k % 1048576 % 1024)) λ bno. Safe-leaf g bno _ λ leaf.
                  Keeps-then
                    (Safe-when ((k % 1048576 % 1024 == 1023) || last) (Safe-free_cached g nnbb))
                    (Keeps-then
                      (Safe-when ((k % 1048576 == 1048575) || last) (Safe-free_cached g nbb))
                      (Keeps-then (Safe-when last (Safe-free_block g bb))
                        (Keeps-pure (some (record { bb = bb; nbb = nbb; nnbb = nnbb })))))

  Safe-unlink_block :
      (g : ℕ) (node : Inode) (i : ℕ) (t : Tables) → Safe maps dev (unlink_block dev g node i t)
  unfolding unlink_block
  Safe-unlink_block g node i t =
      let last = i == node.i_blocks - 1 in
      Keeps-test (ltb i direct) (Safe-unlink_direct g node i t) (
        Keeps-test (ltb i single) (Safe-unlink_single g node i last t) (
          Keeps-test (ltb i double) (Safe-unlink_double g node (i - single) last t)
            (Safe-unlink_triple g node (i - double) last t)))

  Safe-unlink_loop :
      (n g : ℕ) (node : Inode) (i : ℕ) (t : Tables) → Safe maps dev (unlink_loop dev n g node i t)
  unfolding unlink_loop
  Safe-unlink_loop zero g node i t = Keeps-pure true
  Safe-unlink_loop (suc n) g node i t =
      Keeps-or_else false (Safe-unlink_block g node i t) λ t'. Safe-unlink_loop n g node (i + 1) t'

  Safe-ulink_loop :
      (fuel n : ℕ) (a : Addr) (name : List ℕ) (pos : ℕ)
      → Safe maps dev (ulink_loop dev fuel n a name pos)
  unfolding ulink_loop
  Safe-ulink_loop fuel zero a name pos = Keeps-given none
  Safe-ulink_loop fuel (suc n) a name pos = Keeps-bind (Keeps-gets (inode a)) λ i.
      Keeps-bind (Keeps-gets (λ v. v.super)) λ s.
        Keeps-test (ltb pos i.i_size)
          (Keeps-bind (Keeps-given (elim (i.parent == 0) [ true ↦ none | false ↦ some i.parent ]))
            λ p. Keeps-bind (Keeps-gets (inode p)) λ dir.
              Keeps-or_else tt
                (Keeps-read_block (blind maps dev) dev (dir.i_block (pos / s.block_size)))
                λ bb. Keeps-bind (Keeps-buffer bb) λ b.
                  Keeps-then (Keeps-given (walk_out fuel b.bytes 0 i.i_size name))
                    (Safe-ulink_loop fuel n a name (pos + s.block_size)))
          (Keeps-pure tt)

  Safe-ulink_inode :
      (fuel : ℕ) (file : File) (name : ℕ) → Safe maps dev (ulink_inode dev fuel file name)
  unfolding ulink_inode
  Safe-ulink_inode fuel file name = Keeps-bind (Keeps-gets (λ v. v.memory)) λ m.
      Keeps-bind (Keeps-given (elim (file.inode == 0) [ true ↦ none | false ↦ some file.inode ]))
        λ a. Keeps-bind (Keeps-given (text_at fuel m name)) λ cs. Safe-ulink_loop fuel fuel a cs 0

  Safe-ext2_unlink :
      (fuel : ℕ) (file : File) (path : ℕ) → Safe maps dev (ext2_unlink dev fuel file path)
  unfolding ext2_unlink
  Safe-ext2_unlink fuel file path =
      Keeps-bind (Safe-find_inode_by_path maps dev fuel file path) λ r.
        Keeps-match r.0 (Keeps-pure (not_exist, r.1)) λ a. Keeps-bind (Keeps-gets (inode a)) λ node.
          Keeps-bind (Keeps-gets (λ v. v.super)) λ s.
            Keeps-bind
              (Safe-unlink_loop node.i_blocks (r.1.ino / s.group_inode) node 0
                (record { bb = 0; nbb = 0; nnbb = 0 }))
              λ fine.
                Keeps-test fine
                  (Keeps-bind (Keeps-gets (λ v. v.memory)) λ m.
                    Keeps-bind (Keeps-given (get_name_index fuel m path)) λ start.
                      Keeps-then (Safe-ulink_inode fuel r.1 (path + start)) (Keeps-pure (0, r.1)))
                  (Keeps-pure (io_error, r.1))

  Safe-write_round :
      (file : File) (user size begin : ℕ) → Safe maps dev (write_round dev file user size begin)
  unfolding write_round put_bytes
  Safe-write_round file user size begin = Keeps-bind (Keeps-gets (λ v. v.super)) λ s.
      Keeps-bind (Keeps-gets (inode file.inode)) λ i.
        Keeps-bind (Keeps-iget_bno (blind maps dev) dev i (file.pos / s.block_size)) λ bno.
          let n = if leb size (s.block_size - begin) then size else s.block_size - begin in
          Keeps-test (is_pos32 size)
            (Keeps-or_else (false, file) (Keeps-read_block (blind maps dev) dev bno)
              λ bb.
                Keeps-bind
                  (Keeps-bind (Keeps-buffer bb) λ b. Keeps-bind (Keeps-gets (λ v. v.memory)) λ m.
                    Keeps-then
                      (Keeps-put_buffer (blind maps dev) bb (record b {
                        bytes = if user == 0 then b.bytes else copy_between b.bytes begin m user n;
                      }))
                      (Keeps-then (Keeps-mark_dirty (blind maps dev) bb)
                        (Keeps-pure (record file { pos = add32 file.pos n }))))
                  λ file'. Keeps-pure (true, file'))
            (Keeps-pure (true, file))

  Safe-ext2_write : (file : File) (user size : ℕ) → Safe maps dev (ext2_write dev file user size)
  unfolding ext2_write
  Safe-ext2_write file user size = Keeps-bind (Keeps-gets (λ v. v.super)) λ s.
      Keeps-bind (Safe-write_round file user size (file.pos % s.block_size)) λ r.
        Keeps-test r.0
          (Keeps-bind (Keeps-gets (inode file.inode)) λ i.
            Keeps-bind (Keeps-gets (λ v. v.cache.inner.timestamp)) λ now.
              Keeps-then
                (Keeps-put_inode file.inode
                  (record i { i_size = add32 i.i_size size; i_atime = now }))
                (Keeps-pure (size, r.1)))
          (Keeps-pure (0, r.1))

-- Every group's bitmap of blocks is what it was in `v`.
abbrev pub SameBitmaps : {W : Type 0} → Volume W → Volume W → Type 0
SameBitmaps v v' =
    (g : ℕ) → (v'.super.group_table g).p_block_bitmap ≡ (v.super.group_table g).p_block_bitmap

Safe-SameBitmaps :
    {W A : Type 0} (v : Volume W) (r : Run W A)
    → Holds (HasBitmaps (λ g. (v.super.group_table g).p_block_bitmap)) r
    → Holds (SameBitmaps v) r
Safe-SameBitmaps v (ok a v') h = h.same
Safe-SameBitmaps v (waits v') h = h.same
Safe-SameBitmaps v stuck h = tt

module _ {W : Type 0} (dev : BlockDevice W) (v : Volume W)
    (bytes : (g : ℕ) → IsBytes (v.super.group_table g).p_block_bitmap) where
  -- However a removal ends, with its answer or waiting for the buffers' mutex, no bitmap of blocks has
  -- changed: the blocks of the file stay in use.
  pub ext2_unlink-SameBitmaps :
      (fuel : ℕ) (file : File) (path : ℕ) → Holds (SameBitmaps v) (ext2_unlink dev fuel file path v)
  ext2_unlink-SameBitmaps fuel file path =
      let maps : ℕ → Memory = λ g. (v.super.group_table g).p_block_bitmap in
      Safe-SameBitmaps v (ext2_unlink dev fuel file path v) (
        (Safe-ext2_unlink maps dev fuel file path).holds v
          (record { bytes = bytes; same = λ g. refl }))

  -- However a write ends, no bitmap of blocks has changed: no block is ever taken for a file that
  -- grows.
  pub ext2_write-SameBitmaps :
      (file : File) (user size : ℕ) → Holds (SameBitmaps v) (ext2_write dev file user size v)
  ext2_write-SameBitmaps file user size =
      let maps : ℕ → Memory = λ g. (v.super.group_table g).p_block_bitmap in
      Safe-SameBitmaps v (ext2_write dev file user size v) (
        (Safe-ext2_write maps dev file user size).holds v
          (record { bytes = bytes; same = λ g. refl }))
