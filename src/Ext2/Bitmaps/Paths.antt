-- ===== src/Ext2/Bitmaps/Paths.antt =====
-- The bitmaps of blocks through the walk of a path and the making of a new file.
use mango_os.Base.{ℕ, zero, suc, ◌+◌, ◌/◌, not, ◌&&◌, List, Option, none, some, ◌==◌, ltb}
use mango_os.Queue.{Addr}
use mango_os.Strings.{Memory}
use mango_os.File.{File}
use mango_os.Ext2.{
  Inode, SuperBlock, BlockDevice, Volume, Cmd, pure, ◌>>=◌, ◌>>◌, given, modify, inode,
}
use mango_os.Ext2.Bits.{alloc_inode}
use mango_os.Ext2.Names.{iget_name}
use mango_os.Ext2.Dirs.{
  Walk, found, passed, walk_entries, create, dir_loop, find_inode_in_dir, path_loop,
  find_inode_by_path, is_dir, creates, store_entry,
}
use mango_os.Ext2.Inodes.{iget_inode}
use mango_os.Ext2.Invariants.{
  Holds, Keeps-bind, Keeps-then, Keeps-pure, Keeps-gets, Keeps-given, Keeps-buffer, Keeps-test,
  Keeps-match, Keeps-put_buffer, Keeps-mark_dirty, Keeps-read_block,
}
use mango_os.Ext2.Bitmaps.{
  HasBitmaps, AfterAlloc, alloc_inode-SuperHas, Keeps-put_inode, Safe, blind, Safe-iget_inode,
}

module _ {W : Type 0} (maps : ℕ → Memory) (dev : BlockDevice W) where
  module _ (fuel : ℕ) where
    -- The inode and the volume that `create` goes on with.
    create_taken :
        (v : Volume W) (o : Option (ℕ × SuperBlock))
        → HasBitmaps maps v
        → AfterAlloc maps o
        → {A : Type 0} (f : ℕ → Cmd W A) → ((ino : ℕ) → Safe maps dev (f ino))
        → Holds
            (HasBitmaps maps)
            ((given o >>= λ taken. modify (λ v. record v { super = taken.1 }) >> f taken.0) v)
    create_taken v none h a f k = tt
    create_taken v (some r) h a f k = (k r.0).holds _ (record { bytes = h.bytes; same = a })

    Safe-create :
        (last : ℕ) (empty : Option (ℕ × ℕ)) (name : List ℕ)
        → Safe maps dev (create dev fuel last empty name)
    unfolding create
    Safe-create last empty name = record {
      holds = λ v h.
          create_taken v (alloc_inode fuel v.super) h
            (alloc_inode-SuperHas maps fuel v.super h.same) _
            λ ino. Keeps-bind (Safe-iget_inode maps dev ino) λ node.
              Keeps-bind (Keeps-given empty) λ place. Keeps-bind (Keeps-buffer place.0) λ b.
                Keeps-then
                  (Keeps-put_buffer (blind maps dev) place.0
                    (record b { bytes = store_entry b.bytes place.1 ino name }))
                  (Keeps-then (Keeps-mark_dirty (blind maps dev) last) (Keeps-pure node));
    }

    Safe-dir_loop :
        (n : ℕ) (file : File) (dir : Inode) (name : List ℕ) (at_end pos last : ℕ)
        (empty : Option (ℕ × ℕ))
        → Safe maps dev (dir_loop dev fuel n file dir name at_end pos last empty)
    unfolding dir_loop
    Safe-dir_loop zero file dir name at_end pos last empty = Keeps-given none
    Safe-dir_loop (suc n) file dir name at_end pos last empty =
        Keeps-bind (Keeps-gets (λ v. v.super)) λ s.
          Keeps-test (ltb pos dir.i_size)
            (Keeps-bind (Keeps-read_block (blind maps dev) dev (dir.i_block (pos / s.block_size)))
              λ o. Keeps-match o (Keeps-pure (none, file)) λ bb. Keeps-bind (Keeps-buffer bb) λ b.
                Keeps-bind (Keeps-given (walk_entries fuel b.bytes s.block_size bb name 0 empty))
                  λ walk.
                    after s bb (λ e. Safe-dir_loop n file dir name at_end (pos + s.block_size) bb e)
                      walk)
            (Keeps-test (creates file.mode && not (at_end == 0))
              (Keeps-bind (Safe-create last empty name) λ node. Keeps-pure (node, file))
              (Keeps-pure (none, file)))
      where
        after :
            (s : SuperBlock) (bb : ℕ)
            → ((e : Option (ℕ × ℕ))
                → Safe maps dev
                    (dir_loop dev fuel n file dir name at_end (pos + s.block_size) bb e))
            → (walk : Walk)
            → Safe {W = W} maps dev {A = Option Addr × File} (elim walk [
              | found ino ↦ iget_inode dev ino >>= λ node. pure (node, record file { ino = ino })
              | passed empty' ↦
                  dir_loop dev fuel n file dir name at_end (pos + s.block_size) bb empty'
            ])
        after s bb next (found ino) =
            Keeps-bind (Safe-iget_inode maps dev ino)
              λ node. Keeps-pure (node, record file { ino = ino })
        after s bb next (passed empty') = next empty'

    Safe-find_inode_in_dir :
        (file : File) (a : Addr) (name : List ℕ) (at_end : ℕ)
        → Safe maps dev (find_inode_in_dir dev fuel file a name at_end)
    unfolding find_inode_in_dir
    Safe-find_inode_in_dir file a name at_end = Keeps-bind (Keeps-gets (inode a)) λ dir.
        Keeps-test (is_dir dir.i_mode) (Safe-dir_loop fuel file dir name at_end 0 0 none)
          (Keeps-pure (none, file))

    Safe-path_loop :
        (n : ℕ) (file : File) (reached : Option Addr) (path at_end : ℕ)
        → Safe maps dev (path_loop dev fuel n file reached path at_end)
    unfolding path_loop
    Safe-path_loop zero file reached path at_end = Keeps-given none
    Safe-path_loop (suc n) file reached path at_end = Keeps-bind (Keeps-gets (λ v. v.memory)) λ m.
        Keeps-bind (Keeps-given (iget_name fuel m path at_end)) λ step.
          Keeps-match step (Keeps-pure (reached, file)) λ next.
            Keeps-bind (Keeps-given reached) λ a.
              Keeps-bind (Safe-find_inode_in_dir file a next.1 next.2) λ child.
                Keeps-match child.0 (Keeps-pure (none, child.1)) λ c.
                  Keeps-bind (Keeps-gets (inode c)) λ i.
                    Keeps-then (Keeps-put_inode c (record i { parent = a }))
                      (Safe-path_loop n child.1 (some c) next.0 next.2)

    -- Walking a path, a new file included, changes no bitmap of blocks.
    pub Safe-find_inode_by_path :
        (file : File) (path : ℕ) → Safe maps dev (find_inode_by_path dev fuel file path)
    unfolding find_inode_by_path
    Safe-find_inode_by_path file path =
        Keeps-bind (Safe-iget_inode maps dev 2) λ root. Safe-path_loop fuel file root path 1
