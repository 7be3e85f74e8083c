-- ===== src/Ext2/Content/Block.antt =====
-- Reading within one block of a file, and what writing leaves alone.
use mathlib.Core.Path.{subst}
use mango_os.Base.{
  ℕ, suc, ◌+◌, ◌-◌, ◌%◌, ◌^◌, ◌<◌, ◌≤◌, ◌≡◌, ◌≢◌, refl, ap, true, false, Option, some, ◌==◌, leb,
  add32, arith,
}
use mango_os.Strings.{Memory}
use mango_os.File.{File}
use mango_os.Ext2.{BlockDevice, Volume, ok, inode, read_block, SuperBlock}
use mango_os.Ext2.Blocks.{iget_bno}
use mango_os.Ext2.Content.{copy_between, read_loop, read_size, take_bytes, ext2_read}
use mango_os.Ext2.Invariants.{Holds, Keeps-read_block}

-- The state apart from the buffers and the device.
pub record Same {W : Type 0} (s : SuperBlock) (m : Memory) (v : Volume W) : Type 0 where
  pub super : v.super ≡ s
  pub memory : v.memory ≡ m

module _ {W : Type 0} (dev : BlockDevice W) where
  -- Reading a block leaves everything but the buffers and the device alone.
  read_block-Same :
      (bno : ℕ) (o : Option ℕ) (v v' : Volume W)
      → read_block dev bno v ≡ ok o v'
      → Same v.super v.memory v'
  read_block-Same bno o v v' e =
      let h =
        (Keeps-read_block {P = Same v.super v.memory}
            (λ w c d p. record { super = p.super; memory = p.memory }) dev bno).holds
          v (record { super = refl; memory = refl }) in
      subst (Holds (Same v.super v.memory)) e h

  read_loop_lem :
      (fuel : ℕ) (file : File) (user size begin bno bb : ℕ) (v v' : Volume W)
      → 0 < size
      → size < 2 ^ 31
      → user ≢ 0
      → begin + size ≤ v.super.block_size
      → read_block dev bno v ≡ ok (some bb) v'
      → read_loop dev (suc fuel) file user size size begin bno v
        ≡ ok
            (true, record file { pos = add32 file.pos size })
            (record v' {
              memory = copy_between v.memory user (v'.cache.inner.buffers bb).bytes begin size;
            })
  unfolding read_loop take_bytes
  read_loop_lem fuel file user size begin bno bb v v' h l nz fits e =
      let same = read_block-Same bno (some bb) v v' e in
      let block_size = ap (λ s. s.block_size) same.super in
      let e2 : leb size (v'.super.block_size - begin) ≡ true = ground arith in
      let e3 : (user == 0) ≡ false = ground arith in ground (arith, e, e2, e3, same.memory)

  -- A read that stays in one of the first twelve blocks of a file and does not pass the file's end:
  -- when the buffer of that block has been found, the bytes go from the position in it to the
  -- caller's memory, nothing else of the memory changes, the position moves on by the size, and the
  -- size is the answer.
  pub ext2_read-block :
      (fuel : ℕ) (file : File) (user size bb : ℕ) (v v' : Volume W)
      → 0 < size
      → size ≤ 49152
      → user ≢ 0
      → file.cur_block < 12
      → file.pos + size ≤ (inode file.inode v).i_size
      → (inode file.inode v).i_size < 2 ^ 32
      → file.pos % v.super.block_size + size ≤ v.super.block_size
      → read_block dev ((inode file.inode v).i_block file.cur_block) v ≡ ok (some bb) v'
      → ext2_read dev (suc fuel) file user size v
        ≡ ok
            (size, record file { pos = file.pos + size })
            (record v' {
              memory =
                  copy_between v.memory user
                    (v'.cache.inner.buffers bb).bytes
                    (file.pos % v.super.block_size)
                    size;
            })
  unfolding ext2_read iget_bno
  ext2_read-block fuel file user size bb v v' h l nz near inside small fits e =
      let i = inode file.inode v in
      let e1 : read_size dev file i.i_size size ≡ size = ground arith in
      let e2 : add32 file.pos size ≡ file.pos + size = omega arith in
      let loop =
        read_loop_lem fuel file user size (file.pos % v.super.block_size) (i.i_block file.cur_block)
          bb v v' h (omega arith) nz fits e in
      ground (arith, e1, e2, loop)
