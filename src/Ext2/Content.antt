-- ===== src/Ext2/Content.antt =====
-- The bytes of a file, source/fs/ext2.c: ext2_open, ext2_read, ext2_write and ext2_seek. A call works
-- on the file that is passed and answers an `int` as its pattern. The position is not negative. A
-- buffer's bytes behind its block stand for what lies there.
pub mod Block
pub mod Fresh
use mango_os.Base.{
  ℕ, zero, suc, ◌+◌, ◌-◌, ◌*◌, ◌/◌, ◌%◌, ◌^◌, Bool, true, false, not, ◌&&◌, Option, none, some,
  ◌==◌, ltb, leb, if◌then◌else◌, add32, sub32, is_pos32,
}
use mango_os.Strings.{Memory}
use mango_os.File.{File}
use mango_os.Ext2.{
  BlockDevice, Volume, Cmd, pure, ◌>>=◌, ◌>>◌, gets, given, modify, buffer, put_buffer, mark_dirty,
  inode, put_inode, read_block,
}
use mango_os.Ext2.Blocks.{or_else, iget_bno}
use mango_os.Ext2.Dirs.{is_dir, find_inode_by_path}

-- `-ENOTEXIST`
abbrev pub not_exist : ℕ
not_exist = 2 ^ 32 - 16

-- The bytes of `to` after `kmemcpy(dest, src, size)`, where `src` lies in another memory.
abbrev pub copy_between : Memory → ℕ → Memory → ℕ → ℕ → Memory
copy_between to dest from src size a =
    if leb dest a && ltb a (dest + size) then from (src + (a - dest)) else to a

-- A `NULL` takes no bytes.
abbrev pub copy_out : ℕ → Memory → ℕ → ℕ → Memory → Memory
copy_out dest from src size m = if dest == 0 then m else copy_between m dest from src size

module _ {W : Type 0} (dev : BlockDevice W) where
  unfoldable pub ext2_open : ℕ → File → ℕ → Cmd W (ℕ × File)
  unfolding find_inode_by_path
  ext2_open fuel file path = do
    (node, file') ← find_inode_by_path dev fuel file path
    elim node [
      | none ↦ pure (not_exist, file')
      | some a ↦ do
        i ← gets (inode a)
        elim (is_dir i.i_mode) [
          | true ↦ pure (not_exist, file')
          | false ↦ pure (0, record file' { inode = a; pos = 0; start_block = 0; cur_block = 0 })
        ]
    ]

  -- `kmemcpy(user, bb->data + begin, n); file->pos += n`
  unfoldable pub take_bytes : File → ℕ → ℕ → ℕ → ℕ → Cmd W File
  take_bytes file user bb begin n = do
    b ← buffer bb
    modify (λ v. record v { memory = copy_out user b.bytes begin n v.memory })
    pure (record file { pos = add32 file.pos n })

  -- The loop of `ext2_read`, whose test is on the whole size: `size` bytes are asked for, `r_size`
  -- are missing. `none` is a block that cannot be read.
  unfoldable pub read_loop : ℕ → File → ℕ → ℕ → ℕ → ℕ → ℕ → Cmd W (Bool × File)
  unfolding iget_bno take_bytes
  read_loop zero file user size r_size begin bno = given none
  read_loop (suc n) file user size r_size begin bno = elim (is_pos32 r_size) [
    | false ↦ pure (true, file)
    | true ↦
        or_else (read_block dev bno) (false, file)
          λ bb. do
            s ← gets (λ v. v.super)
            elim (leb size (s.block_size - begin)) [
              | true ↦ take_bytes file user bb begin r_size >>= λ file'. pure (true, file')
              | false ↦ do
                file' ← take_bytes file user bb begin (s.block_size - begin)
                let file'' = record file' { cur_block = file.cur_block + 1 }
                i ← gets (inode file.inode)
                bno' ← iget_bno dev i (file.cur_block + 1)
                read_loop n file'' (user + (s.block_size - begin)) size
                    (sub32 r_size (s.block_size - begin)) 0 bno'
            ]
  ]

  -- The size that is read: at most twelve blocks of 4096 bytes, and not past the end of the file.
  abbrev pub read_size : File → ℕ → ℕ → ℕ
  read_size file i_size size =
      let most = if is_pos32 size && ltb 49152 size then 49152 else size in
      if ltb i_size (add32 file.pos most) then sub32 i_size file.pos else most

  unfoldable pub ext2_read : ℕ → File → ℕ → ℕ → Cmd W (ℕ × File)
  unfolding read_loop
  ext2_read fuel file user size = do
    s ← gets (λ v. v.super)
    i ← gets (inode file.inode)
    let size' = read_size file i.i_size size
    bno ← iget_bno dev i file.cur_block
    (fine, file') ← read_loop fuel file user size' size' (file.pos % s.block_size) bno
    pure (if fine then size' else 0, file')

  -- `kmemcpy(bb->data + begin, user, n); file->pos += n`, and the block is marked.
  unfoldable pub put_bytes : File → ℕ → ℕ → ℕ → ℕ → Cmd W File
  put_bytes file user bb begin n = do
    b ← buffer bb
    m ← gets (λ v. v.memory)
    put_buffer bb
        (record b { bytes = if user == 0 then b.bytes else copy_between b.bytes begin m user n })
    mark_dirty bb
    pure (record file { pos = add32 file.pos n })

  -- The loop of `ext2_write`, which leaves after one block on both ways; what follows in the loop is
  -- never reached.
  unfoldable pub write_round : File → ℕ → ℕ → ℕ → Cmd W (Bool × File)
  unfolding iget_bno put_bytes
  write_round file user size begin = do
    s ← gets (λ v. v.super)
    i ← gets (inode file.inode)
    bno ← iget_bno dev i (file.pos / s.block_size)
    elim (is_pos32 size) [
      | false ↦ pure (true, file)
      | true ↦
          or_else (read_block dev bno) (false, file)
            λ bb.
              put_bytes file user bb begin
                (if leb size (s.block_size - begin) then size else s.block_size - begin)
              >>= λ file'. pure (true, file')
    ]

  unfoldable pub ext2_write : File → ℕ → ℕ → Cmd W (ℕ × File)
  unfolding write_round
  ext2_write file user size = do
    s ← gets (λ v. v.super)
    (fine, file') ← write_round file user size (file.pos % s.block_size)
    elim fine [
      | false ↦ pure (0, file')
      | true ↦ do
        i ← gets (inode file.inode)
        now ← gets (λ v. v.cache.inner.timestamp)
        put_inode file.inode (record i { i_size = add32 i.i_size size; i_atime = now })
        pure (size, file')
    ]

  -- An unsigned offset is never negative. Kept below 2^31, as a position is.
  unfoldable pub ext2_seek : File → ℕ → Cmd W (ℕ × File)
  ext2_seek file offset = do
    s ← gets (λ v. v.super)
    pure (0, record file { pos = offset; cur_block = offset / s.block_size })
