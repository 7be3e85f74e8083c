-- ===== src/Ext2/Blocks.antt =====
-- The blocks of a file, source/fs/ext2.c: iget_bno and alloc_block. A block holds 1024 numbers of
-- blocks. Positions in a file are not negative.
use mango_os.Base.{
  minus_one, ℕ, ◌+◌, ◌-◌, ◌*◌, ◌/◌, ◌%◌, true, false, Option, none, some, ◌==◌, ltb, update,
}
use mango_os.Queue.{Addr}
use mango_os.Strings.{word, store_word}
use mango_os.File.{File}
use mango_os.Ext2.{
  Inode, BlockDevice, Cmd, pure, ◌>>=◌, ◌>>◌, gets, given, buffer, put_buffer, put_group, inode,
  put_inode, read_block,
}
use mango_os.Ext2.Bits.{set_bit, find_first_zero_bit}

-- Where the first index behind each kind of pointer lies: direct ones, then one, two and three tables.
abbrev pub direct : ℕ
direct = 12

abbrev pub single : ℕ
single = 1036

abbrev pub double : ℕ
double = 1049612

-- Goes on with a value, or answers for `NULL` and -1.
abbrev pub or_else : {W A B : Type 0} → Cmd W (Option A) → B → (A → Cmd W B) → Cmd W B
or_else m bad f = m >>= λ o. elim o [ none ↦ pure bad | some a ↦ f a ]

module _ {W : Type 0} where
  -- The search for a free block in a group.
  unfoldable pub zero_bit : ℕ → ℕ → Cmd W ℕ
  zero_bit fuel g = do
    d ← gets (λ v. v.super.group_table g)
    given (find_first_zero_bit fuel d.p_block_bitmap d.block_bitmap_size)

  -- `set_bit(group->p_block_bitmap, bno, flag)`
  unfoldable pub mark_block : ℕ → ℕ → ℕ → Cmd W (Unit {0})
  mark_block g bno flag = do
    d ← gets (λ v. v.super.group_table g)
    put_group g (record d { p_block_bitmap = set_bit d.p_block_bitmap bno flag })

  -- `inode->i_block[k] = bno`
  unfoldable pub set_pointer : Addr → ℕ → ℕ → Cmd W (Unit {0})
  set_pointer a k bno = do
    i ← gets (inode a)
    put_inode a (record i { i_block = update i.i_block k bno })

  -- The first block behind a pointer of the inode.
  unfoldable pub set_root : ℕ → Addr → ℕ → ℕ → Cmd W (Unit {0})
  unfolding set_pointer mark_block
  set_root g a k bno = do set_pointer a k bno; mark_block g bno 1

module _ {W : Type 0} (dev : BlockDevice W) where
  -- Reads a block, then the word at a byte of it.
  unfoldable pub follow : ℕ → ℕ → Cmd W (Option ℕ)
  follow bno at =
      or_else (read_block dev bno) none λ bb. do b ← buffer bb; pure (some (word b.bytes at))

  -- The tables are read at byte offsets, as the code does.
  unfoldable pub iget_bno : Inode → ℕ → Cmd W ℕ
  unfolding follow
  iget_bno node index = elim (ltb index direct) [
    | true ↦ pure (node.i_block index)
    | false ↦ elim (ltb index single) [
      | true ↦ or_else (follow (node.i_block 12) (index - 12)) minus_one pure
      | false ↦ elim (ltb index double) [
        | true ↦
            or_else (follow (node.i_block 13) ((index - single) / 1024)) minus_one
              λ bno. or_else (follow bno ((index - single) % 1024)) minus_one pure
        | false ↦ or_else (follow (node.i_block 14) ((index - double) / 1048576)) minus_one λ bno.
            or_else (follow bno ((index - double) % 1048576 / 1024)) minus_one
              λ bno'. or_else (follow bno' ((index - double) % 1048576 % 1024)) minus_one pure
      ]
    ]
  ]

  -- Puts a block into a table, at a word of it.
  unfoldable pub put_entry : ℕ → ℕ → ℕ → ℕ → Cmd W (Option ℕ)
  unfolding mark_block
  put_entry g table k bno = or_else (read_block dev table) none λ bb. do
    b ← buffer bb
    put_buffer bb (record b { bytes = store_word (4 * k) bno b.bytes })
    mark_block g bno 1
    pure (some bno)

  -- Reads a new table, then puts a block that it looks for into the table's first word.
  unfoldable pub grow_table : ℕ → ℕ → ℕ → Cmd W (Option ℕ)
  unfolding zero_bit mark_block
  grow_table fuel g table = or_else (read_block dev table) none λ bb. do
    bno ← zero_bit fuel g
    b ← buffer bb
    put_buffer bb (record b { bytes = store_word 0 bno b.bytes })
    mark_block g bno 1
    pure (some bno)

  -- A block two tables deep, `i` blocks behind the first.
  unfoldable pub alloc_double : ℕ → ℕ → Addr → ℕ → ℕ → Cmd W (Option ℕ)
  unfolding set_root put_entry grow_table follow
  alloc_double fuel g a i bno = do
    node ← gets (inode a)
    elim (i == 0) [
      | true ↦ set_root g a 13 bno >> or_else (grow_table fuel g bno) none (grow_table fuel g)
      | false ↦ elim (i % 1024 == 0) [
        | true ↦ or_else (put_entry g (node.i_block 13) (i / 1024) bno) none (grow_table fuel g)
        | false ↦
            or_else (follow (node.i_block 13) (4 * (i / 1024))) none
              λ table. put_entry g table (i % 1024) bno
      ]
    ]

  -- A block three tables deep.
  unfoldable pub alloc_triple : ℕ → ℕ → Addr → ℕ → ℕ → Cmd W (Option ℕ)
  unfolding set_root put_entry grow_table follow
  alloc_triple fuel g a i bno = do
    node ← gets (inode a)
    elim (i == 0) [
      | true ↦
          set_root g a 14 bno
          >> or_else (grow_table fuel g bno) none
              λ table. or_else (grow_table fuel g table) none (grow_table fuel g)
      | false ↦ elim (i % 1048576 == 0) [
        | true ↦
            or_else (put_entry g (node.i_block 14) (i / 1048576) bno) none
              λ _. or_else (grow_table fuel g bno) none (grow_table fuel g)
        | false ↦ or_else (follow (node.i_block 14) (4 * (i / 1048576))) none λ table.
            elim (i % 1048576 % 1024 == 0) [
              | true ↦ or_else (put_entry g table (i % 1048576 / 1024) bno) none (grow_table fuel g)
              | false ↦
                  or_else (follow table (4 * (i % 1048576 / 1024))) none
                    λ inner. put_entry g inner (i % 1048576 % 1024) bno
            ]
      ]
    ]

  -- The block after the one at the file's position; `none` is -1.
  unfoldable pub alloc_block : ℕ → File → Cmd W (Option ℕ)
  unfolding zero_bit set_root put_entry grow_table alloc_double alloc_triple
  alloc_block fuel file = do
    s ← gets (λ v. v.super)
    let g = file.ino / s.group_inode
    bno ← zero_bit fuel g
    node ← gets (inode file.inode)
    let i = file.pos / s.block_size
    elim (ltb i 11) [
      | true ↦ set_root g file.inode (i + 1) bno >> pure (some bno)
      | false ↦ elim (ltb i 1035) [
        | true ↦ elim (i == 11) [
          | true ↦ set_root g file.inode 12 bno >> grow_table fuel g bno
          | false ↦ put_entry g (node.i_block 12) (i - 12) bno
        ]
        | false ↦ elim (ltb i 1049611) [
          | true ↦ alloc_double fuel g file.inode (i - 1035) bno
          | false ↦ alloc_triple fuel g file.inode (i - 1049611) bno
        ]
      ]
    ]
