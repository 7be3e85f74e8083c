-- ===== src/Ext2/Unlink.antt =====
-- Removing a file, source/fs/ext2.c: ext2_unlink and ulink_inode.
pub mod Bitmaps
use mango_os.Base.{
  ℕ, zero, suc, ◌+◌, ◌-◌, ◌*◌, ◌/◌, ◌%◌, ◌^◌, Bool, true, false, not, ◌&&◌, ◌||◌, Option, none,
  some, ◌==◌, ltb, List, [], ◌∷◌,
}
use mango_os.Queue.{Addr}
use mango_os.Strings.{Memory, word, half}
use mango_os.File.{File}
use mango_os.Ext2.{
  Inode, BlockDevice, Volume, Cmd, pure, ◌>>=◌, ◌>>◌, gets, given, buffer, put_buffer, inode,
  get_block, read_block,
}
use mango_os.Ext2.Names.{get_name_index}
use mango_os.Ext2.Blocks.{or_else, mark_block, direct, single, double}
use mango_os.Ext2.Dirs.{starts_with, find_inode_by_path}
use mango_os.Ext2.Content.{not_exist}

-- `-EIO`
abbrev pub io_error : ℕ
io_error = 2 ^ 32 - 5

-- The bytes of a text, as far as its terminator.
unfoldable pub text_at : ℕ → Memory → ℕ → Option (List ℕ)
text_at zero m p = none
text_at (suc n) m p = elim (m p == 0) [
  | true ↦ some []
  | false ↦ elim (text_at n m (p + 1)) [ none ↦ none | some cs ↦ some (m p ∷ cs) ]
]

-- The walk of `ulink_inode` over a block's entries below `limit`: an entry that has the name is set
-- to `NULL`, from which the next step reads.
unfoldable pub walk_out : ℕ → Memory → ℕ → ℕ → List ℕ → Option (Unit {0})
walk_out zero m at limit name = none
walk_out (suc n) m at limit name =
    let rest = walk_out n m (at + half m (at + 4)) limit name in
    elim (ltb at limit) [
      | false ↦ some tt
      | true ↦ elim (not (word m at == 0) && starts_with m (at + 8) name) [
        | true ↦ none
        | false ↦ rest
      ]
    ]

-- The buffers that `bb`, `nbb` and `nnbb` point to.
pub record Tables : Type 0 where
  pub bb : ℕ
  pub nbb : ℕ
  pub nnbb : ℕ

module _ {W : Type 0} where
  abbrev pub non_null : Addr → Cmd W Addr
  non_null a = given (elim (a == 0) [ true ↦ none | false ↦ some a ])

  -- `bb->b_state = 0; set_bit(group->p_block_bitmap, bb->block_no, 0)`
  unfoldable pub free_block : ℕ → ℕ → Cmd W (Unit {0})
  unfolding mark_block
  free_block g bb = do
    b ← buffer bb
    put_buffer bb (record b { b_state = 0 })
    mark_block g b.block_no 0

  -- The same for a block that is in its buffer.
  unfoldable pub free_cached : ℕ → ℕ → Cmd W (Unit {0})
  unfolding free_block
  free_cached g bb = do
    b ← buffer bb
    elim (b.b_state == 0) [ true ↦ pure tt | false ↦ free_block g bb ]

  -- `*(uint*)(bb->data + k * 4)`
  abbrev pub entry : ℕ → ℕ → Cmd W ℕ
  entry bb k = buffer bb >>= λ b. pure (word b.bytes (4 * k))

  abbrev pub when : Bool → Cmd W (Unit {0}) → Cmd W (Unit {0})
  when test m = elim test [ true ↦ m | false ↦ pure tt ]

module _ {W : Type 0} (dev : BlockDevice W) where
  -- A table that is read when it begins, and kept otherwise.
  abbrev pub table : Bool → ℕ → ℕ → Cmd W (Option ℕ)
  table begins bno kept = elim begins [ true ↦ read_block dev bno | false ↦ pure (some kept) ]

  -- Block `i` behind the inode's table; `last` says that it is the file's last.
  unfoldable pub unlink_single : ℕ → Inode → ℕ → Bool → Tables → Cmd W (Option Tables)
  unfolding free_block free_cached
  unlink_single g node i last t = or_else (table (i == 12) (node.i_block 12) t.bb) none λ bb. do
    bno ← entry bb (i - 12)
    leaf ← get_block bno
    free_cached g leaf
    when ((i == 1035) || last) (free_block g bb)
    pure (some (record t { bb = bb }))

  -- Behind two tables; `k` counts from the first such block.
  unfoldable pub unlink_double : ℕ → Inode → ℕ → Bool → Tables → Cmd W (Option Tables)
  unfolding free_block free_cached
  unlink_double g node k last t = or_else (table (k == 0) (node.i_block 13) t.bb) none λ bb. do
    first ← entry bb (k / 1024)
    or_else (table (k % 1024 == 0) first t.nbb) none λ nbb. do
      bno ← entry nbb (k % 1024)
      leaf ← get_block bno
      free_cached g leaf
      when ((k % 1024 == 1023) || last) (free_cached g nbb)
      when ((k == 1048575) || last) (free_block g bb)
      pure (some (record { bb = bb; nbb = nbb; nnbb = leaf }))

  -- Behind three tables. The block's number is read from the second one, as in the code.
  unfoldable pub unlink_triple : ℕ → Inode → ℕ → Bool → Tables → Cmd W (Option Tables)
  unfolding free_block free_cached
  unlink_triple g node k last t = or_else (table (k == 0) (node.i_block 14) t.bb) none λ bb. do
    first ← entry bb (k / 1048576)
    or_else (table (k % 1048576 == 0) first t.nbb) none λ nbb. do
      second ← entry nbb (k % 1048576 / 1024)
      or_else (table (k % 1048576 % 1024 == 0) second t.nnbb) none λ nnbb. do
        bno ← entry nbb (k % 1048576 % 1024)
        leaf ← get_block bno
        free_cached g leaf
        when ((k % 1048576 % 1024 == 1023) || last) (free_cached g nnbb)
        when ((k % 1048576 == 1048575) || last) (free_cached g nbb)
        when last (free_block g bb)
        pure (some (record { bb = bb; nbb = nbb; nnbb = nnbb }))

  unfoldable pub unlink_direct : ℕ → Inode → ℕ → Tables → Cmd W (Option Tables)
  unfolding free_cached
  unlink_direct g node i t = do
    bb ← get_block (node.i_block i)
    free_cached g bb
    pure (some (record t { bb = bb }))

  unfoldable pub unlink_block : ℕ → Inode → ℕ → Tables → Cmd W (Option Tables)
  unfolding unlink_direct unlink_single unlink_double unlink_triple
  unlink_block g node i t =
      let last = i == node.i_blocks - 1 in
      elim (ltb i direct) [
        | true ↦ unlink_direct g node i t
        | false ↦ elim (ltb i single) [
          | true ↦ unlink_single g node i last t
          | false ↦ elim (ltb i double) [
            | true ↦ unlink_double g node (i - single) last t
            | false ↦ unlink_triple g node (i - double) last t
          ]
        ]
      ]

  -- The loop of `ext2_unlink` over the blocks, on the rounds left.
  unfoldable pub unlink_loop : ℕ → ℕ → Inode → ℕ → Tables → Cmd W Bool
  unfolding unlink_block
  unlink_loop zero g node i t = pure true
  unlink_loop (suc n) g node i t =
      or_else (unlink_block g node i t) false λ t'. unlink_loop n g node (i + 1) t'

  -- The loop of `ulink_inode` on fuel, from `pos` on.
  unfoldable pub ulink_loop : ℕ → ℕ → Addr → List ℕ → ℕ → Cmd W (Unit {0})
  unfolding walk_out
  ulink_loop fuel zero a name pos = given none
  ulink_loop fuel (suc n) a name pos = do
    i ← gets (inode a)
    s ← gets (λ v. v.super)
    elim (ltb pos i.i_size) [
      | false ↦ pure tt
      | true ↦ do
        p ← non_null i.parent
        dir ← gets (inode p)
        or_else (read_block dev (dir.i_block (pos / s.block_size))) tt λ bb. do
          b ← buffer bb
          given (walk_out fuel b.bytes 0 i.i_size name)
          ulink_loop fuel n a name (pos + s.block_size)
    ]

  unfoldable pub ulink_inode : ℕ → File → ℕ → Cmd W (Unit {0})
  unfolding text_at ulink_loop
  ulink_inode fuel file name = do
    m ← gets (λ v. v.memory)
    a ← non_null file.inode
    cs ← given (text_at fuel m name)
    ulink_loop fuel fuel a cs 0

  -- The inode that the path names is not stored in the file; `ulink_inode` reads the file's.
  unfoldable pub ext2_unlink : ℕ → File → ℕ → Cmd W (ℕ × File)
  unfolding find_inode_by_path unlink_loop ulink_inode get_name_index
  ext2_unlink fuel file path = do
    (found_at, file') ← find_inode_by_path dev fuel file path
    elim found_at [
      | none ↦ pure (not_exist, file')
      | some a ↦ do
        node ← gets (inode a)
        s ← gets (λ v. v.super)
        fine ←
            unlink_loop node.i_blocks (file'.ino / s.group_inode) node 0
              (record { bb = 0; nbb = 0; nnbb = 0 })
        elim fine [
          | false ↦ pure (io_error, file')
          | true ↦ do
            m ← gets (λ v. v.memory)
            start ← given (get_name_index fuel m path)
            ulink_inode fuel file' (path + start)
            pure (0, file')
        ]
    ]
