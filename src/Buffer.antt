-- ===== src/Buffer.antt =====
-- source/fs/buffer.c and source/include/buffer.h: buffers for the blocks of the disk, in ten buckets
-- behind one mutex. A buffer is known by its number in the order of allocation, which is taken to
-- succeed. `bytes` is what `data` points to.
pub mod Buckets
pub mod Hits
use mango_os.Base.{
  ℕ, ◌+◌, ◌%◌, ◌^◌, ◌*◌, Bool, true, false, ◌&&◌, List, [], ◌∷◌, ◌==◌, ltb, leb, if◌then◌else◌,
  update, inc32,
}
use mango_os.Queue.{Addr, Links, init}
use mango_os.Kernel.{Kernel}
use mango_os.Strings.{Memory}
use mango_os.Ipc.{mutex_init, mutex_lock, mutex_unlock}
use mango_os.Ipc.Guarded.{Guarded, Outcome, done, blocked, enters, with_lock}

abbrev pub buffer_hash_size : ℕ
buffer_hash_size = 10

-- `block_buffer_t`
pub record Buffer : Type 0 where
  pub block_no : ℕ
  pub bytes : Memory
  pub b_state : ℕ
  pub exp_time : ℕ

-- The buffers, and `bh_table`: each bucket's size and its buffers from the head on.
pub record Cache : Type 0 where
  pub buffers : ℕ → Buffer
  pub fresh : ℕ
  pub sizes : ℕ → ℕ
  pub buckets : ℕ → List ℕ
  pub timestamp : ℕ

abbrev pub set_buffer : Cache → ℕ → Buffer → Cache
set_buffer c i b = record c { buffers = update c.buffers i b }

-- `bb_init` without the list of dirty blocks, whose head is at this address.
unfoldable pub bb_init : Kernel → Addr → Addr → Cache → Guarded Cache
bb_init k queue dirty_blocks c =
    let k0 = record k { links = init k.links dirty_blocks } in
    let (k', m) = mutex_init k0 queue in
    record { kernel = k'; mutex = m; inner = record c { sizes = λ h. 0; buckets = λ h. [] } }

-- The block number is not negative.
abbrev pub hash_bh : ℕ → ℕ
hash_bh bno = bno % buffer_hash_size

-- How the search of a full bucket ends: at the block, or with the buffer that was used the longest
-- time ago and the last one looked at.
pub data Found : Type 0 where
  hit : ℕ → Found
  miss : ℕ → ℕ → Found

abbrev pub is_block : Cache → ℕ → ℕ → Bool
is_block c bno i = ((c.buffers i).block_no == bno) && ((c.buffers i).b_state == 1)

unfoldable pub search : Cache → ℕ → List ℕ → ℕ → ℕ → Found
search c bno [] exp_bb bb = miss exp_bb bb
search c bno (i ∷ is) exp_bb bb =
    let next =
      search c bno is (if ltb (c.buffers i).exp_time (c.buffers exp_bb).exp_time then i else exp_bb)
        i in
    if is_block c bno i then hit i else next

abbrev pub touch : Cache → ℕ → Cache
touch c i = set_buffer c i (record (c.buffers i) { exp_time = c.timestamp })

-- The oldest buffer is taken for the block; the last one looked at is marked.
abbrev pub take_over : Cache → ℕ → ℕ → ℕ → Cache
take_over c bno exp_bb bb =
    let c1 =
      set_buffer c exp_bb (record (c.buffers exp_bb) { block_no = bno; exp_time = c.timestamp }) in
    set_buffer c1 bb (record (c1.buffers bb) { b_state = 2 })

abbrev pub first_of : List ℕ → ℕ
first_of [] = 0
first_of (i ∷ is) = i

-- A full bucket: the mutex is taken, and given back if the block was not found.
unfoldable pub reuse : ℕ → Guarded Cache → Outcome ℕ Cache
unfolding search
reuse bno g =
    let (k, m) = mutex_lock g.kernel g.mutex in
    let c = g.inner in
    let is = c.buckets (hash_bh bno) in
    if enters g.kernel g.mutex
    then elim (search c bno is (first_of is) (first_of is)) [
      | hit i ↦ done i (record { kernel = k; mutex = m; inner = touch c i })
      | miss exp_bb bb ↦
          let (k', m') = mutex_unlock k m in
          done exp_bb (record { kernel = k'; mutex = m'; inner = take_over c bno exp_bb bb })
    ]
    else blocked (record { kernel = k; mutex = m; inner = c })

-- A new buffer, not yet in a bucket. Its bytes are what the memory holds.
unfoldable pub new_buffer : ℕ → Cache → Cache
new_buffer bno c =
    let b = record (c.buffers c.fresh) { block_no = bno; b_state = 0; exp_time = c.timestamp } in
    record (set_buffer c c.fresh b) { fresh = c.fresh + 1 }

unfoldable pub link_buffer : ℕ → ℕ → Cache → ℕ × Cache
link_buffer h i c = (
  i,
  record c {
    sizes = update c.sizes h (inc32 (c.sizes h));
    buckets = update c.buckets h (i ∷ c.buckets h);
  },
)

unfoldable pub bget_block : ℕ → Guarded Cache → Outcome ℕ Cache
unfolding reuse new_buffer link_buffer
bget_block bno g =
    if leb 100 (g.inner.sizes (hash_bh bno))
    then reuse bno g
    else with_lock (link_buffer (hash_bh bno) g.inner.fresh)
        (record g { inner = new_buffer bno g.inner })
