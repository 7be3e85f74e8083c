-- ===== src/Buffer/Hits.antt =====
-- What the cache is for: the same block twice.
use mango_os.Base.{ℕ, ◌<◌, ◌≤◌, ◌≡◌, true, false, leb, arith}
use mango_os.Ipc.{mutex_lock}
use mango_os.Ipc.Guarded.{Guarded, done, IsFree, with_lock-IsFree}
use mango_os.Buffer.{
  Cache, hash_bh, search, hit, new_buffer, link_buffer, bget_block, touch, first_of,
}
use mango_os.Buffer.Buckets.{reuse_hit}

-- In a bucket with room every call makes a new buffer with nothing in it, also for a block that the
-- bucket holds already.
pub bget_block_room :
    (bno : ℕ) (g : Guarded Cache)
    → IsFree g
    → g.inner.sizes (hash_bh bno) < 100
    → bget_block bno g
      ≡ done g.inner.fresh (record g {
        inner = (link_buffer (hash_bh bno) g.inner.fresh (new_buffer bno g.inner)).1;
      })
unfolding bget_block
bget_block_room bno g free room =
    let e : leb 100 (g.inner.sizes (hash_bh bno)) ≡ false = ground arith in
    rw e (
      with_lock-IsFree (link_buffer (hash_bh bno) g.inner.fresh)
        (record g { inner = new_buffer bno g.inner }) free)

-- A block that is found in a full bucket leaves the mutex locked by the caller.
pub bget_block_hit :
    (bno i : ℕ) (g : Guarded Cache)
    → IsFree g
    → 100 ≤ g.inner.sizes (hash_bh bno)
    → search g.inner bno
        (g.inner.buckets (hash_bh bno))
        (first_of (g.inner.buckets (hash_bh bno)))
        (first_of (g.inner.buckets (hash_bh bno)))
      ≡ hit i
    → (g' : Guarded Cache) × (bget_block bno g ≡ done i g')
      × (g'.mutex.lock_times ≡ 1)
      × (g'.mutex.owner ≡ g.kernel.current)
unfolding bget_block mutex_lock
bget_block_hit bno i g free full f =
    let e : leb 100 (g.inner.sizes (hash_bh bno)) ≡ true = ground arith in
    let km = mutex_lock g.kernel g.mutex in
    (
      record { kernel = km.0; mutex = km.1; inner = touch g.inner i },
      rw e (reuse_hit bno i g (ground (arith, free.0)) f),
      ground (arith, free.0),
      ground (arith, free.0),
    )
