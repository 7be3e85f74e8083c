-- ===== src/Ext2/Content/Fresh.antt =====
-- Where the bytes of a block that is read come from.
use mango_os.Base.{ℕ, ◌<◌, ◌≡◌, refl, some, arith}
use mango_os.Strings.{Memory}
use mango_os.Ipc.Guarded.{IsFree}
use mango_os.Buffer.{hash_bh, new_buffer, link_buffer, set_buffer}
use mango_os.Buffer.Hits.{bget_block_room}
use mango_os.Ext2.{
  BlockDevice, Volume, ok, get_block, sector_of, read_sectors, filled, fill_block, read_block,
}

-- A block whose bucket has room is read from the device into a new buffer, whatever the buffers hold:
-- also a block that was written to its buffer since it was last read.
pub read_block_room :
    {W : Type 0} (dev : BlockDevice W) (bno : ℕ) (m : Memory) (w : W) (v : Volume W)
    → IsFree v.cache
    → v.cache.inner.sizes (hash_bh bno) < 100
    → dev.dev_read (sector_of dev bno v) 8 v.device ≡ (some m, w)
    → (v' : Volume W) × (read_block dev bno v ≡ ok (some v.cache.inner.fresh) v')
      × (v'.device ≡ w)
      × ((a : ℕ) → a < 4096 → (v'.cache.inner.buffers v.cache.inner.fresh).bytes a ≡ m a)
unfolding read_block get_block fill_block read_sectors new_buffer link_buffer
read_block_room dev bno m w v free room e =
    let got = bget_block_room bno v.cache free room in
    let fresh = v.cache.inner.fresh in
    let c = (link_buffer (hash_bh bno) fresh (new_buffer bno v.cache.inner)).1 in
    (
      record v {
        cache = record (v.cache) { inner = set_buffer c fresh (filled m (c.buffers fresh)) };
        device = w;
      },
      ground (arith, got, e),
      refl,
      λ a lt. ground arith,
    )
