-- ===== src/Ext2/Sync/Skips.antt =====
-- The walk of ext2_sync over the dirty blocks.
use mathlib.Core.Path.{subst, sym}
use mathlib.Core.List.{append_assoc}
use mango_os.Base.{
  ℕ, zero, suc, ◌<◌, ◌≡◌, ◌∙◌, ap, Bool, true, false, List, [], ◌∷◌, ◌++◌, length, mem-append, ◌==◌,
  is_pos32, arith,
}
use mango_os.Queue.{Addr, Links, remove}
use mango_os.Queue.Ring.{Ring, head_of}
use mango_os.Queue.Remove.{remove-Ring}
use mango_os.Queue.Middle.{erase_middle, mem_middle}
use mango_os.Sched.RoundRobin.{Chain-next}
use mango_os.Kernel.{set_links}
use mango_os.Strings.{Memory}
use mango_os.Ext2.{BlockDevice, Volume, Run, ok, write_sectors, sector_of}
use mango_os.Ext2.Sync.{dirty_loop}

-- A sequence of even length, taken in pairs.
abbrev pub flat : List (Addr × Addr) → List Addr
flat [] = []
flat ((a, b) ∷ ps) = a ∷ b ∷ flat ps

abbrev pub seconds : List (Addr × Addr) → List Addr
seconds [] = []
seconds ((a, b) ∷ ps) = b ∷ seconds ps

abbrev pub links_of : {W : Type 0} → Volume W → Links
links_of v = v.cache.kernel.links

-- The walk ends, and these nodes are on the list afterwards.
pub record Leaves {W : Type 0} (v : Volume W) (xs : List Addr) (r : Run W Bool) : Type 0 where
  pub after : Volume W
  pub ends : r ≡ ok true after
  pub ring : Ring (links_of after) v.dirty_blocks xs

module _ {W : Type 0} (dev : BlockDevice W) (block_of : Addr → ℕ) where
  -- Every write of a block succeeds.
  abbrev pub TakesBlocks : Type 0
  TakesBlocks = (sector : ℕ) (m : Memory) (w : W) → is_pos32 (dev.dev_write sector 8 m w).0 ≡ true

  -- The volume after the write of a dirty block and its removal from the list.
  abbrev written : Addr → Volume W → Volume W
  written a v =
      let b = v.cache.inner.buffers (block_of a) in
      let k = v.cache.kernel in
      record v {
        device = (dev.dev_write (sector_of dev b.block_no v) 8 b.bytes v.device).1;
        cache = record (v.cache) { kernel = set_links k (remove k.links a) };
      }

  dirty_loop-step :
      (n : ℕ) (a b : Addr) (v : Volume W)
      → TakesBlocks
      → (a == v.dirty_blocks) ≡ false
      → (links_of v).next a ≡ b
      → dirty_loop dev block_of (suc n) a v
        ≡ dirty_loop dev block_of n ((links_of (written a v)).next b) (written a v)
  unfolding dirty_loop write_sectors
  dirty_loop-step n a b v takes ne e =
      let b' = v.cache.inner.buffers (block_of a) in
      ground (arith, takes (sector_of dev b'.block_no v) b'.bytes v.device)

  dirty_loop-end :
      (n : ℕ) (v : Volume W) → dirty_loop dev block_of (suc n) v.dirty_blocks v ≡ ok true v
  unfolding dirty_loop
  dirty_loop-end n v = ground arith

  dirty_loop-Leaves :
      (n : ℕ) (kept : List Addr) (ps : List (Addr × Addr)) (v : Volume W)
      → TakesBlocks
      → Ring (links_of v) v.dirty_blocks (kept ++ flat ps)
      → length ps < n
      → Leaves v
          (kept ++ seconds ps)
          (dirty_loop dev block_of n (head_of (flat ps) v.dirty_blocks) v)
  dirty_loop-Leaves zero kept ps v takes r f = absurd (omega arith)
  dirty_loop-Leaves (suc n) kept [] v takes r f = record {
    after = v;
    ends = dirty_loop-end n v;
    ring = r;
  }
  dirty_loop-Leaves (suc n) kept ((a, b) ∷ ps) v takes r f =
      let head = v.dirty_blocks in
      let rest = b ∷ flat ps in
      let links = links_of (written a v) in
      let ne : (a == head) ≡ false =
        ground (arith, mem-append head kept (a ∷ rest), r.distinct.0) in
      let next_a = Chain-next (links_of v) head kept a rest head r.chain in
      let shorter : Ring links head (kept ++ rest) =
        subst (Ring links head) (erase_middle a kept rest r.distinct.1)
          (remove-Ring (links_of v) head a (kept ++ a ∷ rest) r (mem_middle a kept rest)) in
      let next_b = Chain-next links head kept b (flat ps) head shorter.chain in
      let more =
        dirty_loop-Leaves n (kept ++ b ∷ []) ps (written a v) takes
          (subst (Ring links head) (sym (append_assoc kept (b ∷ []) (flat ps))) shorter)
          (omega arith) in
      record {
        after = more.after;
        ends =
            dirty_loop-step n a b v takes ne next_a
            ∙ ap (λ c. dirty_loop dev block_of n c (written a v)) next_b
            ∙ more.ends;
        ring =
            subst (Ring (links_of more.after) head) (append_assoc kept (b ∷ []) (seconds ps))
              more.ring;
      }

  -- With an even number of dirty blocks and a device that takes every write, the walk of ext2_sync
  -- from the first dirty block ends, and every second block is still on the list of dirty blocks.
  pub dirty_loop_skips :
      (ps : List (Addr × Addr)) (v : Volume W)
      → TakesBlocks
      → Ring (links_of v) v.dirty_blocks (flat ps)
      → Leaves v
          (seconds ps)
          (dirty_loop dev block_of (suc (length ps)) (head_of (flat ps) v.dirty_blocks) v)
  dirty_loop_skips ps v takes r = dirty_loop-Leaves (suc (length ps)) [] ps v takes r (omega arith)
