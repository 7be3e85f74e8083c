-- ===== src/Ipc/Blocking.antt =====
-- What blocking and waking do to the two lists that they touch.
use mango_os.Base.{
  ◌≡◌, refl, true, false, List, [], ◌∷◌, ◌++◌, arith, ◌==◌, mem, erase, if◌then◌else◌, mem_ne,
  mem-erase, mem-erase_self, mem-append, Bool-cases, inl, inr,
}
use mango_os.Queue.{Addr, Links, first, remove, insert_tail}
use mango_os.Queue.Ring.{Ring, Apart}
use mango_os.Queue.Insert.{insert_tail-Ring}
use mango_os.Queue.Remove.{remove-Ring}
use mango_os.Queue.Frame.{insert_tail-Ring_other, remove-Ring_other}
use mango_os.Kernel.{Kernel, running, waiting}
use mango_os.Ipc.{block, wake}

pub Apart-sym : (xs ys : List Addr) → Apart xs ys → Apart ys xs
Apart-sym xs ys h a m = elim (Bool-cases (mem a xs)) [ inl i ↦ ground (arith, h a i) | inr o ↦ o ]

-- The ready list holds `rs` and the waiting queue at `queue` holds `ws`.
pub record Queues (l : Links) (ready : Addr) (rs : List Addr) (queue : Addr) (ws : List Addr)
    : Type 0 where
  pub ready_ring : Ring l ready rs
  pub wait_ring : Ring l queue ws
  pub apart : Apart (ready ∷ rs) (queue ∷ ws)

-- One task moves from the list at `head`, where it stands anywhere, to the end of that at `other`.
pub move-Ring :
    (l : Links) (head other q : Addr) (xs ys : List Addr)
    → Ring l head xs
    → Ring l other ys
    → Apart (head ∷ xs) (other ∷ ys)
    → mem q xs ≡ true
    → Ring (insert_tail (remove l q) other q) head (erase q xs)
      × Ring (insert_tail (remove l q) other q) other (ys ++ q ∷ [])
move-Ring l head other q xs ys r s apart m =
    let out : mem q (other ∷ ys) ≡ false = apart q (ground arith) in
    let s' : Ring (remove l q) other ys = remove-Ring_other l head other q xs ys r apart m s in
    let fresh : (q == head) ≡ false = mem_ne q head xs m r.distinct.0 in
    (
      insert_tail-Ring_other (remove l q) other head q ys (erase q xs) s'
          (λ a i. ground (
            arith,
            apart a,
            mem-erase a q xs,
            mem_ne a head (other ∷ ys) i (apart head (ground arith)),
          ))
          (ground arith) (ground (arith, mem-erase_self q xs r.distinct.1))
          (remove-Ring l head q xs r m),
      insert_tail-Ring (remove l q) other q ys s' out,
    )

-- Afterwards the lists still have no node in common.
pub move-Apart :
    (head other q : Addr) (xs ys : List Addr)
    → Apart (head ∷ xs) (other ∷ ys)
    → (q == head) ≡ false
    → mem q (erase q xs) ≡ false
    → Apart (head ∷ erase q xs) (other ∷ (ys ++ q ∷ []))
move-Apart head other q xs ys apart fresh gone a i = elim (Bool-cases (mem a (head ∷ xs))) [
  | inl m ↦
      ground (
        arith,
        apart a m,
        mem-append a ys (q ∷ []),
        mem_ne a q (head ∷ erase q xs) i (ground arith),
      )
  | inr o ↦ ground (arith, mem-erase a q xs)
]

module _ (k : Kernel) (queue : Addr) (rs ws : List Addr)
    (w : Queues k.links k.ready rs queue ws) where
  -- `block` moves the current task from the ready list to the end of the waiting queue.
  pub block-Queues :
      mem k.current rs ≡ true
      → Queues (block k queue).links k.ready (erase k.current rs) queue (ws ++ k.current ∷ [])
  unfolding block
  block-Queues m =
      let moved =
        move-Ring k.links k.ready queue k.current rs ws w.ready_ring w.wait_ring w.apart m in
      record {
        ready_ring = moved.0;
        wait_ring = moved.1;
        apart =
            move-Apart k.ready queue k.current rs ws w.apart
              (mem_ne k.current k.ready rs m w.ready_ring.distinct.0)
              (mem-erase_self k.current rs w.ready_ring.distinct.1);
      }

  pub wake-Queues :
      (q : Addr)
      → first k.links queue ≡ q
      → mem q ws ≡ true
      → Queues (wake k queue).links k.ready (rs ++ q ∷ []) queue (erase q ws)
  unfolding wake
  wake-Queues q e m =
      let ba : Apart (queue ∷ ws) (k.ready ∷ rs) = Apart-sym (k.ready ∷ rs) (queue ∷ ws) w.apart in
      let moved = move-Ring k.links queue k.ready q ws rs w.wait_ring w.ready_ring ba m in
      rw e (record {
        ready_ring = moved.1;
        wait_ring = moved.0;
        apart = Apart-sym (queue ∷ erase q ws) (k.ready ∷ (rs ++ q ∷ [])) (
            move-Apart queue k.ready q ws rs ba (mem_ne q queue ws m w.wait_ring.distinct.0)
              (mem-erase_self q ws w.wait_ring.distinct.1));
      })

pub block-state :
    (k : Kernel) (queue t : Addr)
    → (block k queue).state t ≡ (if t == k.current then waiting else k.state t)
unfolding block
block-state k queue t = refl

pub wake-state :
    (k : Kernel) (queue t : Addr)
    → (wake k queue).state t ≡ (if t == first k.links queue then running else k.state t)
unfolding wake
wake-state k queue t = refl

pub block-ready : (k : Kernel) (queue : Addr) → (block k queue).ready ≡ k.ready
unfolding block
block-ready k queue = refl

pub wake-ready : (k : Kernel) (queue : Addr) → (wake k queue).ready ≡ k.ready
unfolding wake
wake-ready k queue = refl

pub block-idle : (k : Kernel) (queue : Addr) → (block k queue).idle_task ≡ k.idle_task
unfolding block
block-idle k queue = refl

pub block-current : (k : Kernel) (queue : Addr) → (block k queue).current ≡ k.current
unfolding block
block-current k queue = refl
