-- ===== src/Ipc/Mutexes/Unlock.antt =====
-- `mutex_unlock`: nested calls, release, and the hand-over to the task that has waited longest.
use mango_os.Base.{
  ◌<◌, ◌≡◌, refl, inl, inr, true, false, List, [], ◌∷◌, ◌++◌, arith, ◌==◌, erase_head, Bool-cases,
  dec32,
}
use mango_os.Queue.{Addr, first}
use mango_os.Queue.Ring.{Ring, first-Ring, empty-Ring}
use mango_os.Kernel.{Kernel}
use mango_os.Sched.RoundRobin.{schedule-links, schedule-ready}
use mango_os.Ipc.{Mutex, wake, mutex_lock, mutex_unlock, mutex_release}
use mango_os.Ipc.Blocking.{wake-Queues, wake-ready}
use mango_os.Ipc.Mutexes.{Depth, Consistent, left, unlock_ready, unlock_waiters}

module _ (k : Kernel) (m : Mutex) (d : Depth) (rs : List Addr) where
  unlock-nested :
      (ws : List Addr)
      → Consistent k m d rs ws
      → 0 < d k.current
      → (d k.current == 1) ≡ false
      → Consistent (mutex_unlock k m).0 (mutex_unlock k m).1 (left k m d) rs ws
  unfolding mutex_unlock left
  unlock-nested ws c h e =
      let own : (m.owner == k.current) ≡ true = ground (arith, c.depths k.current) in
      let more : (dec32 m.lock_times == 0) ≡ false = ground (arith, c.depths k.current, c.small) in
      rw (own, more, e)
        (record {
          queues = c.queues;
          small = ground (arith, c.small, c.depths k.current);
          free = λ z. ground (arith, c.free, c.small, c.depths k.current);
          depths = λ t. ground (arith, c.depths t, c.depths k.current, c.small);
          awake = c.awake;
        })

  unlock-frees :
      Consistent k m d rs []
      → (d k.current == 1) ≡ true
      → Consistent (mutex_unlock k m).0 (mutex_unlock k m).1 (left k m d) rs []
  unfolding mutex_unlock mutex_release left
  unlock-frees c e =
      let own : (m.owner == k.current) ≡ true = ground (arith, c.depths k.current) in
      let last : (dec32 m.lock_times == 0) ≡ true = ground (arith, c.depths k.current, c.small) in
      rw (own, last, e, empty-Ring k.links m.mutex_queue [] c.queues.wait_ring)
        (record {
          queues = c.queues;
          small = ground (arith, c.small);
          free = λ z. refl;
          depths = λ t. ground (arith, c.depths t, c.depths k.current, c.small);
          awake = refl;
        })

  unlock-hands_over :
      (w : Addr) (ws : List Addr)
      → Consistent k m d rs (w ∷ ws)
      → (d k.current == 1) ≡ true
      → Consistent (mutex_unlock k m).0 (mutex_unlock k m).1 (left k m d) (rs ++ w ∷ []) ws
  unfolding mutex_unlock mutex_release left
  unlock-hands_over w ws c e =
      let own : (m.owner == k.current) ≡ true = ground (arith, c.depths k.current) in
      let last : (dec32 m.lock_times == 0) ≡ true = ground (arith, c.depths k.current, c.small) in
      let f : first k.links m.mutex_queue ≡ w =
        first-Ring k.links m.mutex_queue (w ∷ ws) c.queues.wait_ring in
      rw (own, last, e, empty-Ring k.links m.mutex_queue (w ∷ ws) c.queues.wait_ring)
        (record {
          queues =
              rw
                (
                  schedule-links (wake k m.mutex_queue),
                  schedule-ready (wake k m.mutex_queue),
                  wake-ready,
                )
                (let moved = wake-Queues k m.mutex_queue rs (w ∷ ws) c.queues w f (ground arith) in
                  rw (erase_head w ws) at moved);
          small = omega arith;
          free = λ z. absurd (omega (arith, z));
          depths = λ t. ground (arith, f, c.depths t, c.depths k.current, c.awake);
          awake = rw f c.queues.wait_ring.distinct.1.0;
        })

  -- `mutex_unlock` by an owner undoes one `mutex_lock`. The last one frees the mutex if no task
  -- waits; otherwise the task that has waited longest owns it at once, locked once.
  pub mutex_unlock-Consistent :
      (ws : List Addr)
      → Consistent k m d rs ws
      → 0 < d k.current
      → Consistent
          (mutex_unlock k m).0
          (mutex_unlock k m).1
          (left k m d)
          (unlock_ready (d k.current == 1) rs ws)
          (unlock_waiters (d k.current == 1) ws)
  mutex_unlock-Consistent [] c h = elim (Bool-cases (d k.current == 1)) [
    | inl e ↦ rw e (unlock-frees c e)
    | inr e ↦ rw e (unlock-nested [] c h e)
  ]
  mutex_unlock-Consistent (w ∷ ws) c h = elim (Bool-cases (d k.current == 1)) [
    | inl e ↦ rw e (unlock-hands_over w ws c e)
    | inr e ↦ rw e (unlock-nested (w ∷ ws) c h e)
  ]

-- A call of `mutex_unlock` by a task that does not own the mutex changes nothing.
pub mutex_unlock_other :
    (k : Kernel) (m : Mutex) → (m.owner == k.current) ≡ false → mutex_unlock k m ≡ (k, m)
unfolding mutex_unlock
mutex_unlock_other k m e = rw e

-- On a free mutex nobody waits for, locking and unlocking leaves everything as it was.
pub unlock-lock :
    (k : Kernel) (m : Mutex)
    → Ring k.links m.mutex_queue []
    → m.lock_times ≡ 0
    → m.owner ≡ 0
    → (let (k', m') = mutex_lock k m in mutex_unlock k' m') ≡ (k, m)
unfolding mutex_lock mutex_unlock mutex_release
unlock-lock k m r e o = ground (arith, empty-Ring k.links m.mutex_queue [] r)
