-- ===== src/Ipc/Mutexes.antt =====
-- The mutexes of ipc.c: recursive locks that are handed over in order of arrival. `depth t` counts
-- the calls of `mutex_lock` from which task `t` has returned less the calls of `mutex_unlock` that
-- it has made since. A call that blocks returns when the task is woken from the queue.
pub mod Unlock
pub mod Exclusion
use mango_os.Base.{
  ℕ, zero, suc, ◌+◌, ◌-◌, ◌<◌, ◌^◌, ◌≡◌, refl, sym, ◌≢◌, ◌⊎◌, inl, inr, Bool, true, false, ◌||◌,
  ◌&&◌, List, [], ◌∷◌, ◌++◌, arith, ◌==◌, ltb, mem, erase, erase_head, if◌then◌else◌, mem_ne,
  mem-append, not, Bool-cases, inc32, dec32, update,
}
use mathlib.Core.Path.{subst}
use mango_os.Queue.{Addr, Links, first, empty}
use mango_os.Queue.Ring.{Ring, first-Ring, empty-Ring, Ring-unique}
use mango_os.Kernel.{Kernel}
use mango_os.Sched.{schedule}
use mango_os.Sched.RoundRobin.{schedule-links, schedule-ready}
use mango_os.Ipc.{Mutex, block, wake, mutex_lock, mutex_unlock, mutex_release}
use mango_os.Ipc.Blocking.{Queues, block-Queues, wake-Queues, block-ready, wake-ready}

abbrev pub Depth : Type 0
Depth = Addr → ℕ

pub record Consistent (k : Kernel) (m : Mutex) (d : Depth) (rs ws : List Addr) : Type 0 where
  pub queues : Queues k.links k.ready rs m.mutex_queue ws
  pub small : m.lock_times < 2 ^ 31
  pub free : m.lock_times ≡ 0 → ws ≡ []
  pub depths : (t : Addr) → d t ≡ (if t == m.owner then m.lock_times else 0)
  pub awake : mem m.owner ws ≡ false

-- The depths after a call of `mutex_lock` by the current task.
unfoldable pub entered : Kernel → Mutex → Depth → Depth
entered k m d =
    if (m.lock_times == 0) || (m.owner == k.current)
    then update d k.current (d k.current + 1)
    else d

-- The depths after a call of `mutex_unlock` by the current task: the last one lets the first
-- waiting task in.
unfoldable pub left : Kernel → Mutex → Depth → Depth
left k m d =
    let d' = update d k.current (d k.current - 1) in
    if (d k.current == 1) && not (empty k.links m.mutex_queue)
    then update d' (first k.links m.mutex_queue) 1
    else d'

-- Who waits after a call of `mutex_lock`.
abbrev pub lock_ready : Kernel → Mutex → List Addr → List Addr
lock_ready k m rs = if (m.lock_times == 0) || (m.owner == k.current) then rs else erase k.current rs

abbrev pub lock_waiters : Kernel → Mutex → List Addr → List Addr
lock_waiters k m ws =
    if (m.lock_times == 0) || (m.owner == k.current) then ws else ws ++ k.current ∷ []

module _ (k : Kernel) (m : Mutex) (d : Depth) (rs ws : List Addr) (c : Consistent k m d rs ws) where
  lock-free :
      (m.lock_times == 0) ≡ true
      → Consistent (mutex_lock k m).0 (mutex_lock k m).1 (entered k m d) rs ws
  unfolding mutex_lock entered
  lock-free e = rw e (record {
    queues = c.queues;
    small = ground arith;
    free = λ h. ground (arith, c.free);
    depths = λ t. ground (arith, c.depths t, c.depths k.current);
    awake = ground (arith, c.free);
  })

  lock-again :
      m.lock_times + 1 < 2 ^ 31
      → (m.lock_times == 0) ≡ false
      → (m.owner == k.current) ≡ true
      → Consistent (mutex_lock k m).0 (mutex_lock k m).1 (entered k m d) rs ws
  unfolding mutex_lock entered
  lock-again h e f =
      rw (e, f)
        (record {
          queues = c.queues;
          small = ground arith;
          free = λ z. ground arith;
          depths = λ t. ground (arith, c.depths t, c.depths k.current);
          awake = c.awake;
        })

  lock-blocks :
      mem k.current rs ≡ true
      → (m.lock_times == 0) ≡ false
      → (m.owner == k.current) ≡ false
      → Consistent
          (mutex_lock k m).0
          (mutex_lock k m).1
          (entered k m d)
          (erase k.current rs)
          (ws ++ k.current ∷ [])
  unfolding mutex_lock entered
  lock-blocks i e f =
      rw (e, f)
        (record {
          queues =
              rw
                (
                  schedule-links (block k m.mutex_queue),
                  schedule-ready (block k m.mutex_queue),
                  block-ready,
                )
                (block-Queues k m.mutex_queue rs ws c.queues i);
          small = c.small;
          free = λ z. ground arith;
          depths = c.depths;
          awake = ground (arith, c.awake, mem-append m.owner ws (k.current ∷ []));
        })

  -- `mutex_lock` gives the mutex to a caller that finds it free or owns it already, and makes any
  -- other caller wait behind those that wait already.
  pub mutex_lock-Consistent :
      m.lock_times + 1 < 2 ^ 31
      → mem k.current rs ≡ true
      → Consistent
          (mutex_lock k m).0
          (mutex_lock k m).1
          (entered k m d)
          (lock_ready k m rs)
          (lock_waiters k m ws)
  mutex_lock-Consistent h i = elim (Bool-cases (m.lock_times == 0)) [
    | inl e ↦ rw e (lock-free e)
    | inr e ↦ elim (Bool-cases (m.owner == k.current)) [
      | inl f ↦ rw (e, f) (lock-again h e f)
      | inr f ↦ rw (e, f) (lock-blocks i e f)
    ]
  ]

-- Who is ready and who waits after the last `mutex_unlock`.
abbrev pub unlock_ready : Bool → List Addr → List Addr → List Addr
unlock_ready true rs (w ∷ ws) = rs ++ w ∷ []
unlock_ready true rs [] = rs
unlock_ready false rs ws = rs

abbrev pub unlock_waiters : Bool → List Addr → List Addr
unlock_waiters true (w ∷ ws) = ws
unlock_waiters true [] = []
unlock_waiters false ws = ws
