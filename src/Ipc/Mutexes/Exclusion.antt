-- ===== src/Ipc/Mutexes/Exclusion.antt =====
-- Mutual exclusion over every interleaving of calls.
use mango_os.Base.{
  ◌+◌, ◌-◌, ◌<◌, ◌^◌, ◌≡◌, ◌∙◌, refl, true, false, not, ◌&&◌, List, [], ◌∷◌, arith, ◌==◌, mem,
  update, if◌then◌else◌, Bool-cases, inl, inr, mem-append, mem-erase_self,
}
use mathlib.Core.Path.{subst}
use mango_os.Queue.{Addr}
use mango_os.Queue.Ring.{Ring, Ring-unique, first-Ring, empty-Ring}
use mango_os.Kernel.{Kernel}
use mango_os.Ipc.{Mutex, mutex_lock, mutex_unlock}
use mango_os.Ipc.Blocking.{Queues}
use mango_os.Ipc.Mutexes.{
  Depth, Consistent, left, entered, lock_ready, lock_waiters, unlock_ready, unlock_waiters,
  mutex_lock-Consistent,
}
use mango_os.Ipc.Mutexes.Unlock.{mutex_unlock-Consistent}

-- The depths when the caller has returned from `mutex_lock` at once.
unfoldable pub deeper : Kernel → Depth → Depth
deeper k d = update d k.current (d k.current + 1)

-- The depths after a call of `mutex_unlock` that took the ready tasks from `xs` to `ys`: a task that has
-- become ready returns from its call of `mutex_lock`.
unfoldable pub shallower : Kernel → Depth → List Addr → List Addr → Depth
shallower k d xs ys t =
    (if t == k.current then d t - 1 else d t) + (if mem t ys && not (mem t xs) then 1 else 0)

-- The states that calls of `mutex_lock` by ready tasks and of `mutex_unlock` by tasks that are inside
-- lead to, from a mutex as `mutex_init` leaves it. The caller has returned from `mutex_lock` if it is
-- still ready, and waits in the call if it is not. Any task may become the current one in between.
pub data Reach (k₀ : Kernel) (m₀ : Mutex) : Kernel → Mutex → Depth → Type 0 where
  begin : Reach k₀ m₀ k₀ m₀ (λ t. 0)
  returns :
      {k : Kernel} {m : Mutex} {d : Depth}
      → Reach k₀ m₀ k m d
      → (xs ys : List Addr) → Ring k.links k.ready xs
      → mem k.current xs ≡ true
      → m.lock_times + 1 < 2 ^ 31
      → Ring (mutex_lock k m).0.links (mutex_lock k m).0.ready ys
      → mem k.current ys ≡ true
      → Reach k₀ m₀ (mutex_lock k m).0 (mutex_lock k m).1 (deeper k d)
  blocks :
      {k : Kernel} {m : Mutex} {d : Depth}
      → Reach k₀ m₀ k m d
      → (xs ys : List Addr) → Ring k.links k.ready xs
      → mem k.current xs ≡ true
      → m.lock_times + 1 < 2 ^ 31
      → Ring (mutex_lock k m).0.links (mutex_lock k m).0.ready ys
      → mem k.current ys ≡ false
      → Reach k₀ m₀ (mutex_lock k m).0 (mutex_lock k m).1 d
  unlocks :
      {k : Kernel} {m : Mutex} {d : Depth}
      → Reach k₀ m₀ k m d
      → 0 < d k.current
      → (xs ys : List Addr) → Ring k.links k.ready xs
      → Ring (mutex_unlock k m).0.links (mutex_unlock k m).0.ready ys
      → Reach k₀ m₀ (mutex_unlock k m).0 (mutex_unlock k m).1 (shallower k d xs ys)
  preempts :
      {k : Kernel} {m : Mutex} {d : Depth} (t : Addr)
      → Reach k₀ m₀ k m d
      → Reach k₀ m₀ (record k { current = t }) m d

record Invariant (k : Kernel) (m : Mutex) (d : Depth) : Type 0 where
  ready : List Addr
  waiters : List Addr
  holds : Consistent k m d ready waiters

same_depths :
    (k : Kernel) (m : Mutex) (d d' : Depth) (rs ws : List Addr)
    → ((t : Addr) → d' t ≡ d t)
    → Consistent k m d rs ws
    → Consistent k m d' rs ws
same_depths k m d d' rs ws e c = record {
  queues = c.queues;
  small = c.small;
  free = c.free;
  depths = λ t. e t ∙ c.depths t;
  awake = c.awake;
}

module _ (k : Kernel) (m : Mutex) (d : Depth) (rs ws : List Addr) (c : Consistent k m d rs ws) where
  -- A caller that is still ready has been let in, one that is not has not.
  entered-deeper :
      mem k.current (lock_ready k m rs) ≡ true → (t : Addr) → deeper k d t ≡ entered k m d t
  unfolding entered deeper
  entered-deeper i t =
      let gone = mem-erase_self k.current rs c.queues.ready_ring.distinct.1 in
      ground (arith, i, gone)

  entered-stays :
      mem k.current rs ≡ true
      → mem k.current (lock_ready k m rs) ≡ false
      → (t : Addr) → d t ≡ entered k m d t
  unfolding entered
  entered-stays h i t = ground (arith, h, i)

shallower_lem :
    (k : Kernel) (m : Mutex) (d : Depth) (rs ws : List Addr)
    → Consistent k m d rs ws
    → 0 < d k.current
    → (t : Addr) → shallower k d rs (unlock_ready (d k.current == 1) rs ws) t ≡ left k m d t
unfolding shallower left
shallower_lem k m d rs [] c h t =
    let e = empty-Ring k.links m.mutex_queue [] c.queues.wait_ring in
    elim (Bool-cases (d k.current == 1)) [
      | inl g ↦ rw g (ground (arith, e))
      | inr g ↦ rw g (ground (arith, e))
    ]
shallower_lem k m d rs (w ∷ ws) c h t =
    let e = empty-Ring k.links m.mutex_queue (w ∷ ws) c.queues.wait_ring in
    let f = first-Ring k.links m.mutex_queue (w ∷ ws) c.queues.wait_ring in
    let own : k.current ≡ m.owner = ground (arith, c.depths k.current) in
    let asleep : mem w rs ≡ false = elim (Bool-cases (mem w rs)) [
      | inl i ↦ absurd (ground (arith, c.queues.apart w (ground arith)))
      | inr i ↦ i
    ] in
    elim (Bool-cases (d k.current == 1)) [
      | inl g ↦
          rw (g, f)
            (ground
              (arith, e, own, asleep, c.awake, c.depths w, c.depths t, mem-append t rs (w ∷ [])))
      | inr g ↦ rw g (ground (arith, e))
    ]

module _ (k₀ : Kernel) (m₀ : Mutex) (rs : List Addr)
    (q : Queues k₀.links k₀.ready rs m₀.mutex_queue []) (unlocked : m₀.lock_times ≡ 0) where
  Reach-Invariant : {k : Kernel} {m : Mutex} {d : Depth} → Reach k₀ m₀ k m d → Invariant k m d
  Reach-Invariant begin = record {
    ready = rs;
    waiters = [];
    holds = record {
      queues = q;
      small = omega arith;
      free = λ z. refl;
      depths = λ t. ground arith;
      awake = refl;
    };
  }
  Reach-Invariant (returns {k} {m} {d} reach xs ys ring i h ring' i') =
      let v = Reach-Invariant reach in
      let j : mem k.current v.ready ≡ true =
        subst (λ ys. mem k.current ys ≡ true)
          (Ring-unique k.links k.ready xs v.ready ring v.holds.queues.ready_ring) i in
      let c = mutex_lock-Consistent k m d v.ready v.waiters v.holds h j in
      let j' : mem k.current (lock_ready k m v.ready) ≡ true =
        subst (λ zs. mem k.current zs ≡ true)
          (Ring-unique _ _ ys (lock_ready k m v.ready) ring' c.queues.ready_ring) i' in
      record {
        ready = lock_ready k m v.ready;
        waiters = lock_waiters k m v.waiters;
        holds = same_depths _ _ _ _ _ _ (entered-deeper k m d v.ready v.waiters v.holds j') c;
      }
  Reach-Invariant (blocks {k} {m} {d} reach xs ys ring i h ring' i') =
      let v = Reach-Invariant reach in
      let j : mem k.current v.ready ≡ true =
        subst (λ ys. mem k.current ys ≡ true)
          (Ring-unique k.links k.ready xs v.ready ring v.holds.queues.ready_ring) i in
      let c = mutex_lock-Consistent k m d v.ready v.waiters v.holds h j in
      let j' : mem k.current (lock_ready k m v.ready) ≡ false =
        subst (λ zs. mem k.current zs ≡ false)
          (Ring-unique _ _ ys (lock_ready k m v.ready) ring' c.queues.ready_ring) i' in
      record {
        ready = lock_ready k m v.ready;
        waiters = lock_waiters k m v.waiters;
        holds = same_depths _ _ _ _ _ _ (entered-stays k m d v.ready v.waiters v.holds j j') c;
      }
  Reach-Invariant (unlocks {k} {m} {d} reach h xs ys ring ring') =
      let v = Reach-Invariant reach in
      let c = mutex_unlock-Consistent k m d v.ready v.waiters v.holds h in
      let ready' = unlock_ready (d k.current == 1) v.ready v.waiters in
      let depths =
        subst (λ zs. (t : Addr) → shallower k d zs ys t ≡ left k m d t)
          (Ring-unique k.links k.ready v.ready xs v.holds.queues.ready_ring ring)
          (subst (λ zs. (t : Addr) → shallower k d v.ready zs t ≡ left k m d t)
            (Ring-unique _ _ ready' ys c.queues.ready_ring ring')
            (shallower_lem k m d v.ready v.waiters v.holds h)) in
      record {
        ready = ready';
        waiters = unlock_waiters (d k.current == 1) v.waiters;
        holds = same_depths _ _ _ _ _ _ depths c;
      }
  Reach-Invariant (preempts t reach) =
      let v = Reach-Invariant reach in
      record {
        ready = v.ready;
        waiters = v.waiters;
        holds = record {
          queues = v.holds.queues;
          small = v.holds.small;
          free = v.holds.free;
          depths = v.holds.depths;
          awake = v.holds.awake;
        };
      }

  -- In every state that calls lead to, the calls of `mutex_lock` from which a task has returned less the
  -- calls of `mutex_unlock` that it has made since are more than 0 for one task at most. That task is the
  -- mutex's owner, and the difference is what the mutex counts. A task has returned from a call if it is
  -- still ready behind it, or as soon as a call of `mutex_unlock` makes it ready again.
  pub exclusion :
      {k : Kernel} {m : Mutex} {d : Depth} (t u : Addr)
      → Reach k₀ m₀ k m d
      → 0 < d t
      → (0 < d u → t ≡ u) × (t ≡ m.owner) × (d t ≡ m.lock_times)
  exclusion {d} t u reach h =
      let c = (Reach-Invariant reach).holds in
      (
        λ g. ground (arith, c.depths t, c.depths u),
        ground (arith, c.depths t),
        ground (arith, c.depths t),
      )
