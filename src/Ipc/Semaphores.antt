-- ===== src/Ipc/Semaphores.antt =====
-- The semaphores of ipc.c against a counter with two sequences of tasks.
use mango_os.Base.{
  ℕ, ◌+◌, ◌-◌, ◌<◌, ◌^◌, ◌≡◌, refl, inl, inr, true, false, List, [], ◌∷◌, ◌++◌, arith, ltb, mem,
  erase, if◌then◌else◌, mem_ne, mem-append, erase_head, Bool-cases, is_pos32,
}
use mathlib.Core.Path.{subst}
use mango_os.Queue.{Addr}
use mango_os.Queue.Ring.{Ring, head_of, first-Ring, empty-Ring}
use mango_os.Kernel.{Kernel, waiting}
use mango_os.Sched.RoundRobin.{
  schedule-current, schedule-links, schedule-state, schedule-ready, pick_next_task-first,
}
use mango_os.Ipc.{Sem, block, wake, sem_wait, sem_notify}
use mango_os.Ipc.Blocking.{
  Queues, block-Queues, wake-Queues, block-state, wake-state, block-ready, wake-ready,
  block-current,
}

-- The abstract semaphore: free units, the ready tasks and the waiting tasks in order of arrival.
pub record Counter : Type 0 where
  pub count : ℕ
  pub ready : List Addr
  pub waiters : List Addr

unfoldable pub wait : Addr → Counter → Counter
wait t c =
    if ltb 0 c.count
    then record c { count = c.count - 1 }
    else record c { ready = erase t c.ready; waiters = c.waiters ++ t ∷ [] }

unfoldable pub notify_list : Counter → List Addr → Counter
notify_list c [] = record c { count = c.count + 1 }
notify_list c (t ∷ ts) = record c { ready = c.ready ++ t ∷ []; waiters = ts }

unfoldable pub notify : Counter → Counter
unfolding notify_list
notify c = notify_list c c.waiters

-- The kernel's lists and the semaphore's count are those of the counter; who waits is marked so,
-- and who is ready is not.
pub record Represents (k : Kernel) (s : Sem) (c : Counter) : Type 0 where
  pub queues : Queues k.links k.ready c.ready s.sem_queue c.waiters
  pub counts : s.count ≡ c.count
  pub small : c.count < 2 ^ 31
  pub marked : (t : Addr) → mem t c.waiters ≡ true → k.state t ≡ waiting

module _ (k : Kernel) (s : Sem) (c : Counter) (r : Represents k s c) where
  wait-free : ltb 0 c.count ≡ true → Represents (sem_wait k s).0 (sem_wait k s).1 (wait k.current c)
  unfolding sem_wait wait
  wait-free free =
      let p : is_pos32 s.count ≡ true = ground (arith, r.counts, r.small) in
      rw (p, free)
        (record {
          queues = r.queues;
          counts = ground (arith, r.counts, r.small);
          small = ground (arith, r.small);
          marked = r.marked;
        })

  wait-blocked :
      mem k.current c.ready ≡ true
      → ltb 0 c.count ≡ false
      → Represents (sem_wait k s).0 (sem_wait k s).1 (wait k.current c)
  unfolding sem_wait wait
  wait-blocked m taken =
      let p : is_pos32 s.count ≡ false = ground (arith, r.counts) in
      rw (p, taken)
        (record {
          queues =
              rw
                (
                  schedule-links (block k s.sem_queue),
                  schedule-ready (block k s.sem_queue),
                  block-ready,
                )
                (block-Queues k s.sem_queue c.ready c.waiters r.queues m);
          counts = r.counts;
          small = r.small;
          marked = λ t i. ground (
            arith,
            schedule-state (block k s.sem_queue) t,
            block-state k s.sem_queue t,
            mem-append t c.waiters (k.current ∷ []),
            r.marked t,
          );
        })

  -- `sem_wait` takes a unit, or moves the caller from the ready list to the end of the queue.
  pub sem_wait_refines :
      mem k.current c.ready ≡ true → Represents (sem_wait k s).0 (sem_wait k s).1 (wait k.current c)
  sem_wait_refines m = elim (Bool-cases (ltb 0 c.count)) [
    | inl free ↦ wait-free free
    | inr taken ↦ wait-blocked m taken
  ]

  notify-free :
      c.count + 1 < 2 ^ 31
      → c.waiters ≡ []
      → Represents (sem_notify k s).0 (sem_notify k s).1 (notify_list c [])
  unfolding sem_notify notify_list
  notify-free h none_waits =
      let w : Ring k.links s.sem_queue [] =
        subst (Ring k.links s.sem_queue) none_waits r.queues.wait_ring in
      rw (empty-Ring k.links s.sem_queue [] w) (record {
        queues = r.queues;
        counts = ground (arith, r.counts);
        small = h;
        marked = r.marked;
      })

  notify-wakes :
      (t : Addr) (ts : List Addr)
      → c.waiters ≡ t ∷ ts
      → Represents (sem_notify k s).0 (sem_notify k s).1 (notify_list c (t ∷ ts))
  unfolding sem_notify notify_list
  notify-wakes t ts e =
      let q : Queues k.links k.ready c.ready s.sem_queue (t ∷ ts) =
        subst (Queues k.links k.ready c.ready s.sem_queue) e r.queues in
      let f = first-Ring k.links s.sem_queue (t ∷ ts) q.wait_ring in
      rw (empty-Ring k.links s.sem_queue (t ∷ ts) q.wait_ring) (record {
        queues =
            rw
              (schedule-links (wake k s.sem_queue), schedule-ready (wake k s.sem_queue), wake-ready)
              (let moved = wake-Queues k s.sem_queue c.ready (t ∷ ts) q t f (ground arith) in
                rw (erase_head t ts) at moved);
        counts = r.counts;
        small = r.small;
        marked = λ u i. ground (
          arith,
          f,
          e,
          schedule-state (wake k s.sem_queue) u,
          wake-state k s.sem_queue u,
          q.wait_ring.distinct.1,
          mem_ne u t ts i,
          r.marked u,
        );
      })

  notify_cases :
      c.count + 1 < 2 ^ 31
      → (ws : List Addr) → c.waiters ≡ ws
      → Represents (sem_notify k s).0 (sem_notify k s).1 (notify_list c ws)
  notify_cases h [] e = notify-free h e
  notify_cases h (t ∷ ts) e = notify-wakes t ts e

  -- `sem_notify` wakes the task that has waited longest, or gives a unit back.
  pub sem_notify_refines :
      c.count + 1 < 2 ^ 31 → Represents (sem_notify k s).0 (sem_notify k s).1 (notify c)
  unfolding notify
  sem_notify_refines h = notify_cases h c.waiters refl

  -- A caller that blocks hands the processor to the first of the other ready tasks.
  pub sem_wait-next :
      mem k.current c.ready ≡ true
      → c.count ≡ 0
      → (sem_wait k s).0.current ≡ head_of (erase k.current c.ready) k.idle_task
  unfolding sem_wait block
  sem_wait-next m none_left =
      let p : is_pos32 s.count ≡ false = ground (arith, r.counts) in
      let b = block k s.sem_queue in
      let q = block-Queues k s.sem_queue c.ready c.waiters r.queues m in
      rw (p, schedule-current b)
        (pick_next_task-first b (erase k.current c.ready)
          (rw (block-ready k s.sem_queue) q.ready_ring)
          (ground (arith, block-state k s.sem_queue k.current, block-current k s.sem_queue)))
