-- ===== src/Ipc/Traces.antt =====
-- What any sequence of calls on one semaphore preserves, whichever tasks make them.
use mango_os.Base.{
  ℕ, zero, suc, ◌+◌, ◌<◌, ◌^◌, ◌≡◌, refl, ap, ◌⊎◌, inr, true, List, [], ◌∷◌, arith, mem, length,
  length-append,
}
use mathlib.Core.Path.{subst}
use mango_os.Queue.{Addr}
use mango_os.Queue.Ring.{Ring, Ring-unique}
use mango_os.Kernel.{Kernel}
use mango_os.Ipc.{Sem, sem_wait, sem_notify}
use mango_os.Ipc.Semaphores.{
  Counter, wait, notify_list, notify, Represents, sem_wait_refines, sem_notify_refines,
}

-- The state after `waits` calls of `sem_wait` and `notifies` calls of `sem_notify`, the callers of
-- `sem_wait` being ready tasks; between the calls any task may become the current one.
pub data Reach (k₀ : Kernel) (s₀ : Sem) : ℕ → ℕ → Kernel → Sem → Type 0 where
  begin : Reach k₀ s₀ zero zero k₀ s₀
  waits :
      {w n : ℕ} {k : Kernel} {s : Sem}
      → Reach k₀ s₀ w n k s
      → (xs : List Addr) → Ring k.links k.ready xs
      → mem k.current xs ≡ true
      → Reach k₀ s₀ (suc w) n (sem_wait k s).0 (sem_wait k s).1
  notifies :
      {w n : ℕ} {k : Kernel} {s : Sem}
      → Reach k₀ s₀ w n k s
      → s.count + 1 < 2 ^ 31
      → Reach k₀ s₀ w (suc n) (sem_notify k s).0 (sem_notify k s).1
  preempts :
      {w n : ℕ} {k : Kernel} {s : Sem} (t : Addr)
      → Reach k₀ s₀ w n k s
      → Reach k₀ s₀ w n (record k { current = t }) s

-- Units are conserved, and no task waits while a unit is free.
pub record Balanced (k : Kernel) (s : Sem) (start waits notifies : ℕ) : Type 0 where
  pub counter : Counter
  pub rep : Represents k s counter
  pub conserved : counter.count + waits ≡ start + notifies + length counter.waiters
  pub no_lost_unit : (counter.count ≡ 0) ⊎ (counter.waiters ≡ [])

wait-balance :
    (c : Counter) (t : Addr) (start w n : ℕ)
    → c.count + w ≡ start + n + length c.waiters
    → (c.count ≡ 0) ⊎ (c.waiters ≡ [])
    → ((wait t c).count + suc w ≡ start + n + length (wait t c).waiters)
      × (((wait t c).count ≡ 0) ⊎ ((wait t c).waiters ≡ []))
unfolding wait
wait-balance c t start w n h g = ground (arith, length-append c.waiters (t ∷ []))

notify_list-balance :
    (c : Counter) (ws : List Addr) (start w n : ℕ)
    → c.waiters ≡ ws
    → c.count + w ≡ start + n + length c.waiters
    → (c.count ≡ 0) ⊎ (c.waiters ≡ [])
    → ((notify_list c ws).count + w ≡ start + suc n + length (notify_list c ws).waiters)
      × (((notify_list c ws).count ≡ 0) ⊎ ((notify_list c ws).waiters ≡ []))
unfolding notify_list
notify_list-balance c [] start w n e h g = ground (arith, ap length e)
notify_list-balance c (t ∷ ts) start w n e h g = ground (arith, ap length e)

notify-balance :
    (c : Counter) (start w n : ℕ)
    → c.count + w ≡ start + n + length c.waiters
    → (c.count ≡ 0) ⊎ (c.waiters ≡ [])
    → ((notify c).count + w ≡ start + suc n + length (notify c).waiters)
      × (((notify c).count ≡ 0) ⊎ ((notify c).waiters ≡ []))
unfolding notify
notify-balance c start w n = notify_list-balance c c.waiters start w n refl

-- From a semaphore with `start` units and no waiting task, after any sequence of calls: the units
-- left and the waits made balance with the units and notifications given and the tasks that wait;
-- and as long as a unit is free no task waits.
pub Reach-Balanced :
    {k₀ : Kernel} {s₀ : Sem} {w n : ℕ} {k : Kernel} {s : Sem} (c₀ : Counter)
    → Represents k₀ s₀ c₀
    → c₀.waiters ≡ []
    → Reach k₀ s₀ w n k s
    → Balanced k s c₀.count w n
Reach-Balanced c₀ r e begin = record {
  counter = c₀;
  rep = r;
  conserved = ground (arith, ap length e);
  no_lost_unit = inr e;
}
Reach-Balanced c₀ r e (waits {w} {n} {k} {s} reach xs ring m) =
    let b = Reach-Balanced c₀ r e reach in
    let c = b.counter in
    let i : mem k.current c.ready ≡ true =
      subst (λ ys. mem k.current ys ≡ true)
        (Ring-unique k.links k.ready xs c.ready ring b.rep.queues.ready_ring) m in
    let kept = wait-balance c k.current c₀.count w n b.conserved b.no_lost_unit in
    record {
      counter = wait k.current c;
      rep = sem_wait_refines k s c b.rep i;
      conserved = kept.0;
      no_lost_unit = kept.1;
    }
Reach-Balanced c₀ r e (notifies {w} {n} {k} {s} reach h) =
    let b = Reach-Balanced c₀ r e reach in
    let kept = notify-balance b.counter c₀.count w n b.conserved b.no_lost_unit in
    record {
      counter = notify b.counter;
      rep = sem_notify_refines k s b.counter b.rep (ground (arith, b.rep.counts));
      conserved = kept.0;
      no_lost_unit = kept.1;
    }
Reach-Balanced c₀ r e (preempts t reach) =
    let b = Reach-Balanced c₀ r e reach in
    record {
      counter = b.counter;
      rep = record {
        queues = b.rep.queues;
        counts = b.rep.counts;
        small = b.rep.small;
        marked = b.rep.marked;
      };
      conserved = b.conserved;
      no_lost_unit = b.no_lost_unit;
    }
