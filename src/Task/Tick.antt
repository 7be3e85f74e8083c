-- ===== src/Task/Tick.antt =====
-- The timer's tick and the voluntary switch.
use mathlib.Core.Path.{subst}
use mango_os.Base.{
  ℕ, ◌<◌, ◌≡◌, inl, inr, true, List, [], ◌∷◌, ◌++◌, ◌==◌, if◌then◌else◌, length, mem, erase, mem_ne,
  mem-append, mem-erase_self, mem-erase, arith, Bool-cases, dec32,
}
use mango_os.Queue.{Addr, first, remove}
use mango_os.Queue.Remove.{remove-Ring}
use mango_os.Queue.Insert.{insert_tail-Ring}
use mango_os.Queue.Frame.{insert_tail-Ring_other, remove-Ring_other}
use mango_os.Sched.{schedule}
use mango_os.Sched.RoundRobin.{schedule-links, schedule-ready}
use mango_os.Kernel.{Kernel}
use mango_os.Task.{wake_loop, task_tick, use_slice, requeue, task_yield}
use mango_os.Task.Sleep.{Lists, due, kept, wake_loop-due}

-- The current task at the back of the ready list.
requeue-Lists :
    (k : Kernel) (t : Addr) (rs ss : List Addr)
    → Lists k rs ss
    → mem t rs ≡ true
    → Lists (requeue k k.ready t) (erase t rs ++ t ∷ []) ss
requeue-Lists k t rs ss w m = record {
  ready_ring =
      insert_tail-Ring (remove k.links t) k.ready t (erase t rs)
        (remove-Ring k.links k.ready t rs w.ready_ring m)
        (ground (
          arith,
          mem_ne t k.ready rs m w.ready_ring.distinct.0,
          mem-erase_self t rs w.ready_ring.distinct.1,
        ));
  wait_ring =
      insert_tail-Ring_other (remove k.links t) k.ready k.sleep t (erase t rs) ss
        (remove-Ring k.links k.ready t rs w.ready_ring m)
        (λ a i. elim (Bool-cases (mem a (k.ready ∷ rs))) [
          | inl j ↦ w.apart a j
          | inr o ↦ ground (arith, mem-erase a t rs)
        ])
        (mem_ne t k.ready rs m w.ready_ring.distinct.0) (w.apart t (ground arith))
        (remove-Ring_other k.links k.ready k.sleep t rs ss w.ready_ring w.apart m w.wait_ring);
  apart = λ a i. elim (Bool-cases (mem a (k.ready ∷ rs))) [
    | inl j ↦ w.apart a j
    | inr o ↦ ground (arith, mem-erase a t rs, mem-append a (erase t rs) (t ∷ []), mem_ne t a rs m)
  ];
}

-- The ready list after the current task has used a tick.
unfoldable pub after_slice : Kernel → List Addr → List Addr
after_slice k rs =
    if dec32 (k.slice k.current) == 0 then erase k.current rs ++ k.current ∷ [] else rs

use_slice-Lists :
    (k : Kernel) (rs ss : List Addr)
    → Lists k rs ss
    → mem k.current rs ≡ true
    → Lists (use_slice k) (after_slice k rs) ss
unfolding use_slice after_slice
use_slice-Lists k rs ss w m = elim (Bool-cases (dec32 (k.slice k.current) == 0)) [
  | inl e ↦ rw e (requeue-Lists k k.current rs ss w m)
  | inr e ↦ rw e w
]

use_slice-ticks : (k : Kernel) → (use_slice k).sleep_ticks ≡ k.sleep_ticks
unfolding use_slice
use_slice-ticks k = ground arith

schedule-sleep : (k : Kernel) → (schedule k).sleep ≡ k.sleep
unfolding schedule
schedule-sleep k = ground arith

schedule-Lists : (k : Kernel) (rs ss : List Addr) → Lists k rs ss → Lists (schedule k) rs ss
schedule-Lists k rs ss w = rw (schedule-links k, schedule-ready k, schedule-sleep k) w

-- On a tick the running task goes to the back of the ready list if its slice is used up, and the
-- sleepers whose time has come follow it, in order; the other sleepers stay.
pub task_tick-Lists :
    (n : ℕ) (k : Kernel) (rs ss : List Addr)
    → Lists k rs ss
    → mem k.current rs ≡ true
    → length ss < n
    → Lists (task_tick n k) (after_slice k rs ++ due k.sleep_ticks ss) (kept k.sleep_ticks ss)
unfolding task_tick
task_tick-Lists n k rs ss w m f =
    let k1 = use_slice k in
    let w1 = use_slice-Lists k rs ss w m in
    schedule-Lists (wake_loop n k1 (first k1.links k1.sleep))
      (after_slice k rs ++ due k.sleep_ticks ss) (kept k.sleep_ticks ss)
      (subst
        (λ ticks.
          Lists (wake_loop n k1 (first k1.links k1.sleep)) (after_slice k rs ++ due ticks ss)
            (kept ticks ss))
        (use_slice-ticks k) (wake_loop-due n k1 (after_slice k rs) ss w1 f))

-- `task_yield` puts the caller behind all the other ready tasks and leaves the sleepers alone.
pub task_yield-Lists :
    (k : Kernel) (rs ss : List Addr)
    → Lists k rs ss
    → mem k.current rs ≡ true
    → Lists (task_yield k) (erase k.current rs ++ k.current ∷ []) ss
unfolding task_yield
task_yield-Lists k rs ss w m =
    schedule-Lists (requeue k k.ready k.current) (erase k.current rs ++ k.current ∷ []) ss
      (requeue-Lists k k.current rs ss w m)
