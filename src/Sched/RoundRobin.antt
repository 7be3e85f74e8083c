-- ===== src/Sched/RoundRobin.antt =====
-- The scheduler is a round robin over the ready list.
use mango_os.Base.{◌≡◌, true, false, List, [], ◌∷◌, ◌++◌, arith, mem-append}
use mango_os.Queue.{Addr, Links}
use mango_os.Queue.Ring.{Chain, Ring, head_of, first-Ring}
use mango_os.Kernel.{Kernel, is_running}
use mango_os.Sched.{pick_next_task, switch_to, switch_mm, switch_tss, schedule}

pub Chain-next :
    (s : Links) (a : Addr) (ys : List Addr) (c : Addr) (zs : List Addr) (b : Addr)
    → Chain s a (ys ++ c ∷ zs) b
    → s.next c ≡ head_of zs b
Chain-next s a [] c [] b h = h.2.0
Chain-next s a [] c (z ∷ zs) b h = h.2.0
Chain-next s a (y ∷ ys) c zs b h = Chain-next s y ys c zs b h.2

Ring-next :
    (s : Links) (head : Addr) (xs : List Addr) → Ring s head xs → s.next head ≡ head_of xs head
Ring-next s head [] r = r.chain.0
Ring-next s head (x ∷ xs) r = r.chain.0

-- A running task that is in the ready list hands over to the next one, going round at the end.
pub pick_next_task-rotates :
    (k : Kernel) (ys zs : List Addr)
    → Ring k.links k.ready (ys ++ k.current ∷ zs)
    → is_running (k.state k.current) ≡ true
    → pick_next_task k ≡ head_of (zs ++ ys) k.current
unfolding pick_next_task
pick_next_task-rotates k [] [] r h =
    ground
      (arith, Chain-next k.links k.ready [] k.current [] k.ready r.chain, r.chain.0, r.distinct.0)
pick_next_task-rotates k (y ∷ ys) [] r h = ground (
  arith,
  Chain-next k.links k.ready (y ∷ ys) k.current [] k.ready r.chain,
  r.chain.0,
  r.distinct.0,
)
pick_next_task-rotates k ys (z ∷ zs) r h = ground (
  arith,
  Chain-next k.links k.ready ys k.current (z ∷ zs) k.ready r.chain,
  mem-append k.ready ys (k.current ∷ z ∷ zs),
  r.distinct.0,
)

-- A task that does not run any more hands over to the first ready task, or to the idle task.
pub pick_next_task-first :
    (k : Kernel) (xs : List Addr)
    → Ring k.links k.ready xs
    → is_running (k.state k.current) ≡ false
    → pick_next_task k ≡ head_of xs k.idle_task
unfolding pick_next_task
pick_next_task-first k [] r h = ground (arith, first-Ring k.links k.ready [] r, r.chain)
pick_next_task-first k (x ∷ xs) r h =
    ground (arith, first-Ring k.links k.ready (x ∷ xs) r, r.distinct.0)

-- `schedule` makes the picked task current, loads its page directory and points the task-state
-- segment at it, if the register held the page directory of the task that it leaves.
pub record Switched (k j : Kernel) (next : Addr) : Type 0 where
  pub current : j.current ≡ next
  pub loaded : j.cr3_register ≡ k.cr3 next
  pub saved : (t : Addr) → j.cr3 t ≡ k.cr3 t
  pub tss : j.tss_task ≡ next
  pub links : j.links ≡ k.links
  pub state : (t : Addr) → j.state t ≡ k.state t

-- If the loaded page directory and task segment are those of the current task, `schedule` leaves
-- everything loaded for the task that `pick_next_task` chooses, with every task's directory saved,
-- and the lists and states as they were.
pub schedule-Switched :
    (k : Kernel)
    → k.cr3_register ≡ k.cr3 k.current
    → k.tss_task ≡ k.current
    → Switched k (schedule k) (pick_next_task k)
unfolding schedule switch_to switch_mm switch_tss
schedule-Switched k h g = record {
  current = ground arith;
  loaded = ground arith;
  saved = λ t. ground arith;
  tss = ground arith;
  links = ground arith;
  state = λ t. ground arith;
}

-- The fields that the queue operations and the semaphores depend on.
pub schedule-current : (k : Kernel) → (schedule k).current ≡ pick_next_task k
unfolding schedule switch_to switch_mm switch_tss
schedule-current k = ground arith

pub schedule-links : (k : Kernel) → (schedule k).links ≡ k.links
unfolding schedule switch_to switch_mm switch_tss
schedule-links k = ground arith

pub schedule-state : (k : Kernel) (t : Addr) → (schedule k).state t ≡ k.state t
unfolding schedule switch_to switch_mm switch_tss
schedule-state k t = ground arith

pub schedule-ready : (k : Kernel) → (schedule k).ready ≡ k.ready
unfolding schedule switch_to switch_mm switch_tss
schedule-ready k = ground arith
