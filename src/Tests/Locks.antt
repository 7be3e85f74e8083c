-- ===== src/Tests/Locks.antt =====
-- Semaphores and mutexes with one task ahead of another.
use mango_os.Base.{◌<◌, ◌≡◌, refl, [], ◌∷◌, arith, ◌==◌, if◌then◌else◌}
use mango_os.Queue.{Addr}
use mango_os.Ipc.{Sem, Mutex, sem_wait, sem_notify, mutex_lock, mutex_unlock}
use mango_os.Ipc.Semaphores.{
  Counter, wait, notify, Represents, sem_wait_refines, sem_notify_refines,
}
use mango_os.Ipc.Traces
use mango_os.Ipc.Mutexes.{Depth, Consistent, entered, left, mutex_lock-Consistent}
use mango_os.Ipc.Mutexes.Unlock.{mutex_unlock-Consistent}
use mango_os.Ipc.Mutexes.Exclusion
use mango_os.Ipc.Mutexes.Exclusion.{deeper}
use mango_os.Queue.Ring.{Ring}
use mango_os.Tests.Kernels.{shop, shop3, shop-Ring, shop-Queues, shop-Busy}

-- No unit, nobody waits.
abbrev idle_sem : Sem
idle_sem = record { count = 0; sem_queue = 200 }

abbrev idle_counter : Counter
idle_counter = record { count = 0; ready = 1 ∷ 2 ∷ []; waiters = [] }

idle-Represents : Represents shop idle_sem idle_counter
idle-Represents = record {
  queues = shop-Queues;
  counts = refl;
  small = omega arith;
  marked = λ t i. absurd (ground arith);
}

-- No unit, and task 3 waits.
abbrev busy_sem : Sem
busy_sem = record { count = 0; sem_queue = 300 }

abbrev busy_counter : Counter
busy_counter = record { count = 0; ready = 1 ∷ 2 ∷ []; waiters = 3 ∷ [] }

busy-Represents : Represents shop3 busy_sem busy_counter
busy-Represents = record {
  queues = shop-Busy;
  counts = refl;
  small = omega arith;
  marked = λ t i. refl;
}

sem_wait_refines_example :
    Represents (sem_wait shop idle_sem).0 (sem_wait shop idle_sem).1 (wait 1 idle_counter)
sem_wait_refines_example = sem_wait_refines shop idle_sem idle_counter idle-Represents refl

sem_notify_refines_example :
    Represents (sem_notify shop3 busy_sem).0 (sem_notify shop3 busy_sem).1 (notify busy_counter)
sem_notify_refines_example =
    sem_notify_refines shop3 busy_sem busy_counter busy-Represents (omega arith)

Reach-Balanced_example : Traces.Balanced (sem_wait shop idle_sem).0 (sem_wait shop idle_sem).1 0 1 0
Reach-Balanced_example =
    Traces.Reach-Balanced idle_counter idle-Represents refl
      (Traces.waits Traces.begin (1 ∷ 2 ∷ []) shop-Ring refl)

abbrev free_mutex : Mutex
free_mutex = record { lock_times = 0; owner = 0; mutex_queue = 200 }

abbrev nobody : Depth
nobody t = 0

free-Consistent : Consistent shop free_mutex nobody (1 ∷ 2 ∷ []) []
free-Consistent = record {
  queues = shop-Queues;
  small = omega arith;
  free = λ z. refl;
  depths = λ t. ground arith;
  awake = refl;
}

mutex_lock-Consistent_example :
    Consistent
      (mutex_lock shop free_mutex).0
      (mutex_lock shop free_mutex).1
      (entered shop free_mutex nobody)
      (1 ∷ 2 ∷ [])
      []
mutex_lock-Consistent_example =
    mutex_lock-Consistent shop free_mutex nobody (1 ∷ 2 ∷ []) [] free-Consistent (omega arith) refl

-- Task 1 owns the mutex that task 3 waits for.
abbrev held_mutex : Mutex
held_mutex = record { lock_times = 1; owner = 1; mutex_queue = 300 }

abbrev first_task : Depth
first_task t = if t == 1 then 1 else 0

held-Consistent : Consistent shop held_mutex first_task (1 ∷ 2 ∷ []) (3 ∷ [])
held-Consistent = record {
  queues = shop-Busy;
  small = omega arith;
  free = λ z. absurd (omega (arith, z));
  depths = λ t. refl;
  awake = refl;
}

mutex_unlock-Consistent_example :
    Consistent
      (mutex_unlock shop held_mutex).0
      (mutex_unlock shop held_mutex).1
      (left shop held_mutex first_task)
      (1 ∷ 2 ∷ 3 ∷ [])
      []
mutex_unlock-Consistent_example =
    mutex_unlock-Consistent shop held_mutex first_task (1 ∷ 2 ∷ []) (3 ∷ []) held-Consistent
      (omega arith)

abbrev one_task : Addr
one_task = 1

lets_in :
    Ring (mutex_lock shop free_mutex).0.links (mutex_lock shop free_mutex).0.ready (1 ∷ 2 ∷ [])
unfolding mutex_lock
lets_in = shop-Ring

deeper-first : 0 < deeper shop nobody 1
unfolding deeper
deeper-first = ground arith

exclusion_example :
    (0 < deeper shop nobody 2 → one_task ≡ 2)
    × (one_task ≡ (mutex_lock shop free_mutex).1.owner)
    × (deeper shop nobody 1 ≡ (mutex_lock shop free_mutex).1.lock_times)
exclusion_example =
    Exclusion.exclusion shop free_mutex (1 ∷ 2 ∷ []) shop-Queues refl 1 2
      (Exclusion.returns Exclusion.begin (1 ∷ 2 ∷ []) (1 ∷ 2 ∷ []) shop-Ring refl (omega arith)
        lets_in refl)
      deeper-first
