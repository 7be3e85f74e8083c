-- ===== src/Ipc.antt =====
-- source/kernel/ipc.c and source/include/ipc.h: semaphores and mutexes. A call runs with interrupts
-- off, between `enter_critical` and `leave_critical`, so it is one step on the kernel's state; a
-- call that blocks ends with the switch to another task.
pub mod Blocking
pub mod Semaphores
pub mod Mutexes
pub mod Traces
pub mod Guarded
use mango_os.Base.{ℕ, Bool, true, false, ◌==◌, if◌then◌else◌, not, is_pos32, inc32, dec32}
use mango_os.Queue.{Addr, init, empty, first, remove, insert_tail}
use mango_os.Kernel.{Kernel, running, waiting, set_state, set_links}
use mango_os.Sched.{schedule}

-- `sem_t`. The count is the bit pattern of an `int`; the queue is known by its head's address.
pub record Sem : Type 0 where
  pub count : ℕ
  pub sem_queue : Addr

-- `mutex_t`. An owner 0 is `NULL`.
pub record Mutex : Type 0 where
  pub lock_times : ℕ
  pub owner : Addr
  pub mutex_queue : Addr

unfoldable pub sem_init : Kernel → Addr → ℕ → Kernel × Sem
sem_init k queue count =
    (set_links k (init k.links queue), record { count = count; sem_queue = queue })

-- The current task leaves the ready list and waits at the end of the queue.
unfoldable pub block : Kernel → Addr → Kernel
block k queue =
    let k1 = set_links k (remove k.links k.current) in
    let k2 = set_state k1 k1.current waiting in set_links k2 (insert_tail k2.links queue k2.current)

-- The first task of the queue goes to the end of the ready list.
unfoldable pub wake : Kernel → Addr → Kernel
wake k queue =
    let q = first k.links queue in
    let k1 = set_links k (remove k.links q) in
    let k2 = set_state k1 q running in set_links k2 (insert_tail k2.links k2.ready q)

unfoldable pub sem_wait : Kernel → Sem → Kernel × Sem
sem_wait k s =
    if is_pos32 s.count
    then (k, record s { count = dec32 s.count })
    else (schedule (block k s.sem_queue), s)

unfoldable pub sem_notify : Kernel → Sem → Kernel × Sem
sem_notify k s =
    if not (empty k.links s.sem_queue)
    then (schedule (wake k s.sem_queue), s)
    else (k, record s { count = inc32 s.count })

unfoldable pub mutex_init : Kernel → Addr → Kernel × Mutex
mutex_init k queue =
    (set_links k (init k.links queue), record { lock_times = 0; owner = 0; mutex_queue = queue })

unfoldable pub mutex_lock : Kernel → Mutex → Kernel × Mutex
mutex_lock k m =
    if m.lock_times == 0
    then (k, record m { lock_times = inc32 m.lock_times; owner = k.current })
    else if m.owner == k.current
    then (k, record m { lock_times = inc32 m.lock_times })
    else (schedule (block k m.mutex_queue), m)

-- The part of `mutex_unlock` behind `--mutex->lock_times == 0`.
unfoldable pub mutex_release : Kernel → Mutex → Kernel × Mutex
mutex_release k m =
    if not (empty k.links m.mutex_queue)
    then (
      schedule (wake k m.mutex_queue),
      record m { owner = first k.links m.mutex_queue; lock_times = 1 },
    )
    else (k, record m { owner = 0 })

unfoldable pub mutex_unlock : Kernel → Mutex → Kernel × Mutex
unfolding mutex_release
mutex_unlock k m =
    if m.owner == k.current
    then (if dec32 m.lock_times == 0
        then mutex_release k (record m { lock_times = dec32 m.lock_times })
        else (k, record m { lock_times = dec32 m.lock_times }))
    else (k, m)
