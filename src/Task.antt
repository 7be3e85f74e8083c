-- ===== src/Task.antt =====
-- source/kernel/task.c and source/include/task.h: the life of a task in the scheduler's lists, and
-- its table of open files.
pub mod Files
pub mod Sleep
pub mod Tick
use mango_os.Base.{
  ℕ, zero, suc, ◌+◌, ◌-◌, ◌/◌, Bool, true, false, ◌&&◌, Option, none, some, List, ◌==◌, ltb, leb,
  if◌then◌else◌, get_or, set, find_index, dec32, inc32, update,
}
use mango_os.Queue.{Addr, Links, first, remove, insert_tail}
use mango_os.Kernel.{Kernel, TaskState, created, running, sleeping, set_state, set_links}
use mango_os.Sched.{schedule}

abbrev pub task_slice : ℕ
task_slice = 10

abbrev pub task_open_max_files : ℕ
task_open_max_files = 128

-- `open_file_table` of the current task: a pointer for each descriptor, 0 for `NULL`.
abbrev pub FileTable : Type 0
FileTable = List Addr

-- `none` is -1.
unfoldable pub task_alloc_fd : Addr → FileTable → Option ℕ × FileTable
task_alloc_fd file t = elim (find_index (λ p. p == 0) t) [
  | none ↦ (none, t)
  | some i ↦ (some i, set t i file)
]

-- The descriptor is not negative.
unfoldable pub task_free_fd : ℕ → FileTable → FileTable
task_free_fd fd t = if ltb fd task_open_max_files then set t fd 0 else t

-- The task moves to the end of the list at `head`.
abbrev pub requeue : Kernel → Addr → Addr → Kernel
requeue k head t =
    let k' = set_links k (remove k.links t) in set_links k' (insert_tail k'.links head t)

unfoldable pub task_sleep : Kernel → Addr → ℕ → Kernel
task_sleep k task ticks =
    if ticks == 0
    then k
    else (let k1 = record k { sleep_ticks = update k.sleep_ticks task ticks } in
        let k2 = set_state k1 task sleeping in requeue k2 k2.sleep task)

unfoldable pub task_wakeup : Kernel → Addr → Kernel
task_wakeup k task = set_state (requeue k k.ready task) task running

-- The current task has used up one tick; at the end of its slice it goes to the back of the ready
-- list.
unfoldable pub use_slice : Kernel → Kernel
use_slice k =
    let left = dec32 (k.slice k.current) in
    let k1 = record k { slice = update k.slice k.current left } in
    if left == 0
    then requeue (record k1 { slice = update k1.slice k.current task_slice }) k1.ready k.current
    else k1

-- One round of the loop of `task_tick` over the sleeping tasks.
unfoldable pub count_down : Kernel → Addr → Kernel
unfolding task_wakeup
count_down k task =
    let left = dec32 (k.sleep_ticks task) in
    let k1 = record k { sleep_ticks = update k.sleep_ticks task left } in
    if left == 0 then task_wakeup k1 task else k1

-- The loop, on fuel for its rounds.
unfoldable pub wake_loop : ℕ → Kernel → Addr → Kernel
unfolding count_down
wake_loop zero k q = k
wake_loop (suc n) k q =
    let rest = wake_loop n (count_down k q) (k.links.next q) in if q == k.sleep then k else rest

unfoldable pub task_tick : ℕ → Kernel → Kernel
unfolding use_slice wake_loop
task_tick fuel k = let k1 = use_slice k in schedule (wake_loop fuel k1 (first k1.links k1.sleep))

unfoldable pub task_yield : Kernel → Kernel
task_yield k = schedule (requeue k k.ready k.current)

unfoldable pub sys_sleep : Kernel → ℕ → Kernel
unfolding task_sleep
sys_sleep k ms = schedule (task_sleep k k.current (ms / task_slice))
