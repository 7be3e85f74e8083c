-- ===== src/Kernel.antt =====
-- The kernel's shared state: what source/kernel/task.c, sched.c and ipc.c read and write of
-- `task_t` (source/include/task.h), and the globals `current`, `idle_task`, `ready_task_queue`,
-- `sleep_task_queue` and `task_queue`. A task is known by the address of its node `rq`, so
-- `queue_data(q, task_t, rq)` is the node itself.
use mango_os.Base.{ℕ, Bool, true, false, update}
use mango_os.Queue.{Addr, Links}

-- The states of `task_t`.
pub data TaskState : Type 0 where
  created running sleeping waiting zombie : TaskState

pub record Kernel : Type 0 where
  pub links : Links
  pub state : Addr → TaskState
  pub slice : Addr → ℕ
  pub sleep_ticks : Addr → ℕ
  pub cr3 : Addr → ℕ
  pub current : Addr
  pub idle_task : Addr
  pub ready : Addr
  pub sleep : Addr
  pub tasks : Addr
  pub cr3_register : ℕ
  pub tss_task : Addr

abbrev pub is_running : TaskState → Bool
is_running created = false
is_running running = true
is_running sleeping = false
is_running waiting = false
is_running zombie = false

abbrev pub set_state : Kernel → Addr → TaskState → Kernel
set_state k t s = record k { state = update k.state t s }

abbrev pub set_links : Kernel → Links → Kernel
set_links k l = record k { links = l }
