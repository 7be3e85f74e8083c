-- ===== src/Tests/Tasks.antt =====
-- Sleeping, waking and ticks with task 3 asleep.
use mango_os.Base.{refl, [], ◌∷◌, arith, ◌++◌}
use mango_os.Task.{task_tick}
use mango_os.Task.Sleep.{Lists, due, kept}
use mango_os.Task.Tick.{after_slice, task_tick-Lists}
use mango_os.Tests.Kernels.{shop, shop-Busy}

task_tick-Lists_example :
    Lists
      (task_tick 2 shop)
      (after_slice shop (1 ∷ 2 ∷ []) ++ due shop.sleep_ticks (3 ∷ []))
      (kept shop.sleep_ticks (3 ∷ []))
task_tick-Lists_example = task_tick-Lists 2 shop (1 ∷ 2 ∷ []) (3 ∷ []) shop-Busy refl (omega arith)
