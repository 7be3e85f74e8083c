-- ===== src/Sched.antt =====
-- source/kernel/sched.c: the choice of the next task and the switch to it. The assembly that swaps
-- the kernel stacks is seen by its effect on `current`; the registers on the stack are not kept.
pub mod RoundRobin
use mango_os.Base.{ℕ, ◌==◌, if◌then◌else◌, update, not}
use mango_os.Queue.{Addr, first}
use mango_os.Kernel.{Kernel, is_running}

unfoldable pub pick_next_task : Kernel → Addr
pick_next_task k =
    let next1 =
      if is_running (k.state k.current) then k.links.next k.current else first k.links k.ready in
    let next2 = if next1 == k.ready then k.links.next next1 else next1 in
    if next2 == k.ready then k.idle_task else next2

-- `save_cr3(prev); load_cr3(next)`
unfoldable pub switch_mm : Kernel → Addr → Addr → Kernel
switch_mm k prev next =
    if prev == next
    then k
    else let cr3' = update k.cr3 prev k.cr3_register in
      record k { cr3 = cr3'; cr3_register = cr3' next }

unfoldable pub switch_tss : Kernel → Addr → Addr → Kernel
switch_tss k prev next = if prev == next then k else record k { tss_task = next }

unfoldable pub switch_to : Kernel → Addr → Addr → Kernel
switch_to k prev next = if prev == next then k else record k { current = next }

unfoldable pub schedule : Kernel → Kernel
unfolding switch_to switch_mm switch_tss
schedule k =
    let next = pick_next_task k in
    let k1 = switch_tss k k.current next in
    let k2 = switch_mm k1 k1.current next in switch_to k2 k2.current next
