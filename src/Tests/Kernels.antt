-- ===== src/Tests/Kernels.antt =====
-- Tasks 1 and 2 are ready in the list at 100, task 1 is the current one; task 3 is in the list at
-- 300, and the list at 200 is empty.
use mango_os.Base.{refl, [], ◌∷◌, arith}
use mango_os.Queue.{Links, init, insert_tail}
use mango_os.Queue.Ring.{Ring}
use mango_os.Kernel.{Kernel, running, waiting}
use mango_os.Ipc.Blocking.{Queues}
use mango_os.Tests.Queues.{two}

abbrev pub links : Links
unfolding insert_tail
links = insert_tail two 300 3

abbrev pub shop : Kernel
shop = record {
  links = links;
  state = λ a. running;
  slice = λ a. 10;
  sleep_ticks = λ a. 1;
  cr3 = λ a. a;
  current = 1;
  idle_task = 50;
  ready = 100;
  sleep = 300;
  tasks = 400;
  cr3_register = 1;
  tss_task = 1;
}

pub shop-Ring : Ring shop.links 100 (1 ∷ 2 ∷ [])
unfolding init insert_tail
shop-Ring = record {
  chain = (refl, refl, (refl, refl, (refl, refl)));
  distinct = (refl, (refl, (refl, tt)));
}

pub shop-Queues : Queues shop.links 100 (1 ∷ 2 ∷ []) 200 []
unfolding init insert_tail
shop-Queues = record {
  ready_ring = shop-Ring;
  wait_ring = record { chain = (refl, refl); distinct = (refl, tt) };
  apart = λ a i. ground arith;
}

-- With task 3 in the second list.
pub shop-Busy : Queues shop.links 100 (1 ∷ 2 ∷ []) 300 (3 ∷ [])
unfolding init insert_tail
shop-Busy = record {
  ready_ring = shop-Ring;
  wait_ring = record { chain = (refl, refl, (refl, refl)); distinct = (refl, (refl, tt)) };
  apart = λ a i. ground arith;
}

-- The same lists, with task 3 marked as waiting.
abbrev pub shop3 : Kernel
shop3 = record shop { state = λ a. waiting }
