-- ===== src/Tests/Forks.antt =====
-- Task 1 makes a task at 0x300000 and forks; task 2, the child, has read no file yet.
use mango_os.Base.{ℕ, ◌≡◌, refl, arith, [], if◌then◌else◌, ◌==◌, ◌∷◌, replicate}
use mango_os.Queue.{Links, init, insert_tail}
use mango_os.Queue.Ring.{Ring}
use mango_os.Strings.{kstrcpy, store_word}
use mango_os.Kernel.{created}
use mango_os.Task.{task_slice}
use mango_os.File.{File, blank_file}
use mango_os.Process.{Procs, ok, rq_of, q_of}
use mango_os.Process.Start.{task_init}
use mango_os.Process.Start.Listed.{Lists, task_init-Listed}
use mango_os.Process.Fork.{OpenFiles, copy_open_files}
use mango_os.Process.Fork.Inherit.{Inherited, copy_open_files-Inherited}
use mango_os.Tests.Kernels.{shop, shop-Queues}
use mango_os.Tests.Directories.{free_mutex}
use mango_os.Tests.Processes.{family}

-- With a list of all tasks at 400, without any.
abbrev nobody : Links
unfolding init
nobody = init shop.links 400

abbrev starting : Procs ℕ
starting = family 0 (store_word 0x500 0x61 (λ a. 0)) (record shop { links = nobody })

starting-Lists : Lists nobody 400 100 [] (1 ∷ 2 ∷ []) (rq_of 0x300000)
unfolding init insert_tail
starting-Lists = record {
  tasks = record { chain = (refl, refl); distinct = (refl, tt) };
  ready = record {
    chain = (refl, refl, (refl, refl, (refl, refl)));
    distinct = (refl, (refl, (refl, tt)));
  };
  apart = λ a i. ground arith;
  apart_too = λ a i. ground arith;
  new_task = refl;
  not_ready = refl;
  new_ready = refl;
  not_task = refl;
  two_nodes = refl;
}

no_waiter : Ring nobody 200 []
unfolding init insert_tail
no_waiter = record { chain = (refl, refl); distinct = (refl, tt) }

task_init-Listed_example :
    (s' : Procs ℕ) × (task_init 4 0x300000 0x500 0x80000000 starting ≡ ok tt s')
    × Ring s'.pages.kernel.links 400 (q_of (rq_of 0x300000) ∷ [])
    × Ring s'.pages.kernel.links 100 (1 ∷ 2 ∷ rq_of 0x300000 ∷ [])
    × (s'.pages.kernel.state (rq_of 0x300000) ≡ created)
    × (s'.pages.kernel.slice (rq_of 0x300000) ≡ task_slice)
    × (s'.pid (rq_of 0x300000) ≡ 3)
    × (s'.next_pid ≡ 4)
unfolding kstrcpy
task_init-Listed_example =
    task_init-Listed 4 0x300000 0x500 0x80000000 _ [] (1 ∷ 2 ∷ []) starting (refl, refl, no_waiter)
      refl starting-Lists

-- A file with one holder.
abbrev pub claimed : File
claimed = record blank_file { ref = 1 }

-- Task 1 has files 1 and 2 of the table behind its descriptors 0 and 1.
abbrev pub two_files : OpenFiles
two_files = record {
  mutex = free_mutex;
  table = claimed ∷ claimed ∷ [];
  descriptors = λ t. if t == 1 then 1 ∷ 2 ∷ replicate 126 0 else replicate 128 0;
}

abbrev pub parent_runs : Procs OpenFiles
parent_runs = family two_files (λ a. 0) shop

copy_open_files-Inherited_example :
    (f : OpenFiles) × (copy_open_files 2 parent_runs ≡ ok tt (record parent_runs { files = f }))
    × Inherited parent_runs f 128 0 1 2
copy_open_files-Inherited_example =
    copy_open_files-Inherited 2 parent_runs (refl, refl, shop-Queues.wait_ring) (λ e. ground arith)
      refl
