-- ===== src/Tests/Calls.antt =====
-- One mounted file system whose data is a number, and a free entry in the table of files.
use mango_os.Base.{
  ℕ, ◌+◌, ◌^◌, ◌-◌, ◌≡◌, refl, true, false, some, [], ◌∷◌, replicate, get_or, ◌==◌, if◌then◌else◌,
}
use mango_os.Ipc.Guarded.{IsFree}
use mango_os.File.{blank_file, claim}
use mango_os.File.Table.{Claimed, claim_found}
use mango_os.Task.{task_alloc_fd}
use mango_os.Ext2.Dirs.{starts_with}
use mango_os.Fs.{Fs, FsOps, System, returns}
use mango_os.Fs.Mounts.{fs_of, find_fs}
use mango_os.Fs.Calls.{sys_open}
use mango_os.Fs.Calls.Runs.{FilesFree, sys_open-gives_back}
use mango_os.Tests.Kernels.{shop, shop-Queues}

-- Opening fails; the other operations do nothing.
abbrev failing : FsOps ℕ
failing = record {
  mount = λ major minor v. (0, v);
  open_file = λ f name v. (2 ^ 32 - 16, f, v);
  read = λ f user size v. (0, f, v);
  write = λ f user size v. (0, f, v);
  seek = λ f offset v. (0, f, v);
  sync = λ v. v;
  close = λ f v. v;
  unlink = λ f name v. (0, f, v);
  i_size = λ f v. 0;
}

abbrev root_fs : Fs ℕ
root_fs = record {
  mount_point = 47 ∷ [];
  fs_type = 1;
  has_op = true;
  volume = 0;
  mutex = record { lock_times = 0; owner = 0; mutex_queue = 200 };
}

-- The memory holds "/f" at 7000 and "f" at 8000.
abbrev system : System ℕ
system = record {
  kernel = shop;
  files_mutex = record { lock_times = 0; owner = 0; mutex_queue = 200 };
  files = record blank_file { ref = 1 } ∷ blank_file ∷ [];
  descriptors = replicate 128 0;
  fs_table = λ i.
      if i == 0 then root_fs else record root_fs { mount_point = []; fs_type = 0; has_op = false };
  root = some 0;
  memory = λ a. if a == 7000 then 47 else if a == 7001 then 102 else if a == 8000 then 102 else 0;
}

system-IsFree : IsFree {S = ℕ} (record { kernel = shop; mutex = root_fs.mutex; inner = 0 })
system-IsFree = (refl, refl, shop-Queues.wait_ring)

system-FilesFree : FilesFree system
system-FilesFree = (refl, refl, shop-Queues.wait_ring)

system-Claimed : Claimed system.files (claim system.files)
system-Claimed = claim_found system.files 1 refl

first_fd : (task_alloc_fd ((claim system.files).0 + 1) system.descriptors).0 ≡ some 0
unfolding task_alloc_fd claim
first_fd = refl

root_found : fs_of system 7000 ≡ some 0
unfolding fs_of find_fs starts_with
root_found = refl

sys_open-gives_back_example :
    (s' : System ℕ) × (sys_open failing 7000 0 system ≡ returns (2 ^ 32 - 16) s')
    × ((s'.fs_table 0).volume ≡ 0)
    × (s'.descriptors ≡ replicate 128 0)
    × ((get_or s'.files (claim system.files).0 blank_file).ref ≡ 0)
sys_open-gives_back_example =
    sys_open-gives_back failing 7000 0 system 0 0 system-FilesFree system-Claimed refl first_fd
      root_found (refl, system-IsFree) refl refl
