-- ===== src/Tests/Disks.antt =====
-- A controller that is always ready and gives the word 7, with one partition of 100 sectors.
use mango_os.Base.{ℕ, ◌+◌, refl, [], ◌==◌, if◌then◌else◌}
use mango_os.Disk.{IdePorts, Disk, disk_read}
use mango_os.Disk.Errors.{GivesBack, disk_read-GivesBack}
use mango_os.Tests.Kernels.{shop, shop-Queues}

abbrev ready : IdePorts ℕ
ready = record {
  outb = λ port value d. d + 1;
  inb = λ port d. (8, d);
  outw = λ port value d. d + 1;
  inw = λ port d. (7, d + 1);
}

abbrev disk : Disk ℕ
disk = record {
  kernel = shop;
  mutex = record { lock_times = 0; owner = 0; mutex_queue = 200 };
  sem = record { count = 5; sem_queue = 300 };
  part_info =
      λ i. record { name = []; part_type = 1; begin_sec = 63; count = if i == 1 then 100 else 0 };
  wait_interupt = 0;
  device = 0;
}

-- Two sectors from the first partition.
disk_read-GivesBack_example :
    GivesBack
      (record (disk.mutex) { lock_times = 1; owner = 1 })
      disk.mutex
      (disk_read ready 3 1 0 5000 2 (λ a. 0) disk)
disk_read-GivesBack_example =
    disk_read-GivesBack ready 3 1 0 5000 2 (λ a. 0) disk shop-Queues.wait_ring refl refl
