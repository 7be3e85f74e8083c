-- ===== src/Tests/Directories.antt =====
-- A kernel whose page directory lies in the page at 0x200000, and a free page 513.
use mango_os.Base.{
  ℕ, ◌+◌, ◌*◌, ◌/◌, ◌<◌, ◌≤◌, ◌≡◌, ◌⊎◌, refl, true, false, arith, if◌then◌else◌, ◌==◌,
}
use mango_os.Ipc.{Mutex}
use mango_os.Ipc.Guarded.{IsFree}
use mango_os.Bitmap.{Bytes, page_size}
use mango_os.Bitmap.Bits.{IsBytes, used}
use mango_os.Page.{Paging, ok, present}
use mango_os.Page.Directory.{kernel_page_dir, user_start, create_pde, destroy_pde}
use mango_os.Page.Directory.Sharing.{Directory, create_pde-Directory}
use mango_os.Page.Directory.Emptying.{Zeroes, destroy_pde-Zeroes}
use mango_os.Tests.Kernels.{shop, shop-Queues}

abbrev pub bytes : Bytes
bytes a = if a == 64 then 1 else 255

pub bytes-IsBytes : IsBytes bytes
bytes-IsBytes a = ground arith

abbrev pub free_mutex : Mutex
free_mutex = record { lock_times = 0; owner = 0; mutex_queue = 200 }

abbrev space : Paging
space = record {
  words = λ a. a;
  pages = record {
    kernel = shop;
    mutex = free_mutex;
    inner = record { nbits = 520; base = bytes };
  };
}

space-IsFree : IsFree space.pages
space-IsFree = (refl, refl, shop-Queues.wait_ring)

kernel-used : used bytes (kernel_page_dir / page_size) ≡ true
kernel-used = refl

create_pde-Directory_example :
    (r : ℕ × Paging) × (create_pde space ≡ ok r.0 r.1)
    × (((r.0 ≡ 0) × (r.1.words ≡ space.words)) ⊎ Directory space.words r.1.words r.0)
create_pde-Directory_example =
    create_pde-Directory space space-IsFree bytes-IsBytes (omega arith) kernel-used

destroy_pde-Zeroes_example :
    (r : Zeroes (destroy_pde 0x300000) space) × ((i : ℕ)
      → user_start ≤ i
      → i < 1024
      → present (r.final.words (0x300000 + 4 * i)) ≡ false)
destroy_pde-Zeroes_example = destroy_pde-Zeroes 0x300000 space space-IsFree
