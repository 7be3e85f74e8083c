-- ===== src/Tests/Pages.antt =====
-- Pages: a bitmap of sixteen pages with page 0 in use, and a mutex that is free.
use mango_os.Base.{ℕ, ◌+◌, ◌*◌, ◌≡◌, ◌≢◌, inl, refl, true, not, some, [], arith, update}
use mango_os.Ipc.{Mutex, mutex_lock, mutex_unlock, mutex_release}
use mango_os.Queue.{empty}
use mango_os.Ipc.Guarded.{Guarded, with_lock, section}
use mango_os.Bitmap.{
  Bytes, Bitmap, MemLayout, alloc_bits, free_bits, bitmap_init, page_size, scan, get_bit,
  set_bits_up, write_bit,
}
use mango_os.Bitmap.Bits.{IsBytes, used}
use mango_os.Bitmap.Alloc.{Allocated, alloc_bits-Allocated, free-alloc}
use mango_os.Bitmap.Init.Map.{entries, covered, AllWide, used-bitmap_init}
use mango_os.Page.{
  Paging, Run, ok, waits, alloc_pages, take_pages, map_loop, trans_vtop, or_shared, new_page,
}
use mango_os.Page.Tables.{trans_vtop-map_loop}
use mango_os.Tests.Kernels.{shop}
use mango_os.Tests.Queues.{blank}

abbrev bytes : Bytes
bytes = update (λ a. 0) 0 1

abbrev pages : Bitmap
pages = record { nbits = 16; base = bytes }

bytes-IsBytes : IsBytes bytes
bytes-IsBytes a = ground arith

alloc_bits-Allocated_example : Allocated pages 3 (alloc_bits pages 3)
alloc_bits-Allocated_example = alloc_bits-Allocated pages 3 bytes-IsBytes (omega arith)

first_three : (alloc_bits pages 3).0 ≡ some 1
unfolding alloc_bits scan get_bit
first_three = refl

next_two : (alloc_bits (alloc_bits pages 3).1 2).0 ≡ some 4
unfolding alloc_bits scan get_bit set_bits_up write_bit
next_two = refl

free-alloc_example :
    used (free_bits (alloc_bits pages 3).1 (1 * page_size) 3).base 2 ≡ used pages.base 2
free-alloc_example = free-alloc pages 3 1 bytes-IsBytes (omega arith) first_three 2

-- A usable region of 16 MB from 0x601000 on.
abbrev region : MemLayout
region = record { start = 0x601000; size = 0x1000000; type = 1 }

region-AllWide : AllWide (entries region [])
unfolding entries
region-AllWide = ((λ a b. (omega arith, 193, omega arith, omega arith, omega arith)), tt)

used-bitmap_init_example :
    used (bitmap_init bytes region []).base 2000 ≡ not (covered 2000 (entries region []))
used-bitmap_init_example =
    used-bitmap_init bytes region [] 2000 bytes-IsBytes region-AllWide (omega arith)

abbrev free_mutex : Mutex
free_mutex = record { lock_times = 0; owner = 0; mutex_queue = 200 }

abbrev guarded : Guarded Bitmap
guarded = record { kernel = record shop { links = blank }; mutex = free_mutex; inner = pages }

taken : (take_pages 3 pages).0 ≢ 0
unfolding take_pages alloc_bits scan get_bit
taken e = omega (arith, e)

-- A directory at 4096 whose entry 0 names the empty page table at 8192.
abbrev space : Paging
space = record { words = update (λ a. 0) 4096 8743; pages = guarded }

abbrev after : {A : Type 0} → Run A → Paging
after (ok a s) = s
after (waits s) = s

abbrev mapped : Paging
mapped = after (map_loop 2 8204 space)

map_loop-ok : map_loop 2 8204 space ≡ ok true mapped
unfolding map_loop new_page alloc_pages take_pages alloc_bits scan get_bit with_lock section
    set_bits_up write_bit mutex_lock mutex_unlock mutex_release empty
map_loop-ok = refl

trans_vtop-map_loop_example :
    (pg : ℕ) × (pg ≢ 0)
    × (mapped.words 8204 ≡ or_shared pg)
    × (trans_vtop 4096 0x3005 mapped.words ≡ pg + 5)
trans_vtop-map_loop_example =
    trans_vtop-map_loop 4096 0x3005 2 space mapped (λ e. omega (arith, e)) (inl (omega arith))
      (omega arith) map_loop-ok
