-- ===== src/Tests/Heaps.antt =====
-- A heap with free blocks of 100 bytes at 4096 and of 1000 bytes at 8192.
use mango_os.Base.{ℕ, ◌≡◌, refl, some, [], ◌∷◌, update, arith}
use mango_os.Heap.{Heap, free_mark, kmalloc}
use mango_os.Heap.Fit.{Served, Blocks, first_fit, kmalloc-first_fit}

abbrev heap : Heap
heap = record {
  used = λ a. free_mark;
  size = update (update (λ a. 0) 4096 100) 8192 1000;
  is_head = λ a. 0;
  prev = update (λ a. 0) 8192 4096;
  next = update (λ a. 0) 4096 8192;
  free_list = 4096;
}

heap-Blocks : Blocks heap 4096 (4096 ∷ 8192 ∷ [])
heap-Blocks = (refl, (λ e. omega (arith, e)), (refl, (λ e. omega (arith, e)), refl))

-- Pages that are all in use.
abbrev no_pages : ℕ → ℕ → ℕ × ℕ
no_pages count p = (0, p)

kmalloc-first_fit_example :
    (o : ℕ × Heap × ℕ) × (kmalloc no_pages 3 200 heap 0 ≡ some o)
    × Served no_pages heap 0 217 (8192, 4096) o
unfolding first_fit
kmalloc-first_fit_example =
    kmalloc-first_fit no_pages heap 0 3 200 (4096 ∷ 8192 ∷ []) heap-Blocks (omega arith) refl (
      ((λ e. omega (arith, e)), (λ e. omega (arith, e)), λ e. omega (arith, e)),
      λ e. omega (arith, e),
    )
