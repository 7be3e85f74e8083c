-- ===== src/Page.antt =====
-- source/mm/page.c and source/include/page.h: physical pages behind a mutex, and the two-level page
-- tables that map them. Physical memory is a function from addresses to 32-bit words.
pub mod Pages
pub mod Tables
pub mod Directory
use mango_os.Base.{
  List, ℕ, zero, suc, ◌+◌, ◌-◌, ◌*◌, ◌/◌, ◌%◌, ◌^◌, Bool, true, false, not, ◌&&◌, Option, none,
  some, ◌==◌, ltb, if◌then◌else◌, update, add32,
}
use Prim.Native.Nat.{bit_or}
use mango_os.Queue.{Addr}
use mango_os.Kernel.{Kernel}
use mango_os.Ipc.{mutex_init}
use mango_os.Bitmap.{Bytes, MemLayout, bitmap_init, Bitmap, page_size, alloc_bits, free_bits}
use mango_os.Ipc.Guarded.{Guarded, Outcome, done, blocked, with_lock}

-- The part of `alloc_pages` between the lock and the unlock: 0 if there is no run of pages.
unfoldable pub take_pages : ℕ → Bitmap → ℕ × Bitmap
take_pages count b =
    let (o, b') = alloc_bits b count in
    elim o [ none ↦ (0, b') | some i ↦ (if ltb 0 i then i * page_size % 2 ^ 32 else 0, b') ]

unfoldable pub give_pages : ℕ → ℕ → Bitmap → Unit {0} × Bitmap
give_pages addr count b = (tt, free_bits b addr count)

unfoldable pub alloc_pages : ℕ → Guarded Bitmap → Outcome ℕ Bitmap
alloc_pages count = with_lock (take_pages count)

unfoldable pub free_pages : ℕ → ℕ → Guarded Bitmap → Outcome (Unit {0}) Bitmap
free_pages addr count = with_lock (give_pages addr count)

-- The mutex is set up with its queue at this address.
unfoldable pub page_init : Kernel → Addr → Bytes → MemLayout → List MemLayout → Guarded Bitmap
page_init k queue m l ls =
    let (k', mutex') = mutex_init k queue in
    record { kernel = k'; mutex = mutex'; inner = bitmap_init m l ls }

-- Memory and the pages in use.
pub record Paging : Type 0 where
  pub words : ℕ → ℕ
  pub pages : Guarded Bitmap

-- A run that ends with a value, or waits for the mutex of the pages.
pub data Run (A : Type 0) : Type 0 where
  ok : A → Paging → Run A
  waits : Paging → Run A

abbrev pub Cmd : Type 0 → Type 0
Cmd A = Paging → Run A

abbrev pub pure : {A : Type 0} → A → Cmd A
pure a s = ok a s

infixl 5 ◌>>=◌ ◌>>◌
abbrev pub ◌>>=◌ : {A B : Type 0} → Cmd A → (A → Cmd B) → Cmd B
◌>>=◌ m f s = elim (m s) [ ok a s' ↦ f a s' | waits s' ↦ waits s' ]

abbrev pub ◌>>◌ : {A B : Type 0} → Cmd A → Cmd B → Cmd B
m >> n = m >>= λ _. n

abbrev pub lift : {A : Type 0} → (Guarded Bitmap → Outcome A Bitmap) → Cmd A
lift f s = elim (f s.pages) [
  | done a g ↦ ok a (record s { pages = g })
  | blocked g ↦ waits (record s { pages = g })
]

abbrev pub read : ℕ → Cmd ℕ
read a s = ok (s.words a) s

abbrev pub write : ℕ → ℕ → Cmd (Unit {0})
write a v s = ok tt (record s { words = update s.words a v })

unfoldable pub new_page : Cmd ℕ
unfolding alloc_pages
new_page = lift (alloc_pages 1)

unfoldable pub drop_page : ℕ → Cmd (Unit {0})
unfolding free_pages
drop_page addr = lift (free_pages addr 1)

abbrev pub pde_index : ℕ → ℕ
pde_index addr = addr / 2 ^ 22

abbrev pub pte_index : ℕ → ℕ
pte_index addr = addr / 2 ^ 12 % 1024

abbrev pub align_down : ℕ → ℕ
align_down a = a / page_size * page_size

-- `(size + PAGE_SIZE - 1) / PAGE_SIZE`
abbrev pub page_count : ℕ → ℕ
page_count size = add32 size (page_size - 1) / page_size

-- Present, writable, for users, accessed, copy on write.
abbrev pub page_shared : ℕ
page_shared = 551

-- `page | PAGE_SHARED`; the flags lie in the low 12 bits.
abbrev pub or_shared : ℕ → ℕ
or_shared page = align_down page + bit_or (page % page_size) page_shared

abbrev pub present : ℕ → Bool
present v = v % 2 == 1

abbrev pub dirty : ℕ → Bool
dirty v = v / 2 ^ 6 % 2 == 1

-- The loop of `alloc_vpages` over the entries from `pte` on, on its rounds; `false` is -ENOMEM.
unfoldable pub map_loop : ℕ → ℕ → Cmd Bool
map_loop zero pte = pure true
map_loop (suc n) pte = do
  pg ← new_page
  elim (pg == 0) [ true ↦ pure false | false ↦ write pte (or_shared pg) >> map_loop n (pte + 4) ]

-- `do … while (--count)` starts a whole turn of the counter at 0.
abbrev pub map_rounds : ℕ → ℕ
map_rounds count = if count == 0 then 2 ^ 32 else count

-- The page table of a directory entry, made if the entry is 0; 0 if there is no page for it.
unfoldable pub page_table : ℕ → Cmd ℕ
unfolding new_page
page_table entry = do
  page ← read entry
  elim (page == 0) [
    | false ↦ pure page
    | true ↦ do
      fresh ← new_page
      elim (fresh == 0) [ true ↦ pure 0 | false ↦ write entry (or_shared fresh) >> pure fresh ]
  ]

unfoldable pub alloc_vpages : ℕ → ℕ → ℕ → Cmd Bool
unfolding page_table map_loop
alloc_vpages pde addr size = do
  page ← page_table (pde + pde_index addr * 4)
  elim (page == 0) [
    | true ↦ pure false
    | false ↦ do
      old ← read (align_down page + pte_index addr * 4)
      elim (present old && not (dirty old)) [
        | true ↦ pure true
        | false ↦ map_loop (map_rounds (page_count size)) (align_down page + pte_index addr * 4)
      ]
  ]

-- The loop of `free_vpages`: `do … while (count--)` tests the count before it falls.
unfoldable pub unmap_loop : ℕ → ℕ → Cmd (Unit {0})
unfolding drop_page
unmap_loop zero pte = do v ← read pte; drop_page (align_down v); write pte 0
unmap_loop (suc n) pte = do
  v ← read pte
  drop_page (align_down v)
  write pte 0
  unmap_loop n (pte + 4)

-- The check for an empty table looks at entry 0 in each round, and the directory's entry 0 is
-- cleared.
unfoldable pub free_vpages : ℕ → ℕ → ℕ → Cmd (Unit {0})
unfolding unmap_loop drop_page
free_vpages pde addr size = do
  page ← read (pde + pde_index addr * 4)
  elim (present page) [
    | false ↦ pure tt
    | true ↦ do
      unmap_loop (page_count size) (align_down page + pte_index addr * 4)
      first ← read (align_down page)
      elim (first == 0) [ false ↦ pure tt | true ↦ write pde 0 >> drop_page (align_down page) ]
  ]

-- `trans_vtop` of source/kernel/task.c.
unfoldable pub trans_vtop : ℕ → ℕ → (ℕ → ℕ) → ℕ
trans_vtop pde vaddr words =
    let page = words (pde + pde_index vaddr * 4) in
    if page == 0
    then 0
    else align_down (words (align_down page + pte_index vaddr * 4)) + vaddr % page_size
