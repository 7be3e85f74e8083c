-- ===== src/Process.antt =====
-- source/kernel/task.c: making a task, fork and execve. The state holds the kernel, physical memory in
-- bytes, the pages behind their mutex, the heap and the fields of `task_t` that the scheduler does not
-- use. What else the calls need of the open files is a state `X`.
pub mod Ends
pub mod Space
pub mod Start
pub mod Fork
pub mod Load
pub mod Exec
pub mod Switch
use mango_os.Base.{
  ℕ, ◌+◌, ◌-◌, ◌*◌, ◌/◌, ◌%◌, ◌^◌, Bool, true, false, Option, none, some, ◌==◌, if◌then◌else◌,
  update,
}
use mango_os.Queue.{Addr}
use mango_os.Strings.{Memory, word, store_word}
use mango_os.Kernel.{Kernel}
use mango_os.Ipc.Guarded.{Guarded, Outcome, done, blocked}
use mango_os.Bitmap.{Bitmap, page_size}
use mango_os.Heap.{Heap, kmalloc}
use mango_os.Page
use mango_os.Page.{Paging, alloc_pages, free_pages}

-- The fields of `tss_t` that the code sets.
pub record Tss : Type 0 where
  pub eip : ℕ
  pub esp : ℕ
  pub esp0 : ℕ
  pub ss0 : ℕ
  pub tss_cr3 : ℕ

-- The globals of task.c and what `task_t` holds beside the fields in Kernel, by the address of the
-- task's node `rq`. `next_pid` is the counter `pid`.
pub record Procs (X : Type 0) : Type 0 where
  pub memory : Memory
  pub pages : Guarded Bitmap
  pub heap : Heap
  pub next_pid : ℕ
  pub pid : Addr → ℕ
  pub esp : Addr → ℕ
  pub tss : Addr → Tss
  pub parent : Addr → Addr
  pub files : X

-- A run ends with a value, waits for a mutex, or is stuck for want of fuel.
pub data Run (X A : Type 0) : Type 0 where
  ok : A → Procs X → Run X A
  waits : Procs X → Run X A
  stuck : Run X A

abbrev pub Cmd : Type 0 → Type 0 → Type 0
Cmd X A = Procs X → Run X A

-- A task's node `rq` and its node `q` lie at these places of the task, its name behind its pid.
abbrev pub rq_of : Addr → Addr
rq_of task = task + 68

abbrev pub q_of : Addr → Addr
q_of rq = rq - 8

abbrev pub name_of : Addr → Addr
name_of rq = rq - 60

-- The bytes of a memory of aligned words.
unfoldable pub bytes_of : (ℕ → ℕ) → Memory
bytes_of words a = words (a / 4 * 4) / 2 ^ (8 * (a % 4)) % 2 ^ 8

-- The kernel, which stands beside the mutex of the pages.
abbrev pub set_kernel : {X : Type 0} → Procs X → Kernel → Procs X
set_kernel s k = record s { pages = record (s.pages) { kernel = k } }

-- The allocator of pages behind the heap: it gives 0 and is marked when it has to wait.
unfoldable pub page_source : ℕ → Guarded Bitmap × Bool → ℕ × (Guarded Bitmap × Bool)
unfolding alloc_pages
page_source count (g, waiting) = elim (alloc_pages count g) [
  | done a g' ↦ (a, (g', waiting))
  | blocked g' ↦ (0, (g', true))
]

module _ {X : Type 0} where
  abbrev pub pure : {A : Type 0} → A → Cmd X A
  pure a s = ok a s

  infixl 5 ◌>>=◌ ◌>>◌
  abbrev pub ◌>>=◌ : {A B : Type 0} → Cmd X A → (A → Cmd X B) → Cmd X B
  ◌>>=◌ m f s = elim (m s) [ ok a s' ↦ f a s' | waits s' ↦ waits s' | stuck ↦ stuck ]

  abbrev pub ◌>>◌ : {A B : Type 0} → Cmd X A → Cmd X B → Cmd X B
  m >> n = m >>= λ _. n

  abbrev pub gets : {A : Type 0} → (Procs X → A) → Cmd X A
  gets f s = ok (f s) s

  abbrev pub modify : (Procs X → Procs X) → Cmd X (Unit {0})
  modify f s = ok tt (f s)

  abbrev pub load : ℕ → Cmd X ℕ
  load a s = ok (word s.memory a) s

  abbrev pub store : ℕ → ℕ → Cmd X (Unit {0})
  store a v s = ok tt (record s { memory = store_word a v s.memory })

  abbrev pub change_memory : (Memory → Memory) → Cmd X (Unit {0})
  change_memory f s = ok tt (record s { memory = f s.memory })

  -- A loop that may run out of fuel.
  abbrev pub fueled : {A : Type 0} → (Memory → Option (A × Memory)) → Cmd X A
  fueled f s = elim (f s.memory) [ none ↦ stuck | some (a, m) ↦ ok a (record s { memory = m }) ]

  abbrev pub lift : {A : Type 0} → (Guarded Bitmap → Outcome A Bitmap) → Cmd X A
  lift f s = elim (f s.pages) [
    | done a g ↦ ok a (record s { pages = g })
    | blocked g ↦ waits (record s { pages = g })
  ]

  unfoldable pub new_page : Cmd X ℕ
  unfolding alloc_pages
  new_page = lift (alloc_pages 1)

  unfoldable pub drop_page : ℕ → Cmd X (Unit {0})
  unfolding free_pages
  drop_page addr = lift (free_pages addr 1)

  -- A command of Page, which sees memory as aligned words.
  unfoldable pub on_pages : {A : Type 0} → Page.Cmd A → Cmd X A
  unfolding bytes_of
  on_pages m s = elim (m (record { words = word s.memory; pages = s.pages })) [
    | Page.ok a p ↦ ok a (record s { memory = bytes_of p.words; pages = p.pages })
    | Page.waits p ↦ waits (record s { memory = bytes_of p.words; pages = p.pages })
  ]

  -- `kmalloc(2 * PAGE_SIZE)`
  unfoldable pub alloc_task : ℕ → Cmd X Addr
  unfolding kmalloc page_source
  alloc_task fuel s = elim (kmalloc page_source fuel (2 * page_size) s.heap (s.pages, false)) [
    | none ↦ stuck
    | some (a, h, (g, true)) ↦ waits (record s { heap = h; pages = g })
    | some (a, h, (g, false)) ↦ ok a (record s { heap = h; pages = g })
  ]
