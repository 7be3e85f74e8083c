-- ===== src/Process/Start.antt =====
-- task_init of source/kernel/task.c.
pub mod Listed
use mango_os.Base.{ℕ, ◌+◌, none, some, List, [], ◌∷◌, ◌==◌, if◌then◌else◌, update, inc32, sub32}
use mango_os.Queue.{Addr, insert_tail}
use mango_os.Strings.{Memory, store_word, kstrcpy}
use mango_os.Kernel.{Kernel, created, set_state, set_links}
use mango_os.Task.{task_slice}
use mango_os.Page.Directory.{create_pde}
use mango_os.Process.{
  Procs, Cmd, ◌>>=◌, ◌>>◌, modify, fueled, on_pages, set_kernel, rq_of, q_of, name_of,
}

-- `KERNEL_SELECTOR_DS`
abbrev pub kernel_selector_ds : ℕ
kernel_selector_ds = 16

-- `*(--pesp) = v` for each value.
unfoldable pub push_all : List ℕ → ℕ → Memory → ℕ × Memory
push_all [] esp m = (esp, m)
push_all (v ∷ vs) esp m = let esp' = sub32 esp 4 in push_all vs esp' (store_word esp' v m)

-- The first stack of a task: where it starts, the registers, and the task itself.
abbrev pub first_stack : ℕ → Addr → List ℕ
first_stack entry task = entry ∷ 0 ∷ 0 ∷ 514 ∷ 0 ∷ 0 ∷ 0 ∷ 0 ∷ 0 ∷ 0 ∷ task ∷ []

-- `queue_insert_tail` into the lists of all tasks and of the ready ones.
unfoldable pub enlist : Addr → Kernel → Kernel
enlist rq k =
    let l = insert_tail k.links k.tasks (q_of rq) in set_links k (insert_tail l k.ready rq)

module _ {X : Type 0} where
  -- `task->pid = pid++`, and the slice.
  unfoldable pub number_task : Addr → Procs X → Procs X
  number_task rq s =
      let k = s.pages.kernel in
      record (set_kernel s (record k { slice = update k.slice rq task_slice })) {
        pid = update s.pid rq s.next_pid;
        next_pid = inc32 s.next_pid;
      }

  -- The stack, at the end of the two pages of the task.
  unfoldable pub set_stack : Addr → ℕ → Procs X → Procs X
  unfolding push_all
  set_stack task entry s =
      let (esp', m) = push_all (first_stack entry task) (task + 8192) s.memory in
      record s { memory = m; esp = update s.esp (rq_of task) esp' }

  -- The fields that are set behind `create_pde`, with `idle_task`.
  unfoldable pub set_fields : Addr → ℕ → ℕ → Procs X → Procs X
  set_fields rq entry dir s =
      let k = s.pages.kernel in
      let k1 = set_state (record k { cr3 = update k.cr3 rq dir }) rq created in
      let k2 = if entry == 0 then record k1 { idle_task = rq } else k1 in
      record (set_kernel s k2) {
        tss =
            update s.tss rq
              (record (s.tss rq) { esp0 = s.esp rq; ss0 = kernel_selector_ds; tss_cr3 = dir });
      }

  -- The task stands at this address; the answer, always 0, is left out.
  unfoldable pub task_init : ℕ → Addr → ℕ → ℕ → Cmd X (Unit {0})
  task_init fuel task name entry = do
    modify (number_task (rq_of task))
    fueled (λ m. elim (kstrcpy fuel m (name_of (rq_of task)) name) [
      | none ↦ none
      | some m' ↦ some (tt, m')
    ])
    modify (set_stack task entry)
    dir ← on_pages create_pde
    modify (set_fields (rq_of task) entry dir)
    modify (λ s. set_kernel s (enlist (rq_of task) s.pages.kernel))
