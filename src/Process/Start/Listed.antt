-- ===== src/Process/Start/Listed.antt =====
-- A new task stands at the end of both lists.
use mango_os.Base.{
  ℕ, ◌≡◌, refl, ap, sym, ◌∙◌, false, some, List, [], ◌∷◌, ◌++◌, ◌==◌, arith, mem, mem_ne,
  mem-append, inc32, Bool-cases, inl, inr, update,
}
use mathlib.Core.Path.{subst}
use mango_os.Queue.{Addr, Links, insert_tail}
use mango_os.Queue.Ring.{Ring, Apart}
use mango_os.Queue.Insert.{insert_tail-Ring}
use mango_os.Queue.Frame.{insert_tail-Ring_other}
use mango_os.Bitmap.{Bitmap}
use mango_os.Strings.{Memory, word, kstrcpy}
use mango_os.Kernel.{Kernel, created}
use mango_os.Ipc.Guarded.{Guarded, IsFree, with_lock-IsFree}
use mango_os.Task.{task_slice}
use mango_os.Page
use mango_os.Page.{Paging, take_pages, alloc_pages}
use mango_os.Page.Directory.{create_pde}
use mango_os.Page.Directory.Sharing.{create_pde-taken, create_pde-fails}
use mango_os.Process.{Procs, ok, on_pages, set_kernel, rq_of, q_of, name_of, bytes_of}
use mango_os.Process.Start.{number_task, set_stack, set_fields, enlist, task_init}

-- With the mutex free `create_pde` ends, and the kernel is as before.
create_pde-ends :
    (s : Paging)
    → IsFree s.pages
    → (r : ℕ × Paging) × (create_pde s ≡ Page.ok r.0 r.1) × (r.1.pages.kernel ≡ s.pages.kernel)
unfolding alloc_pages
create_pde-ends s free =
    let (pde, b) = take_pages 1 s.pages.inner in
    let g = record s.pages { inner = b } in
    let e = with_lock-IsFree (take_pages 1) s.pages free in
    elim (Bool-cases (pde == 0)) [
      | inl z ↦ ((0, record s { pages = g }), create_pde-fails s pde g e (ground arith), refl)
      | inr z ↦ ((pde, _), create_pde-taken s pde g e (λ y. ground arith), refl)
    ]

module _ {X : Type 0} where
  on_pages-ends :
      (s : Procs X)
      → IsFree s.pages
      → (dir : ℕ) × (p : Paging) × (on_pages create_pde s
          ≡ ok dir (record s { memory = bytes_of p.words; pages = p.pages }))
        × (p.pages.kernel ≡ s.pages.kernel)
  unfolding on_pages
  on_pages-ends s free =
      let (r, e, k) = create_pde-ends (record { words = word s.memory; pages = s.pages }) free in
      (r.0, r.1, ground (arith, e), k)

-- The lists of all tasks and of the ready ones, which have no node in common, and a task in neither.
pub record Lists (links : Links) (all ready_head : Addr) (ys xs : List Addr) (rq : Addr)
    : Type 0 where
  pub tasks : Ring links all ys
  pub ready : Ring links ready_head xs
  pub apart : Apart (all ∷ ys) (ready_head ∷ xs)
  pub apart_too : Apart (ready_head ∷ xs) (all ∷ ys)
  pub new_task : mem (q_of rq) (all ∷ ys) ≡ false
  pub not_ready : mem (q_of rq) (ready_head ∷ xs) ≡ false
  pub new_ready : mem rq (ready_head ∷ xs) ≡ false
  pub not_task : mem rq (all ∷ ys) ≡ false
  pub two_nodes : (rq == q_of rq) ≡ false

enlist-Ring :
    (k : Kernel) (ys xs : List Addr) (rq : Addr)
    → Lists k.links k.tasks k.ready ys xs rq
    → Ring (enlist rq k).links k.tasks (ys ++ q_of rq ∷ [])
      × Ring (enlist rq k).links k.ready (xs ++ rq ∷ [])
unfolding enlist
enlist-Ring k ys xs rq l =
    let links1 = insert_tail k.links k.tasks (q_of rq) in
    let tasks1 = insert_tail-Ring k.links k.tasks (q_of rq) ys l.tasks l.new_task in
    let ready1 =
      insert_tail-Ring_other k.links k.tasks k.ready (q_of rq) ys xs l.tasks l.apart
        (ground (arith, l.new_task)) l.not_ready l.ready in
    (
      insert_tail-Ring_other links1 k.ready k.tasks rq xs (ys ++ q_of rq ∷ []) ready1 apart_now
          (ground (arith, l.new_ready)) not_task_now tasks1,
      insert_tail-Ring links1 k.ready rq xs ready1 l.new_ready,
    )
  where
    apart_now : Apart (k.ready ∷ xs) (k.tasks ∷ ys ++ q_of rq ∷ [])
    apart_now a m = ground (
      arith,
      l.apart_too a m,
      mem-append a ys (q_of rq ∷ []),
      mem_ne a (q_of rq) (k.ready ∷ xs) m l.not_ready,
    )

    not_task_now : mem rq (k.tasks ∷ ys ++ q_of rq ∷ []) ≡ false
    not_task_now = ground (arith, l.not_task, mem-append rq ys (q_of rq ∷ []), l.two_nodes)

module _ {X : Type 0} (fuel : ℕ) (task : Addr) (name entry : ℕ) (m : Memory) (s : Procs X) where
  -- The state once the name has been copied and the stack set.
  abbrev named : Procs X
  named = set_stack task entry (record (number_task (rq_of task) s) { memory = m })

  named-fields :
      (named.pages ≡ record (s.pages) {
        kernel = record (s.pages.kernel) {
          slice = update s.pages.kernel.slice (rq_of task) task_slice;
        };
      })
      × (named.pid ≡ update s.pid (rq_of task) s.next_pid)
      × (named.next_pid ≡ inc32 s.next_pid)
  unfolding set_stack number_task
  named-fields = (refl, refl, refl)

  numbered-memory : (number_task (rq_of task) s).memory ≡ s.memory
  unfolding number_task
  numbered-memory = refl

  task_init-runs :
      (dir : ℕ) (t : Procs X)
      → kstrcpy fuel s.memory (name_of (rq_of task)) name ≡ some m
      → on_pages create_pde named ≡ ok dir t
      → let u = set_fields (rq_of task) entry dir t in
        task_init fuel task name entry s ≡ ok tt (set_kernel u (enlist (rq_of task) u.pages.kernel))
  unfolding task_init
  task_init-runs dir t e f =
      ground (arith, ap (λ x. kstrcpy fuel x (name_of (rq_of task)) name) numbered-memory, e, f)

module _ {X : Type 0} (rq : Addr) (entry dir : ℕ) (t : Procs X) where
  set_fields-kernel :
      let k = (set_fields rq entry dir t).pages.kernel in
      (k.links ≡ t.pages.kernel.links)
      × (k.tasks ≡ t.pages.kernel.tasks)
      × (k.ready ≡ t.pages.kernel.ready)
      × (k.slice ≡ t.pages.kernel.slice)
      × (k.state rq ≡ created)
  unfolding set_fields
  set_fields-kernel = (ground arith, ground arith, ground arith, ground arith, ground arith)

  set_fields-pid :
      ((set_fields rq entry dir t).pid ≡ t.pid)
      × ((set_fields rq entry dir t).next_pid ≡ t.next_pid)
  unfolding set_fields
  set_fields-pid = (refl, refl)

  enlist-kernel : (k : Kernel) → ((enlist rq k).state ≡ k.state) × ((enlist rq k).slice ≡ k.slice)
  unfolding enlist
  enlist-kernel k = (refl, refl)

-- With the pages' mutex free and a name of a length that the fuel covers, `task_init` ends. The new
-- task stands at the end of the list of all tasks and at the end of the ready list, created, with the
-- next number and a whole slice.
pub task_init-Listed :
    {X : Type 0} (fuel : ℕ) (task : Addr) (name entry : ℕ) (m : Memory) (ys xs : List Addr)
    (s : Procs X)
    → let k = s.pages.kernel in
      let rq = rq_of task in
      IsFree s.pages
      → kstrcpy fuel s.memory (name_of rq) name ≡ some m
      → Lists k.links k.tasks k.ready ys xs rq
      → (s' : Procs X) × (task_init fuel task name entry s ≡ ok tt s')
        × Ring s'.pages.kernel.links k.tasks (ys ++ q_of rq ∷ [])
        × Ring s'.pages.kernel.links k.ready (xs ++ rq ∷ [])
        × (s'.pages.kernel.state rq ≡ created)
        × (s'.pages.kernel.slice rq ≡ task_slice)
        × (s'.pid rq ≡ s.next_pid)
        × (s'.next_pid ≡ inc32 s.next_pid)
task_init-Listed fuel task name entry m ys xs s free copied lists =
    let rq = rq_of task in
    let fields = named-fields fuel task name entry m s in
    let free' = subst IsFree (sym fields.0) free in
    let (dir, p, made, same) = on_pages-ends (named fuel task name entry m s) free' in
    let t = record (named fuel task name entry m s) {
      memory = bytes_of p.words;
      pages = p.pages;
    } in
    let u = set_fields rq entry dir t in
    let k3 = u.pages.kernel in
    let kernel = same ∙ ap (λ (g : Guarded Bitmap). g.kernel) fields.0 in
    let (links, all, ready_head, slice, state) = set_fields-kernel rq entry dir t in
    let to_links = links ∙ ap (λ (k' : Kernel). k'.links) kernel in
    let to_all = all ∙ ap (λ (k' : Kernel). k'.tasks) kernel in
    let to_ready = ready_head ∙ ap (λ (k' : Kernel). k'.ready) kernel in
    let lists' : Lists k3.links k3.tasks k3.ready ys xs rq =
      rw (to_links, to_all, to_ready) lists in
    let (r1, r2) = enlist-Ring k3 ys xs rq lists' in
    let (same_state, same_slice) = enlist-kernel rq entry dir t k3 in
    (
      set_kernel u (enlist rq k3),
      task_init-runs fuel task name entry m s dir t copied made,
      subst (λ h. Ring (enlist rq k3).links h (ys ++ q_of rq ∷ [])) to_all r1,
      subst (λ h. Ring (enlist rq k3).links h (xs ++ rq ∷ [])) to_ready r2,
      ap (λ f. f rq) same_state ∙ state,
      ap (λ f. f rq) (same_slice ∙ slice ∙ ap (λ (k' : Kernel). k'.slice) kernel) ∙ ground arith,
      ap (λ f. f rq) ((set_fields-pid rq entry dir t).0 ∙ fields.1) ∙ ground arith,
      (set_fields-pid rq entry dir t).1 ∙ fields.2,
    )
