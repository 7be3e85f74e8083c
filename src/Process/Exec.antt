-- ===== src/Process/Exec.antt =====
-- copy_args_envs and sys_execve of source/kernel/task.c. The pointers to texts lie in the arrays
-- `table_arg` and `table_env` on the stack, functions of the index here: what lies behind an array's
-- end is part of the function. `argc_at` is where the variable `argc` lies. The pointers that are
-- passed lead to memory that is mapped to itself, as the kernel's is.
pub mod Arguments
use mango_os.Base.{
  ℕ, zero, suc, ◌+◌, ◌*◌, ◌^◌, ◌-◌, true, false, Option, none, some, ◌==◌, ltb, if◌then◌else◌,
  update, sub32, inc32, minus_one,
}
use mango_os.Strings.{Memory, kstrlen, kstrcpy, kstrrchr}
use mango_os.UserCopy.{copy_to_user_n}
use mango_os.Page.{alloc_vpages}
use mango_os.Page.Directory.{create_pde, destroy_pde}
use mango_os.Process.{
  Procs, Cmd, stuck, pure, ◌>>=◌, ◌>>◌, gets, modify, load, store, fueled, on_pages, set_kernel,
  name_of,
}
use mango_os.Process.Load.{FileCalls, load_elf_file}

-- `USER_STACK_SIZE`
abbrev pub user_stack_size : ℕ
user_stack_size = 500 * 4096

-- A text or a number that is looked for in memory.
abbrev pub ask : {X : Type 0} → (Memory → Option ℕ) → Cmd X ℕ
ask f = fueled (λ m. elim (f m) [ none ↦ none | some a ↦ some (a, m) ])

module _ {X : Type 0} where
  -- `copy_to_user_n`, whose answer the callers drop; one more fuel than bytes is given.
  unfoldable pub give_user : ℕ → ℕ → ℕ → ℕ → Cmd X (Unit {0})
  unfolding copy_to_user_n
  give_user pde to from size = fueled (λ m. elim (copy_to_user_n (suc size) pde to from size m) [
    | none ↦ none
    | some (answer, m') ↦ some (tt, m')
  ])

  -- The texts of a list that ends with `NULL` go onto the user's stack: their number, the top of the
  -- stack and where they lie.
  unfoldable pub push_texts : ℕ → ℕ → ℕ → ℕ → ℕ → (ℕ → ℕ) → Cmd X (ℕ × ℕ × (ℕ → ℕ))
  unfolding kstrlen give_user
  push_texts zero pde texts i top table = λ s. stuck
  push_texts (suc n) pde texts i top table = load (texts + 4 * i) >>= λ text. elim (text == 0) [
    | true ↦ pure (i, top, update table i 0)
    | false ↦ do
      len ← ask (λ m. kstrlen (suc n) m text)
      give_user pde (sub32 top (len + 1)) text (len + 1)
      push_texts n pde texts (i + 1) (sub32 top (len + 1)) (update table i (sub32 top (len + 1)))
  ]

  -- `for (int i=0; i<=c; c++)`: the counter that is stepped is the bound, an `int`.
  unfoldable pub push_table : ℕ → ℕ → ℕ → (ℕ → ℕ) → ℕ → Cmd X (ℕ × ℕ)
  unfolding give_user
  push_table zero pde c table top = λ s. stuck
  push_table (suc n) pde c table top = elim (ltb c (2 ^ 31)) [
    | false ↦ pure (c, top)
    | true ↦ do
      give_user pde (sub32 top 4) (table c) 4
      push_table n pde (inc32 c) table (sub32 top 4)
  ]

  -- `copy_to_user_n(new_pde, stack_top, &argc, sizeof(uint))`
  abbrev pub push_argc : ℕ → ℕ → ℕ → ℕ → Cmd X ℕ
  push_argc pde argc_at argc top = do
    store argc_at argc
    give_user pde (sub32 top 4) argc_at 4
    pure (sub32 top 4)

  unfoldable pub copy_args_envs : ℕ → ℕ → (ℕ → ℕ) → (ℕ → ℕ) → ℕ → ℕ → ℕ → Cmd X ℕ
  unfolding push_texts push_table
  copy_args_envs fuel argc_at table_arg table_env pde argv env = elim (argv == 0) [
    | true ↦ push_argc pde argc_at 0 minus_one
    | false ↦ do
      args ← push_texts fuel pde argv 0 minus_one table_arg
      envs ← push_texts fuel pde env 0 args.1 table_env
      e ← push_table fuel pde envs.0 envs.2 envs.1
      a ← push_table fuel pde args.0 args.2 e.1
      push_argc pde argc_at a.0 a.1
  ]

-- Where the local variables of a call lie.
pub record Locals : Type 0 where
  pub head : ℕ
  pub p_head : ℕ
  pub argc_at : ℕ
  pub table_arg : ℕ → ℕ
  pub table_env : ℕ → ℕ

module _ {X : Type 0} (calls : FileCalls X) where
  -- `GET_FILENAME(name)`
  abbrev pub file_name : ℕ → ℕ → Memory → Option ℕ
  file_name fuel name m = elim (kstrrchr fuel m name 47) [
    | none ↦ none
    | some p ↦ some (if p == 0 then name else p + 1)
  ]

  -- The current task goes on in the new directory.
  abbrev pub enter : ℕ → ℕ → ℕ → Procs X → Procs X
  enter dir entry top s =
      let k = s.pages.kernel in
      let t = k.current in
      record (set_kernel s (record k { cr3 = update k.cr3 t dir; cr3_register = dir })) {
        tss = update s.tss t (record (s.tss t) { eip = entry; esp = top });
      }

  -- `sys_execve` behind the loading of the program. The answer of `alloc_vpages` is tested.
  unfoldable pub replace_image : ℕ → Locals → ℕ → ℕ → ℕ → ℕ → ℕ → Cmd X ℕ
  unfolding on_pages copy_args_envs
  replace_image fuel l old dir entry argv env = do
    given ← on_pages (alloc_vpages dir (minus_one - user_stack_size) (user_stack_size + 4096))
    elim given [
      | false ↦ on_pages (destroy_pde dir) >> pure minus_one
      | true ↦ do
        top ← copy_args_envs fuel l.argc_at l.table_arg l.table_env dir argv env
        on_pages (destroy_pde old)
        modify (enter dir entry top)
        pure 0
    ]

  -- `n_page_dir`, `entry` and `stack_top` are unsigned: `<= 0` is a test for 0, and `< 0` never holds.
  unfoldable pub sys_execve : ℕ → Locals → ℕ → ℕ → ℕ → Cmd X ℕ
  unfolding kstrcpy kstrrchr on_pages load_elf_file replace_image
  sys_execve fuel l name argv env = do
    task ← gets (λ s. s.pages.kernel.current)
    last ← ask (file_name fuel name)
    fueled
        (λ m. elim (kstrcpy fuel m (name_of task) last) [ none ↦ none | some m' ↦ some (tt, m') ])
    old ← gets (λ s. s.pages.kernel.cr3 task)
    dir ← on_pages create_pde
    elim (dir == 0) [
      | true ↦ pure minus_one
      | false ↦ do
        entry ← load_elf_file calls fuel name l.head l.p_head dir
        elim (entry == 0) [
          | true ↦ on_pages (destroy_pde dir) >> pure minus_one
          | false ↦ replace_image fuel l old dir entry argv env
        ]
    ]
