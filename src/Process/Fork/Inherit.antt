-- ===== src/Process/Fork/Inherit.antt =====
-- The descriptors of a forked task.
use mango_os.Base.{
  ℕ, zero, suc, ◌+◌, ◌-◌, ◌<◌, ◌≤◌, ◌≡◌, ◌≢◌, refl, ap, ◌∙◌, true, false, ◌==◌, leb, ltb, ◌&&◌, not,
  if◌then◌else◌, arith, Bool-cases, inl, inr, get_or, set, length, length-set, List, [], ◌∷◌,
}
use mango_os.Queue.{Addr}
use mango_os.Ipc.Guarded.{IsFree, with_lock-IsFree}
use mango_os.File
use mango_os.File.{retain}
use mango_os.Task.{task_open_max_files}
use mango_os.Process.{Procs, ok}
use mango_os.Process.Fork.{OpenFiles, inc_ref, set_descriptor, inherit_loop, copy_open_files}

-- The mutex of the table of files is free.
abbrev pub FilesFree : Procs OpenFiles → Type 0
FilesFree s =
    IsFree {S = File.FileTable}
      (record { kernel = s.pages.kernel; mutex = s.files.mutex; inner = s.files.table })

-- The table of files with one more holder of a file.
abbrev pub held_again : OpenFiles → ℕ → OpenFiles
held_again f file = record f { table = (retain (file - 1) f.table).1 }

inc_ref-free :
    (file : ℕ) (s : Procs OpenFiles)
    → FilesFree s
    → inc_ref file s ≡ ok tt (record s { files = held_again s.files file })
unfolding inc_ref
inc_ref-free file s f = ground (
  arith,
  with_lock-IsFree (retain (file - 1))
      (record { kernel = s.pages.kernel; mutex = s.files.mutex; inner = s.files.table }) f,
)

get_or-set :
    (l : List ℕ) (i j v : ℕ)
    → i < length l
    → get_or (set l i v) j 0 ≡ (if j == i then v else get_or l j 0)
get_or-set [] i j v h = elim h [ ]
get_or-set (x ∷ xs) zero zero v h = refl
get_or-set (x ∷ xs) zero (suc j) v h = ground arith
get_or-set (x ∷ xs) (suc i) zero v h = ground arith
get_or-set (x ∷ xs) (suc i) (suc j) v h = get_or-set xs i j v (omega arith) ∙ ground arith

-- The descriptor of the child in terms of the lists before: the parent's, if it is one of those that
-- are passed on and is used.
abbrev pub passed_on : List ℕ → List ℕ → ℕ → ℕ → ℕ → ℕ
passed_on p c n i j =
    if leb i j && ltb j (i + n) && not (get_or p j 0 == 0) then get_or p j 0 else get_or c j 0

at_entry : (p : List ℕ) (i j : ℕ) → j ≡ i → get_or p j 0 ≡ get_or p i 0
at_entry p i j h = ap (λ x. get_or p x 0) h

passed_on-skip :
    (p c : List ℕ) (n i j : ℕ)
    → (get_or p i 0 == 0) ≡ true
    → passed_on p c n (i + 1) j ≡ passed_on p c (suc n) i j
passed_on-skip p c n i j e = ground (arith, at_entry p i j)

passed_on-set :
    (p c : List ℕ) (n i j : ℕ)
    → (get_or p i 0 == 0) ≡ false
    → i < length c
    → passed_on p (set c i (get_or p i 0)) n (i + 1) j ≡ passed_on p c (suc n) i j
passed_on-set p c n i j e l = ground (arith, at_entry p i j, get_or-set c i j (get_or p i 0) l)

-- After the descriptors from `i` to `i + n - 1` have been passed on.
pub record Inherited (s : Procs OpenFiles) (f : OpenFiles) (n i : ℕ) (parent child : Addr)
    : Type 0 where
  pub same_mutex : f.mutex ≡ s.files.mutex
  pub others : (t : Addr) → t ≢ child → f.descriptors t ≡ s.files.descriptors t
  pub count : length (f.descriptors child) ≡ length (s.files.descriptors child)
  pub entries :
      (j : ℕ)
      → get_or (f.descriptors child) j 0
        ≡ passed_on (s.files.descriptors parent) (s.files.descriptors child) n i j

inherit_loop-Inherited :
    (n i : ℕ) (parent child : Addr) (s : Procs OpenFiles)
    → FilesFree s
    → parent ≢ child
    → i + n ≤ length (s.files.descriptors child)
    → (f : OpenFiles) × (inherit_loop n i parent child s ≡ ok tt (record s { files = f }))
      × Inherited s f n i parent child
unfolding inherit_loop
inherit_loop-Inherited zero i parent child s free ne fits = (
  s.files,
  refl,
  record { same_mutex = refl; others = λ t h. refl; count = refl; entries = λ j. ground arith },
)
inherit_loop-Inherited (suc n) i parent child s free ne fits =
    let file = get_or (s.files.descriptors parent) i 0 in
    elim (Bool-cases (file == 0)) [
      | inl e ↦
          let (f, h, k) = inherit_loop-Inherited n (i + 1) parent child s free ne (omega arith) in
          (
            f,
            ground (arith, e, h),
            record {
              same_mutex = k.same_mutex;
              others = k.others;
              count = k.count;
              entries = λ j. k.entries j ∙ passed_on-skip _ _ n i j e;
            },
          )
      | inr e ↦
          let t = set_descriptor child i file (record s { files = held_again s.files file }) in
          let changed : t.files.descriptors child ≡ set (s.files.descriptors child) i file =
            ground arith in
          let kept : t.files.descriptors parent ≡ s.files.descriptors parent = ground arith in
          let len : length (t.files.descriptors child) ≡ length (s.files.descriptors child) =
            ap length changed ∙ length-set (s.files.descriptors child) i file in
          let (f, h, k) =
            inherit_loop-Inherited n (i + 1) parent child t free ne ((omega (arith, len))) in
          (
            f,
            ground (arith, e, inc_ref-free file s free, h),
            record {
              same_mutex = k.same_mutex;
              others = λ x y. k.others x y ∙ ground arith;
              count = k.count ∙ len;
              entries = λ j.
                  k.entries j
                  ∙ ap (λ l. passed_on l (t.files.descriptors child) n (i + 1) j) kept
                  ∙ ap (λ l. passed_on (s.files.descriptors parent) l n (i + 1) j) changed
                  ∙ passed_on-set _ _ n i j e (omega arith);
            },
          )
    ]

-- With the mutex of the files free `copy_open_files` ends. Each descriptor that the parent uses is the
-- child's as well; where the parent uses none, the child keeps whatever its new memory held. No other
-- task's descriptors change.
pub copy_open_files-Inherited :
    (child : Addr) (s : Procs OpenFiles)
    → FilesFree s
    → s.pages.kernel.current ≢ child
    → length (s.files.descriptors child) ≡ task_open_max_files
    → (f : OpenFiles) × (copy_open_files child s ≡ ok tt (record s { files = f }))
      × Inherited s f task_open_max_files 0 s.pages.kernel.current child
unfolding copy_open_files
copy_open_files-Inherited child s free ne len =
    inherit_loop-Inherited task_open_max_files 0 s.pages.kernel.current child s free ne
      (omega arith)
