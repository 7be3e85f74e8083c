-- ===== src/Task/Files.antt =====
-- File descriptors.
use mango_os.Base.{
  ℕ, zero, suc, ◌<◌, ◌≡◌, ◌≢◌, refl, sym, ap, inl, inr, Bool, true, false, Option, none, some, [],
  ◌∷◌, ◌==◌, get_elem?, set, length, find_index, find_index-some, find_from-none, passes, arith,
  Option-cases, get_elem?-set_self, get_elem?-set_ne,
}
use mathlib.Core.Path.{subst}
use mango_os.Queue.{Addr}
use mango_os.Task.{FileTable, task_alloc_fd, task_free_fd, task_open_max_files}

abbrev is_null : Addr → Bool
is_null p = p == 0

-- What `task_alloc_fd` promises.
abbrev pub Descriptor : Addr → FileTable → Option ℕ × FileTable → Type 0
Descriptor file t (none, t') = (t' ≡ t) × ((n : ℕ) → get_elem? t n ≢ some 0)
Descriptor file t (some i, t') =
    (i < length t)
    × (get_elem? t i ≡ some 0)
    × ((n : ℕ) → n < i → get_elem? t n ≢ some 0)
    × (get_elem? t' i ≡ some file)
    × ((n : ℕ) → i ≢ n → get_elem? t' n ≡ get_elem? t n)

alloc_fd-none :
    (file : Addr) (t : FileTable) → find_index is_null t ≡ none → task_alloc_fd file t ≡ (none, t)
unfolding task_alloc_fd
alloc_fd-none file t e = rw (e, task_alloc_fd)

alloc_fd-some :
    (file : Addr) (t : FileTable) (i : ℕ)
    → find_index is_null t ≡ some i
    → task_alloc_fd file t ≡ (some i, set t i file)
unfolding task_alloc_fd
alloc_fd-some file t i e = rw (e, task_alloc_fd)

null_at : (t : FileTable) (n : ℕ) → passes is_null (get_elem? t n) ≡ true → get_elem? t n ≡ some 0
null_at t n h = ground arith

not_null_at :
    (t : FileTable) (n : ℕ) → passes is_null (get_elem? t n) ≡ false → get_elem? t n ≢ some 0
not_null_at t n h e = ground arith

-- `task_alloc_fd` stores the file under the lowest descriptor that is not in use, and fails only if
-- all are.
pub task_alloc_fd-Descriptor :
    (file : Addr) (t : FileTable) → Descriptor file t (task_alloc_fd file t)
task_alloc_fd-Descriptor file t = elim (Option-cases (find_index is_null t)) [
  | inl e ↦
      subst (Descriptor file t) (sym (alloc_fd-none file t e))
        (refl, λ n. not_null_at t n (find_from-none is_null t 0 e n))
  | inr (i, e) ↦
      let (a, b, c) = find_index-some is_null t i e in
      subst (Descriptor file t) (sym (alloc_fd-some file t i e)) (
        a,
        null_at t i b,
        λ n l. not_null_at t n (c n l),
        get_elem?-set_self t i file a,
        λ n ne. get_elem?-set_ne t i n file ne,
      )
]

set-set : (t : FileTable) (i : ℕ) (a b : Addr) → get_elem? t i ≡ some b → set (set t i a) i b ≡ t
set-set [] i a b e = refl
set-set (x ∷ xs) zero a b e = ground arith
set-set (x ∷ xs) (suc i) a b e = ap (λ ys. x ∷ ys) (set-set xs i a b e)

-- Giving a new descriptor back restores the table.
pub free_fd-alloc_fd :
    (file : Addr) (t : FileTable) (i : ℕ)
    → length t ≡ task_open_max_files
    → (task_alloc_fd file t).0 ≡ some i
    → task_free_fd i (task_alloc_fd file t).1 ≡ t
unfolding task_free_fd
free_fd-alloc_fd file t i len e = elim (Option-cases (find_index is_null t)) [
  | inl f ↦ absurd (ground (arith, alloc_fd-none file t f))
  | inr (j, f) ↦
      let (a, b, c) = find_index-some is_null t j f in
      ground (arith, alloc_fd-some file t j f, set-set t j file 0 (null_at t j b), a, len)
]
