-- ===== src/File/Table.antt =====
-- Claiming and releasing entries of the file table.
use mathlib.Core.Path.{subst}
use mango_os.Base.{
  ℕ, zero, suc, ◌+◌, ◌-◌, ◌<◌, ◌^◌, ◌≡◌, ◌≢◌, refl, sym, ap, ◌∙◌, inl, inr, true, false, none, some,
  [], ◌∷◌, get_or, get_elem?, set, length, find_index, find_index-some, find_from-none, passes,
  inc32, arith, Option-cases, get_elem?-set_self, get_elem?-set_ne,
}
use mango_os.Ipc.Guarded.{Guarded, done, IsFree, with_lock-IsFree}
use mango_os.File.{
  File, FileTable, unused, blank_file, max_open_files, claim, release, retain, alloc_file,
}

pub get_elem?-get_or :
    (t : FileTable) (i : ℕ) → i < length t → get_elem? t i ≡ some (get_or t i blank_file)
get_elem?-get_or [] i h = elim h [ ]
get_elem?-get_or (x ∷ xs) zero h = refl
get_elem?-get_or (x ∷ xs) (suc i) h = get_elem?-get_or xs i (omega arith)

pub get_or-set_self :
    (t : FileTable) (i : ℕ) (f : File) → i < length t → get_or (set t i f) i blank_file ≡ f
get_or-set_self [] i f h = elim h [ ]
get_or-set_self (x ∷ xs) zero f h = refl
get_or-set_self (x ∷ xs) (suc i) f h = get_or-set_self xs i f (omega arith)

set-set : (t : FileTable) (i : ℕ) (f g : File) → set (set t i f) i g ≡ set t i g
set-set [] i f g = refl
set-set (x ∷ xs) zero f g = refl
set-set (x ∷ xs) (suc i) f g = ap (λ ys. x ∷ ys) (set-set xs i f g)

set_same : (t : FileTable) (i : ℕ) → set t i (get_or t i blank_file) ≡ t
set_same [] i = refl
set_same (x ∷ xs) zero = refl
set_same (x ∷ xs) (suc i) = ap (λ ys. x ∷ ys) (set_same xs i)

-- The claim of a free entry: the lowest one, whose count goes from 0 to 1; the others stay.
pub record Claimed (t : FileTable) (r : ℕ × FileTable) : Type 0 where
  pub inside : r.0 < length t
  pub was_free : (get_or t r.0 blank_file).ref ≡ 0
  pub lowest : (n : ℕ) → n < r.0 → passes unused (get_elem? t n) ≡ false
  pub now_held : get_elem? r.1 r.0 ≡ some (record (get_or t r.0 blank_file) { ref = 1 })
  pub others : (n : ℕ) → r.0 ≢ n → get_elem? r.1 n ≡ get_elem? t n

pub claim_found : (t : FileTable) (i : ℕ) → find_index unused t ≡ some i → Claimed t (claim t)
unfolding claim
claim_found t i e =
    let (a, b, c) = find_index-some unused t i e in
    subst (Claimed t) (sym (claim_eq t i e)) (record {
      inside = a;
      was_free = ground (arith, get_elem?-get_or t i a);
      lowest = c;
      now_held = get_elem?-set_self t i (record (get_or t i blank_file) { ref = 1 }) a;
      others = λ n ne. get_elem?-set_ne t i n (record (get_or t i blank_file) { ref = 1 }) ne;
    })
  where
    claim_eq :
        (t : FileTable) (i : ℕ)
        → find_index unused t ≡ some i
        → claim t ≡ (i, set t i (record (get_or t i blank_file) { ref = 1 }))
    claim_eq t i e = rw (e, claim)

-- With all entries in use `claim` hands out the last one, which some caller holds, and counts nothing.
claim_full : (t : FileTable) → find_index unused t ≡ none → claim t ≡ (max_open_files - 1, t)
unfolding claim
claim_full t e = rw (e, claim)

-- `alloc_file` claims the lowest free entry if there is one.
pub alloc_file-Claimed :
    (g : Guarded FileTable) (n : ℕ)
    → IsFree g
    → passes unused (get_elem? g.inner n) ≡ true
    → (r : ℕ × FileTable) × (alloc_file g ≡ done r.0 (record g { inner = r.1 })) × Claimed g.inner r
unfolding alloc_file
alloc_file-Claimed g n free h = elim (Option-cases (find_index unused g.inner)) [
  | inl e ↦ absurd (ground (arith, find_from-none unused g.inner 0 e n))
  | inr (i, e) ↦ (claim g.inner, with_lock-IsFree claim g free, claim_found g.inner i e)
]

-- With every entry in use `alloc_file` still returns an entry, the last one, and leaves its count as
-- it is: the entry then belongs to two callers.
pub alloc_file_full :
    (g : Guarded FileTable)
    → IsFree g
    → ((n : ℕ) → passes unused (get_elem? g.inner n) ≡ false)
    → alloc_file g ≡ done (max_open_files - 1) g
unfolding alloc_file
alloc_file_full g free full = elim (Option-cases (find_index unused g.inner)) [
  | inl e ↦
      with_lock-IsFree claim g free
      ∙ ap (λ r. done r.0 (record g { inner = r.1 })) (claim_full g.inner e)
  | inr (i, e) ↦ absurd (ground (arith, full i, find_index-some unused g.inner i e))
]

-- Taking one more reference to a file in use and giving it back changes nothing.
pub release-retain :
    (t : FileTable) (i : ℕ)
    → i < length t
    → (get_or t i blank_file).ref + 1 < 2 ^ 31
    → (release i (retain i t).1).1 ≡ t
unfolding release retain
release-retain t i h small = ground (
  arith,
  get_or-set_self t i (record (get_or t i blank_file) { ref = inc32 (get_or t i blank_file).ref })
      h,
  set-set t i (record (get_or t i blank_file) { ref = inc32 (get_or t i blank_file).ref })
      (get_or t i blank_file),
  set_same t i,
)
