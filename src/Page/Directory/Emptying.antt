-- ===== src/Page/Directory/Emptying.antt =====
-- What `destroy_pde` leaves: it frees pages and writes zeros.
use mango_os.Base.{
  ℕ, zero, suc, ◌+◌, ◌-◌, ◌*◌, ◌<◌, ◌≤◌, ◌≡◌, ◌⊎◌, inl, inr, refl, ap, ◌∙◌, Bool, true, false,
  update, arith, Bool-cases,
}
use mango_os.Ipc.Guarded.{IsFree, with_lock-IsFree}
use mango_os.Page.{
  Paging, ok, Cmd, pure, ◌>>=◌, ◌>>◌, read, write, drop_page, free_pages, give_pages, align_down,
  present,
}
use mango_os.Page.Directory.{user_start, free_entries, free_table, free_tables, destroy_pde}

-- Every word is as before or 0.
abbrev pub Zeroed : (ℕ → ℕ) → (ℕ → ℕ) → Type 0
Zeroed w w' = (a : ℕ) → (w' a ≡ w a) ⊎ (w' a ≡ 0)

-- A run that ends, leaves the mutex of the pages free and only writes zeros.
pub record Zeroes (m : Cmd (Unit {0})) (s : Paging) : Type 0 where
  pub final : Paging
  pub ends : m s ≡ ok tt final
  pub free : IsFree final.pages
  pub zeroed : Zeroed s.words final.words

pure-Zeroes : (s : Paging) → IsFree s.pages → Zeroes (pure tt) s
pure-Zeroes s f = record { final = s; ends = refl; free = f; zeroed = λ a. inl refl }

then-ends :
    (m n : Cmd (Unit {0})) (s t u : Paging) → m s ≡ ok tt t → n t ≡ ok tt u → (m >> n) s ≡ ok tt u
then-ends m n s t u e f = ground (arith, e, f)

Zeroed-trans : (u v w : ℕ → ℕ) → Zeroed u v → Zeroed v w → Zeroed u w
Zeroed-trans u v w f g a = ground (arith, f a, g a)

then-Zeroes :
    (m n : Cmd (Unit {0})) (s : Paging) (r : Zeroes m s) → Zeroes n r.final → Zeroes (m >> n) s
then-Zeroes m n s r q = record {
  final = q.final;
  ends = ground (arith, r.ends, q.ends);
  free = q.free;
  zeroed = λ a. ground (arith, r.zeroed a, q.zeroed a);
}

write-Zeroes : (a : ℕ) (s : Paging) → IsFree s.pages → Zeroes (write a 0) s
write-Zeroes a s f = record {
  final = record s { words = update s.words a 0 };
  ends = refl;
  free = f;
  zeroed = λ b. ground arith;
}

drop_page-Zeroes : (a : ℕ) (s : Paging) → IsFree s.pages → Zeroes (drop_page a) s
unfolding drop_page free_pages
drop_page-Zeroes a s f =
    let g = record s.pages { inner = (give_pages a 1 s.pages.inner).1 } in
    record {
      final = record s { pages = g };
      ends = ground (arith, with_lock-IsFree (give_pages a 1) s.pages f);
      free = f;
      zeroed = λ b. inl refl;
    }

free_entries-Zeroes : (n pte : ℕ) (s : Paging) → IsFree s.pages → Zeroes (free_entries n pte) s
unfolding free_entries
free_entries-Zeroes zero pte s f = pure-Zeroes s f
free_entries-Zeroes (suc n) pte s f = elim (Bool-cases (present (s.words pte))) [
  | inl e ↦
      let d = drop_page-Zeroes (align_down (s.words pte)) s f in
      let w = write-Zeroes pte d.final d.free in
      let rest = free_entries-Zeroes n (pte + 4) w.final w.free in
      let all =
        then-Zeroes (drop_page (align_down (s.words pte))) (write pte 0 >> free_entries n (pte + 4))
          s d (then-Zeroes (write pte 0) (free_entries n (pte + 4)) d.final w rest) in
      record {
        final = all.final;
        ends = ground (arith, all.ends);
        free = all.free;
        zeroed = all.zeroed;
      }
  | inr e ↦
      let rest = free_entries-Zeroes n (pte + 4) s f in
      record {
        final = rest.final;
        ends = ground (arith, rest.ends);
        free = rest.free;
        zeroed = rest.zeroed;
      }
]

-- The end of `free_table`.
abbrev release_table : ℕ → Cmd (Unit {0})
release_table entry = read entry >>= λ v. drop_page (align_down v) >> write entry 0

release_table-Zeroes :
    (entry : ℕ) (s : Paging)
    → IsFree s.pages
    → (r : Zeroes (release_table entry) s) × (r.final.words entry ≡ 0)
release_table-Zeroes entry s f =
    let d = drop_page-Zeroes (align_down (s.words entry)) s f in
    let w = write-Zeroes entry d.final d.free in
    (
      record {
        final = w.final;
        ends =
            then-ends (drop_page (align_down (s.words entry))) (write entry 0) s d.final w.final
              d.ends w.ends;
        free = w.free;
        zeroed = Zeroed-trans s.words d.final.words w.final.words d.zeroed w.zeroed;
      },
      ground arith,
    )

-- After its table is freed, the entry is 0.
free_table-Zeroes :
    (entry : ℕ) (s : Paging)
    → IsFree s.pages
    → (r : Zeroes (free_table entry) s) × (r.final.words entry ≡ 0)
unfolding free_table
free_table-Zeroes entry s f =
    let t = free_entries-Zeroes 1024 (align_down (s.words entry)) s f in
    let (r, z) = release_table-Zeroes entry t.final t.free in
    (
      record {
        final = r.final;
        ends =
            then-ends (free_entries 1024 (align_down (s.words entry))) (release_table entry) s
              t.final r.final t.ends r.ends;
        free = r.free;
        zeroed = Zeroed-trans s.words t.final.words r.final.words t.zeroed r.zeroed;
      },
      z,
    )

present-Zeroed :
    (w w' : ℕ → ℕ) (a : ℕ) → Zeroed w w' → present (w a) ≡ false → present (w' a) ≡ false
present-Zeroed w w' a z e = ground (arith, z a)

abbrev choose : Bool → Cmd (Unit {0}) → Cmd (Unit {0}) → Cmd (Unit {0})
choose b m n = elim b [ false ↦ m | true ↦ n ]

free_tables-absent :
    (n entry : ℕ) (s : Paging)
    → present (s.words entry) ≡ false
    → free_tables (suc n) entry s ≡ free_tables n (entry + 4) s
unfolding free_tables
free_tables-absent n entry s e = ground (arith, e)

free_tables-present :
    (n entry : ℕ) (s : Paging)
    → present (s.words entry) ≡ true
    → free_tables (suc n) entry s ≡ (free_table entry >> free_tables n (entry + 4)) s
unfolding free_tables
free_tables-present n entry s e =
    ap (λ b. choose b (free_tables n (entry + 4)) (free_table entry >> free_tables n (entry + 4)) s)
      e

free_tables_none : (entry : ℕ) (s : Paging) → free_tables 0 entry s ≡ ok tt s
unfolding free_tables
free_tables_none entry s = refl

free_tables-Zeroes :
    (n entry : ℕ) (s : Paging)
    → IsFree s.pages
    → (r : Zeroes (free_tables n entry) s) × ((i : ℕ)
        → i < n
        → present (r.final.words (entry + 4 * i)) ≡ false)
free_tables-Zeroes zero entry s f = (
  record { final = s; ends = free_tables_none entry s; free = f; zeroed = λ a. inl refl },
  λ i l. absurd (omega arith),
)
free_tables-Zeroes (suc n) entry s f = elim (Bool-cases (present (s.words entry))) [
  | inl e ↦
      let (t, z) = free_table-Zeroes entry s f in
      let (rest, absent) = free_tables-Zeroes n (entry + 4) t.final t.free in
      (
        record {
          final = rest.final;
          ends =
              free_tables-present n entry s e
              ∙ then-ends (free_table entry) (free_tables n (entry + 4)) s t.final rest.final t.ends
                  rest.ends;
          free = rest.free;
          zeroed = Zeroed-trans s.words t.final.words rest.final.words t.zeroed rest.zeroed;
        },
        each entry n rest.final.words
            (present-Zeroed t.final.words rest.final.words entry rest.zeroed (ap present z)) absent,
      )
  | inr e ↦
      let (rest, absent) = free_tables-Zeroes n (entry + 4) s f in
      (
        record {
          final = rest.final;
          ends = free_tables-absent n entry s e ∙ rest.ends;
          free = rest.free;
          zeroed = rest.zeroed;
        },
        each entry n rest.final.words (present-Zeroed s.words rest.final.words entry rest.zeroed e)
            absent,
      )
]
  where
    each :
        (entry n : ℕ) (w : ℕ → ℕ)
        → present (w entry) ≡ false
        → ((i : ℕ) → i < n → present (w (entry + 4 + 4 * i)) ≡ false)
        → (i : ℕ) → i < suc n
        → present (w (entry + 4 * i)) ≡ false
    each entry n w e absent zero l = ap (λ a. present (w a)) (omega arith) ∙ e
    each entry n w e absent (suc i) l =
        ap (λ a. present (w a)) (omega arith) ∙ absent i (omega arith)

-- With the pages' mutex free, `destroy_pde` ends with the mutex free. None of the directory's user
-- entries is present any more, and every word of memory is as before or 0.
pub destroy_pde-Zeroes :
    (page_dir : ℕ) (s : Paging)
    → IsFree s.pages
    → (r : Zeroes (destroy_pde page_dir) s) × ((i : ℕ)
        → user_start ≤ i
        → i < 1024
        → present (r.final.words (page_dir + 4 * i)) ≡ false)
unfolding destroy_pde
destroy_pde-Zeroes page_dir s f =
    let first = page_dir + 4 * user_start in
    let (t, absent) = free_tables-Zeroes (1024 - user_start) first s f in
    let d = drop_page-Zeroes page_dir t.final t.free in
    (
      record {
        final = d.final;
        ends =
            then-ends (free_tables (1024 - user_start) first) (drop_page page_dir) s t.final d.final
              t.ends d.ends;
        free = d.free;
        zeroed = Zeroed-trans s.words t.final.words d.final.words t.zeroed d.zeroed;
      },
      λ i lo hi. present-Zeroed t.final.words d.final.words (page_dir + 4 * i) d.zeroed (
          ap (λ a. present (t.final.words a)) (omega arith)
          ∙ absent (i - user_start) (omega arith)),
    )
