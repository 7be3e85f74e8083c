-- ===== src/Page/Directory/Sharing.antt =====
-- A new directory: the kernel's entries, and none for the user's memory.
use mango_os.Base.{
  ℕ, zero, suc, ◌+◌, ◌*◌, ◌/◌, ◌<◌, ◌≤◌, ◌^◌, ◌≡◌, ◌≢◌, ◌⊎◌, inl, inr, refl, true, ◌==◌, ltb,
  if◌then◌else◌, update, arith, Bool-cases,
}
use mango_os.Bitmap.{Bitmap, page_size}
use mango_os.Bitmap.Bits.{IsBytes, used}
use mango_os.Ipc.Guarded.{Guarded, done, IsFree}
use mango_os.Page.{Paging, ok, alloc_pages, new_page}
use mango_os.Page.Pages.{Given, alloc_pages-Given}
use mango_os.Page.Directory.{kernel_page_dir, user_start, clear_words, share_loop, create_pde}

clear_words_other : (n a b : ℕ) (w : ℕ → ℕ) → (b < a) ⊎ (a + 4 * n ≤ b) → clear_words n a w b ≡ w b
unfolding clear_words
clear_words_other zero a b w out = refl
clear_words_other (suc n) a b w out = ground (arith, clear_words_other n (a + 4) b (update w a 0))

share_loop_other :
    (n i pde b : ℕ) (w : ℕ → ℕ)
    → (b < pde + 4 * i) ⊎ (pde + 4 * (i + n) ≤ b)
    → share_loop n i pde w b ≡ w b
unfolding share_loop
share_loop_other zero i pde b w out = refl
share_loop_other (suc n) i pde b w out =
    let v = if ltb i user_start then w (kernel_page_dir + 4 * i) else 0 in
    let ih = share_loop_other n (i + 1) pde b (update w (pde + 4 * i) v) in ground (arith, ih)

share_loop_entry :
    (n i pde j : ℕ) (w : ℕ → ℕ)
    → (pde + page_size ≤ kernel_page_dir) ⊎ (kernel_page_dir + page_size ≤ pde)
    → i + n ≤ 1024
    → i ≤ j
    → j < i + n
    → share_loop n i pde w (pde + 4 * j)
      ≡ (if ltb j user_start then w (kernel_page_dir + 4 * j) else 0)
unfolding share_loop
share_loop_entry zero i pde j w out fits lo hi = absurd (omega arith)
share_loop_entry (suc n) i pde j w out fits lo hi =
    let v = if ltb i user_start then w (kernel_page_dir + 4 * i) else 0 in
    let w' = update w (pde + 4 * i) v in
    elim (Bool-cases (i == j)) [
      | inl e ↦ ground (arith, share_loop_other n (i + 1) pde (pde + 4 * j) w')
      | inr e ↦ ground (arith, share_loop_entry n (i + 1) pde j w' out)
    ]

-- The directory at `pde` has the kernel's entries and no others, and no other word has changed.
pub record Directory (w w' : ℕ → ℕ) (pde : ℕ) : Type 0 where
  pub kernel : (i : ℕ) → i < user_start → w' (pde + 4 * i) ≡ w (kernel_page_dir + 4 * i)
  pub user : (i : ℕ) → user_start ≤ i → i < 1024 → w' (pde + 4 * i) ≡ 0
  pub others : (a : ℕ) → (a < pde) ⊎ (pde + page_size ≤ a) → w' a ≡ w a

filled-Directory :
    (w : ℕ → ℕ) (pde : ℕ)
    → (pde + page_size ≤ kernel_page_dir) ⊎ (kernel_page_dir + page_size ≤ pde)
    → Directory w (share_loop 1024 0 pde (clear_words 1024 pde w)) pde
filled-Directory w pde out =
    let c = clear_words 1024 pde w in
    record {
      kernel = λ i l. ground (
        arith,
        share_loop_entry 1024 0 pde i c out,
        clear_words_other 1024 pde (kernel_page_dir + 4 * i) w,
      );
      user = λ i l u. ground (arith, share_loop_entry 1024 0 pde i c out);
      others =
          λ a o. ground (arith, share_loop_other 1024 0 pde a c, clear_words_other 1024 pde a w);
    }

Given-apart :
    (b b' : Bitmap) (pde : ℕ)
    → used b.base (kernel_page_dir / page_size) ≡ true
    → Given b 1 pde b'
    → (pde + page_size ≤ kernel_page_dir) ⊎ (kernel_page_dir + page_size ≤ pde)
Given-apart b b' pde k g = elim (Bool-cases (g.page == 512)) [
  | inl e ↦ absurd (ground (arith, g.were_free 512))
  | inr e ↦ ground (arith, g.address)
]

pub create_pde-taken :
    (s : Paging) (pde : ℕ) (g : Guarded Bitmap)
    → alloc_pages 1 s.pages ≡ done pde g
    → pde ≢ 0
    → create_pde s
      ≡ ok pde (record { words = share_loop 1024 0 pde (clear_words 1024 pde s.words); pages = g })
unfolding create_pde new_page
create_pde-taken s pde g e ne = ground (arith, e)

pub create_pde-fails :
    (s : Paging) (pde : ℕ) (g : Guarded Bitmap)
    → alloc_pages 1 s.pages ≡ done pde g
    → pde ≡ 0
    → create_pde s ≡ ok 0 (record s { pages = g })
unfolding create_pde new_page
create_pde-fails s pde g e z = ground (arith, e)

-- With the pages' mutex free and the page of the kernel's directory in use, `create_pde` returns 0,
-- and no word of memory has changed, or the address of a directory with exactly the kernel's
-- entries, and no other word has changed.
pub create_pde-Directory :
    (s : Paging)
    → IsFree s.pages
    → IsBytes s.pages.inner.base
    → s.pages.inner.nbits ≤ 2 ^ 20
    → used s.pages.inner.base (kernel_page_dir / page_size) ≡ true
    → (r : ℕ × Paging) × (create_pde s ≡ ok r.0 r.1)
      × (((r.0 ≡ 0) × (r.1.words ≡ s.words)) ⊎ Directory s.words r.1.words r.0)
create_pde-Directory s free bytes small k =
    let (r, e, g) = alloc_pages-Given s.pages 1 free bytes (omega arith) small in
    let after = record s.pages { inner = r.1 } in
    elim (Bool-cases (r.0 == 0)) [
      | inl z ↦ (
        (0, record s { pages = after }),
        create_pde-fails s r.0 after e (ground arith),
        inl (refl, refl),
      )
      | inr z ↦ (
        (
          r.0,
          record { words = share_loop 1024 0 r.0 (clear_words 1024 r.0 s.words); pages = after },
        ),
        create_pde-taken s r.0 after e (λ y. ground arith),
        inr (
            filled-Directory s.words r.0 (elim g [
              | inl y ↦ absurd (ground arith)
              | inr given ↦ Given-apart s.pages.inner r.1 r.0 k given
            ])),
      )
    ]
