-- ===== src/UserCopy/Places.antt =====
-- Where trans_vtop finds a user's byte.
use mango_os.Base.{ℕ, ◌+◌, ◌-◌, ◌*◌, ◌%◌, ◌<◌, ◌≡◌, ◌≢◌, refl, false, ◌==◌, arith}
use mango_os.Bitmap.{page_size}
use mango_os.Page.{trans_vtop, pde_index, pte_index, align_down}
use mango_os.Strings.{word, Memory}

-- The address of the entry for `vaddr` in the directory, and in the table that it names.
abbrev pub pde_at : ℕ → ℕ → ℕ
pde_at pde vaddr = pde + pde_index vaddr * 4

abbrev pub pte_at : ℕ → ℕ → Memory → ℕ
pte_at pde vaddr m = align_down (word m (pde_at pde vaddr)) + pte_index vaddr * 4

-- An address is translated to the same place if neither entry has changed.
pub trans_vtop-same :
    (m m' : Memory) (pde vaddr : ℕ)
    → word m' (pde_at pde vaddr) ≡ word m (pde_at pde vaddr)
    → word m' (pte_at pde vaddr m) ≡ word m (pte_at pde vaddr m)
    → trans_vtop pde vaddr (word m') ≡ trans_vtop pde vaddr (word m)
unfolding trans_vtop
trans_vtop-same m m' pde vaddr e f = rw (e, f) refl

-- Bytes of one page stand side by side in memory.
pub trans_vtop-page :
    (words : ℕ → ℕ) (pde vaddr j : ℕ)
    → words (pde_at pde vaddr) ≢ 0
    → j < page_size - vaddr % page_size
    → trans_vtop pde (vaddr + j) words ≡ trans_vtop pde vaddr words + j
unfolding trans_vtop
trans_vtop-page words pde vaddr j ne l =
    let e : pde_index (vaddr + j) ≡ pde_index vaddr = omega arith in
    let f : pte_index (vaddr + j) ≡ pte_index vaddr = omega arith in
    let g : (vaddr + j) % page_size ≡ vaddr % page_size + j = omega arith in
    let z : (words (pde_at pde vaddr) == 0) ≡ false = ground arith in rw (e, f, g, z) (omega arith)
